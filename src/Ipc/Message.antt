-- ===== src/Ipc/Message.antt =====
-- The messages that src/ipc.c prints for its clients. The index of a workspace is below nine, so `%d`
-- prints one digit of it.
use kum_de.Base.{ℕ, ◌+◌, Bool, List, [], ◌∷◌, ◌++◌, map, take, if◌then◌else◌}
use kum_de.Server.{Floats, Server, Output, workspace_count}
use kum_de.Text.{Bytes, codes}
use kum_de.Toplevel.{occupied_from}

abbrev pub print_index : ℕ → Bytes
print_index i = (b'0' + i) ∷ []

-- `ipc_broadcast_workspace`, and the loop of `ipc_send_initial_state`
unfoldable pub workspace_message : Bytes → ℕ → Bytes
workspace_message name i =
    codes "{\"event\":\"workspace\",\"output\":\""
    ++ (name ++ (codes "\",\"index\":" ++ (print_index i ++ codes "}\n")))

abbrev pub print_flag : Bool → Bytes
print_flag occupied = if occupied then b'1' ∷ [] else b'0' ∷ []

-- The loop of `build_occupancy_msg` behind its first turn.
unfoldable pub print_flags : List Bool → Bytes
print_flags [] = []
print_flags (occupied ∷ flags) = b',' ∷ (print_flag occupied ++ print_flags flags)

unfoldable pub print_ws : List Bool → Bytes
unfolding print_flags
print_ws [] = []
print_ws (occupied ∷ flags) = print_flag occupied ++ print_flags flags

-- `build_occupancy_msg`
unfoldable pub occupancy_message : List Bool → Bytes
unfolding print_ws
occupancy_message flags =
    codes "{\"event\":\"occupancy\",\"ws\":[" ++ (print_ws flags ++ codes "]}\n")

-- What a client that connects is sent; each message of a workspace is cut to its buffer.
unfoldable pub ipc_send_initial_state : {F : Floats} → Server F → List Bytes
unfolding workspace_message occupancy_message
ipc_send_initial_state s =
    map (λ (o : Output). take 127 (workspace_message o.name o.active_workspace)) s.outputs
    ++ occupancy_message (occupied_from s.toplevels workspace_count 0) ∷ []
