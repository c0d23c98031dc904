-- ===== src/Ipc.antt =====
-- src/ipc.c: the commands that clients send over the socket. The sockets themselves, and the reload
-- of the configuration, are effects.
pub mod Message
pub mod Title
use kum_de.Base.{
  ℕ, Bool, true, false, not, ◌||◌, List, [], ◌∷◌, ◌++◌, Option, none, some, leb, if◌then◌else◌,
}
use kum_de.Base.Int.{ℤ, pos, negsuc}
use kum_de.Actions.{Effect, terminate, send_close, spawn}
use kum_de.Arrange.{kum_workspace_arrange}
use kum_de.Server.{Floats, Server, floating, tile, monocle, workspace_count, kum_output_focused}
use kum_de.Text.{Bytes, codes, bytes_eq, after, scan_until, scan_int, tokens}
use kum_de.Workspace.{kum_workspace_switch, kum_workspace_move_toplevel, set_layout}

-- The texts of `ipc_reply`, each followed by a line feed in the source.
pub data Answer : Type 0 where
  ok bad_index bad_index_or_no_focus no_focused_window no_output missing_exec unknown_command :
      Answer

-- What a command does: the server, the answer, the effects, and whether the configuration is
-- reloaded.
pub record Outcome (F : Floats) : Type 0 where
  pub server : Server F
  pub answer : Answer
  pub effects : List Effect
  pub reload : Bool

-- `sscanf(msg, prefix "%<n>[^\"]", …)` into a zeroed buffer
unfoldable pub scan_string : Bytes → ℕ → Bytes → Bytes
scan_string prefix n msg = elim (after prefix msg) [
  | none ↦ []
  | some rest ↦ scan_until b'"' n rest
]

-- `int index = -1; sscanf(msg, prefix "%d}", &index);`
unfoldable pub scan_index : Bytes → Bytes → ℤ
scan_index prefix msg = elim (after prefix msg) [
  | none ↦ negsuc 0
  | some rest ↦ elim (scan_int rest) [ none ↦ negsuc 0 | some i ↦ i ]
]

-- `index >= 0 && index < KUM_WORKSPACE_COUNT`
abbrev pub valid_index : ℤ → Bool
valid_index (pos i) = not (leb workspace_count i)
valid_index (negsuc _) = false

module _ {F : Floats} where
  abbrev pub outcome : Server F → Answer → Outcome F
  outcome s a = record { server = s; answer = a; effects = []; reload = false }

  unfoldable pub command_workspace : ℤ → Server F → Outcome F
  command_workspace i s =
      if valid_index i
      then outcome (kum_workspace_switch (kum_output_focused s) i s) ok
      else outcome s bad_index

  unfoldable pub command_move_to : ℤ → Server F → Outcome F
  command_move_to i s =
      if not (valid_index i) then outcome s bad_index_or_no_focus else elim s.focused [
        | none ↦ outcome s bad_index_or_no_focus
        | some k ↦ outcome (kum_workspace_move_toplevel k i s) ok
      ]

  unfoldable pub command_close : Server F → Outcome F
  command_close s = elim s.focused [
    | none ↦ outcome s no_focused_window
    | some k ↦ record (outcome s ok) { effects = send_close k ∷ [] }
  ]

  unfoldable pub command_layout : Bytes → Server F → Outcome F
  command_layout mode s = elim (kum_output_focused s) [
    | none ↦ outcome s no_output
    | some o ↦
        let i = o.active_workspace in
        outcome
          (if bytes_eq mode (codes "tile")
            then kum_workspace_arrange o i (set_layout i tile s)
            else if bytes_eq mode (codes "monocle")
            then kum_workspace_arrange o i (set_layout i monocle s)
            else set_layout i floating s)
          ok
  ]

  unfoldable pub command_launch : Bytes → Server F → Outcome F
  command_launch [] s = outcome s missing_exec
  command_launch (c ∷ exec) s = record (outcome s ok) { effects = spawn (c ∷ exec) ∷ [] }

  unfoldable pub ipc_handle_command : Bytes → Server F → Outcome F
  unfolding command_workspace command_move_to command_close command_layout command_launch
  ipc_handle_command msg s =
      let cmd = scan_string (codes "{\"cmd\":\"") 63 msg in
      if bytes_eq cmd (codes "workspace")
      then command_workspace (scan_index (codes "{\"cmd\":\"workspace\",\"index\":") msg) s
      else if bytes_eq cmd (codes "move_to")
      then command_move_to (scan_index (codes "{\"cmd\":\"move_to\",\"index\":") msg) s
      else if bytes_eq cmd (codes "close")
      then command_close s
      else if bytes_eq cmd (codes "layout")
      then command_layout (scan_string (codes "{\"cmd\":\"layout\",\"mode\":\"") 15 msg) s
      else if bytes_eq cmd (codes "launch")
      then command_launch (scan_string (codes "{\"cmd\":\"launch\",\"exec\":\"") 255 msg) s
      else if bytes_eq cmd (codes "quit")
      then record (outcome s ok) { effects = terminate ∷ [] }
      else if bytes_eq cmd (codes "reload")
      then record (outcome s ok) { reload = true }
      else outcome s unknown_command

  -- The loop over the lines of what was received: an empty line is no command.
  unfoldable pub handle_lines : List Bytes → Server F → Server F × List Answer
  handle_lines [] s = (s, [])
  handle_lines (line ∷ lines) s =
      let o = ipc_handle_command line s in
      let rest = handle_lines lines o.server in (rest.0, o.answer ∷ rest.1)

  -- `handle_client_readable` at the bytes that were received, without a NUL
  unfoldable pub handle_client_readable : Bytes → Server F → Server F × List Answer
  unfolding handle_lines
  handle_client_readable buf s = handle_lines (tokens b'\n' [] buf) s
