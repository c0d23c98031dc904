-- ===== src/Bar/Initial.antt =====
-- What kumbar/src/main.c shows when src/ipc.c has sent it the state of the compositor.
pub mod Restart
pub mod Shown
use kum_de.Base.{
  ℕ, zero, suc, ◌+◌, ◌-◌, ◌<◌, ◌≤◌, ◌≡◌, refl, sym, ap, ◌∙◌, ◌≢◌, Bool, true, false, not, List, [],
  ◌∷◌, ◌++◌, Option, none, some, length, take, ◌==◌, if◌then◌else◌, arith, All, All-append, map,
  length-append, take-all, any, get_elem?,
}
use mathlib.Core.Path.{subst}
use mathlib.Core.List.{append_assoc, append-nil}
use kum_de.Base.Int.{ℤ, pos}
use kum_de.Bar.{
  BarOutput, Bar, ws_count, show_workspace, handle_ipc_message, cut_lines, handle_lines,
  kumbar_ipc_connect,
}
use kum_de.Bar.Messages.{
  Plain, Name, occupancy_line-line, workspace_line, workspace_line-line,
  handle_ipc_message-workspace_line, cut_lines-line, occupancy_line, show_occupancy,
  handle_ipc_message-occupancy_line,
}
use kum_de.Bar.Stream.{read_all, read_all-append, joined, Unfinished}
use kum_de.Ipc.Message.{
  workspace_message, occupancy_message, print_ws, print_flags, print_flag, ipc_send_initial_state,
}
use kum_de.Server.{Floats, Server, Output, workspace_count}
use kum_de.Text.{NoLineFeed, lacks, lead, Bytes, codes, bytes_eq, bytes_eq_iff}
use kum_de.Toplevel.{occupied_from}

workspace_message-line :
    (name : Bytes) (i : ℕ) → workspace_message name i ≡ workspace_line name i ++ b'\n' ∷ []
unfolding workspace_message
workspace_message-line name i =
    ap (λ r. codes "{\"event\":\"workspace\",\"output\":\"" ++ r)
      (sym (append_assoc name (codes "\",\"index\":" ++ ((b'0' + i) ∷ b'}' ∷ [])) (b'\n' ∷ [])))

occupancy_message-line :
    (flags : List Bool) → occupancy_message flags ≡ occupancy_line flags ++ b'\n' ∷ []
unfolding occupancy_message
occupancy_message-line flags =
    ap (λ r. codes "{\"event\":\"occupancy\",\"ws\":[" ++ r)
      (sym (append_assoc (print_ws flags) (codes "]}") (b'\n' ∷ [])))

-- A bar with nothing left in its buffer.
abbrev pub showing : List BarOutput → Bar
showing os = record { outputs = os; ipc_ibuf = [] }

read_all-line :
    (c : ℕ) (line : Bytes) (os : List BarOutput)
    → All NoLineFeed (c ∷ line)
    → read_all ((c ∷ line) ++ b'\n' ∷ []) (showing os) ≡ showing (handle_ipc_message (c ∷ line) os)
unfolding handle_lines cut_lines
read_all-line c line os a =
    ap (λ (cut : List Bytes × Bytes). record { outputs = handle_lines cut.0 os; ipc_ibuf = cut.1 })
      (cut_lines-line [] (c ∷ line) [] a)

read_all-workspace_message :
    (name : Bytes) (i : ℕ) (os : List BarOutput)
    → Name name
    → i < 10
    → read_all (workspace_message name i) (showing os) ≡ showing (show_workspace name (pos i) os)
read_all-workspace_message name i os n l =
    ap (λ m. read_all m (showing os)) (workspace_message-line name i)
    ∙ read_all-line _ _ os (workspace_line-line name i n.2 l)
    ∙ ap showing (handle_ipc_message-workspace_line name i os n l)

read_all-occupancy_message :
    (flags : List Bool) (os : List BarOutput)
    → length flags ≡ ws_count
    → All (λ o. length o.occupied_ws ≡ ws_count) os
    → read_all (occupancy_message flags) (showing os) ≡ showing (show_occupancy flags os)
read_all-occupancy_message flags os l a =
    ap (λ m. read_all m (showing os)) (occupancy_message-line flags)
    ∙ read_all-line _ _ os (occupancy_line-line flags)
    ∙ ap showing (
        handle_ipc_message-occupancy_line flags os (omega (arith, l))
          (subst (λ n. All (λ (o : BarOutput). length o.occupied_ws ≡ n) os) (sym l) a))

workspace_message-short :
    (name : Bytes) (i : ℕ)
    → Name name
    → take 127 (workspace_message name i) ≡ workspace_message name i
unfolding workspace_message
workspace_message-short name i n =
    let sum = length-append name (codes "\",\"index\":" ++ ((b'0' + i) ∷ b'}' ∷ b'\n' ∷ [])) in
    take-all 127 (workspace_message name i) (omega (arith, sum, n))

show_workspace-nine :
    (name : Bytes) (i : ℤ) (os : List BarOutput)
    → All (λ o. length o.occupied_ws ≡ ws_count) os
    → All (λ o. length o.occupied_ws ≡ ws_count) (show_workspace name i os)
unfolding show_workspace
show_workspace-nine name i [] a = tt
show_workspace-nine name i (o ∷ os) a =
    go (bytes_eq o.name name) (show_workspace-nine name i os a.1)
  where
    go :
        (b : Bool)
        → All {A = BarOutput} (λ o. length o.occupied_ws ≡ ws_count) (show_workspace name i os)
        → All {A = BarOutput}
            (λ o. length o.occupied_ws ≡ ws_count)
            (if b
              then record o { active_ws = i; dirty = true } ∷ os
              else o ∷ show_workspace name i os)
    go true rest = a
    go false rest = (a.0, rest)

-- The outputs' messages, one after another.
abbrev pub show_all : List Output → List BarOutput → List BarOutput
show_all [] os = os
show_all (o ∷ outs) os = show_all outs (show_workspace o.name (pos o.active_workspace) os)

-- An output whose name the bar reads whole, on a workspace that there is.
abbrev pub Sent : Output → Type 0
Sent o = Name o.name × (o.active_workspace < workspace_count)

pub read_all-outputs :
    (outs : List Output) (flags : List Bool) (os : List BarOutput)
    → All Sent outs
    → length flags ≡ ws_count
    → All (λ o. length o.occupied_ws ≡ ws_count) os
    → read_all
        (joined (
          map (λ (o : Output). take 127 (workspace_message o.name o.active_workspace)) outs
          ++ occupancy_message flags ∷ []))
        (showing os)
      ≡ showing (show_occupancy flags (show_all outs os))
unfolding cut_lines
read_all-outputs [] flags os s l a =
    ap (λ m. read_all m (showing os)) (append-nil (occupancy_message flags))
    ∙ read_all-occupancy_message flags os l a
read_all-outputs (o ∷ outs) flags os s l a =
    let rest = joined (
      map (λ (o : Output). take 127 (workspace_message o.name o.active_workspace)) outs
      ++ occupancy_message flags ∷ []) in
    ap (λ m. read_all (m ++ rest) (showing os))
      (workspace_message-short o.name o.active_workspace s.0.0)
    ∙ sym (read_all-append (workspace_message o.name o.active_workspace) rest (showing os) refl)
    ∙ ap (read_all rest)
        (read_all-workspace_message o.name o.active_workspace os s.0.0 (omega (arith, s)))
    ∙ read_all-outputs outs flags _ s.1 l (show_workspace-nine o.name _ os a)
