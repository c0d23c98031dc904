-- ===== src/Visible/Commands.antt =====
-- The commands of src/ipc.c keep what a switch on a known output and the windows' operations keep.
use kum_de.Base.{
  ℕ, inl, inr, Bool, true, false, not, leb, List, [], ◌∷◌, Option, none, some, if◌then◌else◌,
  Bool-cases, Option-cases,
}
use kum_de.Base.Int.{ℤ, pos, negsuc}
use kum_de.Actions.{Effect}
use kum_de.Arrange.{kum_workspace_arrange}
use kum_de.Ipc.{
  Outcome, Answer, outcome, ipc_handle_command, command_workspace, command_move_to, command_close,
  command_layout, command_launch, handle_lines, handle_client_readable, scan_string, scan_index,
  valid_index,
}
use kum_de.Server.{
  Floats, Server, Output, floating, tile, monocle, workspace_count, kum_output_focused,
}
use kum_de.Text.{Bytes, codes, bytes_eq, tokens}
use kum_de.Workspace.{kum_workspace_switch, kum_workspace_move_toplevel, set_layout}
use kum_de.Visible.Switch.{Known}
use kum_de.Visible.Kept.{Kept}
use kum_de.Visible.Keys.{kum_output_focused-Known}
use kum_de.Visible.Windows.{kum_workspace_move_toplevel-Kept, layout_arranged-Kept, set_layout-Kept}

module _ {F : Floats} (P : Server F → Type 0) (kept : (s t : Server F) → Kept s t → P s → P t)
    (switch : (o : Output) (i : ℤ) (s : Server F)
      → P s
      → Known o s
      → P (kum_workspace_switch (some o) i s)) where
  command_workspace-keeps : (i : ℤ) (s : Server F) → P s → P (command_workspace i s).server
  unfolding command_workspace kum_workspace_switch
  command_workspace-keeps i s v = elim (Bool-cases (valid_index i)) [
    | inr e ↦ rw (e, command_workspace) v
    | inl e ↦ elim (Option-cases (kum_output_focused s)) [
      | inl f ↦ rw (e, f, command_workspace) (nowhere i)
      | inr (o, f) ↦ rw (e, f, command_workspace) (switch o i s v (kum_output_focused-Known s f))
    ]
  ]
    where
      nowhere : (j : ℤ) → P (kum_workspace_switch none j s)
      nowhere (negsuc _) = v
      nowhere (pos j) = elim (Bool-cases (leb workspace_count j)) [
        | inl e ↦ rw e v
        | inr e ↦ rw e v
      ]

  command_move_to-keeps : (i : ℤ) (s : Server F) → P s → P (command_move_to i s).server
  unfolding command_move_to
  command_move_to-keeps i s v = go (not (valid_index i)) s.focused
    where
      go :
          (b : Bool) (f : Option ℕ)
          → P
              (let r : Outcome F = if b then outcome s Answer.bad_index_or_no_focus else elim f [
                | none ↦ outcome s Answer.bad_index_or_no_focus
                | some k ↦ outcome (kum_workspace_move_toplevel k i s) Answer.ok
              ] in
                r).server
      go true f = v
      go false none = v
      go false (some k) = kept s _ (kum_workspace_move_toplevel-Kept k i s) v

  command_close-keeps : (s : Server F) → P s → P (command_close s).server
  unfolding command_close
  command_close-keeps s v = elim (Option-cases s.focused) [
    | inl e ↦ rw (e, command_close) v
    | inr (k, e) ↦ rw (e, command_close) v
  ]

  command_layout-keeps : (mode : Bytes) (s : Server F) → P s → P (command_layout mode s).server
  unfolding command_layout
  command_layout-keeps mode s v = elim (Option-cases (kum_output_focused s)) [
    | inl e ↦ rw (e, command_layout) v
    | inr (o, e) ↦
        rw (e, command_layout)
          (chosen o (bytes_eq mode (codes "tile")) (bytes_eq mode (codes "monocle")))
  ]
    where
      chosen :
          (o : Output) (a b : Bool)
          → P (
              if a
              then kum_workspace_arrange o o.active_workspace (set_layout o.active_workspace tile s)
              else if b
              then kum_workspace_arrange o o.active_workspace
                  (set_layout o.active_workspace monocle s)
              else set_layout o.active_workspace floating s)
      chosen o true b = kept s _ (layout_arranged-Kept o o.active_workspace tile s) v
      chosen o false true = kept s _ (layout_arranged-Kept o o.active_workspace monocle s) v
      chosen o false false = kept s _ (set_layout-Kept o.active_workspace floating s) v

  command_launch-keeps : (exec : Bytes) (s : Server F) → P s → P (command_launch exec s).server
  unfolding command_launch
  command_launch-keeps [] s v = v
  command_launch-keeps (c ∷ exec) s v = v

  pub ipc_handle_command-keeps :
      (msg : Bytes) (s : Server F) → P s → P (ipc_handle_command msg s).server
  unfolding ipc_handle_command
  ipc_handle_command-keeps msg s v =
      let cmd = scan_string (codes "{\"cmd\":\"") 63 msg in
      let i = scan_index (codes "{\"cmd\":\"workspace\",\"index\":") msg in
      let j = scan_index (codes "{\"cmd\":\"move_to\",\"index\":") msg in
      let mode = scan_string (codes "{\"cmd\":\"layout\",\"mode\":\"") 15 msg in
      let exec = scan_string (codes "{\"cmd\":\"launch\",\"exec\":\"") 255 msg in
      go (bytes_eq cmd (codes "workspace")) (bytes_eq cmd (codes "move_to"))
        (bytes_eq cmd (codes "close")) (bytes_eq cmd (codes "layout"))
        (bytes_eq cmd (codes "launch")) (bytes_eq cmd (codes "quit"))
        (bytes_eq cmd (codes "reload")) (command_workspace i s) (command_move_to j s)
        (command_close s) (command_layout mode s) (command_launch exec s)
        record (outcome s Answer.ok) { effects = Effect.terminate ∷ [] }
        record (outcome s Answer.ok) { reload = true } (outcome s Answer.unknown_command)
        (command_workspace-keeps i s v) (command_move_to-keeps j s v) (command_close-keeps s v)
        (command_layout-keeps mode s v) (command_launch-keeps exec s v) v v v
    where
      go :
          (a b c d e f g : Bool) (r1 r2 r3 r4 r5 r6 r7 r8 : Outcome F)
          → P r1.server
          → P r2.server
          → P r3.server
          → P r4.server
          → P r5.server
          → P r6.server
          → P r7.server
          → P r8.server
          → P
              (let r : Outcome F =
                  if a
                  then r1
                  else if b
                  then r2
                  else if c
                  then r3
                  else if d
                  then r4
                  else if e
                  then r5
                  else if f
                  then r6
                  else if g
                  then r7
                  else r8 in
                r).server
      go true b c d e f g r1 r2 r3 r4 r5 r6 r7 r8 h1 h2 h3 h4 h5 h6 h7 h8 = h1
      go false true c d e f g r1 r2 r3 r4 r5 r6 r7 r8 h1 h2 h3 h4 h5 h6 h7 h8 = h2
      go false false true d e f g r1 r2 r3 r4 r5 r6 r7 r8 h1 h2 h3 h4 h5 h6 h7 h8 = h3
      go false false false true e f g r1 r2 r3 r4 r5 r6 r7 r8 h1 h2 h3 h4 h5 h6 h7 h8 = h4
      go false false false false true f g r1 r2 r3 r4 r5 r6 r7 r8 h1 h2 h3 h4 h5 h6 h7 h8 = h5
      go false false false false false true g r1 r2 r3 r4 r5 r6 r7 r8 h1 h2 h3 h4 h5 h6 h7 h8 = h6
      go false false false false false false true r1 r2 r3 r4 r5 r6 r7 r8 h1 h2 h3 h4 h5 h6 h7 h8 =
          h7
      go false false false false false false false r1 r2 r3 r4 r5 r6 r7 r8 h1 h2 h3 h4 h5 h6 h7 h8 =
          h8

  handle_lines-keeps : (lines : List Bytes) (s : Server F) → P s → P (handle_lines lines s).0
  unfolding handle_lines
  handle_lines-keeps [] s v = v
  handle_lines-keeps (line ∷ lines) s v =
      handle_lines-keeps lines (ipc_handle_command line s).server
        (ipc_handle_command-keeps line s v)

  -- What a client sends keeps such a predicate.
  pub handle_client_readable-keeps :
      (buf : Bytes) (s : Server F) → P s → P (handle_client_readable buf s).0
  unfolding handle_client_readable
  handle_client_readable-keeps buf s v = handle_lines-keeps (tokens b'\n' [] buf) s v
