-- ===== src/Workspace.antt =====
-- src/workspace.c: the workspaces, switched between outputs, and windows moved between them.
pub mod Nodes
pub mod Hidden
use kum_de.Base.{
  ℕ, true, false, not, ◌&&◌, List, [], ◌∷◌, Option, none, some, find?, leb, ◌==◌, if◌then◌else◌,
}
use kum_de.Base.Int.{ℤ, pos, negsuc, ◌+ℤ◌, ◌-ℤ◌, eqb_ℤ}
use kum_de.Arrange.{kum_workspace_arrange}
use kum_de.Focus.{focus_first_mapped, clear_focus, workspace_of}
use kum_de.Server.{
  Floats, Server, Output, Toplevel, Workspace, LayoutMode, floating, tile, is_floating,
  workspace_event, workspace_count, blank_workspace, broadcast, update_output, update_toplevel,
  workspace_at, update_workspace, remove_id, set_workspace_enabled, output_for_workspace,
  kum_output_focused,
}

-- `kum_workspace_init`
unfoldable pub initial_workspaces : List Workspace
initial_workspaces =
    blank_workspace ∷ blank_workspace ∷ blank_workspace ∷ blank_workspace ∷ blank_workspace
    ∷ blank_workspace ∷ blank_workspace ∷ blank_workspace ∷ blank_workspace ∷ []

-- The loop of `workspace_translate` over a workspace's windows. The trees above a window stay at
-- the origin, so its coordinates are its position.
unfoldable pub shift_all : ℤ → ℤ → List ℕ → List Toplevel → List Toplevel
shift_all dx dy [] ts = ts
shift_all dx dy (k ∷ ks) ts =
    shift_all dx dy ks
      (update_toplevel k (λ t. record t { node_x = t.node_x +ℤ dx; node_y = t.node_y +ℤ dy }) ts)

module _ {F : Floats} where
  unfoldable pub workspace_translate : ℕ → ℤ → ℤ → Server F → Server F
  workspace_translate i dx dy s = if eqb_ℤ dx (pos 0) && eqb_ℤ dy (pos 0) then s else record s {
    toplevels = shift_all dx dy (workspace_at i s.workspaces).toplevels s.toplevels;
  }

  -- The body of the loop over the other outputs: `other` shows workspace `i` and gets `prev`.
  unfoldable pub swap_with : Output → Output → ℕ → Server F → Server F
  swap_with o other i s =
      let prev = o.active_workspace in
      let s1 : Server F = record s {
        outputs =
            update_output other.id
              (λ p. record p { previous_workspace = i; active_workspace = prev }) s.outputs;
      } in
      let s2 = set_workspace_enabled prev true s1 in
      let s3 =
        workspace_translate prev (other.usable_area.x -ℤ o.usable_area.x)
          (other.usable_area.y -ℤ o.usable_area.y) s2 in
      let s4 =
        workspace_translate i (o.usable_area.x -ℤ other.usable_area.x)
          (o.usable_area.y -ℤ other.usable_area.y) s3 in
      broadcast (workspace_event other.name prev) s4

  -- The output, if any, that the loop finds.
  abbrev pub other_showing : Output → ℕ → Server F → Option Output
  other_showing o i s = find? (λ p. not (p.id == o.id) && p.active_workspace == i) s.outputs

  unfoldable pub drop_focus_on : ℕ → Server F → Server F
  drop_focus_on prev s = elim s.focused [
    | none ↦ s
    | some k ↦ if workspace_of s.toplevels k == prev then clear_focus s else s
  ]

  -- The part behind the early returns: output `o` shows workspace `i`.
  unfoldable pub switch_output : Output → ℕ → Server F → Server F
  switch_output o i s =
      let prev = o.active_workspace in
      let s1 : Server F = elim (other_showing o i s) [
        | none ↦ set_workspace_enabled prev false s
        | some other ↦ swap_with o other i s
      ] in
      let s2 : Server F = record s1 {
        outputs =
            update_output o.id (λ p. record p { previous_workspace = prev; active_workspace = i })
              s1.outputs;
      } in
      let s3 = set_workspace_enabled i true s2 in
      let s4 = focus_first_mapped i (drop_focus_on prev s3) in
      broadcast (workspace_event o.name i) s4

  unfoldable pub switch_to : Option Output → ℕ → Server F → Server F
  switch_to none i s = s
  switch_to (some o) i s = if o.active_workspace == i then s else switch_output o i s

  unfoldable pub kum_workspace_switch : Option Output → ℤ → Server F → Server F
  unfolding switch_to
  kum_workspace_switch o (negsuc _) s = s
  kum_workspace_switch o (pos i) s = if leb workspace_count i then s else switch_to o i s

  -- The relinking of window `k` from workspace `old` to the head of workspace `i`.
  unfoldable pub relink : ℕ → ℕ → ℕ → Server F → Server F
  relink k old i s =
      let removed =
        update_workspace old (λ w. record w { toplevels = remove_id k w.toplevels }) s.workspaces in
      record s {
        workspaces = update_workspace i (λ w. record w { toplevels = k ∷ w.toplevels }) removed;
        toplevels = update_toplevel k (λ t. record t { workspace = i }) s.toplevels;
      }

  unfoldable pub arrange_on : Option Output → ℕ → Server F → Server F
  arrange_on none i s = s
  arrange_on (some o) i s = kum_workspace_arrange o i s

  -- The new place shows the window, arranged, or hides it.
  unfoldable pub show_or_hide : Option Output → ℕ → ℕ → Server F → Server F
  show_or_hide (some o) k i s = kum_workspace_arrange o i s
  show_or_hide none k i s = record s {
    toplevels = update_toplevel k (λ t. record t { node_enabled = false }) s.toplevels;
  }

  unfoldable pub refocus : Option Output → ℕ → ℕ → Server F → Server F
  refocus src k old s = elim s.focused [
    | none ↦ s
    | some j ↦
        if j == k
        then elim src [ none ↦ clear_focus s | some _ ↦ focus_first_mapped old (clear_focus s) ]
        else s
  ]

  unfoldable pub move_window : ℕ → ℕ → ℕ → Server F → Server F
  unfolding arrange_on show_or_hide refocus
  move_window k old i s =
      let src = output_for_workspace s old in
      let s1 = relink k old i s in
      let s2 = show_or_hide (output_for_workspace s1 i) k i s1 in
      refocus src k old (arrange_on src old s2)

  unfoldable pub kum_workspace_move_toplevel : ℕ → ℤ → Server F → Server F
  kum_workspace_move_toplevel k (negsuc _) s = s
  kum_workspace_move_toplevel k (pos i) s =
      let old = workspace_of s.toplevels k in
      if leb workspace_count i then s else if i == old then s else move_window k old i s

  abbrev pub set_layout : ℕ → LayoutMode → Server F → Server F
  set_layout i l s = record s {
    workspaces = update_workspace i (λ w. record w { layout = l }) s.workspaces;
  }

  unfoldable pub kum_workspace_toggle_layout : Option Output → Server F → Server F
  kum_workspace_toggle_layout none s = s
  kum_workspace_toggle_layout (some o) s =
      let i = o.active_workspace in
      if is_floating (workspace_at i s.workspaces).layout
      then kum_workspace_arrange o i (set_layout i tile s)
      else set_layout i floating s

  -- From the scratchpad the loop goes to the first other workspace.
  scratchpad_on : Output → Server F → Server F
  scratchpad_on o s =
      if o.active_workspace == s.scratchpad_ws
      then kum_workspace_switch (some o) (pos (if s.scratchpad_ws == 0 then 1 else 0)) s
      else kum_workspace_switch (some o) (pos s.scratchpad_ws) s

  unfoldable pub kum_workspace_scratchpad_toggle : Server F → Server F
  unfolding scratchpad_on
  kum_workspace_scratchpad_toggle s = elim (kum_output_focused s) [
    | none ↦ s
    | some o ↦ scratchpad_on o s
  ]
