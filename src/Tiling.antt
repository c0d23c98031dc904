-- ===== src/Tiling.antt =====
-- src/tiling.c: the swap into the master place and the resize. src/focus.c: the focus of the output
-- next to the one under the cursor.
pub mod Master
use kum_de.Base.{ℕ, not, List, [], ◌∷◌, ◌++◌, Option, none, some, find?, ◌==◌, if◌then◌else◌}
use kum_de.Base.Int.{ℤ, pos, ◌+ℤ◌, ltb_ℤ}
use kum_de.Arrange.{is_tiled, kum_workspace_arrange}
use kum_de.Focus.{focus_first_mapped}
use kum_de.Server.{
  Floats, Server, Output, Toplevel, is_tile, find_output, find_toplevel, update_toplevel,
  workspace_at, update_workspace, remove_id, output_for_workspace, kum_output_focused,
}

abbrev pub resize_min_w : ℤ
resize_min_w = pos 120

abbrev pub resize_min_h : ℤ
resize_min_h = pos 80

-- `wl_list_remove(&w->workspace_link)`, then `wl_list_insert(wsp->toplevels.prev, …)`: an insertion
-- behind the last element.
unfoldable pub move_to_end : ℕ → List ℕ → List ℕ
unfolding remove_id
move_to_end k ids = remove_id k ids ++ k ∷ []

module _ {F : Floats} where
  unfoldable pub arrange_if_shown : ℕ → Server F → Server F
  arrange_if_shown i s = elim (output_for_workspace s i) [
    | none ↦ s
    | some o ↦ kum_workspace_arrange o i s
  ]

  unfoldable pub relinked : ℕ → ℕ → Server F → Server F
  unfolding move_to_end
  relinked k i s = record s {
    workspaces =
        update_workspace i (λ w. record w { toplevels = move_to_end k w.toplevels }) s.workspaces;
  }

  -- The loop over the windows sets `master` to NULL where the first one is not tiled, and its next
  -- step follows it: `none`. Over no window it leaves `master` at the list's head, which is no window.
  unfoldable pub swap_for : Toplevel → Server F → Option (Server F)
  unfolding relinked arrange_if_shown
  swap_for t s =
      let w = workspace_at t.workspace s.workspaces in
      let moved = arrange_if_shown t.workspace (relinked t.id t.workspace s) in
      if not (is_tile w.layout) then some s else if t.floating then some s else elim w.toplevels [
        | [] ↦ some moved
        | m ∷ rest ↦
            if is_tiled s.toplevels m then (if m == t.id then some s else some moved) else none
      ]

  abbrev pub focused_toplevel : Server F → Option Toplevel
  focused_toplevel s = elim s.focused [ none ↦ none | some k ↦ find_toplevel k s.toplevels ]

  unfoldable pub kum_tiling_swap_master : Server F → Option (Server F)
  unfolding swap_for
  kum_tiling_swap_master s = elim (focused_toplevel s) [ none ↦ some s | some t ↦ swap_for t s ]

module _ (F : Floats) where
  -- The ratio moved by `dw` and held between 0.1 and 0.9.
  unfoldable pub stepped : F.Real → ℤ → F.Real
  stepped r dw =
      let r1 = F.step r dw in
      let r2 = if F.less r1 F.low then F.low else r1 in if F.less F.high r2 then F.high else r2

module _ {F : Floats} where
  unfoldable pub kum_tiling_resize : ℤ → ℤ → Server F → Server F
  unfolding stepped arrange_if_shown
  kum_tiling_resize dw dh s = elim (focused_toplevel s) [
    | none ↦ s
    | some t ↦
        if is_tile (workspace_at t.workspace s.workspaces).layout
        then arrange_if_shown t.workspace (record s { master_ratio = stepped F s.master_ratio dw })
        else let nw = t.geometry.width +ℤ dw in
          let nh = t.geometry.height +ℤ dh in
          record s {
            toplevels =
                update_toplevel t.id
                  (λ u. record u {
                    asked_width = if ltb_ℤ nw resize_min_w then resize_min_w else nw;
                    asked_height = if ltb_ℤ nh resize_min_h then resize_min_h else nh;
                  })
                  s.toplevels;
          }
  ]

  -- `kum_output_focus_adjacent`: `probe o dx dy` is the output that the layout has at the point
  -- three quarters of a box away from the middle of `o`.
  unfoldable pub kum_output_focus_adjacent :
      (Output → ℤ → ℤ → Option ℕ) → ℤ → ℤ → Server F → Server F
  kum_output_focus_adjacent probe dx dy s = elim (kum_output_focused s) [
    | none ↦ s
    | some cur ↦ elim (probe cur dx dy) [
      | none ↦ s
      | some k ↦ elim (find_output k s.outputs) [
        | none ↦ s
        | some target ↦
            if target.id == cur.id
            then s
            else focus_first_mapped target.active_workspace
                (record s { cursor_output = some target.id })
      ]
    ]
  ]
