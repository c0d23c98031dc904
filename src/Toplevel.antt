-- ===== src/Toplevel.antt =====
-- src/toplevel.c: the life of a window. A handler that would follow a NULL output answers `none`.
-- Borders, shadows and corner masks, which only draw, are not modelled.
use kum_de.Base.{
  ℕ, zero, suc, Bool, true, false, not, ◌&&◌, List, [], ◌∷◌, Option, none, some, any, ◌==◌,
  if◌then◌else◌,
}
use kum_de.Base.Int.{ℤ, pos, ◌+ℤ◌, ◌-ℤ◌, ◌/ℤ◌, ltb_ℤ}
use kum_de.Text.{Bytes}
use kum_de.Arrange.{kum_workspace_arrange}
use kum_de.Focus.{kum_focus_toplevel, workspace_of}
use kum_de.Rules.{kum_rules_apply}
use kum_de.Server.{
  Floats, Server, Box, Edges, Output, Toplevel, is_tile, is_floating, anim_none, opening, closing,
  occupancy_event, broadcast, find_toplevel, update_toplevel, remove_toplevel, remove_id,
  workspace_at, update_workspace, workspace_count, output_for_workspace, kum_output_focused,
}

-- `build_occupancy_msg` of src/ipc.c, before it is printed: which of the `n` workspaces from `i` on
-- hold a window, mapped or not.
unfoldable pub occupied_from : List Toplevel → ℕ → ℕ → List Bool
occupied_from ts zero i = []
occupied_from ts (suc n) i = any (λ t. t.workspace == i) ts ∷ occupied_from ts n (suc i)

-- `toplevel_center_on_output`
unfoldable pub centered : Box → Toplevel → Toplevel
centered area t = record t {
  node_x = area.x +ℤ (area.width -ℤ t.geometry.width) /ℤ 2;
  node_y = area.y +ℤ (area.height -ℤ t.geometry.height) /ℤ 2;
}

-- What an interactive move or resize remembers of the window.
unfoldable pub grab : Edges → ℤ → ℤ → Toplevel → Toplevel
grab edges cx cy u = record u {
  grabbed = true;
  resize_edges = edges;
  grab_x = cx;
  grab_y = cy;
  grab_geobox = record {
    x = u.node_x;
    y = u.node_y;
    width = u.geometry.width;
    height = u.geometry.height;
  };
}

module _ {F : Floats} where
  abbrev pub with_toplevel : ℕ → (Toplevel → Toplevel) → Server F → Server F
  with_toplevel k f s = record s { toplevels = update_toplevel k f s.toplevels }

  unfoldable pub kum_ipc_broadcast_occupancy : Server F → Server F
  kum_ipc_broadcast_occupancy s =
      broadcast (occupancy_event (occupied_from s.toplevels workspace_count 0)) s

  -- A call of `kum_workspace_arrange` with an output that may be NULL: a workspace that floats is
  -- left before the output is read.
  unfoldable pub arrange_at : Option Output → ℕ → Server F → Option (Server F)
  arrange_at none i s = if is_floating (workspace_at i s.workspaces).layout then some s else none
  arrange_at (some o) i s = some (kum_workspace_arrange o i s)

  unfoldable pub toplevel_center_on_output : ℕ → Option Output → Server F → Server F
  unfolding centered
  toplevel_center_on_output k none s = s
  toplevel_center_on_output k (some o) s = with_toplevel k (centered o.usable_area) s

  -- `kum_new_xdg_toplevel`: window `k` on the workspace of the output under the cursor.
  unfoldable pub kum_new_xdg_toplevel : Toplevel → Server F → Server F
  kum_new_xdg_toplevel t s =
      let i : ℕ = elim (kum_output_focused s) [ none ↦ 0 | some o ↦ o.active_workspace ] in
      record s {
        toplevels =
            record t {
              workspace = i;
              floating = false;
              grabbed = false;
              anim = anim_none;
              focus_serial = 0;
            }
            ∷ s.toplevels;
        workspaces =
            update_workspace i (λ w. record w { toplevels = t.id ∷ w.toplevels }) s.workspaces;
      }

  unfoldable pub placed_on_map : ℕ → Toplevel → Server F → Option (Server F)
  unfolding arrange_at toplevel_center_on_output
  placed_on_map k t s =
      let o = output_for_workspace s t.workspace in
      if is_tile (workspace_at t.workspace s.workspaces).layout && not t.floating
      then arrange_at o t.workspace s
      else some (toplevel_center_on_output k o s)

  -- `toplevel_unmap`
  unfoldable pub toplevel_unmap : ℕ → Server F → Server F
  unfolding kum_ipc_broadcast_occupancy
  toplevel_unmap k s =
      let i = workspace_of s.toplevels k in
      let o = output_for_workspace s i in
      let f : Option ℕ = elim s.focused [
        | none ↦ none
        | some j ↦ if j == k then none else some j
      ] in
      let s1 : Server F = record s { focused = f } in
      let s2 : Server F =
        if s.animations then with_toplevel k (λ t. record t { anim = closing }) s1 else s1 in
      let s3 = kum_ipc_broadcast_occupancy s2 in
      elim o [
        | none ↦ s3
        | some p ↦
            if is_tile (workspace_at i s.workspaces).layout
            then kum_workspace_arrange p i s3
            else s3
      ]

  -- `toplevel_destroy`
  unfoldable pub toplevel_destroy : ℕ → Server F → Server F
  toplevel_destroy k s =
      let i = workspace_of s.toplevels k in
      record s {
        workspaces =
            update_workspace i (λ w. record w { toplevels = remove_id k w.toplevels }) s.workspaces;
        toplevels = remove_toplevel k s.toplevels;
        z_order = remove_id k s.z_order;
      }

  -- The promotion of a dragged tiled window to a floating one.
  unfoldable pub promote : ℕ → Toplevel → Server F → Option (Server F)
  unfolding arrange_at
  promote k t s =
      if is_tile (workspace_at t.workspace s.workspaces).layout && not t.floating
      then arrange_at (output_for_workspace s t.workspace) t.workspace
          (with_toplevel k (λ u. record u { floating = true; saved_geom = u.geometry }) s)
      else some s

  unfoldable pub kum_toplevel_begin_interactive : ℕ → Edges → Server F → Option (Server F)
  unfolding promote grab
  kum_toplevel_begin_interactive k edges s = elim (find_toplevel k s.toplevels) [
    | none ↦ some s
    | some t ↦ elim (promote k t s) [
      | none ↦ none
      | some s1 ↦ some (with_toplevel k (grab edges s1.cursor_x s1.cursor_y) s1)
    ]
  ]

  -- `kum_toplevel_set_fullscreen`, at the whole box that the layout gives an output.
  unfoldable pub kum_toplevel_set_fullscreen : (Output → Box) → ℕ → Bool → Server F → Server F
  kum_toplevel_set_fullscreen full k true s =
      let o = output_for_workspace s (workspace_of s.toplevels k) in
      let cover : Toplevel → Toplevel = λ t. elim o [
        | none ↦ t
        | some p ↦ record t {
          saved_geom = t.geometry;
          asked_width = (full p).width;
          asked_height = (full p).height;
          node_x = (full p).x;
          node_y = (full p).y;
        }
      ] in
      with_toplevel k (λ t. record (cover t) { asked_fullscreen = true }) s
  kum_toplevel_set_fullscreen full k false s =
      with_toplevel k
        (λ t.
          if ltb_ℤ (pos 0) t.saved_geom.width
          then record t {
            asked_width = t.saved_geom.width;
            asked_height = t.saved_geom.height;
            asked_fullscreen = false;
          }
          else record t { asked_fullscreen = false })
        s

  -- `request_maximize`, with the state that the client asks for.
  unfoldable pub request_maximize : ℕ → Bool → Server F → Server F
  request_maximize k false s =
      with_toplevel k
        (λ t.
          if ltb_ℤ (pos 0) t.saved_geom.width
          then record t {
            asked_width = t.saved_geom.width;
            asked_height = t.saved_geom.height;
            asked_maximized = false;
          }
          else record t { asked_maximized = false })
        s
  request_maximize k true s = elim (output_for_workspace s (workspace_of s.toplevels k)) [
    | none ↦ s
    | some p ↦
        with_toplevel k
          (λ t. record t {
            saved_geom = t.geometry;
            asked_width = p.usable_area.width;
            asked_height = p.usable_area.height;
            node_x = p.usable_area.x;
            node_y = p.usable_area.y;
            asked_maximized = true;
          })
          s
  ]

module _ (fnmatch : Bytes → Bytes → Bool) {F : Floats} where
  unfoldable pub mapped_on : ℕ → Server F → Server F
  unfolding kum_ipc_broadcast_occupancy
  mapped_on k s =
      let s1 : Server F =
        if s.animations then with_toplevel k (λ t. record t { anim = opening }) s else s in
      kum_ipc_broadcast_occupancy (kum_focus_toplevel k (kum_rules_apply fnmatch k s1))

  -- `toplevel_map`
  unfoldable pub toplevel_map : ℕ → Server F → Option (Server F)
  unfolding mapped_on placed_on_map
  toplevel_map k s = elim (find_toplevel k s.toplevels) [
    | none ↦ some s
    | some t ↦ elim (placed_on_map k t s) [ none ↦ none | some s1 ↦ some (mapped_on k s1) ]
  ]
