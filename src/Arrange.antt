-- ===== src/Arrange.antt =====
-- src/workspace.c: `kum_workspace_arrange` and `kum_workspace_monocle_arrange`, which place the
-- windows of a workspace on an output. The border redraws behind each placement are not modelled.
pub mod Tiles
use kum_de.Base.{
  ℕ, zero, suc, ◌+◌, ◌-◌, Bool, false, not, ◌&&◌, List, [], ◌∷◌, none, some, filter, length, ltb,
  ◌==◌, if◌then◌else◌,
}
use kum_de.Base.Int.{ℤ, ◌+ℤ◌, ◌-ℤ◌, ◌*ℤ◌, ◌/ℤ◌}
use kum_de.Server.{
  Floats, Server, Box, Output, Toplevel, LayoutMode, floating, tile, monocle, find_toplevel,
  update_toplevel, workspace_at, remove_id,
}

-- The windows that tiling places: `!tl->floating && tl->xdg_toplevel->base->surface->mapped`.
unfoldable pub is_tiled : List Toplevel → ℕ → Bool
is_tiled ts k = elim (find_toplevel k ts) [ none ↦ false | some t ↦ not t.floating && t.mapped ]

-- `wlr_scene_node_set_position` and `wlr_xdg_toplevel_set_size`
unfoldable pub place : ℕ → Box → List Toplevel → List Toplevel
place k b ts =
    update_toplevel k
      (λ t. record t { node_x = b.x; node_y = b.y; asked_width = b.width; asked_height = b.height })
      ts

module _ (F : Floats) where
  -- `master_w` of the `count` windows.
  unfoldable pub master_width : F.Real → ℤ → Box → ℕ → ℤ
  master_width mr gap area count =
      if count == 1 then area.width -ℤ gap *ℤ 2 else F.share mr (area.width -ℤ gap *ℤ 3)

  -- The box of the window at position `i` in the loop, of `count` windows.
  unfoldable pub tile_box : F.Real → ℤ → Box → ℕ → ℕ → Box
  unfolding master_width
  tile_box mr gap area count zero = record {
    x = area.x +ℤ gap;
    y = area.y +ℤ gap;
    width = master_width mr gap area count;
    height = area.height -ℤ gap *ℤ 2;
  }
  tile_box mr gap area count (suc slot) =
      let stack_count = count - 1 in
      let slot_h =
        if ltb 0 stack_count
        then (area.height -ℤ gap *ℤ (stack_count + 1)) /ℤ stack_count
        else area.height -ℤ gap *ℤ 2 in
      record {
        x = area.x +ℤ gap *ℤ 2 +ℤ master_width mr gap area count;
        y = area.y +ℤ gap +ℤ (slot_h +ℤ gap) *ℤ slot;
        width = area.width -ℤ gap *ℤ 3 -ℤ master_width mr gap area count;
        height = slot_h;
      }

  -- The second loop of `kum_workspace_arrange`, from position `i` on.
  unfoldable pub tile_loop : F.Real → ℤ → Box → ℕ → ℕ → List ℕ → List Toplevel → List Toplevel
  tile_loop mr gap area count i [] ts = ts
  tile_loop mr gap area count i (k ∷ ks) ts =
      tile_loop mr gap area count (if is_tiled ts k then suc i else i) ks
        (if is_tiled ts k then place k (tile_box mr gap area count i) ts else ts)

-- The loop of the monocle layout: every window gets the whole area and goes below the others.
unfoldable pub monocle_loop : ℤ → Box → List ℕ → List Toplevel → List Toplevel
monocle_loop gap area [] ts = ts
monocle_loop gap area (k ∷ ks) ts = monocle_loop gap area ks (
    if is_tiled ts k
    then place k
        (record {
          x = area.x +ℤ gap;
          y = area.y +ℤ gap;
          width = area.width -ℤ gap *ℤ 2;
          height = area.height -ℤ gap *ℤ 2;
        })
        ts
    else ts)

-- `wlr_scene_node_lower_to_bottom`
lower : ℕ → List ℕ → List ℕ
lower j [] = j ∷ []
lower j (y ∷ ys) = if y == j then lower j ys else y ∷ lower j ys

unfoldable pub lower_all : List Toplevel → List ℕ → List ℕ → List ℕ
unfolding lower
lower_all ts [] z = z
lower_all ts (k ∷ ks) z = lower_all ts ks (if is_tiled ts k then lower k z else z)

-- `wlr_scene_node_raise_to_top`
unfoldable pub raise : ℕ → List ℕ → List ℕ
unfolding remove_id
raise k z = k ∷ remove_id k z

module _ {F : Floats} where
  -- The raise that ends the monocle layout: the focused window of this workspace, if it is tiled.
  raise_focused : Server F → ℕ → List ℕ → List ℕ
  unfolding raise
  raise_focused s i z = elim s.focused [
    | none ↦ z
    | some k ↦ elim (find_toplevel k s.toplevels) [
      | none ↦ z
      | some t ↦ if t.workspace == i && not t.floating then raise k z else z
    ]
  ]

  unfoldable pub kum_workspace_monocle_arrange : Output → ℕ → Server F → Server F
  unfolding raise_focused lower_all monocle_loop
  kum_workspace_monocle_arrange o i s =
      let ids = (workspace_at i s.workspaces).toplevels in
      record s {
        toplevels = monocle_loop s.gap o.usable_area ids s.toplevels;
        z_order = raise_focused s i (lower_all s.toplevels ids s.z_order);
      }

  unfoldable pub tile_arrange : Output → ℕ → Server F → Server F
  unfolding tile_loop
  tile_arrange o i s =
      let ids = (workspace_at i s.workspaces).toplevels in
      let count = length (filter (is_tiled s.toplevels) ids) in
      if count == 0 then s else record s {
        toplevels = tile_loop F s.master_ratio s.gap o.usable_area count 0 ids s.toplevels;
      }

  unfoldable pub arrange_by : LayoutMode → Output → ℕ → Server F → Server F
  arrange_by floating o i s = s
  arrange_by monocle o i s = kum_workspace_monocle_arrange o i s
  arrange_by tile o i s = tile_arrange o i s

  unfoldable pub kum_workspace_arrange : Output → ℕ → Server F → Server F
  unfolding arrange_by tile_arrange
  kum_workspace_arrange o i s = arrange_by (workspace_at i s.workspaces).layout o i s
