-- ===== src/Layer.antt =====
-- src/layer.c: layer-shell surfaces and the area that they leave to the windows. What wlroots makes
-- of a surface's anchors and exclusive zone is a parameter: `configure ls full usable` is the usable
-- box that `wlr_scene_layer_surface_v1_configure` leaves.
use kum_de.Base.{
  ℕ, Bool, false, not, ◌&&◌, ◌||◌, List, [], ◌∷◌, Option, none, some, ◌==◌, if◌then◌else◌,
}
use kum_de.Arrange.{kum_workspace_arrange}
use kum_de.Server.{
  Floats, Server, Box, Output, LayerSurface, Surface, layer_surface, is_floating, find_output,
  update_output, workspace_at,
}

-- `output_from_wlr` at the surface's output, which may be NULL.
abbrev pub output_of : LayerSurface → List Output → Option Output
output_of ls os = elim ls.output [ none ↦ none | some k ↦ find_output k os ]

abbrev pub on_output : LayerSurface → Output → Bool
on_output ls o = elim ls.output [ none ↦ false | some k ↦ k == o.id ]

abbrev pub has_focus : Option Surface → ℕ → Bool
has_focus (some (layer_surface j)) n = j == n
has_focus _ n = false

unfoldable pub remove_layer : ℕ → List LayerSurface → List LayerSurface
remove_layer n [] = []
remove_layer n (ls ∷ rest) = if ls.id == n then rest else ls ∷ remove_layer n rest

-- The output that a surface without one is given: the first.
abbrev pub with_default_output : List Output → LayerSurface → LayerSurface
with_default_output [] ls = ls
with_default_output (o ∷ _) ls = elim ls.output [
  | none ↦ record ls { output = some o.id }
  | some _ ↦ ls
]

module _ (configure : LayerSurface → Box → Box → Box) where
  -- The inner loop over the surfaces, for one layer.
  unfoldable pub fold_layer : Output → Box → ℕ → List LayerSurface → Box → Box
  fold_layer o full layer [] usable = usable
  fold_layer o full layer (ls ∷ rest) usable = fold_layer o full layer rest (
      if on_output ls o && (ls.mapped || ls.initial_commit) && ls.layer == layer
      then configure ls full usable
      else usable)

  -- The four layers, background first.
  unfoldable pub usable_box : Output → Box → List LayerSurface → Box
  unfolding fold_layer
  usable_box o full lss =
      fold_layer o full 3 lss
        (fold_layer o full 2 lss (fold_layer o full 1 lss (fold_layer o full 0 lss full)))

module _ (configure : LayerSurface → Box → Box → Box) (box : Output → Box) {F : Floats} where
  unfoldable pub recalculate_usable_area : Output → Server F → Server F
  recalculate_usable_area o s =
      let usable = usable_box configure o (box o) s.layer_surfaces in
      let s1 : Server F = record s {
        outputs = update_output o.id (λ p. record p { usable_area = usable }) s.outputs;
      } in
      let i = o.active_workspace in
      if is_floating (workspace_at i s.workspaces).layout
      then s1
      else kum_workspace_arrange (record o { usable_area = usable }) i s1

  unfoldable pub recalculate_for : LayerSurface → Server F → Server F
  recalculate_for ls s = elim (output_of ls s.outputs) [
    | none ↦ s
    | some o ↦ recalculate_usable_area o s
  ]

  -- `layer_map`: a surface that asks for the keyboard gets it.
  unfoldable pub layer_map : LayerSurface → Server F → Server F
  unfolding recalculate_for
  layer_map ls s =
      let s1 = recalculate_for ls s in
      if ls.interactive && not (has_focus s1.seat_focus ls.id)
      then record s1 { seat_focus = some (layer_surface ls.id) }
      else s1

  -- `layer_unmap`
  unfoldable pub layer_unmap : LayerSurface → Server F → Server F
  unfolding recalculate_for
  layer_unmap ls s =
      let s1 = recalculate_for ls s in
      if has_focus s1.seat_focus ls.id then record s1 { seat_focus = none } else s1

  -- `layer_commit`
  unfoldable pub layer_commit : LayerSurface → Server F → Server F
  unfolding recalculate_for
  layer_commit ls s = elim ls.output [
    | none ↦ s
    | some k ↦ if not ls.initial_commit && not ls.layout_changed then s else recalculate_for ls s
  ]

  -- `layer_destroy`
  unfoldable pub layer_destroy : LayerSurface → Server F → Server F
  unfolding recalculate_for remove_layer
  layer_destroy ls s =
      recalculate_for ls (record s { layer_surfaces = remove_layer ls.id s.layer_surfaces })

  -- `kum_new_layer_surface`
  unfoldable pub kum_new_layer_surface : LayerSurface → Server F → Server F
  unfolding recalculate_for
  kum_new_layer_surface ls0 s =
      let ls = with_default_output s.outputs ls0 in
      recalculate_for ls (record s { layer_surfaces = ls ∷ s.layer_surfaces })
