-- ===== src/Visible/Surfaces.antt =====
-- The layer surfaces of src/layer.c: they change the usable area of an output and its windows'
-- places, never a workspace's.
use kum_de.Base.{
  ℕ, Option, none, some, ◌∷◌, refl, ◌&&◌, not, inl, inr, Bool, true, false, Bool-cases,
  Option-cases, if◌then◌else◌,
}
use kum_de.Arrange.{kum_workspace_arrange}
use kum_de.Frame.{kum_workspace_arrange-Same}
use kum_de.Layer.{
  usable_box, recalculate_usable_area, recalculate_for, output_of, layer_map, layer_unmap,
  layer_commit, layer_destroy, kum_new_layer_surface, has_focus, with_default_output, remove_layer,
}
use kum_de.Server.{
  Floats, Server, Box, Output, LayerSurface, is_floating, workspace_at, update_output,
}
use kum_de.Visible.Kept.{Kept, Kept-refl, Kept-trans, Same-Kept}
use kum_de.Visible.Handlers.{places-update_output}

module _ (configure : LayerSurface → Box → Box → Box) (box : Output → Box) {F : Floats} where
  pub recalculate_usable_area-Kept :
      (o : Output) (s : Server F) → Kept s (recalculate_usable_area configure box o s)
  unfolding recalculate_usable_area
  recalculate_usable_area-Kept o s =
      ends (is_floating (workspace_at o.active_workspace s.workspaces).layout)
    where
      usable : Box
      usable = usable_box configure o (box o) s.layer_surfaces

      s1 : Server F
      s1 = record s {
        outputs = update_output o.id (λ p. record p { usable_area = usable }) s.outputs;
      }

      first : Kept s s1
      first = record {
        places_kept = places-update_output o.id usable s.outputs;
        flags_kept = refl;
        locked_kept = refl;
        quiet_kept = λ l n. n;
      }

      p : Output
      p = record o { usable_area = usable }

      ends : (b : Bool) → Kept s (if b then s1 else kum_workspace_arrange p o.active_workspace s1)
      ends true = first
      ends false =
          Kept-trans s s1 _ first
            (Same-Kept s1 _ (kum_workspace_arrange-Same p o.active_workspace s1))

  recalculate_for-Kept :
      (ls : LayerSurface) (s : Server F) → Kept s (recalculate_for configure box ls s)
  unfolding recalculate_for
  recalculate_for-Kept ls s = elim (Option-cases (output_of ls s.outputs)) [
    | inl e ↦ rw (e, recalculate_for) (Kept-refl s)
    | inr (o, e) ↦ rw (e, recalculate_for) (recalculate_usable_area-Kept o s)
  ]

  pub layer_map-Kept : (ls : LayerSurface) (s : Server F) → Kept s (layer_map configure box ls s)
  unfolding layer_map
  layer_map-Kept ls s =
      let h = recalculate_for-Kept ls s in
      let s1 : Server F = recalculate_for configure box ls s in
      elim (Bool-cases (ls.interactive && not (has_focus s1.seat_focus ls.id))) [
        | inl e ↦
            rw (e, layer_map)
              record {
                places_kept = h.places_kept;
                flags_kept = h.flags_kept;
                locked_kept = h.locked_kept;
                quiet_kept = λ l n. refl;
              }
        | inr e ↦ rw (e, layer_map) h
      ]

  pub layer_unmap-Kept :
      (ls : LayerSurface) (s : Server F) → Kept s (layer_unmap configure box ls s)
  unfolding layer_unmap
  layer_unmap-Kept ls s =
      let h = recalculate_for-Kept ls s in
      let s1 : Server F = recalculate_for configure box ls s in
      elim (Bool-cases (has_focus s1.seat_focus ls.id)) [
        | inl e ↦
            rw (e, layer_unmap)
              record {
                places_kept = h.places_kept;
                flags_kept = h.flags_kept;
                locked_kept = h.locked_kept;
                quiet_kept = λ l n. refl;
              }
        | inr e ↦ rw (e, layer_unmap) h
      ]

  pub layer_commit-Kept :
      (ls : LayerSurface) (s : Server F) → Kept s (layer_commit configure box ls s)
  unfolding layer_commit
  layer_commit-Kept ls s = go ls.output (not ls.initial_commit && not ls.layout_changed)
    where
      go :
          (o : Option ℕ) (b : Bool)
          → Kept s
              (elim o [ none ↦ s | some k ↦ if b then s else recalculate_for configure box ls s ])
      go none b = Kept-refl s
      go (some k) true = Kept-refl s
      go (some k) false = recalculate_for-Kept ls s

  pub layer_destroy-Kept :
      (ls : LayerSurface) (s : Server F) → Kept s (layer_destroy configure box ls s)
  unfolding layer_destroy
  layer_destroy-Kept ls s =
      let s1 : Server F = record s { layer_surfaces = remove_layer ls.id s.layer_surfaces } in
      let h = recalculate_for-Kept ls s1 in
      record {
        places_kept = h.places_kept;
        flags_kept = h.flags_kept;
        locked_kept = h.locked_kept;
        quiet_kept = h.quiet_kept;
      }

  pub kum_new_layer_surface-Kept :
      (ls : LayerSurface) (s : Server F) → Kept s (kum_new_layer_surface configure box ls s)
  unfolding kum_new_layer_surface
  kum_new_layer_surface-Kept ls s =
      let given = with_default_output s.outputs ls in
      let s1 : Server F = record s { layer_surfaces = given ∷ s.layer_surfaces } in
      let h = recalculate_for-Kept given s1 in
      record {
        places_kept = h.places_kept;
        flags_kept = h.flags_kept;
        locked_kept = h.locked_kept;
        quiet_kept = h.quiet_kept;
      }
