-- ===== src/Reload.antt =====
-- `kum_server_reload_config` of src/server.c: what the reload changes in the server. The file comes as
-- its lines, and the new configuration starts from `fresh`, the one of `kum_config_defaults`; borders,
-- shadows, input devices and the modes of the outputs are not state of the model.
use kum_de.Base.{List, [], ◌∷◌, if◌then◌else◌}
use kum_de.Arrange.{kum_workspace_arrange}
use kum_de.Config.{Reals, RuntimeConfig, kum_config_load}
use kum_de.KbLayout.{kum_kb_layout_init}
use kum_de.Rules.Load.{kum_rules_load}
use kum_de.Server.{Floats, Server, Output, is_tile, workspace_at}
use kum_de.Text.{Bytes}

module _ {F : Floats} where
  -- The loop over the outputs: those that show tiles are arranged.
  unfoldable pub arrange_outputs : List Output → Server F → Server F
  arrange_outputs [] s = s
  arrange_outputs (o ∷ os) s = arrange_outputs os (
      if is_tile (workspace_at o.active_workspace s.workspaces).layout
      then kum_workspace_arrange o o.active_workspace s
      else s)

  module _ {r : Reals} (real : r.Real → F.Real) where
    unfoldable pub take_config : RuntimeConfig r → Server F → Server F
    take_config c s = record s {
      gap = c.gap;
      master_ratio = real c.master_ratio;
      animations = c.animations;
    }

    unfoldable pub kum_server_reload_config : RuntimeConfig r → List Bytes → Server F → Server F
    unfolding take_config arrange_outputs
    kum_server_reload_config fresh lines s =
        let c = kum_config_load lines fresh in
        let s1 = take_config c s in
        let s2 = kum_kb_layout_init c.kb_layout (arrange_outputs s1.outputs s1) in
        record s2 { rules = kum_rules_load lines [] }
