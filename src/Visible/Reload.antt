-- ===== src/Visible/Reload.antt =====
-- What `kum_server_reload_config` of src/server.c keeps.
use kum_de.Base.{Bool, true, false, List, [], ◌∷◌, if◌then◌else◌}
use kum_de.Arrange.{kum_workspace_arrange}
use kum_de.Config.{Reals, RuntimeConfig, kum_config_load}
use kum_de.Frame.{Same, Same-refl, Same-trans, kum_workspace_arrange-Same}
use kum_de.KbLayout.{kum_kb_layout_init}
use kum_de.Reload.{arrange_outputs, take_config, kum_server_reload_config}
use kum_de.Server.{Floats, Server, Output, is_tile, workspace_at}
use kum_de.Text.{Bytes}

module _ {F : Floats} where
  arrange_outputs-Same : (os : List Output) (s : Server F) → Same s (arrange_outputs os s)
  unfolding arrange_outputs
  arrange_outputs-Same [] s = Same-refl s
  arrange_outputs-Same (o ∷ os) s =
      Same-trans s _ _ (one (is_tile (workspace_at o.active_workspace s.workspaces).layout))
        (arrange_outputs-Same os _)
    where
      one : (b : Bool) → Same s (if b then kum_workspace_arrange o o.active_workspace s else s)
      one true = kum_workspace_arrange-Same o o.active_workspace s
      one false = Same-refl s

  pub kum_server_reload_config-Same :
      {r : Reals} (real : r.Real → F.Real) (fresh : RuntimeConfig r) (lines : List Bytes)
      (s : Server F)
      → Same s (kum_server_reload_config real fresh lines s)
  unfolding kum_server_reload_config take_config kum_kb_layout_init
  kum_server_reload_config-Same real fresh lines s =
      let s1 = take_config real (kum_config_load lines fresh) s in
      let arranged = arrange_outputs-Same s1.outputs s1 in
      record {
        outputs = arranged.outputs;
        workspaces = arranged.workspaces;
        locked = arranged.locked;
        quiet = arranged.quiet;
      }
