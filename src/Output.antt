-- ===== src/Output.antt =====
-- src/output.c: outputs come and go. The mode, the renderer and the scene output of a new one are
-- wlroots' business and are not modelled; nor is `kum_output_configure_all`.
use kum_de.Base.{ℕ, zero, suc, Bool, true, false, List, [], ◌∷◌, any, ◌==◌, if◌then◌else◌}
use kum_de.Text.{Bytes}
use kum_de.Arrange.{kum_workspace_arrange}
use kum_de.Focus.{focus_first_mapped}
use kum_de.Workspace.{drop_focus_on}
use kum_de.Server.{
  Floats, Server, Output, Box, is_tile, workspace_event, workspace_count, broadcast, update_output,
  workspace_at, set_workspace_enabled,
}

abbrev pub shows : ℕ → Output → Bool
shows i o = o.active_workspace == i

-- The second loop of `next_free_workspace`, with `n` indices left from `i` on.
unfoldable pub free_from : List Output → ℕ → ℕ → ℕ
free_from os zero i = 0
free_from os (suc n) i = let rest = free_from os n (suc i) in if any (shows i) os then rest else i

unfoldable pub next_free_workspace : List Output → ℕ
unfolding free_from
next_free_workspace os = free_from os workspace_count 0

-- `wl_list_remove(&output->link)`
unfoldable pub remove_output : ℕ → List Output → List Output
remove_output k [] = []
remove_output k (o ∷ os) = if o.id == k then os else o ∷ remove_output k os

module _ {F : Floats} where
  -- `kum_new_output`, at the box that the layout gives the output.
  unfoldable pub kum_new_output : ℕ → Bytes → Box → Server F → Server F
  kum_new_output k name area s =
      let i = next_free_workspace s.outputs in
      let o : Output = record {
        id = k;
        name = name;
        usable_area = area;
        active_workspace = i;
        previous_workspace = 0;
      } in
      set_workspace_enabled i true (record s { outputs = o ∷ s.outputs })

  -- `migrate_workspace` to the first output left, `dst`.
  unfoldable pub migrate_workspace : Output → ℕ → Server F → Server F
  migrate_workspace dst i s =
      let old = dst.active_workspace in
      let s1 : Server F = record s {
        outputs = update_output dst.id (λ p. record p { active_workspace = i }) s.outputs;
      } in
      let s2 = set_workspace_enabled i true (set_workspace_enabled old false s1) in
      let s3 =
        if is_tile (workspace_at i s2.workspaces).layout
        then kum_workspace_arrange dst i s2
        else s2 in
      broadcast (workspace_event dst.name i) (focus_first_mapped i s3)

  unfoldable pub migrate_or_hide : ℕ → List Output → Server F → Server F
  migrate_or_hide i [] s = set_workspace_enabled i false s
  migrate_or_hide i (dst ∷ _) s = migrate_workspace dst i s

  unfoldable pub output_destroy : Output → Server F → Server F
  unfolding migrate_or_hide
  output_destroy o s =
      let i = o.active_workspace in
      let s1 : Server F = record s { outputs = remove_output o.id s.outputs } in
      migrate_or_hide i s1.outputs (drop_focus_on i s1)
