-- ===== src/Tests/Scene.antt =====
-- The invariant of the scene at two outputs.
use kum_de.Base.{◌≡◌, refl, true, false, [], ◌∷◌, some, map, any, ◌<◌, arith}
use kum_de.Base.Int.{pos}
use kum_de.Output.{kum_new_output, output_destroy, next_free_workspace, shows}
use kum_de.Server.{Output, set_workspace_enabled, workspace_count}
use kum_de.Text.{codes}
use kum_de.Workspace.{kum_workspace_switch, switch_output}
use kum_de.Visible.Outputs.{Visible}
use kum_de.Visible.Switch.{switch_output-exchanged, exchanged, Known}
use kum_de.Visible.NewOutput.{kum_new_output-Visible, next_free_workspace_lem}
use kum_de.Visible.Destroy.{output_destroy-Visible}
use kum_de.Visible.Keys.{kum_workspace_switch-Visible}
use kum_de.Visible.Reach.{
  here, after, output_added, fullscreen_asked, window_focused, initial-Visible, Reach-Visible,
}
use kum_de.Tests.Sample.{screen, right_screen, start, one_output, two_outputs, setting, world}
use kum_de.Focus.{kum_focus_toplevel}
use kum_de.Toplevel.{kum_toplevel_set_fullscreen}

start-Visible : Visible start
start-Visible = initial-Visible start refl refl

one_output-Visible : Visible one_output
one_output-Visible =
    kum_new_output-Visible 1 (codes "DP-1") screen start start-Visible refl (omega arith)

two_outputs-Visible : Visible two_outputs
unfolding kum_new_output set_workspace_enabled
two_outputs-Visible =
    kum_new_output-Visible 2 (codes "DP-2") right_screen one_output one_output-Visible refl
      (omega arith)

abbrev left : Output
left = record {
  id = 1;
  name = codes "DP-1";
  usable_area = screen;
  active_workspace = 0;
  previous_workspace = 0;
}

left-Known : Known left two_outputs
unfolding kum_new_output next_free_workspace set_workspace_enabled
left-Known = refl

next_free_workspace_lem_example :
    (any (shows (next_free_workspace (left ∷ []))) (left ∷ []) ≡ false)
    × (next_free_workspace (left ∷ []) < workspace_count)
next_free_workspace_lem_example = next_free_workspace_lem (left ∷ []) (omega arith)

kum_new_output-Visible_example : Visible (kum_new_output 2 (codes "DP-2") right_screen one_output)
unfolding kum_new_output set_workspace_enabled
kum_new_output-Visible_example =
    kum_new_output-Visible 2 (codes "DP-2") right_screen one_output one_output-Visible refl
      (omega arith)

output_destroy-Visible_example : Visible (output_destroy left two_outputs)
output_destroy-Visible_example =
    output_destroy-Visible left two_outputs two_outputs-Visible left-Known

kum_workspace_switch-Visible_example :
    Visible (kum_workspace_switch (some left) (pos 1) two_outputs)
kum_workspace_switch-Visible_example =
    kum_workspace_switch-Visible left (pos 1) two_outputs two_outputs-Visible left-Known

switch_output-exchanged_example :
    (switch_output left 1 two_outputs).outputs ≡ map (exchanged left 1) two_outputs.outputs
switch_output-exchanged_example =
    switch_output-exchanged left 1 two_outputs two_outputs-Visible.distinct left-Known

Reach-Visible_example :
    Visible (kum_focus_toplevel 3 (kum_toplevel_set_fullscreen world.box 3 true two_outputs))
unfolding kum_toplevel_set_fullscreen kum_focus_toplevel kum_new_output set_workspace_enabled
    kum_de.Server.output_for_workspace next_free_workspace kum_de.Server.update_toplevel
Reach-Visible_example =
    Reach-Visible setting {s = start} refl refl
      (after
        (after
          (after (after here (output_added 1 (codes "DP-1") screen refl))
            (output_added 2 (codes "DP-2") right_screen refl))
          (fullscreen_asked 3 true))
        (window_focused 3))
      (omega arith, (omega arith, (omega arith, (omega arith, omega arith))))
