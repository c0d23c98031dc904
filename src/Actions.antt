-- ===== src/Actions.antt =====
-- src/keybind.c: the actions behind the bindings. Spawned commands, the close request and the end of
-- the program are effects on the world outside.
pub mod CycleFocus
use kum_de.Base.{
  ℕ, ◌-◌, ◌^◌, Bool, true, false, not, ◌&&◌, List, [], ◌∷◌, Option, none, some, ltb, ◌==◌,
  if◌then◌else◌,
}
use kum_de.Base.Int.{ℤ, pos, negsuc}
use kum_de.Arrange.{kum_workspace_arrange}
use kum_de.Focus.{kum_focus_toplevel}
use kum_de.KbLayout.{kum_kb_layout_next}
use kum_de.Keybind.{Action, Modifiers, Key, find_action, keybinds}
use kum_de.Server.{
  Floats, Server, Box, Output, Toplevel, monocle, is_tile, update_toplevel, workspace_at,
  kum_output_focused,
}
use kum_de.Text.{Bytes, codes}
use kum_de.Tiling.{
  focused_toplevel, kum_tiling_swap_master, kum_tiling_resize, kum_output_focus_adjacent,
}
use kum_de.Toplevel.{arrange_at, kum_toplevel_set_fullscreen}
use kum_de.Workspace.{
  set_layout, kum_workspace_switch, kum_workspace_move_toplevel, kum_workspace_toggle_layout,
  kum_workspace_scratchpad_toggle,
}

-- What an action asks of the world outside the server's state.
pub data Effect : Type 0 where
  terminate : Effect
  send_close : ℕ → Effect
  spawn : Bytes → Effect

-- The loop of `action_cycle_focus` over the windows; `best` starts at UINT64_MAX.
unfoldable pub least_recent : ℕ → Option ℕ → List Toplevel → Option ℕ
least_recent best k [] = k
least_recent best k (t ∷ ts) =
    let better = t.mapped && ltb t.focus_serial best in
    least_recent (if better then t.focus_serial else best) (if better then some t.id else k) ts

-- What the surroundings of the server give: the layout's boxes and neighbours, and the configured
-- layouts string.
pub record World : Type 0 where
  pub box : Output → Box
  pub probe : Output → ℤ → ℤ → Option ℕ
  pub kb_layout : Bytes

module _ {F : Floats} where
  unfoldable pub action_cycle_focus : Server F → Server F
  unfolding least_recent
  action_cycle_focus s = elim (least_recent (2 ^ 64 - 1) none s.toplevels) [
    | none ↦ s
    | some k ↦ kum_focus_toplevel k s
  ]

  -- The window floats or tiles, and its workspace is arranged on the output under the cursor.
  unfoldable pub action_toggle_floating : Server F → Option (Server F)
  action_toggle_floating s = elim (focused_toplevel s) [
    | none ↦ some s
    | some t ↦
        if not (is_tile (workspace_at t.workspace s.workspaces).layout)
        then some s
        else arrange_at (kum_output_focused s) t.workspace (record s {
          toplevels =
              update_toplevel t.id (λ u. record u { floating = not u.floating }) s.toplevels;
        })
  ]

  unfoldable pub action_switch_workspace : ℕ → Server F → Server F
  action_switch_workspace i s = elim (kum_output_focused s) [
    | none ↦ s
    | some o ↦
        kum_workspace_switch (some o)
          (pos (if o.active_workspace == i then o.previous_workspace else i)) s
  ]

  unfoldable pub action_move_to_workspace : ℕ → Server F → Server F
  action_move_to_workspace i s = elim s.focused [
    | none ↦ s
    | some k ↦ kum_workspace_move_toplevel k (pos i) s
  ]

  unfoldable pub action_layout_monocle : Server F → Server F
  action_layout_monocle s = elim (kum_output_focused s) [
    | none ↦ s
    | some o ↦ kum_workspace_arrange o o.active_workspace (set_layout o.active_workspace monocle s)
  ]

  unfoldable pub action_toggle_fullscreen : World → Server F → Server F
  action_toggle_fullscreen w s = elim (focused_toplevel s) [
    | none ↦ s
    | some t ↦ kum_toplevel_set_fullscreen w.box t.id (not t.fullscreen) s
  ]

-- A run of an action: `none` where a NULL output would be followed, else the server and the effects.
abbrev pub Run : Floats → Type 0
Run F = Option (Server F × List Effect)

module _ {F : Floats} where
  abbrev quiet : Server F → Run F
  quiet s = some (s, [])

  unfoldable pub run_action : World → Action → Server F → Run F
  run_action w Action.quit s = some (s, terminate ∷ [])
  run_action w Action.cycle_focus s = quiet (action_cycle_focus s)
  run_action w Action.close_focused s = elim s.focused [
    | none ↦ quiet s
    | some k ↦ some (s, send_close k ∷ [])
  ]
  run_action w Action.toggle_layout s = quiet (kum_workspace_toggle_layout (kum_output_focused s) s)
  run_action w Action.toggle_floating s = elim (action_toggle_floating s) [
    | none ↦ none
    | some t ↦ quiet t
  ]
  run_action w (Action.switch_workspace i) s = quiet (action_switch_workspace i s)
  run_action w (Action.move_to_workspace i) s = quiet (action_move_to_workspace i s)
  run_action w Action.focus_left s = quiet (kum_output_focus_adjacent w.probe (negsuc 0) (pos 0) s)
  run_action w Action.focus_right s = quiet (kum_output_focus_adjacent w.probe (pos 1) (pos 0) s)
  run_action w Action.focus_up s = quiet (kum_output_focus_adjacent w.probe (pos 0) (negsuc 0) s)
  run_action w Action.focus_down s = quiet (kum_output_focus_adjacent w.probe (pos 0) (pos 1) s)
  run_action w Action.toggle_fullscreen s = quiet (action_toggle_fullscreen w s)
  run_action w Action.scratchpad s = quiet (kum_workspace_scratchpad_toggle s)
  run_action w Action.layout_monocle s = quiet (action_layout_monocle s)
  run_action w Action.kb_layout_next s = quiet (kum_kb_layout_next w.kb_layout s)
  run_action w Action.swap_master s = elim (kum_tiling_swap_master s) [
    | none ↦ none
    | some t ↦ quiet t
  ]
  run_action w Action.resize_right s = quiet (kum_tiling_resize (pos 40) (pos 0) s)
  run_action w Action.resize_left s = quiet (kum_tiling_resize (negsuc 39) (pos 0) s)
  run_action w Action.resize_down s = quiet (kum_tiling_resize (pos 0) (pos 40) s)
  run_action w Action.resize_up s = quiet (kum_tiling_resize (pos 0) (negsuc 39) s)
  run_action w Action.screenshot s = some (s, spawn (codes "kumshot") ∷ [])
  run_action w Action.screenshot_region s = some (s, spawn (codes "kumshot -r") ∷ [])
  run_action w Action.shutdown s = some (s, terminate ∷ spawn (codes "systemctl poweroff") ∷ [])
  run_action w Action.lock s = some (s, spawn (codes "kumlock") ∷ [])
  run_action w Action.volume_up s =
      some (s, spawn (codes "wpctl set-volume -l 1.0 @DEFAULT_AUDIO_SINK@ 5%+") ∷ [])
  run_action w Action.volume_down s =
      some (s, spawn (codes "wpctl set-volume @DEFAULT_AUDIO_SINK@ 5%-") ∷ [])
  run_action w Action.volume_mute s =
      some (s, spawn (codes "wpctl set-mute @DEFAULT_AUDIO_SINK@ toggle") ∷ [])
  run_action w Action.backlight_up s = some (s, spawn (codes "brightnessctl set 5%+") ∷ [])
  run_action w Action.backlight_down s = some (s, spawn (codes "brightnessctl set 5%-") ∷ [])

  -- `kum_keybind_handle`, and whether a binding was found.
  unfoldable pub kum_keybind_handle :
      World → Modifiers → Key → Server F → Option (Server F × List Effect × Bool)
  kum_keybind_handle w m k s = elim (find_action m k keybinds) [
    | none ↦ some (s, [], false)
    | some a ↦ elim (run_action w a s) [ none ↦ none | some (t, es) ↦ some (t, es, true) ]
  ]
