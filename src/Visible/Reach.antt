-- ===== src/Visible/Reach.antt =====
-- The events that the compositor handles, as steps of the server, and the states they lead to. The
-- boxes of the layout, the layer-shell protocol and `fnmatch` are parameters.
use mathlib.Core.Path.{subst}
use kum_de.Base.{
  ℕ, ◌≤◌, ◌<◌, ◌≡◌, refl, Bool, false, List, [], ◌∷◌, Option, none, some, length, arith, All, any,
  sym, ap, ◌∙◌, zero, suc,
}
use kum_de.Base.Int.{ℤ}
use kum_de.Actions.{Effect, World, run_action}
use kum_de.Config.{Reals, RuntimeConfig}
use kum_de.Reload.{kum_server_reload_config}
use kum_de.Visible.Reload.{kum_server_reload_config-Same}
use kum_de.Focus.{kum_focus_toplevel}
use kum_de.Frame.{kum_focus_toplevel-Same}
use kum_de.Input.{Button, kum_cursor_motion, kum_cursor_button, keyboard_key}
use kum_de.Ipc.{handle_client_readable}
use kum_de.Keybind.{Action, Key, Modifiers}
use kum_de.Layer.{layer_map, layer_unmap, layer_commit, layer_destroy, kum_new_layer_surface}
use kum_de.Output.{kum_new_output, output_destroy, shows}
use kum_de.Server.{
  set_workspace_enabled, Floats, Server, Edges, Box, Output, Toplevel, Workspace, LayerSurface,
  find_output, workspace_at, workspace_count,
}
use kum_de.SessionLock.{
  new_session_lock, active_lock_new_surface, lock_surface_destroy, active_lock_unlock,
  active_lock_destroy,
}
use kum_de.Text.{Bytes}
use kum_de.Toplevel.{
  kum_toplevel_begin_interactive, kum_new_xdg_toplevel, toplevel_map, toplevel_unmap,
  toplevel_destroy, kum_toplevel_set_fullscreen, request_maximize,
}
use kum_de.Workspace.{initial_workspaces, kum_workspace_switch}
use kum_de.Visible.Outputs.{Visible, Distinct}
use kum_de.Visible.Switch.{Known}
use kum_de.Visible.NewOutput.{kum_new_output-Visible}
use kum_de.Visible.Destroy.{output_destroy-Visible}
use kum_de.Visible.Kept.{Kept, Kept-Visible, Visible-of, Same-Kept}
use kum_de.Visible.Windows.{kum_new_xdg_toplevel-Kept, toplevel_destroy-Kept}
use kum_de.Visible.Handlers.{
  toplevel_map-Kept, toplevel_unmap-Same, request_maximize-Same, kum_toplevel_set_fullscreen-Same,
}
use kum_de.Visible.Surfaces.{
  layer_map-Kept, layer_unmap-Kept, layer_commit-Kept, layer_destroy-Kept,
  kum_new_layer_surface-Kept,
}
use kum_de.Visible.Input.{
  keyboard_key-keeps, kum_cursor_motion-Same, kum_cursor_button-Same,
  kum_toplevel_begin_interactive-Same,
}
use kum_de.Visible.Commands.{handle_client_readable-keeps}
use kum_de.Visible.Keys.{kum_workspace_switch-Visible, run_action-keeps}

-- What the server runs among.
pub record Setting : Type 1 where
  pub reals : Reals
  pub world : World
  pub fnmatch : Bytes → Bytes → Bool
  pub configure : LayerSurface → Box → Box → Box

-- `t` is the server after one event at `s`. An identity is an address: a new output has one of its
-- own. Windows and layer surfaces come with what their clients ask for.
pub data Step {F : Floats} (g : Setting) : Server F → Server F → Type 0 where
  output_added :
      {s : Server F} (k : ℕ) (name : Bytes) (area : Box)
      → find_output k s.outputs ≡ none
      → Step g s (kum_new_output k name area s)
  output_gone : {s : Server F} (o : Output) → Known o s → Step g s (output_destroy o s)
  switched :
      {s : Server F} (o : Output) (i : ℤ) → Known o s → Step g s (kum_workspace_switch (some o) i s)
  window_added : {s : Server F} (t : Toplevel) → Step g s (kum_new_xdg_toplevel t s)
  window_mapped : {s t : Server F} (k : ℕ) → toplevel_map g.fnmatch k s ≡ some t → Step g s t
  window_unmapped : {s : Server F} (k : ℕ) → Step g s (toplevel_unmap k s)
  window_gone : {s : Server F} (k : ℕ) → Step g s (toplevel_destroy k s)
  window_focused : {s : Server F} (k : ℕ) → Step g s (kum_focus_toplevel k s)
  maximize_asked : {s : Server F} (k : ℕ) (on : Bool) → Step g s (request_maximize k on s)
  fullscreen_asked :
      {s : Server F} (k : ℕ) (on : Bool) → Step g s (kum_toplevel_set_fullscreen g.world.box k on s)
  acted :
      {s t : Server F} (a : Action) {es : List Effect}
      → run_action g.world a s ≡ some (t, es)
      → Step g s t
  key_used :
      {s t : Server F} (m : Modifiers) (syms : List Key) (pressed : Bool) {es : List Effect}
      {found : Bool}
      → keyboard_key g.world m syms pressed s ≡ some (t, es, found)
      → Step g s t
  cursor_moved :
      {s : Server F} (follows : Bool) (x y : ℤ) (o under : Option ℕ)
      → Step g s (kum_cursor_motion follows x y o under s).0
  button_used :
      {s t : Server F} (released : Bool) (button : Button) (mod_held : Bool) (under : Option ℕ)
      → kum_cursor_button released button mod_held under s ≡ some t
      → Step g s t
  drag_asked :
      {s t : Server F} (k : ℕ) (edges : Edges)
      → kum_toplevel_begin_interactive k edges s ≡ some t
      → Step g s t
  received : {s : Server F} (buf : Bytes) → Step g s (handle_client_readable buf s).0
  reloaded :
      {s : Server F} (real : g.reals.Real → F.Real) (fresh : RuntimeConfig g.reals)
      (lines : List Bytes)
      → Step g s (kum_server_reload_config real fresh lines s)
  layer_added :
      {s : Server F} (ls : LayerSurface)
      → Step g s (kum_new_layer_surface g.configure g.world.box ls s)
  layer_mapped :
      {s : Server F} (ls : LayerSurface) → Step g s (layer_map g.configure g.world.box ls s)
  layer_unmapped :
      {s : Server F} (ls : LayerSurface) → Step g s (layer_unmap g.configure g.world.box ls s)
  layer_committed :
      {s : Server F} (ls : LayerSurface) → Step g s (layer_commit g.configure g.world.box ls s)
  layer_gone :
      {s : Server F} (ls : LayerSurface) → Step g s (layer_destroy g.configure g.world.box ls s)
  lock_asked : {s : Server F} (n : ℕ) → Step g s (new_session_lock g.world.box n s).0
  lock_shown : {s : Server F} (n k : ℕ) → Step g s (active_lock_new_surface n k s)
  lock_hidden : {s : Server F} (n : ℕ) → Step g s (lock_surface_destroy n s)
  unlocked : {s : Server F} → Step g s (active_lock_unlock s)
  lock_gone : {s : Server F} → Step g s (active_lock_destroy s)

-- The states after a run of events.
pub data Reach {F : Floats} (g : Setting) (s : Server F) : Server F → Type 0 where
  here : Reach g s s
  after : {t u : Server F} → Reach g s t → Step g t u → Reach g s u

-- At no point of the run are there more outputs than workspaces.
abbrev pub Few : {F : Floats} {g : Setting} {s t : Server F} → Reach g s t → Type 0
Few {s} here = length s.outputs ≤ workspace_count
Few (after {t} {u} r step) = (length u.outputs ≤ workspace_count) × Few r

All-disabled :
    (i : ℕ) (ws : List Workspace)
    → All (λ (w : Workspace). w.enabled ≡ false) ws
    → (workspace_at i ws).enabled ≡ false
unfolding workspace_at
All-disabled i [] h = refl
All-disabled zero (w ∷ ws) h = h.0
All-disabled (suc i) (w ∷ ws) h = All-disabled i ws h.1

module _ {F : Floats} where
  new_session_lock-outputs :
      (box : Output → Box) (n : ℕ) (s : Server F) → (new_session_lock box n s).0.outputs ≡ s.outputs
  unfolding new_session_lock
  new_session_lock-outputs box n s = ground arith

  new_session_lock-workspaces :
      (box : Output → Box) (n : ℕ) (s : Server F)
      → (new_session_lock box n s).0.workspaces ≡ s.workspaces
  unfolding new_session_lock
  new_session_lock-workspaces box n s = ground arith

  active_lock_new_surface-Kept : (n k : ℕ) (s : Server F) → Kept s (active_lock_new_surface n k s)
  unfolding active_lock_new_surface
  active_lock_new_surface-Kept n k s = ground arith

  kum_new_output-length :
      (k : ℕ) (name : Bytes) (area : Box) (s : Server F)
      → length (kum_new_output k name area s).outputs ≡ suc (length s.outputs)
  unfolding kum_new_output set_workspace_enabled
  kum_new_output-length k name area s = refl

  -- One event keeps the invariant, if there are not more outputs than workspaces behind it.
  pub Step-Visible :
      (g : Setting) {s t : Server F}
      → Step g s t
      → length t.outputs ≤ workspace_count
      → Visible s
      → Visible t
  unfolding active_lock_unlock lock_surface_destroy active_lock_destroy
  Step-Visible g (output_added {s} k name area fresh) room v =
      let more = kum_new_output-length k name area s in
      kum_new_output-Visible k name area s v fresh (omega (arith, more, room))
  Step-Visible g (output_gone {s} o k) few v = output_destroy-Visible o s v k
  Step-Visible g (switched {s} o i k) few v = kum_workspace_switch-Visible o i s v k
  Step-Visible g (window_added {s} t) few v = Kept-Visible s _ (kum_new_xdg_toplevel-Kept t s) v
  Step-Visible g (window_mapped {s} {t} k e) few v =
      Kept-Visible s t (toplevel_map-Kept g.fnmatch k s t e) v
  Step-Visible g (window_unmapped {s} k) few v =
      Kept-Visible s _ (Same-Kept s _ (toplevel_unmap-Same k s)) v
  Step-Visible g (window_gone {s} k) few v = Kept-Visible s _ (toplevel_destroy-Kept k s) v
  Step-Visible g (window_focused {s} k) few v =
      Kept-Visible s _ (Same-Kept s _ (kum_focus_toplevel-Same k s)) v
  Step-Visible g (maximize_asked {s} k on) few v =
      Kept-Visible s _ (Same-Kept s _ (request_maximize-Same k on s)) v
  Step-Visible g (fullscreen_asked {s} k on) few v =
      Kept-Visible s _ (Same-Kept s _ (kum_toplevel_set_fullscreen-Same g.world.box k on s)) v
  Step-Visible g (acted {s} a e) few v =
      run_action-keeps Visible Kept-Visible kum_workspace_switch-Visible g.world s v a e
  Step-Visible g (key_used {s} {t} m syms pressed {es} {found} e) few v =
      keyboard_key-keeps Visible Kept-Visible kum_workspace_switch-Visible g.world m syms pressed s
        {t = t} {es = es} {found = found} v e
  Step-Visible g (cursor_moved {s} follows x y o under) few v =
      Kept-Visible s _ (Same-Kept s _ (kum_cursor_motion-Same follows x y o under s)) v
  Step-Visible g (button_used {s} {t} released button mod_held under e) few v =
      Kept-Visible s t (Same-Kept s t (kum_cursor_button-Same released button mod_held under s e)) v
  Step-Visible g (drag_asked {s} {t} k edges e) few v =
      Kept-Visible s t (Same-Kept s t (kum_toplevel_begin_interactive-Same k edges s e)) v
  Step-Visible g (received {s} buf) few v =
      handle_client_readable-keeps Visible Kept-Visible kum_workspace_switch-Visible buf s v
  Step-Visible g (reloaded {s} real fresh lines) few v =
      Kept-Visible s _ (Same-Kept s _ (kum_server_reload_config-Same real fresh lines s)) v
  Step-Visible g (layer_added {s} ls) few v =
      Kept-Visible s _ (kum_new_layer_surface-Kept g.configure g.world.box ls s) v
  Step-Visible g (layer_mapped {s} ls) few v =
      Kept-Visible s _ (layer_map-Kept g.configure g.world.box ls s) v
  Step-Visible g (layer_unmapped {s} ls) few v =
      Kept-Visible s _ (layer_unmap-Kept g.configure g.world.box ls s) v
  Step-Visible g (layer_committed {s} ls) few v =
      Kept-Visible s _ (layer_commit-Kept g.configure g.world.box ls s) v
  Step-Visible g (layer_gone {s} ls) few v =
      Kept-Visible s _ (layer_destroy-Kept g.configure g.world.box ls s) v
  Step-Visible g (lock_asked {s} n) few v =
      Visible-of s _ (new_session_lock-outputs g.world.box n s)
        (new_session_lock-workspaces g.world.box n s) v
  Step-Visible g (lock_shown {s} n k) few v =
      Kept-Visible s _ (active_lock_new_surface-Kept n k s) v
  Step-Visible g (lock_hidden {s} n) few v = Visible-of s _ refl refl v
  Step-Visible g (unlocked {s}) few v = Visible-of s _ refl refl v
  Step-Visible g (lock_gone {s}) few v = Visible-of s _ refl refl v

  -- With no output every workspace of `kum_workspace_init` is disabled.
  pub initial-Visible :
      (s : Server F) → s.outputs ≡ [] → s.workspaces ≡ initial_workspaces → Visible s
  unfolding initial_workspaces workspace_at
  initial-Visible s e f = record {
    distinct = subst Distinct (sym e) tt;
    low = subst (All (λ (o : Output). o.active_workspace < workspace_count)) (sym e) tt;
    nine = ap length f;
    shown = λ j h.
        ap (λ ws. (workspace_at j ws).enabled) f
        ∙ All-disabled j initial_workspaces
            (refl, (refl, (refl, (refl, (refl, (refl, (refl, (refl, (refl, tt)))))))))
        ∙ sym (ap (any (shows j)) e);
  }

  -- After every run of events from a start without outputs, during which there are never more than
  -- nine outputs, no workspace is on two outputs, every output shows one of the nine workspaces, and a
  -- workspace is enabled exactly when an output shows it.
  pub Reach-Visible :
      (g : Setting) {s t : Server F}
      → s.outputs ≡ []
      → s.workspaces ≡ initial_workspaces
      → (r : Reach g s t) → Few r
      → Visible t
  Reach-Visible g {s} e f here few = initial-Visible s e f
  Reach-Visible g e f (after r step) few = Step-Visible g step few.0 (Reach-Visible g e f r few.1)
