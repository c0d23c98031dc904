-- ===== src/Visible/Keys.antt =====
-- The actions of src/keybind.c keep the invariant, the switch of workspaces among them.
use mathlib.Core.Path.{subst}
use kum_de.Base.{
  ℕ, ◌^◌, ◌-◌, ◌≡◌, refl, ap, ◌∙◌, inl, inr, Bool, true, false, not, List, [], ◌∷◌, Option, none,
  some, arith, leb, ◌==◌, if◌then◌else◌, Bool-cases, Option-cases,
}
use kum_de.Base.Int.{ℤ, pos, negsuc}
use kum_de.Actions.{
  Effect, World, Run, run_action, action_cycle_focus, action_toggle_floating,
  action_switch_workspace, action_move_to_workspace, action_layout_monocle,
  action_toggle_fullscreen, least_recent,
}
use kum_de.Keybind.{Action}
use kum_de.KbLayout.{kum_kb_layout_next}
use kum_de.Frame.{Same, Same-refl, kum_focus_toplevel-Same}
use kum_de.Server.{
  Floats, Server, Output, monocle, is_tile, find_output, workspace_at, workspace_count,
  kum_output_focused, update_toplevel,
}
use kum_de.Text.{Bytes}
use kum_de.Tiling.{
  kum_tiling_swap_master, focused_toplevel, kum_tiling_resize, kum_output_focus_adjacent,
}
use kum_de.Toplevel.{kum_toplevel_set_fullscreen}
use kum_de.Workspace.{
  kum_workspace_switch, kum_workspace_move_toplevel, kum_workspace_scratchpad_toggle,
}
use kum_de.Visible.Outputs.{Visible, find?-passes}
use kum_de.Visible.Switch.{Known}
use kum_de.Visible.Switched.{switch_output-Visible}
use kum_de.Visible.Kept.{Kept, Kept-refl, Same-Kept}
use kum_de.Visible.Windows.{
  kum_workspace_move_toplevel-Kept, kum_workspace_toggle_layout-Kept, layout_arranged-Kept,
}
use kum_de.Visible.Tiled.{
  kum_tiling_swap_master-Kept, kum_tiling_resize-Same, kum_output_focus_adjacent-Same,
}
use kum_de.Visible.Handlers.{arrange_at-Same}

module _ {F : Floats} where
  -- The output under the cursor is one of the outputs.
  pub kum_output_focused-Known :
      (s : Server F) {o : Output} → kum_output_focused s ≡ some o → Known o s
  unfolding kum_output_focused
  kum_output_focused-Known s {o} e = elim (Option-cases s.cursor_output) [
    | inl f ↦ absurd (ground arith)
    | inr (k, f) ↦
        let found : find_output k s.outputs ≡ some o = ground arith in
        let same : o.id ≡ k = ground (arith, find?-passes (λ p. p.id == k) s.outputs found) in
        ap (λ n. find_output n s.outputs) same ∙ found
  ]

  -- A switch on a known output, to any index, keeps the invariant: no workspace on two outputs, and
  -- exactly the shown workspaces enabled.
  pub kum_workspace_switch-Visible :
      (o : Output) (i : ℤ) (s : Server F)
      → Visible s
      → Known o s
      → Visible (kum_workspace_switch (some o) i s)
  unfolding kum_workspace_switch
  kum_workspace_switch-Visible o (negsuc _) s v k = v
  kum_workspace_switch-Visible o (pos i) s v k = elim (Bool-cases (leb workspace_count i)) [
    | inl e ↦ rw e v
    | inr e ↦ rw e (elim (Bool-cases (o.active_workspace == i)) [
      | inl f ↦ rw f v
      | inr f ↦ rw f (switch_output-Visible o i s v k (ground arith) (ground arith))
    ])
  ]

  action_cycle_focus-Same : (s : Server F) → Same s (action_cycle_focus s)
  unfolding action_cycle_focus
  action_cycle_focus-Same s = elim (Option-cases (least_recent (2 ^ 64 - 1) none s.toplevels)) [
    | inl e ↦ rw (e, action_cycle_focus) (Same-refl s)
    | inr (k, e) ↦ rw (e, action_cycle_focus) (kum_focus_toplevel-Same k s)
  ]

  action_move_to_workspace-Kept : (i : ℕ) (s : Server F) → Kept s (action_move_to_workspace i s)
  unfolding action_move_to_workspace
  action_move_to_workspace-Kept i s = go s.focused
    where
      go :
          (f : Option ℕ)
          → Kept s (elim f [ none ↦ s | some k ↦ kum_workspace_move_toplevel k (pos i) s ])
      go none = Kept-refl s
      go (some k) = kum_workspace_move_toplevel-Kept k (pos i) s

  action_layout_monocle-Kept : (s : Server F) → Kept s (action_layout_monocle s)
  unfolding action_layout_monocle
  action_layout_monocle-Kept s = elim (Option-cases (kum_output_focused s)) [
    | inl e ↦ rw (e, action_layout_monocle) (Kept-refl s)
    | inr (o, e) ↦
        rw (e, action_layout_monocle) (layout_arranged-Kept o o.active_workspace monocle s)
  ]

  action_toggle_fullscreen-Same : (w : World) (s : Server F) → Same s (action_toggle_fullscreen w s)
  unfolding action_toggle_fullscreen kum_toplevel_set_fullscreen
  action_toggle_fullscreen-Same w s = elim (Option-cases (focused_toplevel s)) [
    | inl e ↦ rw (e, action_toggle_fullscreen) (Same-refl s)
    | inr (t, e) ↦ rw (e, action_toggle_fullscreen) (full t.id (not t.fullscreen))
  ]
    where
      full : (k : ℕ) (b : Bool) → Same s (kum_toplevel_set_fullscreen w.box k b s)
      full k true = record { outputs = refl; workspaces = refl; locked = refl; quiet = λ l n. n }
      full k false = record { outputs = refl; workspaces = refl; locked = refl; quiet = λ l n. n }

  kum_kb_layout_next-Same : (text : Bytes) (s : Server F) → Same s (kum_kb_layout_next text s)
  unfolding kum_kb_layout_next
  kum_kb_layout_next-Same text s = ground arith

  action_toggle_floating-Same :
      (s : Server F) {t : Server F} → action_toggle_floating s ≡ some t → Same s t
  unfolding action_toggle_floating
  action_toggle_floating-Same s {t} e = elim (Option-cases (focused_toplevel s)) [
    | inl f ↦ let same : s ≡ t = ground arith in rw (← same) (Same-refl s)
    | inr (u, f) ↦ elim (Bool-cases (is_tile (workspace_at u.workspace s.workspaces).layout)) [
      | inl g ↦
          let s1 : Server F = record s {
            toplevels =
                update_toplevel u.id (λ x. record x { floating = not x.floating }) s.toplevels;
          } in
          let h = arrange_at-Same (kum_output_focused s) u.workspace s1 {t = t} (ground arith) in
          record {
            outputs = h.outputs;
            workspaces = h.workspaces;
            locked = h.locked;
            quiet = h.quiet;
          }
      | inr g ↦ let same : s ≡ t = ground arith in rw (← same) (Same-refl s)
    ]
  ]

abbrev Ran : {F : Floats} → Server F → List Effect → Server F → List Effect → Type 0
Ran {F} u fs t es = ◌≡◌ {A = Run F} (some (u, fs)) (some (t, es))

-- A predicate that windows and focus do not touch, and that a switch on a known output keeps.
module _ {F : Floats} (P : Server F → Type 0) (kept : (s t : Server F) → Kept s t → P s → P t)
    (switch : (o : Output) (i : ℤ) (s : Server F)
      → P s
      → Known o s
      → P (kum_workspace_switch (some o) i s)) where
  focused_switch-keeps :
      (i : Output → ℤ) (s : Server F)
      → P s
      → P (elim (kum_output_focused s) [
        | none ↦ s
        | some o ↦ kum_workspace_switch (some o) (i o) s
      ])
  focused_switch-keeps i s v = elim (Option-cases (kum_output_focused s)) [
    | inl e ↦ rw e v
    | inr (o, e) ↦ rw e (switch o (i o) s v (kum_output_focused-Known s e))
  ]

  action_switch_workspace-keeps : (i : ℕ) (s : Server F) → P s → P (action_switch_workspace i s)
  unfolding action_switch_workspace
  action_switch_workspace-keeps i s v =
      focused_switch-keeps (λ o. pos (if o.active_workspace == i then o.previous_workspace else i))
        s v

  kum_workspace_scratchpad_toggle-keeps :
      (s : Server F) → P s → P (kum_workspace_scratchpad_toggle s)
  unfolding kum_workspace_scratchpad_toggle
  kum_workspace_scratchpad_toggle-keeps s v = elim (Option-cases (kum_output_focused s)) [
    | inl e ↦ rw (e, kum_workspace_scratchpad_toggle) v
    | inr (o, e) ↦ rw (e, kum_workspace_scratchpad_toggle) (on o (kum_output_focused-Known s e))
  ]
    where
      on :
          (o : Output)
          → Known o s
          → P (
              if o.active_workspace == s.scratchpad_ws
              then kum_workspace_switch (some o) (pos (if s.scratchpad_ws == 0 then 1 else 0)) s
              else kum_workspace_switch (some o) (pos s.scratchpad_ws) s)
      on o k = elim (Bool-cases (o.active_workspace == s.scratchpad_ws)) [
        | inl f ↦ rw f (switch o _ s v k)
        | inr f ↦ rw f (switch o (pos s.scratchpad_ws) s v k)
      ]

module _ {F : Floats} (P : Server F → Type 0) (kept : (s t : Server F) → Kept s t → P s → P t)
    (switch : (o : Output) (i : ℤ) (s : Server F)
      → P s
      → Known o s
      → P (kum_workspace_switch (some o) i s))
    (w : World) (s : Server F) (v : P s) where
  quiet-keeps : (u : Server F) {t : Server F} {es : List Effect} → P u → Ran u [] t es → P t
  quiet-keeps u {t} h e = let same : u ≡ t = ground arith in subst P same h

  stays : {es fs : List Effect} {t : Server F} → Ran s fs t es → P t
  stays {t = t} e = let same : s ≡ t = ground arith in subst P same v

  adjacent :
      (dx dy : ℤ) {t : Server F} {es : List Effect}
      → Ran (kum_output_focus_adjacent w.probe dx dy s) [] t es
      → P t
  adjacent dx dy e =
      quiet-keeps _ (kept s _ (Same-Kept s _ (kum_output_focus_adjacent-Same w.probe dx dy s)) v) e

  resized :
      (dw dh : ℤ) {t : Server F} {es : List Effect} → Ran (kum_tiling_resize dw dh s) [] t es → P t
  resized dw dh e = quiet-keeps _ (kept s _ (Same-Kept s _ (kum_tiling_resize-Same dw dh s)) v) e

  -- Every bound action that returns keeps such a predicate.
  pub run_action-keeps :
      (a : Action) {t : Server F} {es : List Effect} → run_action w a s ≡ some (t, es) → P t
  unfolding run_action
  run_action-keeps Action.quit e = stays e
  run_action-keeps Action.cycle_focus e =
      quiet-keeps _ (kept s _ (Same-Kept s _ (action_cycle_focus-Same s)) v) e
  run_action-keeps Action.close_focused e = close s.focused e
    where
      close :
          (f : Option ℕ) {t : Server F} {es : List Effect}
          → ◌≡◌ {A = Run F}
              (elim f [ none ↦ some (s, []) | some k ↦ some (s, Effect.send_close k ∷ []) ])
              (some (t, es))
          → P t
      close none h = stays h
      close (some k) h = stays h
  run_action-keeps Action.toggle_layout e =
      quiet-keeps _ (kept s _ (kum_workspace_toggle_layout-Kept (kum_output_focused s) s) v) e
  run_action-keeps Action.toggle_floating {t} e = elim (Option-cases (action_toggle_floating s)) [
    | inl f ↦ absurd (ground arith)
    | inr (u, f) ↦
        let same : u ≡ t = ground arith in
        subst P same (kept s u (Same-Kept s u (action_toggle_floating-Same s f)) v)
  ]
  run_action-keeps (Action.switch_workspace i) e =
      quiet-keeps _ (action_switch_workspace-keeps P kept switch i s v) e
  run_action-keeps (Action.move_to_workspace i) e =
      quiet-keeps _ (kept s _ (action_move_to_workspace-Kept i s) v) e
  run_action-keeps Action.focus_left e = adjacent _ _ e
  run_action-keeps Action.focus_right e = adjacent _ _ e
  run_action-keeps Action.focus_up e = adjacent _ _ e
  run_action-keeps Action.focus_down e = adjacent _ _ e
  run_action-keeps Action.toggle_fullscreen e =
      quiet-keeps _ (kept s _ (Same-Kept s _ (action_toggle_fullscreen-Same w s)) v) e
  run_action-keeps Action.scratchpad e =
      quiet-keeps _ (kum_workspace_scratchpad_toggle-keeps P kept switch s v) e
  run_action-keeps Action.layout_monocle e =
      quiet-keeps _ (kept s _ (action_layout_monocle-Kept s) v) e
  run_action-keeps Action.kb_layout_next e =
      quiet-keeps _ (kept s _ (Same-Kept s _ (kum_kb_layout_next-Same w.kb_layout s)) v) e
  run_action-keeps Action.swap_master {t} e = elim (Option-cases (kum_tiling_swap_master s)) [
    | inl f ↦ absurd (ground arith)
    | inr (u, f) ↦
        let same : u ≡ t = ground arith in
        subst P same (kept s u (kum_tiling_swap_master-Kept s {u = u} f) v)
  ]
  run_action-keeps Action.resize_right e = resized _ _ e
  run_action-keeps Action.resize_left e = resized _ _ e
  run_action-keeps Action.resize_down e = resized _ _ e
  run_action-keeps Action.resize_up e = resized _ _ e
  run_action-keeps _ e = stays e
