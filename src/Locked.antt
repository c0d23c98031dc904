-- ===== src/Locked.antt =====
-- The session lock of src/sessionlock.c against everything else that the compositor handles.
use kum_de.Base.{
  ℕ, ◌≡◌, refl, sym, ap, ◌∙◌, ◌⊎◌, inl, inr, Bool, true, false, ◌||◌, List, [], ◌∷◌, Option, none,
  some, arith, ◌==◌, leb, if◌then◌else◌, Bool-cases, Option-cases,
}
use kum_de.Base.Int.{ℤ, pos, negsuc}
use kum_de.Arrange.{kum_workspace_arrange}
use kum_de.Focus.{focus_first_mapped}
use kum_de.Frame.{
  Same, Same-refl, no_window, focus_first_mapped-Same, drop_focus_on-Same,
  kum_workspace_arrange-Same, workspace_translate-Same, kum_focus_toplevel-Same,
}
use kum_de.Output.{
  migrate_or_hide, output_destroy, migrate_workspace, kum_new_output, remove_output,
}
use kum_de.Server.{
  Floats, Server, Box, Output, is_tile, workspace_event, update_output, find_output, workspace_at,
  workspace_count, set_workspace_enabled,
}
use kum_de.SessionLock.{
  finished, is_some, is_lock_surface, new_session_lock, active_lock_new_surface, active_lock_unlock,
  active_lock_destroy, lock_surface_destroy,
}
use kum_de.Workspace.{switch_output, swap_with, other_showing, drop_focus_on, kum_workspace_switch}
use kum_de.Visible.Reload.{kum_server_reload_config-Same}
use kum_de.Visible.Kept.{Kept}
use kum_de.Visible.Handlers.{
  toplevel_map-Kept, toplevel_unmap-Same, request_maximize-Same, kum_toplevel_set_fullscreen-Same,
}
use kum_de.Visible.Commands.{handle_client_readable-keeps}
use kum_de.Visible.Input.{
  keyboard_key-keeps, kum_cursor_motion-Same, kum_cursor_button-Same,
  kum_toplevel_begin_interactive-Same,
}
use kum_de.Visible.Keys.{run_action-keeps}
use kum_de.Visible.Reach.{
  Setting, Step, output_added, output_gone, switched, window_added, window_mapped, window_unmapped,
  window_gone, window_focused, maximize_asked, fullscreen_asked, acted, received, key_used,
  cursor_moved, button_used, drag_asked, reloaded, layer_added, layer_mapped, layer_unmapped,
  layer_committed, layer_gone, lock_asked, lock_shown, lock_hidden, unlocked, lock_gone, Reach,
  here, after,
}
use kum_de.Visible.Surfaces.{
  layer_map-Kept, layer_unmap-Kept, layer_commit-Kept, layer_destroy-Kept,
  kum_new_layer_surface-Kept,
}
use kum_de.Visible.Windows.{kum_new_xdg_toplevel-Kept, toplevel_destroy-Kept}

-- `t` is locked as `s` is, and under the lock the keyboard did not get on a window.
record Held {F : Floats} (s t : Server F) : Type 0 where
  locked : t.locked ≡ s.locked
  quiet : s.locked ≡ true → no_window s.seat_focus ≡ true → no_window t.seat_focus ≡ true

module _ {F : Floats} where
  Held-refl : (s : Server F) → Held s s
  Held-refl s = record { locked = refl; quiet = λ l n. n }

  Held-trans : (s t u : Server F) → Held s t → Held t u → Held s u
  Held-trans s t u h k = record {
    locked = k.locked ∙ h.locked;
    quiet = λ l n. k.quiet (h.locked ∙ l) (h.quiet l n);
  }

  of_Same : (s t : Server F) → Same s t → Held s t
  of_Same s t h = record { locked = h.locked; quiet = h.quiet }

  of_Kept : (s t : Server F) → Kept s t → Held s t
  of_Kept s t h = record { locked = h.locked_kept; quiet = h.quiet_kept }

  swap_with-Held : (o p : Output) (i : ℕ) (s : Server F) → Held s (swap_with o p i s)
  unfolding swap_with set_workspace_enabled
  swap_with-Held o p i s =
      let h = workspace_translate-Same i _ _ _ in
      let k = workspace_translate-Same o.active_workspace _ _ _ in
      record { locked = h.locked ∙ k.locked; quiet = λ l n. h.quiet (k.locked ∙ l) (k.quiet l n) }

  switch_output-Held : (o : Output) (i : ℕ) (s : Server F) → Held s (switch_output o i s)
  unfolding switch_output set_workspace_enabled
  switch_output-Held o i s = ending _ (released (other_showing o i s))
    where
      released :
          (other : Option Output)
          → Held s (elim other [
            | none ↦ set_workspace_enabled o.active_workspace false s
            | some p ↦ swap_with o p i s
          ])
      released none = record { locked = refl; quiet = λ l n. n }
      released (some p) = swap_with-Held o p i s

      ending :
          (s1 : Server F)
          → Held s s1
          → Held s
              (record (focus_first_mapped i (
                drop_focus_on o.active_workspace (
                  set_workspace_enabled i true (record s1 {
                    outputs =
                        update_output o.id
                          (λ p. record p {
                            previous_workspace = o.active_workspace;
                            active_workspace = i;
                          })
                          s1.outputs;
                  })))) {
                    sent =
                        workspace_event o.name i
                        ∷ (focus_first_mapped i (
                            drop_focus_on o.active_workspace (
                              set_workspace_enabled i true (record s1 {
                                outputs =
                                    update_output o.id
                                      (λ p. record p {
                                        previous_workspace = o.active_workspace;
                                        active_workspace = i;
                                      })
                                      s1.outputs;
                              })))).sent;
                  })
      ending s1 g =
          let d = drop_focus_on-Same o.active_workspace _ in
          let f = focus_first_mapped-Same i _ in
          record {
            locked = f.locked ∙ d.locked ∙ g.locked;
            quiet = λ l n. f.quiet (d.locked ∙ g.locked ∙ l) (d.quiet (g.locked ∙ l) (g.quiet l n));
          }

  kum_workspace_switch-Held :
      (o : Output) (i : ℤ) (s : Server F) → Held s (kum_workspace_switch (some o) i s)
  unfolding kum_workspace_switch
  kum_workspace_switch-Held o (negsuc _) s = Held-refl s
  kum_workspace_switch-Held o (pos i) s = elim (Bool-cases (leb workspace_count i)) [
    | inl e ↦ rw e (Held-refl s)
    | inr e ↦ rw e (elim (Bool-cases (o.active_workspace == i)) [
      | inl f ↦ rw f (Held-refl s)
      | inr f ↦ rw f (switch_output-Held o i s)
    ])
  ]

  migrate_workspace-Held :
      (dst : Output) (i : ℕ) (s : Server F) → Held s (migrate_workspace dst i s)
  unfolding migrate_workspace set_workspace_enabled
  migrate_workspace-Held dst i s =
      let a = arranged (is_tile (workspace_at i _).layout) _ in
      let f = focus_first_mapped-Same i _ in
      record { locked = f.locked ∙ a.locked; quiet = λ l n. f.quiet (a.locked ∙ l) (a.quiet l n) }
    where
      arranged : (b : Bool) (t : Server F) → Same t (if b then kum_workspace_arrange dst i t else t)
      arranged true t = kum_workspace_arrange-Same dst i t
      arranged false t = Same-refl t

  output_destroy-Held : (o : Output) (s : Server F) → Held s (output_destroy o s)
  unfolding output_destroy migrate_or_hide set_workspace_enabled
  output_destroy-Held o s =
      let s1 : Server F = record s { outputs = remove_output o.id s.outputs } in
      let d = drop_focus_on-Same o.active_workspace s1 in
      Held-trans s (drop_focus_on o.active_workspace s1) _
        record { locked = d.locked; quiet = d.quiet }
        (ends (remove_output o.id s.outputs) (drop_focus_on o.active_workspace s1))
    where
      ends : (os : List Output) (t : Server F) → Held t (migrate_or_hide o.active_workspace os t)
      ends [] t = record { locked = refl; quiet = λ l n. n }
      ends (dst ∷ _) t = migrate_workspace-Held dst o.active_workspace t

  -- The event is the unlock that the client of the lock asks for.
  unfoldable pub is_unlock : {g : Setting} {s t : Server F} → Step g s t → Bool
  is_unlock unlocked = true
  is_unlock _ = false

  -- What a step does to the lock: nothing, or it is the unlock if `asked`, or it takes the lock with the
  -- keyboard cleared.
  abbrev Turn : Bool → Server F → Server F → Type 0
  Turn asked s t =
      Held s t
      ⊎ ((asked ≡ true) × (t ≡ active_lock_unlock s))
      ⊎ ((t.locked ≡ true) × (no_window t.seat_focus ≡ true))

  kept : {asked : Bool} (s t : Server F) → Kept s t → Turn asked s t
  kept s t h = inl (of_Kept s t h)

  new_session_lock-Turn :
      (box : Output → Box) (n : ℕ) (s : Server F) → Turn false s (new_session_lock box n s).0
  unfolding new_session_lock
  new_session_lock-Turn box n s = elim (Bool-cases (is_some s.active_lock || s.locked)) [
    | inl e ↦ rw (e, new_session_lock) (inl (Held-refl s))
    | inr e ↦ rw (e, new_session_lock) (inr (inr (refl, refl)))
  ]

  active_lock_new_surface-Held : (n k : ℕ) (s : Server F) → Held s (active_lock_new_surface n k s)
  unfolding active_lock_new_surface
  active_lock_new_surface-Held n k s = elim (Option-cases (find_output k s.outputs)) [
    | inl e ↦ rw (e, active_lock_new_surface) (Held-refl s)
    | inr (o, e) ↦ elim (Bool-cases (is_lock_surface s.seat_focus n)) [
      | inl f ↦ rw (e, f, active_lock_new_surface) record { locked = refl; quiet = λ l n. n }
      | inr f ↦ rw (e, f, active_lock_new_surface) record { locked = refl; quiet = λ l n. refl }
    ]
  ]

  Step-Turn : (g : Setting) {s t : Server F} (step : Step g s t) → Turn (is_unlock step) s t
  unfolding is_unlock lock_surface_destroy active_lock_destroy kum_new_output set_workspace_enabled
  Step-Turn g (output_added k name area fresh) = inl record { locked = refl; quiet = λ l n. n }
  Step-Turn g (output_gone {s} o k) = inl (output_destroy-Held o s)
  Step-Turn g (switched {s} o i k) = inl (kum_workspace_switch-Held o i s)
  Step-Turn g (window_added {s} t) = kept s _ (kum_new_xdg_toplevel-Kept t s)
  Step-Turn g (window_mapped {s} {t} k e) = kept s t (toplevel_map-Kept g.fnmatch k s t e)
  Step-Turn g (window_unmapped {s} k) = inl (of_Same s _ (toplevel_unmap-Same k s))
  Step-Turn g (window_gone {s} k) = kept s _ (toplevel_destroy-Kept k s)
  Step-Turn g (window_focused {s} k) = inl (of_Same s _ (kum_focus_toplevel-Same k s))
  Step-Turn g (maximize_asked {s} k on) = inl (of_Same s _ (request_maximize-Same k on s))
  Step-Turn g (fullscreen_asked {s} k on) =
      inl (of_Same s _ (kum_toplevel_set_fullscreen-Same g.world.box k on s))
  Step-Turn g (acted {s} a e) = inl (
      run_action-keeps (Held s) (λ t u h v. Held-trans s t u v (of_Kept t u h))
        (λ o i t h k. Held-trans s t _ h (kum_workspace_switch-Held o i t)) g.world s (Held-refl s)
        a e)
  Step-Turn g (key_used {s} {t} m syms pressed {es} {found} e) = inl (
      keyboard_key-keeps (Held s) (λ t u h v. Held-trans s t u v (of_Kept t u h))
        (λ o i t h k. Held-trans s t _ h (kum_workspace_switch-Held o i t)) g.world m syms pressed s
        {t = t} {es = es} {found = found} (Held-refl s) e)
  Step-Turn g (cursor_moved {s} follows x y o under) =
      inl (of_Same s _ (kum_cursor_motion-Same follows x y o under s))
  Step-Turn g (button_used {s} {t} released button mod_held under e) =
      inl (of_Same s t (kum_cursor_button-Same released button mod_held under s e))
  Step-Turn g (drag_asked {s} {t} k edges e) =
      inl (of_Same s t (kum_toplevel_begin_interactive-Same k edges s e))
  Step-Turn g (received {s} buf) = inl (
      handle_client_readable-keeps (Held s) (λ t u h v. Held-trans s t u v (of_Kept t u h))
        (λ o i t h k. Held-trans s t _ h (kum_workspace_switch-Held o i t)) buf s (Held-refl s))
  Step-Turn g (reloaded {s} real fresh lines) =
      inl (of_Same s _ (kum_server_reload_config-Same real fresh lines s))
  Step-Turn g (layer_added {s} ls) =
      kept s _ (kum_new_layer_surface-Kept g.configure g.world.box ls s)
  Step-Turn g (layer_mapped {s} ls) = kept s _ (layer_map-Kept g.configure g.world.box ls s)
  Step-Turn g (layer_unmapped {s} ls) = kept s _ (layer_unmap-Kept g.configure g.world.box ls s)
  Step-Turn g (layer_committed {s} ls) = kept s _ (layer_commit-Kept g.configure g.world.box ls s)
  Step-Turn g (layer_gone {s} ls) = kept s _ (layer_destroy-Kept g.configure g.world.box ls s)
  Step-Turn g (lock_asked {s} n) = new_session_lock-Turn g.world.box n s
  Step-Turn g (lock_shown {s} n k) = inl (active_lock_new_surface-Held n k s)
  Step-Turn g (lock_hidden n) = inl record { locked = refl; quiet = λ l n. n }
  Step-Turn g unlocked = inr (inl (refl, refl))
  Step-Turn g lock_gone = inl record { locked = refl; quiet = λ l n. n }

  -- One event at a locked server leaves it locked, unless the event is the request of the lock's own
  -- client to unlock; then the server is what the handler of that request makes of it.
  pub Step-locked :
      (g : Setting) {s t : Server F} (step : Step g s t)
      → s.locked ≡ true
      → (t.locked ≡ true) ⊎ ((is_unlock step ≡ true) × (t ≡ active_lock_unlock s))
  Step-locked g {s} {t} step l = elim (Step-Turn g step) [
    | inl h ↦ inl (h.locked ∙ l)
    | inr (inl e) ↦ inr e
    | inr (inr (m, n)) ↦ inl m
  ]

  -- No event of the run is the request to unlock.
  abbrev pub UnlockFree : {g : Setting} {s t : Server F} → Reach g s t → Type 0
  UnlockFree here = Unit
  UnlockFree (after r step) = (is_unlock step ≡ false) × UnlockFree r

  Reach-locked :
      (g : Setting) {s t : Server F} (r : Reach g s t)
      → s.locked ≡ true
      → UnlockFree r
      → t.locked ≡ true
  Reach-locked g here l u = l
  Reach-locked g (after r step) l u = elim (Step-locked g step (Reach-locked g r l u.1)) [
    | inl m ↦ m
    | inr (a, e) ↦ absurd (cc (a, u.0))
  ]

  -- In every state that events lead to from an unlocked start, a locked server has the keyboard on
  -- no window.
  pub Reach-no_window :
      (g : Setting) {s t : Server F}
      → s.locked ≡ false
      → Reach g s t
      → t.locked ≡ true
      → no_window t.seat_focus ≡ true
  unfolding active_lock_unlock
  Reach-no_window g e here l = absurd (cc)
  Reach-no_window g {s} e (after {t} {u} r step) l = elim (Step-Turn g step) [
    | inl h ↦
        let before : t.locked ≡ true = sym h.locked ∙ l in
        h.quiet before (Reach-no_window g e r before)
    | inr (inl (a, f)) ↦ absurd (ground (arith, ap (λ (v : Server F). v.locked) f))
    | inr (inr (m, n)) ↦ n
  ]

  -- Once the server is locked, and until the locking client asks to unlock, every further lock is
  -- refused whatever else happens, also after the locking client is gone: the server does not change,
  -- and the client that asked hears `finished`.
  pub Reach-refused :
      (g : Setting) {s t : Server F} (r : Reach g s t) (box : Output → Box) (n : ℕ)
      → s.locked ≡ true
      → UnlockFree r
      → new_session_lock box n t ≡ (t, finished)
  unfolding new_session_lock
  Reach-refused g {s} {t} r box n l u =
      let m = Reach-locked g r l u in
      let shut = Bool-cases (is_some t.active_lock) in ground (arith, m, shut)
