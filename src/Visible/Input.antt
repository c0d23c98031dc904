-- ===== src/Visible/Input.antt =====
-- What the keys and the cursor of src/input.c keep.
use mathlib.Core.Path.{subst}
use kum_de.Base.{
  ℕ, ◌≡◌, refl, Bool, true, false, not, ◌&&◌, List, [], ◌∷◌, Option, none, some, find?, arith,
  if◌then◌else◌, inl, inr, Bool-cases, Option-cases,
}
use kum_de.Base.Int.{ℤ}
use kum_de.Actions.{Effect, World, kum_keybind_handle, run_action}
use kum_de.Focus.{kum_focus_toplevel}
use kum_de.Frame.{Same, Same-refl, Same-trans, kum_focus_toplevel-Same}
use kum_de.Input.{
  Button, btn_left, btn_right, btn_other, is_focus, is_none, hover, process_cursor_motion,
  kum_cursor_motion, release, press_edge, press, kum_cursor_button, handle_syms, keyboard_key,
  edges_at_point,
}
use kum_de.Keybind.{Key, Modifiers, find_action, keybinds}
use kum_de.Server.{
  Floats, Server, Edges, Output, Toplevel, find_toplevel, output_for_workspace, is_tile,
  workspace_at, no_edges,
}
use kum_de.Toplevel.{with_toplevel, promote, grab, kum_toplevel_begin_interactive}
use kum_de.Visible.Handlers.{arrange_at-Same}
use kum_de.Visible.Kept.{Kept}
use kum_de.Visible.Keys.{run_action-keeps}
use kum_de.Visible.Switch.{Known}
use kum_de.Workspace.{kum_workspace_switch}

module _ {F : Floats} where
  with_toplevel-Same :
      (k : ℕ) (f : Toplevel → Toplevel) (s : Server F) → Same s (with_toplevel k f s)
  with_toplevel-Same k f s = record {
    outputs = refl;
    workspaces = refl;
    locked = refl;
    quiet = λ l n. n;
  }

  promote-Same :
      (k : ℕ) (t : Toplevel) (s : Server F) {u : Server F} → promote k t s ≡ some u → Same s u
  unfolding promote
  promote-Same k t s {u} e =
      elim (Bool-cases (is_tile (workspace_at t.workspace s.workspaces).layout && not t.floating)) [
        | inl f ↦
            let s1 : Server F =
              with_toplevel k (λ u. record u { floating = true; saved_geom = u.geometry }) s in
            Same-trans s s1 u (with_toplevel-Same k _ s)
              (arrange_at-Same (output_for_workspace s t.workspace) t.workspace s1 (ground arith))
        | inr f ↦ let same : s ≡ u = ground arith in rw (← same) (Same-refl s)
      ]

  pub kum_toplevel_begin_interactive-Same :
      (k : ℕ) (edges : Edges) (s : Server F) {u : Server F}
      → kum_toplevel_begin_interactive k edges s ≡ some u
      → Same s u
  unfolding kum_toplevel_begin_interactive
  kum_toplevel_begin_interactive-Same k edges s {u} e =
      elim (Option-cases (find_toplevel k s.toplevels)) [
        | inl f ↦ let same : s ≡ u = ground arith in rw (← same) (Same-refl s)
        | inr (t, f) ↦ elim (Option-cases (promote k t s)) [
          | inl g ↦ absurd (ground arith)
          | inr (s1, g) ↦
              let same : with_toplevel k (grab edges s1.cursor_x s1.cursor_y) s1 ≡ u =
                ground arith in
              rw (← same)
                (Same-trans s s1 _ (promote-Same k t s {u = s1} g) (with_toplevel-Same k _ s1))
        ]
      ]

  hover-Same : (follows : Bool) (under : Option ℕ) (s : Server F) → Same s (hover follows under s).0
  unfolding hover
  hover-Same follows none s = Same-refl s
  hover-Same follows (some k) s = go (follows && not (is_focus s.focused k))
    where
      go : (b : Bool) → Same s (if b then kum_focus_toplevel k s else s)
      go true = kum_focus_toplevel-Same k s
      go false = Same-refl s

  process_cursor_motion-Same :
      (follows : Bool) (under : Option ℕ) (s : Server F)
      → Same s (process_cursor_motion follows under s).0
  unfolding process_cursor_motion
  process_cursor_motion-Same follows under s =
      elim (Option-cases (find? (λ t. t.grabbed) s.toplevels)) [
        | inl e ↦ rw (process_cursor_motion, e) (hover-Same follows under s)
        | inr (t, e) ↦ rw (process_cursor_motion, e) (with_toplevel-Same t.id _ s)
      ]

  pub kum_cursor_motion-Same :
      (follows : Bool) (x y : ℤ) (o under : Option ℕ) (s : Server F)
      → Same s (kum_cursor_motion follows x y o under s).0
  unfolding kum_cursor_motion
  kum_cursor_motion-Same follows x y o under s =
      let s1 : Server F = record s { cursor_x = x; cursor_y = y; cursor_output = o } in
      let moved = process_cursor_motion-Same follows under s1 in
      record {
        outputs = moved.outputs;
        workspaces = moved.workspaces;
        locked = moved.locked;
        quiet = moved.quiet;
      }

  press_edge-Same : (k : ℕ) (s : Server F) {u : Server F} → press_edge k s ≡ some u → Same s u
  unfolding press_edge
  press_edge-Same k s {u} e = elim (Option-cases (find_toplevel k s.toplevels)) [
    | inl f ↦ let same : s ≡ u = ground arith in rw (← same) (Same-refl s)
    | inr (t, f) ↦ elim (Bool-cases (is_none (edges_at_point t s.cursor_x s.cursor_y))) [
      | inl b ↦ let same : s ≡ u = ground arith in rw (← same) (Same-refl s)
      | inr b ↦
          kum_toplevel_begin_interactive-Same k (edges_at_point t s.cursor_x s.cursor_y) s
            (ground arith)
    ]
  ]

  press-Same :
      (button : Button) (mod_held : Bool) (k : ℕ) (s : Server F) {u : Server F}
      → press button mod_held k s ≡ some u
      → Same s u
  unfolding press
  press-Same btn_other mod_held k s {u} e =
      let same : s ≡ u = ground arith in rw (← same) (Same-refl s)
  press-Same btn_left true k s e = kum_toplevel_begin_interactive-Same k no_edges s e
  press-Same btn_left false k s e = press_edge-Same k s e
  press-Same btn_right true k s e = kum_toplevel_begin_interactive-Same k _ s e
  press-Same btn_right false k s {u} e =
      let same : s ≡ u = ground arith in rw (← same) (Same-refl s)

  pub kum_cursor_button-Same :
      (released : Bool) (button : Button) (mod_held : Bool) (under : Option ℕ) (s : Server F)
      {u : Server F}
      → kum_cursor_button released button mod_held under s ≡ some u
      → Same s u
  unfolding kum_cursor_button release
  kum_cursor_button-Same true button mod_held under s {u} e =
      let same : release s ≡ u = ground arith in
      rw (← same) record { outputs = refl; workspaces = refl; locked = refl; quiet = λ l n. n }
  kum_cursor_button-Same false button mod_held none s {u} e =
      let same : s ≡ u = ground arith in rw (← same) (Same-refl s)
  kum_cursor_button-Same false button mod_held (some k) s {u} e =
      Same-trans s (kum_focus_toplevel k s) u (kum_focus_toplevel-Same k s)
        (press-Same button mod_held k (kum_focus_toplevel k s) e)

module _ {F : Floats} (P : Server F → Type 0) (kept : (s t : Server F) → Kept s t → P s → P t)
    (switch : (o : Output) (i : ℤ) (s : Server F)
      → P s
      → Known o s
      → P (kum_workspace_switch (some o) i s))
    (w : World) where
  kum_keybind_handle-keeps :
      (m : Modifiers) (k : Key) (s : Server F) {t : Server F} {es : List Effect} {found : Bool}
      → P s
      → kum_keybind_handle w m k s ≡ some (t, es, found)
      → P t
  unfolding kum_keybind_handle
  kum_keybind_handle-keeps m k s {t} {es} {found} v e =
      elim (Option-cases (find_action m k keybinds)) [
        | inl f ↦ let same : s ≡ t = ground arith in subst P same v
        | inr (a, f) ↦ elim (Option-cases (run_action w a s)) [
          | inl g ↦ absurd (ground arith)
          | inr ((u, fs), g) ↦
              let same : u ≡ t = ground arith in
              subst P same (run_action-keeps P kept switch w s v a {t = u} {es = fs} g)
        ]
      ]

  handle_syms-keeps :
      (m : Modifiers) (ks : List Key) (s : Server F) {t : Server F} {es : List Effect}
      {found : Bool}
      → P s
      → handle_syms w m ks s ≡ some (t, es, found)
      → P t
  unfolding handle_syms
  handle_syms-keeps m [] s {t} v e = let same : s ≡ t = ground arith in subst P same v
  handle_syms-keeps m (k ∷ ks) s {t} {es} {found} v e =
      elim (Option-cases (kum_keybind_handle w m k s)) [
        | inl f ↦ absurd (ground arith)
        | inr ((u, fs, b), f) ↦ elim (Option-cases (handle_syms w m ks u)) [
          | inl g ↦ absurd (ground arith)
          | inr ((x, gs, c), g) ↦
              let same : x ≡ t = ground arith in
              subst P same (
                handle_syms-keeps m ks u {t = x} {es = gs} {found = c}
                  (kum_keybind_handle-keeps m k s {t = u} {es = fs} {found = b} v f) g)
        ]
      ]

  pub keyboard_key-keeps :
      (m : Modifiers) (syms : List Key) (pressed : Bool) (s : Server F) {t : Server F}
      {es : List Effect} {found : Bool}
      → P s
      → keyboard_key w m syms pressed s ≡ some (t, es, found)
      → P t
  unfolding keyboard_key
  keyboard_key-keeps m syms pressed s {t} {es} {found} v e =
      elim (Bool-cases (not s.locked && pressed)) [
        | inl b ↦ handle_syms-keeps m syms s {t = t} {es = es} {found = found} v (ground arith)
        | inr b ↦ let same : s ≡ t = ground arith in subst P same v
      ]
