-- ===== src/Input/Drag.antt =====
-- Windows that the cursor of src/input.c drags.
use mathlib.Core.Path.{subst}
use kum_de.Base.{
  ℕ, ◌≡◌, refl, ap, ◌∙◌, Bool, true, false, List, [], ◌∷◌, Option, none, some, map, find?, arith,
}
use kum_de.Base.Int.{ℤ, ltb_ℤ, ◌≤ℤ◌, ◌+ℤ◌, ◌-ℤ◌, +ℤ_parts, -ℤ_parts, eq_of_parts}
use kum_de.Input.{
  min_w, min_h, at_least, resized, release, process_cursor_motion, kum_cursor_motion,
  kum_cursor_button, hover, Button,
}
use kum_de.Server.{Floats, Server, Box, Edges, Toplevel}

-- No resize asks for a window that is smaller than 120 by 80.
resized-min :
    (e : Edges) (dx dy : ℤ) (g : Box)
    → (min_w ≤ℤ (resized e dx dy g).width) × (min_h ≤ℤ (resized e dx dy g).height)
unfolding resized
resized-min e dx dy g = (ground arith, ground arith)

-- The far edge of a side that starts at `x` and is `w` long, when its near edge is dragged by `d`: where
-- it was while the side keeps the length `low`, else `low` behind the near edge.
far_edge :
    (low x w d : ℤ)
    → (low ≤ℤ w -ℤ d → (x +ℤ d) +ℤ at_least low (w -ℤ d) ≡ x +ℤ w)
      × (ltb_ℤ (w -ℤ d) low ≡ true → (x +ℤ d) +ℤ at_least low (w -ℤ d) ≡ (x +ℤ d) +ℤ low)
far_edge low x w d =
    let less = -ℤ_parts w d in
    let moved = +ℤ_parts x d in
    let kept = +ℤ_parts (x +ℤ d) (w -ℤ d) in
    let whole = +ℤ_parts x w in
    let same = eq_of_parts ((x +ℤ d) +ℤ (w -ℤ d)) (x +ℤ w) in
    (λ h. ground (arith, less, moved, kept, whole, same, h), λ h. ground (arith, h))

-- The opposite edge of a box that is resized at `near`.
abbrev pub OppositeEdge : Bool → (low old_at old_len at len d : ℤ) → Type 0
OppositeEdge near low old_at old_len at len d =
    near ≡ true
    → (low ≤ℤ old_len -ℤ d → at +ℤ len ≡ old_at +ℤ old_len)
      × (ltb_ℤ (old_len -ℤ d) low ≡ true → at +ℤ len ≡ (old_at +ℤ d) +ℤ low)

-- A resize at the left edge leaves the right edge where it is as long as the window keeps the least
-- width of 120; beyond that the right edge is 120 behind the left one, which follows the cursor. It is
-- the same with the top edge, the bottom edge and the least height of 80.
pub resized-opposite :
    (e : Edges) (dx dy : ℤ) (g : Box)
    → (let b : Box = resized e dx dy g in
        OppositeEdge e.left min_w g.x g.width b.x b.width dx
        × OppositeEdge e.top min_h g.y g.height b.y b.height dy)
unfolding resized
resized-opposite e dx dy g =
    (λ h. rw h (far_edge min_w g.x g.width dx), λ h. rw h (far_edge min_h g.y g.height dy))

none_grabbed :
    (ts : List Toplevel)
    → find? (λ t. t.grabbed) (map {A = Toplevel} (λ t. record t { grabbed = false }) ts) ≡ none
none_grabbed [] = refl
none_grabbed (t ∷ ts) = none_grabbed ts

-- A motion of the cursor: where it goes, the output there, and the window under it.
abbrev pub Motion : Type 0
Motion = ℤ × ℤ × Option ℕ × Option ℕ

module _ {F : Floats} where
  -- The motions, one after another, where the focus does not follow the mouse.
  unfoldable pub motions : List Motion → Server F → Server F
  motions [] s = s
  motions ((x, y, o, under) ∷ ms) s = motions ms (kum_cursor_motion false x y o under s).0

  abbrev Idle : Server F → Type 0
  Idle s = find? (λ t. t.grabbed) s.toplevels ≡ none

  kum_cursor_motion-Idle :
      (x y : ℤ) (o under : Option ℕ) (s : Server F)
      → Idle s
      → (kum_cursor_motion false x y o under s).0.toplevels ≡ s.toplevels
  unfolding kum_cursor_motion process_cursor_motion hover
  kum_cursor_motion-Idle x y o under s idle =
      rw (idle, kum_cursor_motion, process_cursor_motion) (resting under _)
    where
      resting : (under : Option ℕ) (u : Server F) → (hover false under u).0.toplevels ≡ u.toplevels
      resting none u = refl
      resting (some k) u = refl

  motions-Idle : (ms : List Motion) (s : Server F) → Idle s → (motions ms s).toplevels ≡ s.toplevels
  unfolding motions
  motions-Idle [] s idle = refl
  motions-Idle ((x, y, o, under) ∷ ms) s idle =
      let once = kum_cursor_motion-Idle x y o under s idle in
      motions-Idle ms _ (ap (λ ts. find? (λ (t : Toplevel). t.grabbed) ts) once ∙ idle) ∙ once

  -- When a button was released, the cursor drags no window: if no button is pressed and no client asks
  -- for a move or a resize in between, any number of motions leaves every window as it is, where the
  -- focus does not follow the mouse.
  pub motions-released :
      (button : Button) (mod_held : Bool) (over : Option ℕ) (ms : List Motion) (s : Server F)
      {t : Server F}
      → kum_cursor_button true button mod_held over s ≡ some t
      → (motions ms t).toplevels ≡ t.toplevels
  unfolding kum_cursor_button release
  motions-released button mod_held over ms s {t} e =
      let same : release s ≡ t = ground arith in
      subst (λ (u : Server F). (motions ms u).toplevels ≡ u.toplevels) same
        (motions-Idle ms (release s) (none_grabbed s.toplevels))
