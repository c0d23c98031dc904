-- ===== src/Visible/NewOutput.antt =====
-- src/output.c: an output that comes takes a workspace of its own, and keeps the invariant.
use kum_de.Base.{
  ℕ, zero, suc, ◌+◌, ◌≤◌, ◌<◌, ◌≡◌, refl, ap, ◌∙◌, inl, inr, true, false, List, [], ◌∷◌, none, any,
  length, All, arith, ltb, ◌==◌, if◌then◌else◌, Bool-cases,
}
use kum_de.Text.{Bytes}
use kum_de.Output.{shows, free_from, next_free_workspace, kum_new_output}
use kum_de.Server.{Floats, Server, Output, Box, find_output, workspace_count, set_workspace_enabled}
use kum_de.Visible.Outputs.{
  Apart, Visible, enabled-set_workspace_enabled, length-set_workspace_enabled,
}

-- How many of the `n` workspaces from `i` on are on an output.
used_from : List Output → ℕ → ℕ → ℕ
used_from os zero i = 0
used_from os (suc n) i = (if any (shows i) os then 1 else 0) + used_from os n (suc i)

used_from-nil : (n i : ℕ) → used_from [] n i ≡ 0
unfolding used_from
used_from-nil zero i = refl
used_from-nil (suc n) i = omega (arith, used_from-nil n (suc i))

used_from-cons :
    (o : Output) (os : List Output) (n i : ℕ)
    → used_from (o ∷ os) n i ≤ used_from os n i + (if ltb o.active_workspace i then 0 else 1)
unfolding used_from
used_from-cons o os zero i = omega arith
used_from-cons o os (suc n) i = ground (arith, used_from-cons o os n (suc i))

used_from-le-length : (os : List Output) (n i : ℕ) → used_from os n i ≤ length os
used_from-le-length [] n i = omega (arith, used_from-nil n i)
used_from-le-length (o ∷ os) n i =
    ground (arith, used_from-cons o os n i, used_from-le-length os n i)

free_from_lem :
    (os : List Output) (n i : ℕ)
    → used_from os n i < n
    → (any (shows (free_from os n i)) os ≡ false) × (free_from os n i < i + n)
unfolding used_from free_from
free_from_lem os zero i h = elim h [ ]
free_from_lem os (suc n) i h = elim (Bool-cases (any (shows i) os)) [
  | inl used ↦ let rest = free_from_lem os n (suc i) (ground arith) in rw used (rest.0, omega arith)
  | inr free ↦ rw free (free, omega arith)
]

-- With fewer outputs than workspaces the one that is chosen is on no output.
pub next_free_workspace_lem :
    (os : List Output)
    → length os < workspace_count
    → (any (shows (next_free_workspace os)) os ≡ false) × (next_free_workspace os < workspace_count)
unfolding next_free_workspace
next_free_workspace_lem os h =
    free_from_lem os workspace_count 0 (omega (arith, used_from-le-length os workspace_count 0))

fresh-Apart :
    (o : Output) (os : List Output)
    → any (shows o.active_workspace) os ≡ false
    → find_output o.id os ≡ none
    → All (Apart o) os
fresh-Apart o [] h e = tt
fresh-Apart o (p ∷ os) h e =
    ((ground arith, ground arith), fresh-Apart o os (ground arith) (ground arith))

module _ {F : Floats} where
  -- A new output, under an identity of its own and with a workspace free, keeps the invariant.
  pub kum_new_output-Visible :
      (k : ℕ) (name : Bytes) (area : Box) (s : Server F)
      → Visible s
      → find_output k s.outputs ≡ none
      → length s.outputs < workspace_count
      → Visible (kum_new_output k name area s)
  unfolding kum_new_output set_workspace_enabled
  kum_new_output-Visible k name area s v fresh room =
      let i = next_free_workspace s.outputs in
      let free = next_free_workspace_lem s.outputs room in
      let nine = v.nine in
      let o : Output = record {
        id = k;
        name = name;
        usable_area = area;
        active_workspace = i;
        previous_workspace = 0;
      } in
      let s1 : Server F = record s { outputs = o ∷ s.outputs } in
      record {
        distinct = (fresh-Apart o s.outputs free.0 fresh, v.distinct);
        low = (free.1, v.low);
        nine = length-set_workspace_enabled i true s1 ∙ v.nine;
        shown = λ j h.
            enabled-set_workspace_enabled j i true s1 (omega arith)
            ∙ ap (λ b. if i == j then true else b) (v.shown j h);
      }
