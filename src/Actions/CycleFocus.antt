-- ===== src/Actions/CycleFocus.antt =====
-- `action_cycle_focus` of src/keybind.c picks the mapped window that was focused the longest ago.
use kum_de.Base.{
  ℕ, ◌≤◌, ◌≡◌, refl, ◌⊎◌, inl, inr, true, ◌&&◌, List, [], ◌∷◌, Option, none, some, All, ltb, arith,
  Bool-cases,
}
use kum_de.Server.{Toplevel}
use kum_de.Actions.{least_recent}

-- No mapped window has a serial below `n`.
abbrev pub NoneBelow : ℕ → List Toplevel → Type 0
NoneBelow n ts = All (λ (t : Toplevel). t.mapped ≡ true → n ≤ t.focus_serial) ts

abbrev pub SomeAt : ℕ → ℕ → List Toplevel → Type 0
SomeAt k n [] = ⊥
SomeAt k n (t ∷ ts) = ((t.id ≡ k) × (t.mapped ≡ true) × (t.focus_serial ≡ n)) ⊎ SomeAt k n ts

least_recent_lem :
    (best : ℕ) (j : Option ℕ) (ts : List Toplevel) {k : ℕ}
    → least_recent best j ts ≡ some k
    → (n : ℕ) × (n ≤ best) × NoneBelow n ts × (((j ≡ some k) × (n ≡ best)) ⊎ SomeAt k n ts)
unfolding least_recent
least_recent_lem best j [] {k} e = (best, omega arith, tt, inl (e, refl))
least_recent_lem best j (t ∷ ts) {k} e = elim (Bool-cases (t.mapped && ltb t.focus_serial best)) [
  | inl c ↦
      let r = least_recent_lem t.focus_serial (some t.id) ts {k = k} (ground arith) in
      (
        r.0,
        ground (arith, r.1),
        ((λ m. r.1), r.2),
        elim r.3 [ inl h ↦ inr (inl (ground arith)) | inr h ↦ inr (inr h) ],
      )
  | inr c ↦
      let r = least_recent_lem best j ts {k = k} (ground arith) in
      (
        r.0,
        r.1,
        ((λ m. ground (arith, r.1)), r.2),
        elim r.3 [ inl h ↦ inl h | inr h ↦ inr (inr h) ],
      )
]

-- The window that the action focuses is a mapped one of the list, and no mapped window was focused
-- before it.
pub least_recent-none :
    (best : ℕ) (ts : List Toplevel) {k : ℕ}
    → least_recent best none ts ≡ some k
    → (n : ℕ) × SomeAt k n ts × NoneBelow n ts
least_recent-none best ts {k} e =
    let r = least_recent_lem best none ts {k = k} e in
    (r.0, elim r.3 [ inl h ↦ absurd (ground arith) | inr h ↦ h ], r.2)
