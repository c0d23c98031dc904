-- ===== src/Visible/Outputs.antt =====
-- Lists of outputs with distinct identities and workspaces, and the workspaces' flags.
use kum_de.Base.{
  ℕ, zero, suc, ◌<◌, ◌≡◌, ◌≢◌, refl, sym, ap, ◌∙◌, ◌⊎◌, inl, inr, Bool, true, false, List, [], ◌∷◌,
  none, some, find?, any, length, All, arith, ◌==◌, if◌then◌else◌, Bool-cases,
}
use mathlib.Core.Path.{subst}
use kum_de.Output.{shows}
use kum_de.Server.{
  Floats, Server, Output, Workspace, workspace_at, update_workspace, workspace_count,
  set_workspace_enabled,
}

abbrev pub Apart : Output → Output → Type 0
Apart o p = (p.id ≢ o.id) × (p.active_workspace ≢ o.active_workspace)

abbrev pub Distinct : List Output → Type 0
Distinct [] = Unit
Distinct (o ∷ os) = All (Apart o) os × Distinct os

pub record Visible {F : Floats} (s : Server F) : Type 0 where
  pub distinct : Distinct s.outputs
  pub low : All (λ o. o.active_workspace < workspace_count) s.outputs
  pub nine : length s.workspaces ≡ workspace_count
  pub shown :
      (i : ℕ)
      → i < workspace_count
      → (workspace_at i s.workspaces).enabled ≡ any (shows i) s.outputs

-- How an output of the list stands to one that was found in it: the same, or apart from it.
abbrev pub Linked : Output → Output → Type 0
Linked o p =
    ((p.id ≡ o.id) × (p.active_workspace ≡ o.active_workspace))
    ⊎ ((p.id ≢ o.id) × (p.active_workspace ≢ o.active_workspace))

module _ {ℓ κ} {A : Type ℓ} where
  pub All-map : (P Q : A → Type κ) (xs : List A) → ((a : A) → P a → Q a) → All P xs → All Q xs
  All-map P Q [] f h = tt
  All-map P Q (x ∷ xs) f h = (f x h.0, All-map P Q xs f h.1)

  pub All-find? :
      (P : A → Type κ) (f : A → Bool) (xs : List A) {a : A} → All P xs → find? f xs ≡ some a → P a
  All-find? P f [] h e = cc
  All-find? P f (x ∷ xs) {a} h e = elim (Bool-cases (f x)) [
    | inl t ↦ subst P (ground arith) h.0
    | inr t ↦ All-find? P f xs h.1 (ground arith)
  ]

module _ {ℓ} {A : Type ℓ} where
  pub find?-passes : (f : A → Bool) (xs : List A) {a : A} → find? f xs ≡ some a → f a ≡ true
  find?-passes f [] e = cc
  find?-passes f (x ∷ xs) e = elim (Bool-cases (f x)) [
    | inl t ↦ ground arith
    | inr t ↦ find?-passes f xs (ground arith)
  ]

  pub find?-none : (f : A → Bool) (xs : List A) → find? f xs ≡ none → All (λ a. f a ≡ false) xs
  find?-none f [] e = tt
  find?-none f (x ∷ xs) e = elim (Bool-cases (f x)) [
    | inl t ↦ absurd (ground arith)
    | inr t ↦ (t, find?-none f xs (ground arith))
  ]

  pub any-true : (f : A → Bool) (xs : List A) {a : A} → find? f xs ≡ some a → any f xs ≡ true
  any-true f [] e = cc
  any-true f (x ∷ xs) {a} e = ground (arith, any-true f xs {a = a})

  pub any-false : (f : A → Bool) (xs : List A) → find? f xs ≡ none → any f xs ≡ false
  any-false f [] e = refl
  any-false f (x ∷ xs) e = ground (arith, any-false f xs)

module _ {ℓ} {A : Type ℓ} where
  pub any-find? :
      (f g : A → Bool) (xs : List A) {a : A} → find? f xs ≡ some a → g a ≡ true → any g xs ≡ true
  any-find? f g [] e h = cc
  any-find? f g (x ∷ xs) {a} e h = ground (arith, any-find? f g xs {a = a})

  pub any-All : (f : A → Bool) (xs : List A) → All (λ a. f a ≡ false) xs → any f xs ≡ false
  any-All f [] h = refl
  any-All f (x ∷ xs) h = rw h.0 (any-All f xs h.1)

pub find?-Linked :
    (f : Output → Bool) (os : List Output) {o : Output}
    → Distinct os
    → find? f os ≡ some o
    → All (Linked o) os
find?-Linked f [] d e = tt
find?-Linked f (p ∷ os) {o} d e = elim (Bool-cases (f p)) [
  | inl t ↦
      let same : p ≡ o = ground arith in
      (
        inl (ap (λ (q : Output). q.id) same, ap (λ (q : Output). q.active_workspace) same),
        subst (λ q. All (Linked q) os) same (All-map (Apart p) (Linked p) os (λ q a. inr a) d.0),
      )
  | inr t ↦
      let later : find? f os ≡ some o = ground arith in
      let apart = All-find? (Apart p) f os d.0 later in
      (inr (λ x. apart.0 (sym x), λ x. apart.1 (sym x)), find?-Linked f os d.1 later)
]

-- One workspace's flags after a change to another.
pub workspace_at-update :
    (j i : ℕ) (f : Workspace → Workspace) (ws : List Workspace)
    → j < length ws
    → workspace_at j (update_workspace i f ws)
      ≡ (if i == j then f (workspace_at j ws) else workspace_at j ws)
unfolding workspace_at update_workspace
workspace_at-update j i f [] h = elim h [ ]
workspace_at-update zero zero f (w ∷ ws) h = ground arith
workspace_at-update zero (suc i) f (w ∷ ws) h = ground arith
workspace_at-update (suc j) zero f (w ∷ ws) h = ground arith
workspace_at-update (suc j) (suc i) f (w ∷ ws) h = workspace_at-update j i f ws (omega arith) ∙ same
  where
    same :
        (if i == j then f (workspace_at j ws) else workspace_at j ws)
        ≡ (if suc i == suc j then f (workspace_at j ws) else workspace_at j ws)
    same = ground arith

pub length-update_workspace :
    (i : ℕ) (f : Workspace → Workspace) (ws : List Workspace)
    → length (update_workspace i f ws) ≡ length ws
unfolding update_workspace
length-update_workspace i f [] = refl
length-update_workspace zero f (w ∷ ws) = refl
length-update_workspace (suc i) f (w ∷ ws) = ap suc (length-update_workspace i f ws)

module _ {F : Floats} where
  pub enabled-set_workspace_enabled :
      (j i : ℕ) (b : Bool) (s : Server F)
      → j < length s.workspaces
      → (workspace_at j (set_workspace_enabled i b s).workspaces).enabled
        ≡ (if i == j then b else (workspace_at j s.workspaces).enabled)
  unfolding set_workspace_enabled
  enabled-set_workspace_enabled j i b s h =
      ap (λ (w : Workspace). w.enabled)
        (workspace_at-update j i (λ w. record w { enabled = b }) s.workspaces h)
      ∙ ground arith

  pub length-set_workspace_enabled :
      (i : ℕ) (b : Bool) (s : Server F)
      → length (set_workspace_enabled i b s).workspaces ≡ length s.workspaces
  unfolding set_workspace_enabled
  length-set_workspace_enabled i b s =
      length-update_workspace i (λ w. record w { enabled = b }) s.workspaces
