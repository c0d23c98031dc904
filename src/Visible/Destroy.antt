-- ===== src/Visible/Destroy.antt =====
-- src/output.c: an output that goes hands its workspace to another one, and keeps the invariant.
use mathlib.Core.Path.{subst}
use kum_de.Base.{
  ℕ, ◌<◌, ◌≡◌, refl, sym, ap, ◌∙◌, ◌⊎◌, inl, inr, Bool, true, false, List, [], ◌∷◌, some, any,
  length, All, arith, ◌==◌, if◌then◌else◌, Bool-cases,
}
use kum_de.Frame.{
  Same, focus_first_mapped-Same, drop_focus_on-Same, kum_workspace_arrange-Same, Same-refl,
}
use kum_de.Arrange.{kum_workspace_arrange}
use kum_de.Output.{shows, remove_output, migrate_workspace, output_destroy}
use kum_de.Server.{
  Floats, Server, Output, update_output, find_output, workspace_at, workspace_count,
  set_workspace_enabled,
}
use kum_de.Visible.Outputs.{
  Distinct, Apart, Linked, Visible, All-map, All-find?, find?-Linked, enabled-set_workspace_enabled,
  length-set_workspace_enabled,
}
use kum_de.Visible.Switch.{Known}

Apart-shows :
    (o : Output) (os : List Output) → All (Apart o) os → any (shows o.active_workspace) os ≡ false
Apart-shows o [] h = refl
Apart-shows o (p ∷ os) h = ground (arith, Apart-shows o os h.1)

-- Taking an output out of the list takes its workspace off the outputs, and no other.
remove_output-shows :
    (o : Output) (os : List Output) (j : ℕ)
    → Distinct os
    → All (Linked o) os
    → find_output o.id os ≡ some o
    → any (shows j) (remove_output o.id os)
      ≡ (if o.active_workspace == j then false else any (shows j) os)
unfolding remove_output
remove_output-shows o [] j d l e = absurd (cc)
remove_output-shows o (p ∷ os) j d l e = elim (Bool-cases (p.id == o.id)) [
  | inl t ↦ ground (arith, Apart-shows p os d.0)
  | inr t ↦ ground (arith, remove_output-shows o os j d.1 l.1)
]

remove_output-All {ℓ} :
    (P : Output → Type ℓ) (k : ℕ) (os : List Output) → All P os → All P (remove_output k os)
unfolding remove_output
remove_output-All P k [] h = tt
remove_output-All P k (o ∷ os) h = elim (Bool-cases (o.id == k)) [
  | inl t ↦ rw t h.1
  | inr t ↦ rw t (h.0, remove_output-All P k os h.1)
]

remove_output-Distinct : (k : ℕ) (os : List Output) → Distinct os → Distinct (remove_output k os)
unfolding remove_output
remove_output-Distinct k [] d = tt
remove_output-Distinct k (o ∷ os) d = elim (Bool-cases (o.id == k)) [
  | inl t ↦ rw t d.1
  | inr t ↦ rw t (remove_output-All (Apart o) k os d.0, remove_output-Distinct k os d.1)
]

-- The outputs left are apart from the one that went.
remove_output-Apart :
    (o : Output) (os : List Output)
    → Distinct os
    → All (Linked o) os
    → All (Apart o) (remove_output o.id os)
unfolding remove_output
remove_output-Apart o [] d l = tt
remove_output-Apart o (p ∷ os) d l = elim (Bool-cases (p.id == o.id)) [
  | inl t ↦ rw t (All-map (Apart p) (Apart o) os (λ q a. ground arith) d.0)
  | inr t ↦ rw t (ground arith, remove_output-Apart o os d.1 l.1)
]

-- Only the head of a list with distinct identities is written through its identity.
update_output-head :
    (o p : Output) (f : Output → Output) (os : List Output)
    → p.id ≡ o.id
    → All (Apart o) os
    → update_output p.id f os ≡ os
unfolding update_output
update_output-head o p f [] e h = refl
update_output-head o p f (q ∷ os) e h = ground (arith, update_output-head o p f os e h.1)

List-cases {ℓ} : {A : Type ℓ} (xs : List A) → (xs ≡ []) ⊎ ((a : A) × (r : List A) × (xs ≡ a ∷ r))
List-cases [] = inl refl
List-cases (x ∷ xs) = inr (x, xs, refl)

head_moved :
    (o dst : Output) (rest : List Output) (i : ℕ)
    → o.active_workspace ≡ i
    → Distinct (dst ∷ rest)
    → All (Apart o) (dst ∷ rest)
    → Distinct (record dst { active_workspace = i } ∷ rest)
head_moved o dst rest i e d a = (both rest d.0 a.1, d.1)
  where
    both :
        (os : List Output)
        → All (Apart dst) os
        → All (Apart o) os
        → All (Apart (record dst { active_workspace = i })) os
    both [] h k = tt
    both (q ∷ os) h k = ((h.0.0, ground arith), both os h.1 k.1)

module _ {F : Floats} where
  arrange_if-Same :
      (b : Bool) (o : Output) (i : ℕ) (t : Server F)
      → Same t (if b then kum_workspace_arrange o i t else t)
  arrange_if-Same true o i t = kum_workspace_arrange-Same o i t
  arrange_if-Same false o i t = Same-refl t

  migrate_workspace-outputs :
      (dst : Output) (i : ℕ) (s : Server F)
      → (migrate_workspace dst i s).outputs
        ≡ update_output dst.id (λ p. record p { active_workspace = i }) s.outputs
  unfolding migrate_workspace set_workspace_enabled
  migrate_workspace-outputs dst i s =
      (focus_first_mapped-Same i _).outputs ∙ (arrange_if-Same _ dst i _).outputs

  migrate_workspace-workspaces :
      (dst : Output) (i : ℕ) (s : Server F)
      → (migrate_workspace dst i s).workspaces
        ≡ (set_workspace_enabled i true
            (set_workspace_enabled dst.active_workspace false s)).workspaces
  unfolding migrate_workspace set_workspace_enabled
  migrate_workspace-workspaces dst i s =
      (focus_first_mapped-Same i _).workspaces ∙ (arrange_if-Same _ dst i _).workspaces

  -- The outputs left and the flags after the migration to the first of them.
  migrated-Visible :
      (o dst : Output) (rest : List Output) (s t : Server F)
      → Visible s
      → Known o s
      → remove_output o.id s.outputs ≡ dst ∷ rest
      → t.outputs ≡ dst ∷ rest
      → t.workspaces ≡ s.workspaces
      → Visible (migrate_workspace dst o.active_workspace t)
  unfolding update_output
  migrated-Visible o dst rest s t v k e f g =
      let linked = find?-Linked _ s.outputs v.distinct k in
      let d : Distinct (dst ∷ rest) =
        subst Distinct e (remove_output-Distinct o.id s.outputs v.distinct) in
      let a : All (Apart o) (dst ∷ rest) =
        subst (All (Apart o)) e (remove_output-Apart o s.outputs v.distinct linked) in
      let low : All (λ (q : Output). q.active_workspace < workspace_count) (dst ∷ rest) =
        subst (All (λ (q : Output). q.active_workspace < workspace_count)) e
          (remove_output-All _ o.id s.outputs v.low) in
      let i = o.active_workspace in
      let moved : Output = record dst { active_workspace = i } in
      let here =
        All-find? (λ (q : Output). q.active_workspace < workspace_count) _ s.outputs v.low k in
      let same : (migrate_workspace dst i t).outputs ≡ moved ∷ rest =
        migrate_workspace-outputs dst i t
        ∙ ap (update_output dst.id (λ p. record p { active_workspace = i })) f
        ∙ ground (
          arith,
          update_output-head dst dst (λ p. record p { active_workspace = i }) rest refl d.0,
        ) in
      let t1 = set_workspace_enabled dst.active_workspace false t in
      let nine : length t.workspaces ≡ workspace_count = ap length g ∙ v.nine in
      let nine1 : length t1.workspaces ≡ workspace_count =
        length-set_workspace_enabled dst.active_workspace false t ∙ nine in
      record {
        distinct = subst Distinct (sym same) (head_moved o dst rest i refl d a);
        low =
            subst (All (λ (q : Output). q.active_workspace < workspace_count)) (sym same)
              (here, low.1);
        nine =
            ap length (migrate_workspace-workspaces dst i t)
            ∙ length-set_workspace_enabled i true t1
            ∙ nine1;
        shown = λ j h.
            let old : (workspace_at j t.workspaces).enabled ≡ any (shows j) s.outputs =
              ap (λ ws. (workspace_at j ws).enabled) g ∙ v.shown j h in
            let left : any (shows j) (dst ∷ rest)
                ≡ (if i == j then false else any (shows j) s.outputs) =
              ap (any (shows j)) (sym e) ∙ remove_output-shows o s.outputs j v.distinct linked k in
            ap (λ ws. (workspace_at j ws).enabled) (migrate_workspace-workspaces dst i t)
            ∙ enabled-set_workspace_enabled j i true t1 (omega arith)
            ∙ ap (λ b. if i == j then true else b)
                (enabled-set_workspace_enabled j dst.active_workspace false t (omega arith))
            ∙ flags o dst rest j _ _ old left (Apart-shows dst rest d.0)
            ∙ ap (any (shows j)) (sym same);
      }
    where
      flags :
          (p q : Output) (r : List Output) (j : ℕ) (b c : Bool)
          → b ≡ c
          → any (shows j) (q ∷ r) ≡ (if p.active_workspace == j then false else c)
          → any (shows q.active_workspace) r ≡ false
          → (if p.active_workspace == j then true else if q.active_workspace == j then false else b)
            ≡ any (shows j) (record q { active_workspace = p.active_workspace } ∷ r)
      flags p q r j b c old left gone = ground arith

  -- With no output left its workspace is disabled, as all others are.
  hidden-Visible :
      (o : Output) (s t : Server F)
      → Visible s
      → Known o s
      → remove_output o.id s.outputs ≡ []
      → t.outputs ≡ []
      → t.workspaces ≡ s.workspaces
      → Visible (set_workspace_enabled o.active_workspace false t)
  unfolding set_workspace_enabled
  hidden-Visible o s t v k e f g =
      let i = o.active_workspace in
      let linked = find?-Linked _ s.outputs v.distinct k in
      let nine : length t.workspaces ≡ workspace_count = ap length g ∙ v.nine in
      record {
        distinct = subst Distinct (sym f) tt;
        low = subst (All (λ (q : Output). q.active_workspace < workspace_count)) (sym f) tt;
        nine = length-set_workspace_enabled i false t ∙ nine;
        shown = λ j h.
            let old : (workspace_at j t.workspaces).enabled ≡ any (shows j) s.outputs =
              ap (λ ws. (workspace_at j ws).enabled) g ∙ v.shown j h in
            enabled-set_workspace_enabled j i false t (omega arith)
            ∙ ap (λ b. if i == j then false else b) old
            ∙ sym (remove_output-shows o s.outputs j v.distinct linked k)
            ∙ ap (any (shows j)) (e ∙ sym f);
      }

  -- When a known output goes, the invariant holds after its workspace has moved to the first output
  -- left, or is disabled with none left.
  pub output_destroy-Visible :
      (o : Output) (s : Server F) → Visible s → Known o s → Visible (output_destroy o s)
  unfolding output_destroy
  output_destroy-Visible o s v k = elim (List-cases (remove_output o.id s.outputs)) [
    | inr (dst, rest, e) ↦
        let same = drop_focus_on-Same o.active_workspace (record s { outputs = dst ∷ rest }) in
        rw e (migrated-Visible o dst rest s _ v k e same.outputs same.workspaces)
    | inl e ↦
        let same = drop_focus_on-Same o.active_workspace (record s { outputs = [] }) in
        rw e (hidden-Visible o s _ v k e same.outputs same.workspaces)
  ]
