-- ===== src/Visible/Switch.antt =====
-- `kum_workspace_switch` of src/workspace.c exchanges two workspaces among the outputs and keeps the
-- invariant.
use kum_de.Base.{
  ℕ, ◌<◌, ◌≡◌, ◌≢◌, refl, ap, ◌∙◌, inl, inr, Bool, true, false, not, ◌&&◌, List, [], ◌∷◌, Option,
  none, some, map, any, All, arith, ◌==◌, if◌then◌else◌, Option-cases,
}
use kum_de.Output.{shows}
use kum_de.Frame.{focus_first_mapped-Same, drop_focus_on-Same, workspace_translate-Same}
use kum_de.Server.{
  Floats, Server, Output, update_output, find_output, workspace_count, set_workspace_enabled,
}
use kum_de.Workspace.{other_showing, swap_with, switch_output}
use kum_de.Visible.Outputs.{Distinct, Apart, Linked, find?-passes, find?-none, find?-Linked}

-- The exchange of workspaces `a` and `b`.
abbrev pub transpose : ℕ → ℕ → ℕ → ℕ
transpose a b n = if n == a then b else if n == b then a else n

abbrev pub actives : List Output → List ℕ
actives os = map (λ o. o.active_workspace) os

-- The outputs after the switch, as two writes.
abbrev after_swap : Output → ℕ → Option Output → List Output → List Output
after_swap o i none os = os
after_swap o i (some p) os =
    update_output p.id
      (λ q. record q { previous_workspace = i; active_workspace = o.active_workspace }) os

abbrev after_switch : Output → ℕ → Option Output → List Output → List Output
after_switch o i other os =
    update_output o.id
      (λ q. record q { previous_workspace = o.active_workspace; active_workspace = i })
      (after_swap o i other os)

module _ {F : Floats} where
  swap_with-outputs :
      (o p : Output) (i : ℕ) (s : Server F)
      → (swap_with o p i s).outputs ≡ after_swap o i (some p) s.outputs
  unfolding swap_with set_workspace_enabled
  swap_with-outputs o p i s =
      (workspace_translate-Same i _ _ _).outputs
      ∙ (workspace_translate-Same o.active_workspace _ _ _).outputs

  pub switch_output-outputs :
      (o : Output) (i : ℕ) (s : Server F)
      → (switch_output o i s).outputs ≡ after_switch o i (other_showing o i s) s.outputs
  unfolding switch_output set_workspace_enabled
  switch_output-outputs o i s =
      (focus_first_mapped-Same i _).outputs
      ∙ (drop_focus_on-Same o.active_workspace _).outputs
      ∙ ap
          (update_output o.id
            (λ q. record q { previous_workspace = o.active_workspace; active_workspace = i }))
          (first (other_showing o i s))
    where
      first :
          (other : Option Output)
          → (let s1 : Server F = elim other [
            | none ↦ set_workspace_enabled o.active_workspace false s
            | some p ↦ swap_with o p i s
          ] in
              s1.outputs)
            ≡ after_swap o i other s.outputs
      first none = refl
      first (some p) = swap_with-outputs o p i s

-- What a switch of `o` to workspace `i` makes of an output `q`.
abbrev pub exchanged : Output → ℕ → Output → Output
exchanged o i q =
    if q.id == o.id
    then record q { previous_workspace = o.active_workspace; active_workspace = i }
    else if q.active_workspace == i
    then record q { previous_workspace = i; active_workspace = o.active_workspace }
    else q

swap_exchanged :
    (o p : Output) (i : ℕ) (os : List Output)
    → All (Linked p) os
    → p.active_workspace ≡ i
    → (p.id == o.id) ≡ false
    → after_switch o i (some p) os ≡ map (exchanged o i) os
unfolding update_output
swap_exchanged o p i [] m e n = refl
swap_exchanged o p i (q ∷ os) m e n =
    ap (λ r. r ∷ after_switch o i (some p) os) one
    ∙ ap (λ r. exchanged o i q ∷ r) (swap_exchanged o p i os m.1 e n)
  where
    one :
        (let q' : Output =
            if q.id == p.id
            then record q { previous_workspace = i; active_workspace = o.active_workspace }
            else q in
          if q'.id == o.id
          then record q' { previous_workspace = o.active_workspace; active_workspace = i }
          else q')
        ≡ exchanged o i q
    one = let linked = m.0 in ground (arith, linked)

alone_exchanged :
    (o : Output) (i : ℕ) (os : List Output)
    → All (λ q. (not (q.id == o.id) && q.active_workspace == i) ≡ false) os
    → after_switch o i none os ≡ map (exchanged o i) os
unfolding update_output
alone_exchanged o i [] m = refl
alone_exchanged o i (q ∷ os) m =
    let none_shows = m.0 in
    let one : (if q.id == o.id
          then record q { previous_workspace = o.active_workspace; active_workspace = i }
          else q)
        ≡ exchanged o i q =
      ground (arith, none_shows) in
    ap (λ r. r ∷ after_switch o i none os) one
    ∙ ap (λ r. exchanged o i q ∷ r) (alone_exchanged o i os m.1)

-- With the other output found or not, each output ends on the transposed workspace.
swap_one :
    (o p q : Output) (i : ℕ)
    → Linked o q
    → Linked p q
    → p.active_workspace ≡ i
    → (p.id == o.id) ≡ false
    → (let q' : Output =
          if q.id == p.id
          then record q { previous_workspace = i; active_workspace = o.active_workspace }
          else q in
        let q'' : Output =
          if q'.id == o.id
          then record q' { previous_workspace = o.active_workspace; active_workspace = i }
          else q' in
        q''.active_workspace)
      ≡ transpose o.active_workspace i q.active_workspace
swap_one o p q i l m e n = ground arith

alone_one :
    (o q : Output) (i : ℕ)
    → Linked o q
    → (not (q.id == o.id) && q.active_workspace == i) ≡ false
    → (let q' : Output =
          if q.id == o.id
          then record q { previous_workspace = o.active_workspace; active_workspace = i }
          else q in
        q'.active_workspace)
      ≡ transpose o.active_workspace i q.active_workspace
alone_one o q i l e = ground arith

swap_actives :
    (o p : Output) (i : ℕ) (os : List Output)
    → All (Linked o) os
    → All (Linked p) os
    → p.active_workspace ≡ i
    → (p.id == o.id) ≡ false
    → actives (after_switch o i (some p) os) ≡ map (transpose o.active_workspace i) (actives os)
unfolding update_output
swap_actives o p i [] l m e n = refl
swap_actives o p i (q ∷ os) l m e n =
    cc (swap_one o p q i l.0 m.0 e n, swap_actives o p i os l.1 m.1 e n)

alone_actives :
    (o : Output) (i : ℕ) (os : List Output)
    → All (Linked o) os
    → All (λ q. (not (q.id == o.id) && q.active_workspace == i) ≡ false) os
    → actives (after_switch o i none os) ≡ map (transpose o.active_workspace i) (actives os)
unfolding update_output
alone_actives o i [] l m = refl
alone_actives o i (q ∷ os) l m = cc (alone_one o q i l.0 m.0, alone_actives o i os l.1 m.1)

pub ids_after_switch :
    (o : Output) (i : ℕ) (other : Option Output) (os : List Output)
    → map (λ (q : Output). q.id) (after_switch o i other os) ≡ map (λ (q : Output). q.id) os
unfolding update_output
ids_after_switch o i none [] = refl
ids_after_switch o i (some p) [] = refl
ids_after_switch o i none (q ∷ os) = ground (arith, ids_after_switch o i none os)
ids_after_switch o i (some p) (q ∷ os) = ground (arith, ids_after_switch o i (some p) os)

-- The output that is switched is one of the server's.
abbrev pub Known : {F : Floats} → Output → Server F → Type 0
Known o s = find_output o.id s.outputs ≡ some o

module _ {F : Floats} (o : Output) (i : ℕ) (s : Server F) (d : Distinct s.outputs)
    (k : Known o s) where
  pub switch_output-actives :
      actives (switch_output o i s).outputs
      ≡ map (transpose o.active_workspace i) (actives s.outputs)
  switch_output-actives =
      ap actives (switch_output-outputs o i s) ∙ elim (Option-cases (other_showing o i s)) [
        | inl e ↦ rw e (alone_actives o i s.outputs linked (find?-none _ s.outputs e))
        | inr (p, e) ↦
            let passes = find?-passes _ s.outputs e in
            rw e (
              swap_actives o p i s.outputs linked (find?-Linked _ s.outputs d e) (ground arith)
                (ground arith))
      ]
    where
      linked : All (Linked o) s.outputs
      linked = find?-Linked _ s.outputs d k

  -- Where identities and workspaces are distinct, a switch of a known output `o` to workspace `i`
  -- gives `i` to `o`, gives the workspace that `o` showed to the output that showed `i`, if one did,
  -- lets these two remember what they showed before, and leaves everything else of them and every
  -- other output as it was.
  pub switch_output-exchanged : (switch_output o i s).outputs ≡ map (exchanged o i) s.outputs
  switch_output-exchanged =
      switch_output-outputs o i s ∙ elim (Option-cases (other_showing o i s)) [
        | inl e ↦ rw e (alone_exchanged o i s.outputs (find?-none _ s.outputs e))
        | inr (p, e) ↦
            let passes = find?-passes _ s.outputs e in
            rw e (
              swap_exchanged o p i s.outputs (find?-Linked _ s.outputs d e) (ground arith)
                (ground arith))
      ]

abbrev pub is_some : Option Output → Bool
is_some none = false
is_some (some a) = true

-- What the transposition of the workspaces does to the invariant.
Apart-transposed :
    (a b : ℕ) (o p : Output) (os ps : List Output)
    → map (λ (q : Output). q.id) ps ≡ map (λ (q : Output). q.id) os
    → actives ps ≡ map (transpose a b) (actives os)
    → p.id ≡ o.id
    → p.active_workspace ≡ transpose a b o.active_workspace
    → All (Apart o) os
    → All (Apart p) ps
Apart-transposed a b o p [] [] e f g h w = tt
Apart-transposed a b o p [] (y ∷ ps) e f g h w = absurd (cc)
Apart-transposed a b o p (x ∷ os) [] e f g h w = absurd (cc)
Apart-transposed a b o p (x ∷ os) (y ∷ ps) e f g h w =
    let one : (y.id ≢ p.id) × (y.active_workspace ≢ p.active_workspace) = ground arith in
    (one, Apart-transposed a b o p os ps (ground arith) (ground arith) g h w.1)

pub Distinct-transposed :
    (a b : ℕ) (os ps : List Output)
    → map (λ (q : Output). q.id) ps ≡ map (λ (q : Output). q.id) os
    → actives ps ≡ map (transpose a b) (actives os)
    → Distinct os
    → Distinct ps
Distinct-transposed a b [] [] e f d = tt
Distinct-transposed a b [] (y ∷ ps) e f d = absurd (cc)
Distinct-transposed a b (x ∷ os) [] e f d = absurd (cc)
Distinct-transposed a b (x ∷ os) (y ∷ ps) e f d = (
  Apart-transposed a b x y os ps (ground arith) (ground arith) (ground arith) (ground arith) d.0,
  Distinct-transposed a b os ps (ground arith) (ground arith) d.1,
)

pub low_transposed :
    (a b : ℕ) (os ps : List Output)
    → actives ps ≡ map (transpose a b) (actives os)
    → a < workspace_count
    → b < workspace_count
    → All (λ (o : Output). o.active_workspace < workspace_count) os
    → All (λ (o : Output). o.active_workspace < workspace_count) ps
low_transposed a b [] [] f h k d = tt
low_transposed a b [] (y ∷ ps) f h k d = absurd (cc)
low_transposed a b (x ∷ os) [] f h k d = absurd (cc)
low_transposed a b (x ∷ os) (y ∷ ps) f h k d =
    (ground arith, low_transposed a b os ps (ground arith) h k d.1)

pub any_transposed :
    (a b j : ℕ) (os ps : List Output)
    → actives ps ≡ map (transpose a b) (actives os)
    → any (shows j) ps ≡ any (shows (transpose a b j)) os
any_transposed a b j [] [] f = refl
any_transposed a b j [] (y ∷ ps) f = absurd (cc)
any_transposed a b j (x ∷ os) [] f = absurd (cc)
any_transposed a b j (x ∷ os) (y ∷ ps) f =
    let one : (y.active_workspace == j) ≡ (x.active_workspace == transpose a b j) = ground arith in
    let rest = any_transposed a b j os ps (ground arith) in cc (one, rest)
