-- ===== src/Visible/Switched.antt =====
-- `kum_workspace_switch` of src/workspace.c keeps the invariant: the flags of the trees follow the
-- exchange of two workspaces.
use kum_de.Base.{
  ℕ, ◌<◌, ◌≡◌, ◌≢◌, refl, sym, ap, ◌∙◌, inl, inr, true, false, not, ◌&&◌, List, [], ◌∷◌, Option,
  none, some, map, any, length, All, arith, ◌==◌, if◌then◌else◌, Option-cases, ==_refl,
}
use kum_de.Output.{shows}
use kum_de.Frame.{focus_first_mapped-Same, drop_focus_on-Same, workspace_translate-Same}
use kum_de.Server.{Floats, Server, Output, workspace_at, workspace_count, set_workspace_enabled}
use kum_de.Workspace.{other_showing, swap_with, switch_output}
use kum_de.Visible.Outputs.{
  Linked, Visible, All-find?, find?-passes, find?-none, any-find?, any-All, find?-Linked,
  enabled-set_workspace_enabled, length-set_workspace_enabled,
}
use kum_de.Visible.Switch.{
  transpose, switch_output-outputs, ids_after_switch, Known, switch_output-actives, is_some,
  Distinct-transposed, low_transposed, any_transposed,
}

module _ {F : Floats} where
  swap_with-enabled :
      (o p : Output) (i j : ℕ) (s : Server F)
      → j < length s.workspaces
      → (workspace_at j (swap_with o p i s).workspaces).enabled
        ≡ (if o.active_workspace == j then true else (workspace_at j s.workspaces).enabled)
  unfolding swap_with
  swap_with-enabled o p i j s h =
      ap (λ ws. (workspace_at j ws).enabled)
        ((workspace_translate-Same i _ _ _).workspaces
          ∙ (workspace_translate-Same o.active_workspace _ _ _).workspaces)
      ∙ enabled-set_workspace_enabled j o.active_workspace true _ h

  length-swap_with :
      (o p : Output) (i : ℕ) (s : Server F)
      → length (swap_with o p i s).workspaces ≡ length s.workspaces
  unfolding swap_with
  length-swap_with o p i s =
      ap length (
        (workspace_translate-Same i _ _ _).workspaces
        ∙ (workspace_translate-Same o.active_workspace _ _ _).workspaces)
      ∙ length-set_workspace_enabled o.active_workspace true _

  -- The server after the first half of the switch.
  abbrev released : Output → ℕ → Option Output → Server F → Server F
  released o i none s = set_workspace_enabled o.active_workspace false s
  released o i (some p) s = swap_with o p i s

  released-enabled :
      (o : Output) (i j : ℕ) (other : Option Output) (s : Server F)
      → j < length s.workspaces
      → (workspace_at j (released o i other s).workspaces).enabled
        ≡ (if o.active_workspace == j then is_some other else (workspace_at j s.workspaces).enabled)
  released-enabled o i j none s h = enabled-set_workspace_enabled j o.active_workspace false s h
  released-enabled o i j (some p) s h = swap_with-enabled o p i j s h

  length-released :
      (o : Output) (i : ℕ) (other : Option Output) (s : Server F)
      → length (released o i other s).workspaces ≡ length s.workspaces
  length-released o i none s = length-set_workspace_enabled o.active_workspace false s
  length-released o i (some p) s = length-swap_with o p i s

  switch_output-workspaces :
      (o : Output) (i : ℕ) (s : Server F)
      → (switch_output o i s).workspaces
        ≡ (set_workspace_enabled i true (released o i (other_showing o i s) s)).workspaces
  unfolding switch_output set_workspace_enabled
  switch_output-workspaces o i s =
      (focus_first_mapped-Same i _).workspaces
      ∙ (drop_focus_on-Same o.active_workspace _).workspaces
      ∙ ap (λ (t : Server F). (set_workspace_enabled i true t).workspaces)
          (split (other_showing o i s))
    where
      split :
          (other : Option Output)
          → (let s1 : Server F = elim other [
            | none ↦ set_workspace_enabled o.active_workspace false s
            | some p ↦ swap_with o p i s
          ] in
              s1)
            ≡ released o i other s
      split none = refl
      split (some p) = refl

module _ {F : Floats} (o : Output) (i : ℕ) (s : Server F) (v : Visible s) (k : Known o s)
    (low : i < workspace_count) (moved : o.active_workspace ≢ i) where
  enabled_after :
      (j : ℕ)
      → j < workspace_count
      → (workspace_at j (switch_output o i s).workspaces).enabled ≡ (
          if i == j
          then true
          else if o.active_workspace == j
          then is_some (other_showing o i s)
          else (workspace_at j s.workspaces).enabled)
  enabled_after j h =
      let nine = v.nine in
      ap (λ ws. (workspace_at j ws).enabled) (switch_output-workspaces o i s)
      ∙ enabled-set_workspace_enabled j i true (released o i (other_showing o i s) s)
          (omega (arith, length-released o i (other_showing o i s) s))
      ∙ ap (λ b. if i == j then true else b)
          (released-enabled o i j (other_showing o i s) s (omega arith))

  linked : All (Linked o) s.outputs
  linked = find?-Linked _ s.outputs v.distinct k

  -- The other output is there exactly when workspace `i` is on an output.
  other_showing-any : is_some (other_showing o i s) ≡ any (shows i) s.outputs
  other_showing-any = elim (Option-cases (other_showing o i s)) [
    | inr (p, e) ↦
        let passes = find?-passes _ s.outputs e in
        rw e (sym (any-find? _ (shows i) s.outputs e (ground arith)))
    | inl e ↦
        rw e (
          sym
            (any-All (shows i) s.outputs (none_shows s.outputs linked (find?-none _ s.outputs e))))
  ]
    where
      none_shows :
          (os : List Output)
          → All (Linked o) os
          → All (λ q. (not (q.id == o.id) && q.active_workspace == i) ≡ false) os
          → All (λ q. shows i q ≡ false) os
      none_shows [] l n = tt
      none_shows (q ∷ os) l n = (ground arith, none_shows os l.1 n.1)

  shown_after :
      (j : ℕ)
      → j < workspace_count
      → (if i == j
          then true
          else if o.active_workspace == j
          then is_some (other_showing o i s)
          else (workspace_at j s.workspaces).enabled)
        ≡ any (shows (transpose o.active_workspace i j)) s.outputs
  shown_after j h =
      let here = any-find? _ (shows o.active_workspace) s.outputs k (==_refl o.active_workspace) in
      ground (arith, here, other_showing-any, v.shown j h)

  -- The switch keeps the invariant.
  pub switch_output-Visible : Visible (switch_output o i s)
  switch_output-Visible =
      let here =
        All-find? (λ (q : Output). q.active_workspace < workspace_count) _ s.outputs v.low k in
      let perm = switch_output-actives o i s v.distinct k in
      record {
        distinct =
            Distinct-transposed o.active_workspace i s.outputs _
              (ap (map (λ (q : Output). q.id)) (switch_output-outputs o i s)
                ∙ ids_after_switch o i (other_showing o i s) s.outputs)
              perm v.distinct;
        low = low_transposed o.active_workspace i s.outputs _ perm here low v.low;
        nine =
            ap length (switch_output-workspaces o i s)
            ∙ length-set_workspace_enabled i true _
            ∙ length-released o i (other_showing o i s) s
            ∙ v.nine;
        shown = λ j h.
            enabled_after j h
            ∙ shown_after j h
            ∙ sym (any_transposed o.active_workspace i j s.outputs _ perm);
      }
