-- ===== src/Visible/Kept.antt =====
-- Operations that change neither which output shows which workspace nor a workspace's flag.
use mathlib.Core.Path.{subst}
use kum_de.Base.{
  ℕ, zero, suc, ◌<◌, ◌≡◌, refl, sym, ap, ◌∙◌, Bool, true, List, [], ◌∷◌, map, any, length, All,
  arith,
}
use kum_de.Output.{shows}
use kum_de.Frame.{Same, no_window}
use kum_de.Server.{
  Floats, Server, Output, Workspace, workspace_at, update_workspace, workspace_count,
}
use kum_de.Visible.Outputs.{Distinct, Apart, Visible}

abbrev pub places : List Output → List (ℕ × ℕ)
places os = map (λ o. (o.id, o.active_workspace)) os

abbrev pub flags : List Workspace → List Bool
flags ws = map (λ w. w.enabled) ws

pub record Kept {F : Floats} (s t : Server F) : Type 0 where
  pub places_kept : places t.outputs ≡ places s.outputs
  pub flags_kept : flags t.workspaces ≡ flags s.workspaces
  pub locked_kept : t.locked ≡ s.locked
  pub quiet_kept : s.locked ≡ true → no_window s.seat_focus ≡ true → no_window t.seat_focus ≡ true

Apart-places :
    (o p : Output) (os ps : List Output)
    → places ps ≡ places os
    → p.id ≡ o.id
    → p.active_workspace ≡ o.active_workspace
    → All (Apart o) os
    → All (Apart p) ps
Apart-places o p [] [] e g h w = tt
Apart-places o p [] (y ∷ ps) e g h w = absurd (cc)
Apart-places o p (x ∷ os) [] e g h w = absurd (cc)
Apart-places o p (x ∷ os) (y ∷ ps) e g h w =
    ((ground arith, ground arith), Apart-places o p os ps (ground arith) g h w.1)

Distinct-places : (os ps : List Output) → places ps ≡ places os → Distinct os → Distinct ps
Distinct-places [] [] e d = tt
Distinct-places [] (y ∷ ps) e d = absurd (cc)
Distinct-places (x ∷ os) [] e d = absurd (cc)
Distinct-places (x ∷ os) (y ∷ ps) e d = (
  Apart-places x y os ps (ground arith) (ground arith) (ground arith) d.0,
  Distinct-places os ps (ground arith) d.1,
)

low_places :
    (os ps : List Output)
    → places ps ≡ places os
    → All (λ (o : Output). o.active_workspace < workspace_count) os
    → All (λ (o : Output). o.active_workspace < workspace_count) ps
low_places [] [] e d = tt
low_places [] (y ∷ ps) e d = absurd (cc)
low_places (x ∷ os) [] e d = absurd (cc)
low_places (x ∷ os) (y ∷ ps) e d = (ground arith, low_places os ps (ground arith) d.1)

any-places :
    (j : ℕ) (os ps : List Output) → places ps ≡ places os → any (shows j) ps ≡ any (shows j) os
any-places j [] [] e = refl
any-places j [] (y ∷ ps) e = absurd (cc)
any-places j (x ∷ os) [] e = absurd (cc)
any-places j (x ∷ os) (y ∷ ps) e =
    let one : y.active_workspace ≡ x.active_workspace = ground arith in
    cc (one, any-places j os ps (ground arith))

enabled_flags :
    (j : ℕ) (ws vs : List Workspace)
    → flags vs ≡ flags ws
    → (workspace_at j vs).enabled ≡ (workspace_at j ws).enabled
unfolding workspace_at
enabled_flags j [] [] e = refl
enabled_flags j [] (v ∷ vs) e = absurd (cc)
enabled_flags j (w ∷ ws) [] e = absurd (cc)
enabled_flags zero (w ∷ ws) (v ∷ vs) e = ground arith
enabled_flags (suc j) (w ∷ ws) (v ∷ vs) e = enabled_flags j ws vs (ground arith)

length-flags : (ws vs : List Workspace) → flags vs ≡ flags ws → length vs ≡ length ws
length-flags [] [] e = refl
length-flags [] (v ∷ vs) e = absurd (cc)
length-flags (w ∷ ws) [] e = absurd (cc)
length-flags (w ∷ ws) (v ∷ vs) e = ap suc (length-flags ws vs (ground arith))

-- A change of one workspace that leaves its flag.
pub flags-update_workspace :
    (i : ℕ) (f : Workspace → Workspace) (ws : List Workspace)
    → ((w : Workspace) → (f w).enabled ≡ w.enabled)
    → flags (update_workspace i f ws) ≡ flags ws
unfolding update_workspace
flags-update_workspace i f [] h = refl
flags-update_workspace zero f (w ∷ ws) h = ap (λ b. b ∷ flags ws) (h w)
flags-update_workspace (suc i) f (w ∷ ws) h = ap (◌∷◌ w.enabled) (flags-update_workspace i f ws h)

module _ {F : Floats} where
  pub Kept-Visible : (s t : Server F) → Kept s t → Visible s → Visible t
  Kept-Visible s t k v = record {
    distinct = Distinct-places s.outputs t.outputs k.places_kept v.distinct;
    low = low_places s.outputs t.outputs k.places_kept v.low;
    nine = length-flags s.workspaces t.workspaces k.flags_kept ∙ v.nine;
    shown = λ j h.
        enabled_flags j s.workspaces t.workspaces k.flags_kept
        ∙ v.shown j h
        ∙ sym (any-places j s.outputs t.outputs k.places_kept);
  }

  -- What the lock alone changes is not part of the invariant.
  pub Visible-of :
      (s t : Server F) → t.outputs ≡ s.outputs → t.workspaces ≡ s.workspaces → Visible s → Visible t
  Visible-of s t e f v = record {
    distinct = subst Distinct (sym e) v.distinct;
    low = subst (All (λ (o : Output). o.active_workspace < workspace_count)) (sym e) v.low;
    nine = ap length f ∙ v.nine;
    shown =
        λ j h. ap (λ ws. (workspace_at j ws).enabled) f ∙ v.shown j h ∙ sym (ap (any (shows j)) e);
  }

  pub Kept-refl : (s : Server F) → Kept s s
  Kept-refl s = record {
    places_kept = refl;
    flags_kept = refl;
    locked_kept = refl;
    quiet_kept = λ l n. n;
  }

  pub Kept-trans : (s t u : Server F) → Kept s t → Kept t u → Kept s u
  Kept-trans s t u h k = record {
    places_kept = k.places_kept ∙ h.places_kept;
    flags_kept = k.flags_kept ∙ h.flags_kept;
    locked_kept = k.locked_kept ∙ h.locked_kept;
    quiet_kept = λ l n. k.quiet_kept (h.locked_kept ∙ l) (h.quiet_kept l n);
  }

  pub Same-Kept : (s t : Server F) → Same s t → Kept s t
  Same-Kept s t h = record {
    places_kept = ap places h.outputs;
    flags_kept = ap flags h.workspaces;
    locked_kept = h.locked;
    quiet_kept = h.quiet;
  }
