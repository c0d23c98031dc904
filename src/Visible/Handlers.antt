-- ===== src/Visible/Handlers.antt =====
-- The handlers of src/toplevel.c, src/layer.c, src/sessionlock.c and src/rules.c keep every
-- workspace where it is shown.
use kum_de.Base.{
  ℕ, ◌≡◌, refl, inl, inr, Bool, true, false, not, ◌&&◌, List, [], ◌∷◌, Option, none, some, find?,
  arith, ltb, ◌==◌, if◌then◌else◌, Bool-cases, Option-cases,
}
use kum_de.Base.Int.{ℤ, pos, negsuc}
use kum_de.Arrange.{kum_workspace_arrange}
use kum_de.Focus.{kum_focus_toplevel, workspace_of}
use kum_de.Frame.{Same, Same-refl, Same-trans, kum_focus_toplevel-Same, kum_workspace_arrange-Same}
use kum_de.Rules.{rule_move, apply_rule, kum_rules_apply, rule_matches}
use kum_de.Server.{
  Floats, Server, Box, Output, opening, Toplevel, Rule, is_floating, is_tile, workspace_at,
  workspace_count, find_toplevel, update_output, output_for_workspace,
}
use kum_de.Text.{Bytes}
use kum_de.Toplevel.{
  arrange_at, centered, toplevel_center_on_output, placed_on_map, mapped_on, toplevel_map,
  toplevel_unmap, with_toplevel, kum_toplevel_set_fullscreen, request_maximize,
}
use kum_de.Visible.Kept.{Kept, Kept-refl, Kept-trans, Same-Kept, places}
use kum_de.Visible.Windows.{kum_workspace_move_toplevel-Kept}

pub places-update_output :
    (k : ℕ) (usable : Box) (os : List Output)
    → places (update_output k (λ p. record p { usable_area = usable }) os) ≡ places os
unfolding update_output
places-update_output k usable [] = refl
places-update_output k usable (o ∷ os) = ground (arith, places-update_output k usable os)

module _ {F : Floats} where
  rule_move-Kept : (r : Rule) (k : ℕ) (i : ℤ) (s : Server F) → Kept s (rule_move r k i s)
  unfolding rule_move
  rule_move-Kept r k (negsuc _) s = Kept-refl s
  rule_move-Kept r k (pos i) s =
      elim (Bool-cases (ltb i workspace_count && not (i == workspace_of s.toplevels k))) [
        | inl e ↦ rw e (kum_workspace_move_toplevel-Kept k (pos i) s)
        | inr e ↦ rw e (Kept-refl s)
      ]

  apply_rule-Kept : (r : Rule) (k : ℕ) (s : Server F) → Kept s (apply_rule r k s)
  unfolding apply_rule
  apply_rule-Kept r k s =
      let h = rule_move-Kept r k r.workspace s in
      record {
        places_kept = h.places_kept;
        flags_kept = h.flags_kept;
        locked_kept = h.locked_kept;
        quiet_kept = h.quiet_kept;
      }

  pub kum_rules_apply-Kept :
      (fnmatch : Bytes → Bytes → Bool) (k : ℕ) (s : Server F) → Kept s (kum_rules_apply fnmatch k s)
  unfolding kum_rules_apply
  kum_rules_apply-Kept fnmatch k s = elim (Option-cases (find_toplevel k s.toplevels)) [
    | inl e ↦ rw (e, kum_rules_apply) (Kept-refl s)
    | inr (t, e) ↦
        rw (e, kum_rules_apply)
          (elim (Option-cases (find? (rule_matches fnmatch t.app_id t.title) s.rules)) [
            | inl f ↦ rw f (Kept-refl s)
            | inr (r, f) ↦ rw f (apply_rule-Kept r k s)
          ])
  ]

  pub arrange_at-Same :
      (o : Option Output) (i : ℕ) (s : Server F) {t : Server F}
      → arrange_at o i s ≡ some t
      → Same s t
  unfolding arrange_at
  arrange_at-Same none i s {t} e =
      elim (Bool-cases (is_floating (workspace_at i s.workspaces).layout)) [
        | inl f ↦ let same : s ≡ t = ground arith in rw (← same) (Same-refl s)
        | inr f ↦ absurd (ground arith)
      ]
  arrange_at-Same (some o) i s {t} e =
      let same : kum_workspace_arrange o i s ≡ t = ground arith in
      rw (← same) (kum_workspace_arrange-Same o i s)

  pub toplevel_unmap-Same : (k : ℕ) (s : Server F) → Same s (toplevel_unmap k s)
  unfolding toplevel_unmap
  toplevel_unmap-Same k s =
      let i = workspace_of s.toplevels k in
      elim (Option-cases (output_for_workspace s i)) [
        | inl e ↦ rw (e, toplevel_unmap) (ground arith)
        | inr (p, e) ↦
            rw (e, toplevel_unmap)
              (ends p i (is_tile (workspace_at i s.workspaces).layout) _ (ground arith))
      ]
    where
      ends :
          (p : Output) (i : ℕ) (b : Bool) (t : Server F)
          → Same s t
          → Same s (if b then kum_workspace_arrange p i t else t)
      ends p i true t h = Same-trans s t _ h (kum_workspace_arrange-Same p i t)
      ends p i false t h = h

  placed_on_map-Same :
      (k : ℕ) (t : Toplevel) (s u : Server F) → placed_on_map k t s ≡ some u → Same s u
  unfolding placed_on_map toplevel_center_on_output
  placed_on_map-Same k t s u e =
      elim (Bool-cases (is_tile (workspace_at t.workspace s.workspaces).layout && not t.floating)) [
        | inl f ↦ arrange_at-Same (output_for_workspace s t.workspace) t.workspace s (ground arith)
        | inr f ↦ elim (Option-cases (output_for_workspace s t.workspace)) [
          | inl g ↦ let same : s ≡ u = ground arith in rw (← same) (Same-refl s)
          | inr (p, g) ↦
              let same : with_toplevel k (centered p.usable_area) s ≡ u = ground arith in
              rw (← same)
                record { outputs = refl; workspaces = refl; locked = refl; quiet = λ l n. n }
        ]
      ]

  mapped_on-Kept :
      (fnmatch : Bytes → Bytes → Bool) (k : ℕ) (s : Server F) → Kept s (mapped_on fnmatch k s)
  unfolding mapped_on
  mapped_on-Kept fnmatch k s =
      let s1 : Server F =
        if s.animations then with_toplevel k (λ t. record t { anim = opening }) s else s in
      let s2 : Server F = kum_rules_apply fnmatch k s1 in
      let start : Kept s s1 = opened_or_not s.animations in
      let rest : Kept s1 (kum_focus_toplevel k s2) =
        Kept-trans s1 s2 _ (kum_rules_apply-Kept fnmatch k s1)
          (Same-Kept s2 _ (kum_focus_toplevel-Same k s2)) in
      let all = Kept-trans s s1 _ start rest in
      record {
        places_kept = all.places_kept;
        flags_kept = all.flags_kept;
        locked_kept = all.locked_kept;
        quiet_kept = all.quiet_kept;
      }
    where
      opened_or_not :
          (b : Bool)
          → Kept s (if b then with_toplevel k (λ t. record t { anim = opening }) s else s)
      opened_or_not true = record {
        places_kept = refl;
        flags_kept = refl;
        locked_kept = refl;
        quiet_kept = λ l n. n;
      }
      opened_or_not false = Kept-refl s

  pub toplevel_map-Kept :
      (fnmatch : Bytes → Bytes → Bool) (k : ℕ) (s u : Server F)
      → toplevel_map fnmatch k s ≡ some u
      → Kept s u
  unfolding toplevel_map
  toplevel_map-Kept fnmatch k s u e = elim (Option-cases (find_toplevel k s.toplevels)) [
    | inl f ↦ let same : s ≡ u = ground arith in rw (← same) (Kept-refl s)
    | inr (t, f) ↦ elim (Option-cases (placed_on_map k t s)) [
      | inl g ↦ absurd (ground arith)
      | inr (s1, g) ↦
          let same : mapped_on fnmatch k s1 ≡ u = ground arith in
          rw (← same) (
            Kept-trans s s1 _ (Same-Kept s s1 (placed_on_map-Same k t s s1 g))
              (mapped_on-Kept fnmatch k s1))
    ]
  ]

module _ {F : Floats} where
  pub kum_toplevel_set_fullscreen-Same :
      (full : Output → Box) (k : ℕ) (on : Bool) (s : Server F)
      → Same s (kum_toplevel_set_fullscreen full k on s)
  unfolding kum_toplevel_set_fullscreen
  kum_toplevel_set_fullscreen-Same full k true s = record {
    outputs = refl;
    workspaces = refl;
    locked = refl;
    quiet = λ l n. n;
  }
  kum_toplevel_set_fullscreen-Same full k false s = record {
    outputs = refl;
    workspaces = refl;
    locked = refl;
    quiet = λ l n. n;
  }

  pub request_maximize-Same : (k : ℕ) (on : Bool) (s : Server F) → Same s (request_maximize k on s)
  unfolding request_maximize
  request_maximize-Same k false s = record {
    outputs = refl;
    workspaces = refl;
    locked = refl;
    quiet = λ l n. n;
  }
  request_maximize-Same k true s =
      elim (Option-cases (output_for_workspace s (workspace_of s.toplevels k))) [
        | inl e ↦ rw (e, request_maximize) (Same-refl s)
        | inr (p, e) ↦
            rw (e, request_maximize)
              record { outputs = refl; workspaces = refl; locked = refl; quiet = λ l n. n }
      ]
