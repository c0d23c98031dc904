-- ===== src/Visible/Windows.antt =====
-- The operations on windows keep every workspace where it is shown.
use kum_de.Base.{
  ℕ, refl, ◌∙◌, inl, inr, ◌∷◌, Option, none, some, leb, ◌==◌, if◌then◌else◌, Bool-cases,
}
use kum_de.Base.Int.{ℤ, pos, negsuc}
use kum_de.Arrange.{kum_workspace_arrange}
use kum_de.Focus.{focus_first_mapped, clear_focus, workspace_of}
use kum_de.Frame.{Same, Same-refl, Same-trans, focus_first_mapped-Same, kum_workspace_arrange-Same}
use kum_de.Server.{
  Floats, Server, Output, Toplevel, LayoutMode, floating, tile, is_floating, workspace_at,
  remove_id, workspace_count, output_for_workspace,
}
use kum_de.Toplevel.{kum_new_xdg_toplevel, toplevel_destroy}
use kum_de.Workspace.{
  arrange_on, show_or_hide, refocus, relink, move_window, kum_workspace_move_toplevel, set_layout,
  kum_workspace_toggle_layout,
}
use kum_de.Visible.Kept.{Kept, Kept-refl, Kept-trans, Same-Kept, flags-update_workspace}

module _ {F : Floats} where
  relink-Kept : (k old i : ℕ) (s : Server F) → Kept s (relink k old i s)
  unfolding relink
  relink-Kept k old i s = record {
    places_kept = refl;
    flags_kept =
        flags-update_workspace i (λ w. record w { toplevels = k ∷ w.toplevels }) _ (λ w. refl)
        ∙ flags-update_workspace old (λ w. record w { toplevels = remove_id k w.toplevels })
            s.workspaces (λ w. refl);
    locked_kept = refl;
    quiet_kept = λ l n. n;
  }

  arrange_on-Same : (o : Option Output) (i : ℕ) (s : Server F) → Same s (arrange_on o i s)
  unfolding arrange_on
  arrange_on-Same none i s = Same-refl s
  arrange_on-Same (some o) i s = kum_workspace_arrange-Same o i s

  show_or_hide-Same : (o : Option Output) (k i : ℕ) (s : Server F) → Same s (show_or_hide o k i s)
  unfolding show_or_hide
  show_or_hide-Same none k i s = record {
    outputs = refl;
    workspaces = refl;
    locked = refl;
    quiet = λ l n. n;
  }
  show_or_hide-Same (some o) k i s = kum_workspace_arrange-Same o i s

  refocus-Same : (src : Option Output) (k old : ℕ) (s : Server F) → Same s (refocus src k old s)
  unfolding refocus
  refocus-Same src k old s = go s.focused src
    where
      cleared : Same s (focus_first_mapped old (clear_focus s))
      cleared =
          let h = focus_first_mapped-Same old (clear_focus s) in
          record {
            outputs = h.outputs;
            workspaces = h.workspaces;
            locked = h.locked;
            quiet = λ l n. h.quiet l refl;
          }

      go :
          (f : Option ℕ) (o : Option Output)
          → Same s (elim f [
            | none ↦ s
            | some j ↦
                if j == k
                then elim o [
                  | none ↦ clear_focus s
                  | some _ ↦ focus_first_mapped old (clear_focus s)
                ]
                else s
          ])
      go none o = Same-refl s
      go (some j) o = elim (Bool-cases (j == k)) [
        | inr e ↦ rw e (Same-refl s)
        | inl e ↦ rw e (both o)
      ]
        where
          both :
              (o : Option Output)
              → Same s (elim o [
                | none ↦ clear_focus s
                | some _ ↦ focus_first_mapped old (clear_focus s)
              ])
          both none = record {
            outputs = refl;
            workspaces = refl;
            locked = refl;
            quiet = λ l n. refl;
          }
          both (some _) = cleared

  move_window-Kept : (k old i : ℕ) (s : Server F) → Kept s (move_window k old i s)
  unfolding move_window
  move_window-Kept k old i s =
      let src = output_for_workspace s old in
      let s1 = relink k old i s in
      let s2 = show_or_hide (output_for_workspace s1 i) k i s1 in
      let s3 = arrange_on src old s2 in
      Kept-trans s s1 _ (relink-Kept k old i s) (
        Same-Kept s1 _ (
          Same-trans s1 s3 _
            (Same-trans s1 s2 s3 (show_or_hide-Same _ k i s1) (arrange_on-Same src old s2))
            (refocus-Same src k old s3)))

  pub kum_workspace_move_toplevel-Kept :
      (k : ℕ) (i : ℤ) (s : Server F) → Kept s (kum_workspace_move_toplevel k i s)
  unfolding kum_workspace_move_toplevel
  kum_workspace_move_toplevel-Kept k (negsuc _) s = Kept-refl s
  kum_workspace_move_toplevel-Kept k (pos i) s = elim (Bool-cases (leb workspace_count i)) [
    | inl e ↦ rw e (Kept-refl s)
    | inr e ↦ rw e (elim (Bool-cases (i == workspace_of s.toplevels k)) [
      | inl f ↦ rw f (Kept-refl s)
      | inr f ↦ rw f (move_window-Kept k (workspace_of s.toplevels k) i s)
    ])
  ]

  pub set_layout-Kept : (i : ℕ) (l : LayoutMode) (s : Server F) → Kept s (set_layout i l s)
  set_layout-Kept i l s = record {
    places_kept = refl;
    flags_kept = flags-update_workspace i (λ w. record w { layout = l }) s.workspaces (λ w. refl);
    locked_kept = refl;
    quiet_kept = λ l n. n;
  }

  pub layout_arranged-Kept :
      (o : Output) (i : ℕ) (l : LayoutMode) (s : Server F)
      → Kept s (kum_workspace_arrange o i (set_layout i l s))
  layout_arranged-Kept o i l s =
      Kept-trans s (set_layout i l s) _ (set_layout-Kept i l s)
        (Same-Kept (set_layout i l s) _ (kum_workspace_arrange-Same o i (set_layout i l s)))

  pub kum_workspace_toggle_layout-Kept :
      (o : Option Output) (s : Server F) → Kept s (kum_workspace_toggle_layout o s)
  unfolding kum_workspace_toggle_layout
  kum_workspace_toggle_layout-Kept none s = Kept-refl s
  kum_workspace_toggle_layout-Kept (some o) s =
      elim (Bool-cases (is_floating (workspace_at o.active_workspace s.workspaces).layout)) [
        | inl e ↦ rw e (layout_arranged-Kept o o.active_workspace tile s)
        | inr e ↦ rw e (set_layout-Kept o.active_workspace floating s)
      ]

  pub kum_new_xdg_toplevel-Kept : (t : Toplevel) (s : Server F) → Kept s (kum_new_xdg_toplevel t s)
  unfolding kum_new_xdg_toplevel
  kum_new_xdg_toplevel-Kept t s = record {
    places_kept = refl;
    flags_kept =
        flags-update_workspace _ (λ w. record w { toplevels = t.id ∷ w.toplevels }) _ (λ w. refl);
    locked_kept = refl;
    quiet_kept = λ l n. n;
  }

  pub toplevel_destroy-Kept : (k : ℕ) (s : Server F) → Kept s (toplevel_destroy k s)
  unfolding toplevel_destroy
  toplevel_destroy-Kept k s = record {
    places_kept = refl;
    flags_kept =
        flags-update_workspace _ (λ w. record w { toplevels = remove_id k w.toplevels }) _
          (λ w. refl);
    locked_kept = refl;
    quiet_kept = λ l n. n;
  }
