-- ===== src/Visible/Tiled.antt =====
-- src/tiling.c and src/focus.c leave every workspace where it is shown.
use mathlib.Core.Path.{subst}
use kum_de.Base.{
  ◌≡◌, arith, ℕ, refl, inl, inr, Bool, true, false, not, List, [], ◌∷◌, Option, none, some, ◌==◌,
  if◌then◌else◌, Bool-cases, Option-cases,
}
use kum_de.Base.Int.{ℤ}
use kum_de.Arrange.{is_tiled}
use kum_de.Focus.{focus_first_mapped}
use kum_de.Frame.{Same, Same-refl, focus_first_mapped-Same, kum_workspace_arrange-Same}
use kum_de.Server.{
  Floats, Server, Output, Toplevel, is_tile, find_output, workspace_at, kum_output_focused,
  output_for_workspace,
}
use kum_de.Tiling.{
  focused_toplevel, kum_tiling_swap_master, swap_for, relinked, arrange_if_shown, kum_tiling_resize,
  stepped, kum_output_focus_adjacent, move_to_end,
}
use kum_de.Visible.Kept.{Kept, Kept-refl, Kept-trans, Same-Kept, flags-update_workspace}

module _ {F : Floats} where
  arrange_if_shown-Same : (i : ℕ) (s : Server F) → Same s (arrange_if_shown i s)
  unfolding arrange_if_shown
  arrange_if_shown-Same i s = elim (Option-cases (output_for_workspace s i)) [
    | inl e ↦ rw (e, arrange_if_shown) (Same-refl s)
    | inr (o, e) ↦ rw (e, arrange_if_shown) (kum_workspace_arrange-Same o i s)
  ]

  relinked-Kept : (k i : ℕ) (s : Server F) → Kept s (relinked k i s)
  unfolding relinked
  relinked-Kept k i s = record {
    places_kept = refl;
    flags_kept =
        flags-update_workspace i (λ w. record w { toplevels = move_to_end k w.toplevels })
          s.workspaces (λ w. refl);
    locked_kept = refl;
    quiet_kept = λ l n. n;
  }

  swap_for-Kept : (t : Toplevel) (s : Server F) {u : Server F} → swap_for t s ≡ some u → Kept s u
  unfolding swap_for
  swap_for-Kept t s {u} =
      go (is_tile (workspace_at t.workspace s.workspaces).layout) t.floating
        (workspace_at t.workspace s.workspaces).toplevels
    where
      moved : Server F
      moved = arrange_if_shown t.workspace (relinked t.id t.workspace s)

      stays : some s ≡ some u → Kept s u
      stays e = let same : s ≡ u = ground arith in subst (Kept s) same (Kept-refl s)

      moves : some moved ≡ some u → Kept s u
      moves e =
          let same : moved ≡ u = ground arith in
          subst (Kept s) same (
            Kept-trans s (relinked t.id t.workspace s) moved (relinked-Kept t.id t.workspace s) (
              Same-Kept (relinked t.id t.workspace s) moved
                (arrange_if_shown-Same t.workspace (relinked t.id t.workspace s))))

      first :
          (a b : Bool)
          → (if a then (if b then some s else some moved) else none) ≡ some u
          → Kept s u
      first true true = stays
      first true false = moves
      first false b = λ e. absurd (cc)

      go :
          (tiles floats : Bool) (ids : List ℕ)
          → (if not tiles then some s else if floats then some s else elim ids [
            | [] ↦ some moved
            | m ∷ rest ↦
                if is_tiled s.toplevels m then (if m == t.id then some s else some moved) else none
          ])
            ≡ some u
          → Kept s u
      go false floats ids = stays
      go true true ids = stays
      go true false [] = moves
      go true false (m ∷ rest) = first (is_tiled s.toplevels m) (m == t.id)

  pub kum_tiling_swap_master-Kept :
      (s : Server F) {u : Server F} → kum_tiling_swap_master s ≡ some u → Kept s u
  unfolding kum_tiling_swap_master
  kum_tiling_swap_master-Kept s {u} e = elim (Option-cases (focused_toplevel s)) [
    | inl f ↦ let same : s ≡ u = ground arith in subst (Kept s) same (Kept-refl s)
    | inr (t, f) ↦ swap_for-Kept t s {u = u} (ground arith)
  ]

  pub kum_tiling_resize-Same : (dw dh : ℤ) (s : Server F) → Same s (kum_tiling_resize dw dh s)
  unfolding kum_tiling_resize
  kum_tiling_resize-Same dw dh s = elim (Option-cases (focused_toplevel s)) [
    | inl e ↦ rw (e, kum_tiling_resize) (Same-refl s)
    | inr (t, e) ↦ elim (Bool-cases (is_tile (workspace_at t.workspace s.workspaces).layout)) [
      | inl f ↦
          let s1 : Server F = record s { master_ratio = stepped F s.master_ratio dw } in
          let h = arrange_if_shown-Same t.workspace s1 in
          rw (e, f, kum_tiling_resize)
            record {
              outputs = h.outputs;
              workspaces = h.workspaces;
              locked = h.locked;
              quiet = h.quiet;
            }
      | inr f ↦
          rw (e, f, kum_tiling_resize)
            record { outputs = refl; workspaces = refl; locked = refl; quiet = λ l n. n }
    ]
  ]

  pub kum_output_focus_adjacent-Same :
      (probe : Output → ℤ → ℤ → Option ℕ) (dx dy : ℤ) (s : Server F)
      → Same s (kum_output_focus_adjacent probe dx dy s)
  unfolding kum_output_focus_adjacent
  kum_output_focus_adjacent-Same probe dx dy s = from (kum_output_focused s)
    where
      target : Output → Output → Server F
      target cur o =
          if o.id == cur.id
          then s
          else focus_first_mapped o.active_workspace (record s { cursor_output = some o.id })

      to :
          (cur o : Output) (b : Bool)
          → Same s (
              if b
              then s
              else focus_first_mapped o.active_workspace (record s { cursor_output = some o.id }))
      to cur o true = Same-refl s
      to cur o false =
          let h =
            focus_first_mapped-Same o.active_workspace (record s { cursor_output = some o.id }) in
          record {
            outputs = h.outputs;
            workspaces = h.workspaces;
            locked = h.locked;
            quiet = h.quiet;
          }

      known :
          (cur : Output) (p : Option Output) → Same s (elim p [ none ↦ s | some o ↦ target cur o ])
      known cur none = Same-refl s
      known cur (some o) = to cur o (o.id == cur.id)

      probed :
          (cur : Output) (p : Option ℕ)
          → Same s (elim p [
            | none ↦ s
            | some k ↦ elim (find_output k s.outputs) [ none ↦ s | some o ↦ target cur o ]
          ])
      probed cur none = Same-refl s
      probed cur (some k) = known cur (find_output k s.outputs)

      from :
          (c : Option Output)
          → Same s (elim c [
            | none ↦ s
            | some cur ↦ elim (probe cur dx dy) [
              | none ↦ s
              | some k ↦ elim (find_output k s.outputs) [ none ↦ s | some o ↦ target cur o ]
            ]
          ])
      from none = Same-refl s
      from (some cur) = probed cur (probe cur dx dy)
