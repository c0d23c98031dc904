-- ===== src/Workspace/Hidden.antt =====
-- The enabled flag of a window's own scene node, which src/workspace.c clears when a window moves to
-- a workspace that no output shows.
use kum_de.Base.{
  ℕ, ◌<◌, ◌≡◌, ◌≢◌, refl, ap, ◌∙◌, Bool, true, false, List, [], ◌∷◌, Option, none, some, find?, leb,
  arith, length, filter, ◌==◌, if◌then◌else◌, Option-cases,
}
use kum_de.Base.Int.{ℤ, pos, negsuc}
use kum_de.Arrange.{
  tile_loop, is_tiled, arrange_by, tile_arrange, kum_workspace_arrange,
  kum_workspace_monocle_arrange,
}
use kum_de.Focus.{
  kum_focus_toplevel, focus_first_mapped, take_focus, kum_ipc_broadcast_window_title, clear_focus,
  is_mapped, workspace_of,
}
use kum_de.Server.{
  Floats, Server, Output, Toplevel, LayoutMode, floating, tile, monocle, update_toplevel,
  workspace_at, output_for_workspace, set_workspace_enabled, workspace_count,
}
use kum_de.Workspace.{
  workspace_translate, switch_output, swap_with, other_showing, drop_focus_on, kum_workspace_switch,
  kum_workspace_move_toplevel, move_window, relink, arrange_on, show_or_hide, refocus,
}
use kum_de.Workspace.Nodes.{
  node_of, node_of-update_toplevel, node_of-to_front, node_of-deactivate, node_of-shift_all,
  node_of-tile_loop, node_of-monocle_loop,
}

-- `t` shows and hides each window as `s` does.
abbrev ShowsAs : {F : Floats} → ℕ → Server F → Server F → Type 0
ShowsAs k s t = node_of t.toplevels k ≡ node_of s.toplevels k

module _ {F : Floats} (k : ℕ) where
  node_of-kum_workspace_arrange :
      (o : Output) (i : ℕ) (s : Server F) → ShowsAs k s (kum_workspace_arrange o i s)
  unfolding kum_workspace_arrange arrange_by tile_arrange kum_workspace_monocle_arrange
  node_of-kum_workspace_arrange o i s = go (workspace_at i s.workspaces).layout
    where
      ids : List ℕ
      ids = (workspace_at i s.workspaces).toplevels

      tiles :
          (b : Bool)
          → ShowsAs k s (
              if b then s else record s {
                toplevels =
                    tile_loop F s.master_ratio s.gap o.usable_area
                      (length (filter (is_tiled s.toplevels) ids))
                      0
                      ids
                      s.toplevels;
              })
      tiles true = refl
      tiles false = node_of-tile_loop F s.master_ratio s.gap o.usable_area _ 0 ids s.toplevels k

      go : (l : LayoutMode) → ShowsAs k s (arrange_by l o i s)
      go floating = refl
      go monocle = node_of-monocle_loop s.gap o.usable_area ids s.toplevels k
      go tile = tiles (length (filter (is_tiled s.toplevels) ids) == 0)

  toplevels-title :
      (i : ℕ) (title : List ℕ) (s : Server F)
      → (kum_ipc_broadcast_window_title i title s).toplevels ≡ s.toplevels
  unfolding kum_ipc_broadcast_window_title
  toplevels-title i title s = ground (arith, Option-cases (output_for_workspace s i))

  node_of-take_focus : (j : ℕ) (s : Server F) → ShowsAs k s (take_focus j s)
  unfolding take_focus
  node_of-take_focus j s =
      ap (λ ts. node_of ts k)
        (either s.has_keyboard _ _ (toplevels-title _ _ _) (toplevels-title _ _ _))
      ∙ node_of-update_toplevel j _ _ k (λ t. (refl, refl))
      ∙ node_of-to_front j _ k
      ∙ node_of-deactivate s.seat_focus s.toplevels k
    where
      either :
          (b : Bool) (t u : Server F) {ts : List Toplevel}
          → t.toplevels ≡ ts
          → u.toplevels ≡ ts
          → (let r : Server F = if b then t else u in r).toplevels ≡ ts
      either true t u h g = h
      either false t u h g = g

  node_of-kum_focus_toplevel : (j : ℕ) (s : Server F) → ShowsAs k s (kum_focus_toplevel j s)
  unfolding kum_focus_toplevel
  node_of-kum_focus_toplevel j s = ground (arith, node_of-take_focus j s)

  node_of-focus_first_mapped : (i : ℕ) (s : Server F) → ShowsAs k s (focus_first_mapped i s)
  unfolding focus_first_mapped
  node_of-focus_first_mapped i s =
      go (find? (is_mapped s.toplevels) (workspace_at i s.workspaces).toplevels)
    where
      go : (f : Option ℕ) → ShowsAs k s (elim f [ none ↦ s | some j ↦ kum_focus_toplevel j s ])
      go none = refl
      go (some j) = node_of-kum_focus_toplevel j s

  node_of-drop_focus_on : (i : ℕ) (s : Server F) → ShowsAs k s (drop_focus_on i s)
  unfolding drop_focus_on
  node_of-drop_focus_on i s = ground arith

  node_of-workspace_translate :
      (i : ℕ) (dx dy : ℤ) (s : Server F) → ShowsAs k s (workspace_translate i dx dy s)
  unfolding workspace_translate
  node_of-workspace_translate i dx dy s =
      ground (arith, node_of-shift_all dx dy (workspace_at i s.workspaces).toplevels s.toplevels k)

  node_of-swap_with : (o p : Output) (i : ℕ) (s : Server F) → ShowsAs k s (swap_with o p i s)
  unfolding swap_with set_workspace_enabled
  node_of-swap_with o p i s =
      node_of-workspace_translate i _ _ _ ∙ node_of-workspace_translate o.active_workspace _ _ _

  node_of-switch_output : (o : Output) (i : ℕ) (s : Server F) → ShowsAs k s (switch_output o i s)
  unfolding switch_output set_workspace_enabled
  node_of-switch_output o i s =
      node_of-focus_first_mapped i _
      ∙ node_of-drop_focus_on o.active_workspace _
      ∙ released (other_showing o i s)
    where
      released :
          (other : Option Output)
          → ShowsAs k s (elim other [
            | none ↦ set_workspace_enabled o.active_workspace false s
            | some p ↦ swap_with o p i s
          ])
      released none = refl
      released (some p) = node_of-swap_with o p i s

  -- A switch of workspaces enables and disables no window of its own.
  node_of-kum_workspace_switch :
      (o : Output) (i : ℤ) (s : Server F) → ShowsAs k s (kum_workspace_switch (some o) i s)
  unfolding kum_workspace_switch
  node_of-kum_workspace_switch o (negsuc _) s = refl
  node_of-kum_workspace_switch o (pos i) s = ground (arith, node_of-switch_output o i s)

  node_of-refocus :
      (src : Option Output) (j old : ℕ) (s : Server F) → ShowsAs k s (refocus src j old s)
  unfolding refocus
  node_of-refocus src j old s = go s.focused
    where
      both :
          (o : Option Output)
          → ShowsAs k s
              (elim o [ none ↦ clear_focus s | some _ ↦ focus_first_mapped old (clear_focus s) ])
      both none = refl
      both (some p) = node_of-focus_first_mapped old (clear_focus s)

      held :
          (b : Bool)
          → ShowsAs k s (
              if b
              then elim src [
                | none ↦ clear_focus s
                | some _ ↦ focus_first_mapped old (clear_focus s)
              ]
              else s)
      held true = both src
      held false = refl

      go :
          (f : Option ℕ)
          → ShowsAs k s (elim f [
            | none ↦ s
            | some i ↦
                if i == j
                then elim src [
                  | none ↦ clear_focus s
                  | some _ ↦ focus_first_mapped old (clear_focus s)
                ]
                else s
          ])
      go none = refl
      go (some i) = held (i == j)

  node_of-arrange_on : (o : Option Output) (i : ℕ) (s : Server F) → ShowsAs k s (arrange_on o i s)
  unfolding arrange_on
  node_of-arrange_on none i s = refl
  node_of-arrange_on (some o) i s = node_of-kum_workspace_arrange o i s

disabled-update_toplevel :
    (k : ℕ) (ts : List Toplevel)
    → node_of (update_toplevel k (λ t. record t { node_enabled = false }) ts) k ≡ false
unfolding update_toplevel
disabled-update_toplevel k [] = refl
disabled-update_toplevel k (t ∷ ts) = ground (arith, disabled-update_toplevel k ts)

module _ {F : Floats} where
  show_or_hide-hides :
      (k i : ℕ) (s : Server F) (o : Option Output)
      → o ≡ none
      → node_of (show_or_hide o k i s).toplevels k ≡ false
  unfolding show_or_hide
  show_or_hide-hides k i s none e = disabled-update_toplevel k s.toplevels
  show_or_hide-hides k i s (some o) e = absurd (cc)

  -- A window that moves to a workspace on no output stays hidden when an output then shows that
  -- workspace: its own scene node is disabled and the switch does not enable it.
  pub kum_workspace_switch-moved :
      (p : Output) (k i : ℕ) (s : Server F)
      → i < workspace_count
      → i ≢ workspace_of s.toplevels k
      → output_for_workspace s i ≡ none
      → node_of
          (kum_workspace_switch
            (some p)
            (pos i)
            (kum_workspace_move_toplevel k (pos i) s)).toplevels
          k
        ≡ false
  unfolding kum_workspace_move_toplevel move_window relink output_for_workspace
  kum_workspace_switch-moved p k i s low away unseen =
      node_of-kum_workspace_switch k p (pos i) _
      ∙ moved (leb workspace_count i) (i == workspace_of s.toplevels k) (ground arith)
          (ground arith)
    where
      old : ℕ
      old = workspace_of s.toplevels k

      hidden : node_of (move_window k old i s).toplevels k ≡ false
      hidden =
          node_of-refocus k (output_for_workspace s old) k old _
          ∙ node_of-arrange_on k (output_for_workspace s old) old _
          ∙ show_or_hide-hides k i (relink k old i s) (output_for_workspace (relink k old i s) i)
              unseen

      moved :
          (a b : Bool)
          → a ≡ false
          → b ≡ false
          → node_of
              (let r : Server F = if a then s else if b then s else move_window k old i s in
                r).toplevels
              k
            ≡ false
      moved false false e f = hidden
      moved true b e f = absurd (cc)
      moved false true e f = absurd (cc)
