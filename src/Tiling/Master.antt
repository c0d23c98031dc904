-- ===== src/Tiling/Master.antt =====
-- `kum_tiling_swap_master` of src/tiling.c and the window that the tile layout puts in the master
-- place: the first tiled one of the workspace's list.
use mathlib.Core.Path.{subst}
use kum_de.Base.{
  ℕ, ◌≡◌, ◌≢◌, refl, sym, ap, ◌∙◌, ◌⊎◌, inl, inr, Bool, true, false, not, List, [], ◌∷◌, ◌++◌,
  Option, none, some, find?, arith, zero, suc, ◌==◌, if◌then◌else◌, Bool-cases,
}
use kum_de.Base.{length, filter}
use kum_de.Base.Int.{ℤ}
use kum_de.Arrange.{
  is_tiled, place, tile_box, tile_loop, monocle_loop, arrange_by, tile_arrange,
  kum_workspace_monocle_arrange, kum_workspace_arrange,
}
use kum_de.Frame.{kum_workspace_arrange-Same}
use kum_de.Server.{
  Floats, Server, Box, Output, Toplevel, Workspace, LayoutMode, floating, tile, monocle, is_tile,
  workspace_at, update_workspace, update_toplevel, remove_id, output_for_workspace,
}
use kum_de.Tiling.{
  move_to_end, relinked, swap_for, arrange_if_shown, focused_toplevel, kum_tiling_swap_master,
}

abbrev pub master_of : {F : Floats} → ℕ → Server F → Option ℕ
master_of i s = find? (is_tiled s.toplevels) (workspace_at i s.workspaces).toplevels

find?-append :
    (f : ℕ → Bool) (m : ℕ) (xs ys : List ℕ) → find? f xs ≡ some m → find? f (xs ++ ys) ≡ some m
find?-append f m [] ys e = absurd (cc)
find?-append f m (x ∷ xs) ys e = ground (arith, find?-append f m xs ys)

-- The first element with a property stays the first one when another element goes to the end.
find?-move_to_end :
    (f : ℕ → Bool) (k m : ℕ) (ids : List ℕ)
    → find? f ids ≡ some m
    → m ≢ k
    → find? f (move_to_end k ids) ≡ some m
unfolding move_to_end remove_id
find?-move_to_end f k m [] e n = absurd (cc)
find?-move_to_end f k m (j ∷ ids) e n = elim (Bool-cases (f j)) [
  | inl t ↦ let same : j ≡ m = ground arith in ground arith
  | inr t ↦
      let rest = find?-move_to_end f k m ids (ground arith) n in
      elim (Bool-cases (j == k)) [
        | inl q ↦ rw q (find?-append f m ids (k ∷ []) (ground arith))
        | inr q ↦ ground arith
      ]
]

find?-ext : (f g : ℕ → Bool) (xs : List ℕ) → ((k : ℕ) → f k ≡ g k) → find? f xs ≡ find? g xs
find?-ext f g [] h = refl
find?-ext f g (x ∷ xs) h = ground (arith, h x, find?-ext f g xs h)

-- Placing windows does not change which of them are tiled.
is_tiled-place :
    (k : ℕ) (b : Box) (ts : List Toplevel) (j : ℕ) → is_tiled (place k b ts) j ≡ is_tiled ts j
unfolding is_tiled place update_toplevel
is_tiled-place k b [] j = refl
is_tiled-place k b (t ∷ ts) j = ground (arith, is_tiled-place k b ts j)

is_tiled-place_if :
    (c : Bool) (k : ℕ) (b : Box) (ts : List Toplevel) (j : ℕ)
    → is_tiled (if c then place k b ts else ts) j ≡ is_tiled ts j
is_tiled-place_if true k b ts j = is_tiled-place k b ts j
is_tiled-place_if false k b ts j = refl

is_tiled-tile_loop :
    (F : Floats) (mr : F.Real) (gap : ℤ) (area : Box) (count i : ℕ) (ids : List ℕ)
    (ts : List Toplevel) (j : ℕ)
    → is_tiled (tile_loop F mr gap area count i ids ts) j ≡ is_tiled ts j
unfolding tile_loop
is_tiled-tile_loop F mr gap area count i [] ts j = refl
is_tiled-tile_loop F mr gap area count i (k ∷ ids) ts j =
    is_tiled-tile_loop F mr gap area count (if is_tiled ts k then suc i else i) ids _ j
    ∙ is_tiled-place_if (is_tiled ts k) k (tile_box F mr gap area count i) ts j

is_tiled-monocle_loop :
    (gap : ℤ) (area : Box) (ids : List ℕ) (ts : List Toplevel) (j : ℕ)
    → is_tiled (monocle_loop gap area ids ts) j ≡ is_tiled ts j
unfolding monocle_loop
is_tiled-monocle_loop gap area [] ts j = refl
is_tiled-monocle_loop gap area (k ∷ ids) ts j =
    is_tiled-monocle_loop gap area ids _ j ∙ is_tiled-place_if (is_tiled ts k) k _ ts j

toplevels-update_workspace :
    (f : List ℕ → List ℕ) (i : ℕ) (ws : List Workspace)
    → ((workspace_at i
          (update_workspace i (λ w. record w { toplevels = f w.toplevels }) ws)).toplevels
        ≡ f (workspace_at i ws).toplevels)
      ⊎ ((workspace_at i ws).toplevels ≡ [])
unfolding workspace_at update_workspace
toplevels-update_workspace f i [] = inr refl
toplevels-update_workspace f zero (w ∷ ws) = inl refl
toplevels-update_workspace f (suc i) (w ∷ ws) = toplevels-update_workspace f i ws

module _ {F : Floats} where
  pub is_tiled-kum_workspace_arrange :
      (o : Output) (i : ℕ) (s : Server F) (j : ℕ)
      → is_tiled (kum_workspace_arrange o i s).toplevels j ≡ is_tiled s.toplevels j
  unfolding kum_workspace_arrange arrange_by tile_arrange kum_workspace_monocle_arrange
  is_tiled-kum_workspace_arrange o i s j = go (workspace_at i s.workspaces).layout
    where
      ids : List ℕ
      ids = (workspace_at i s.workspaces).toplevels

      tiles :
          (b : Bool)
          → is_tiled
              (let t : Server F = if b then s else record s {
                toplevels =
                    tile_loop F s.master_ratio s.gap o.usable_area
                      (length (filter (is_tiled s.toplevels) ids))
                      0
                      ids
                      s.toplevels;
              } in
                t).toplevels
              j
            ≡ is_tiled s.toplevels j
      tiles true = refl
      tiles false = is_tiled-tile_loop F s.master_ratio s.gap o.usable_area _ 0 ids s.toplevels j

      go : (l : LayoutMode) → is_tiled (arrange_by l o i s).toplevels j ≡ is_tiled s.toplevels j
      go floating = refl
      go monocle = is_tiled-monocle_loop s.gap o.usable_area ids s.toplevels j
      go tile = tiles (length (filter (is_tiled s.toplevels) ids) == 0)

  master_of-arrange_if_shown :
      (i : ℕ) (s : Server F) → master_of i (arrange_if_shown i s) ≡ master_of i s
  unfolding arrange_if_shown
  master_of-arrange_if_shown i s = go (output_for_workspace s i)
    where
      go :
          (o : Option Output)
          → master_of i (elim o [ none ↦ s | some p ↦ kum_workspace_arrange p i s ]) ≡ master_of i s
      go none = refl
      go (some p) =
          ap
            (λ ws.
              find? (is_tiled (kum_workspace_arrange p i s).toplevels)
                (workspace_at i ws).toplevels)
            (kum_workspace_arrange-Same p i s).workspaces
          ∙ find?-ext _ _ (workspace_at i s.workspaces).toplevels
              (is_tiled-kum_workspace_arrange p i s)

  master_of-relinked :
      (k i : ℕ) (s : Server F) {m : ℕ}
      → master_of i s ≡ some m
      → m ≢ k
      → master_of i (relinked k i s) ≡ some m
  unfolding relinked
  master_of-relinked k i s {m} e n =
      elim (toplevels-update_workspace (move_to_end k) i s.workspaces) [
        | inl h ↦
            ap (find? (is_tiled s.toplevels)) h
            ∙ find?-move_to_end (is_tiled s.toplevels) k m (workspace_at i s.workspaces).toplevels e
                n
        | inr h ↦ absurd (Bottom (sym (ap (find? (is_tiled s.toplevels)) h) ∙ e))
      ]
    where
      Bottom : ◌≡◌ {A = Option ℕ} none (some m) → ⊥
      Bottom h = cc

  -- A swap that returns, of a window that is not the master of its tiled workspace, leaves the master
  -- where it is.
  pub kum_tiling_swap_master-master :
      (s : Server F) {t : Toplevel} {m : ℕ} {u : Server F}
      → focused_toplevel s ≡ some t
      → master_of t.workspace s ≡ some m
      → m ≢ t.id
      → kum_tiling_swap_master s ≡ some u
      → master_of t.workspace u ≡ some m
  unfolding kum_tiling_swap_master swap_for
  kum_tiling_swap_master-master s {t} {m} {u} e h n done =
      go (is_tile (workspace_at t.workspace s.workspaces).layout) t.floating
        (workspace_at t.workspace s.workspaces).toplevels (swapped e done)
    where
      swapped :
          focused_toplevel s ≡ some t → kum_tiling_swap_master s ≡ some u → swap_for t s ≡ some u
      swapped f d = ground arith

      moved : Server F
      moved = arrange_if_shown t.workspace (relinked t.id t.workspace s)

      stays : some s ≡ some u → master_of t.workspace u ≡ some m
      stays d =
          let same : s ≡ u = ground arith in subst (λ v. master_of t.workspace v ≡ some m) same h

      moves : some moved ≡ some u → master_of t.workspace u ≡ some m
      moves d =
          let same : moved ≡ u = ground arith in
          subst (λ v. master_of t.workspace v ≡ some m) same
            (master_of-arrange_if_shown t.workspace (relinked t.id t.workspace s)
              ∙ master_of-relinked t.id t.workspace s h n)

      first :
          (a b : Bool)
          → (if a then (if b then some s else some moved) else none) ≡ some u
          → master_of t.workspace u ≡ some m
      first true true = stays
      first true false = moves
      first false b = λ d. absurd (cc)

      go :
          (tiles floats : Bool) (ids : List ℕ)
          → (if not tiles then some s else if floats then some s else elim ids [
            | [] ↦ some moved
            | j ∷ rest ↦
                if is_tiled s.toplevels j then (if j == t.id then some s else some moved) else none
          ])
            ≡ some u
          → master_of t.workspace u ≡ some m
      go false floats ids = stays
      go true true ids = stays
      go true false [] = moves
      go true false (j ∷ rest) = first (is_tiled s.toplevels j) (j == t.id)
