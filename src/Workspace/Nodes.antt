-- ===== src/Workspace/Nodes.antt =====
-- The enabled flag of a window's own scene node under what the operations of src/workspace.c and
-- src/toplevel.c do to the list of windows.
use kum_de.Base.{
  ℕ, suc, ◌≡◌, ◌≢◌, refl, ap, ◌∙◌, inl, inr, Bool, true, false, List, [], ◌∷◌, Option, none, some,
  arith, ◌==◌, if◌then◌else◌, Bool-cases, Option-cases,
}
use kum_de.Base.Int.{ℤ}
use kum_de.Arrange.{place, tile_box, tile_loop, monocle_loop, is_tiled}
use kum_de.Focus.{deactivate, to_front}
use kum_de.Server.{
  Floats, Box, Toplevel, Surface, window, layer_surface, lock_surface, find_toplevel,
  update_toplevel, remove_toplevel,
}
use kum_de.Workspace.{shift_all}

abbrev pub node_of : List Toplevel → ℕ → Bool
node_of ts k = elim (find_toplevel k ts) [ none ↦ false | some t ↦ t.node_enabled ]

-- A change of a window that leaves its identity and its flag.
abbrev Plain : (Toplevel → Toplevel) → Type 0
Plain f = (t : Toplevel) → ((f t).id ≡ t.id) × ((f t).node_enabled ≡ t.node_enabled)

pub node_of-update_toplevel :
    (j : ℕ) (f : Toplevel → Toplevel) (ts : List Toplevel) (k : ℕ)
    → Plain f
    → node_of (update_toplevel j f ts) k ≡ node_of ts k
unfolding update_toplevel
node_of-update_toplevel j f [] k h = refl
node_of-update_toplevel j f (t ∷ ts) k h = ground (arith, h t, node_of-update_toplevel j f ts k)

node_of-remove_toplevel :
    (j : ℕ) (ts : List Toplevel) (k : ℕ) → j ≢ k → node_of (remove_toplevel j ts) k ≡ node_of ts k
unfolding remove_toplevel
node_of-remove_toplevel j [] k n = refl
node_of-remove_toplevel j (t ∷ ts) k n = ground (arith, node_of-remove_toplevel j ts k)

id-find_toplevel :
    (j : ℕ) (ts : List Toplevel) {t : Toplevel} → find_toplevel j ts ≡ some t → t.id ≡ j
id-find_toplevel j [] e = absurd (cc)
id-find_toplevel j (u ∷ ts) {t} e = elim (Bool-cases (u.id == j)) [
  | inl c ↦ let same : u ≡ t = ground arith in ground (arith, ap (λ (v : Toplevel). v.id) same)
  | inr c ↦ id-find_toplevel j ts {t = t} (ground arith)
]

pub node_of-to_front :
    (j : ℕ) (ts : List Toplevel) (k : ℕ) → node_of (to_front j ts) k ≡ node_of ts k
unfolding to_front
node_of-to_front j ts k = elim (Option-cases (find_toplevel j ts)) [
  | inl e ↦ ground arith
  | inr (t, e) ↦
      let same = id-find_toplevel j ts {t = t} e in
      elim (Bool-cases (j == k)) [
        | inl c ↦ ground arith
        | inr c ↦ ground (arith, node_of-remove_toplevel j ts k)
      ]
]

pub node_of-deactivate :
    (f : Option Surface) (ts : List Toplevel) (k : ℕ) → node_of (deactivate f ts) k ≡ node_of ts k
unfolding deactivate
node_of-deactivate (some (window j)) ts k = node_of-update_toplevel j _ ts k (λ t. (refl, refl))
node_of-deactivate (some (layer_surface j)) ts k = refl
node_of-deactivate (some (lock_surface j)) ts k = refl
node_of-deactivate none ts k = refl

pub node_of-shift_all :
    (dx dy : ℤ) (ids : List ℕ) (ts : List Toplevel) (k : ℕ)
    → node_of (shift_all dx dy ids ts) k ≡ node_of ts k
unfolding shift_all
node_of-shift_all dx dy [] ts k = refl
node_of-shift_all dx dy (j ∷ ids) ts k =
    node_of-shift_all dx dy ids _ k ∙ node_of-update_toplevel j _ ts k (λ t. (refl, refl))

node_of-place_if :
    (c : Bool) (j : ℕ) (b : Box) (ts : List Toplevel) (k : ℕ)
    → node_of (if c then place j b ts else ts) k ≡ node_of ts k
unfolding place
node_of-place_if true j b ts k = node_of-update_toplevel j _ ts k (λ t. (refl, refl))
node_of-place_if false j b ts k = refl

pub node_of-tile_loop :
    (F : Floats) (mr : F.Real) (gap : ℤ) (area : Box) (count i : ℕ) (ids : List ℕ)
    (ts : List Toplevel) (k : ℕ)
    → node_of (tile_loop F mr gap area count i ids ts) k ≡ node_of ts k
unfolding tile_loop
node_of-tile_loop F mr gap area count i [] ts k = refl
node_of-tile_loop F mr gap area count i (j ∷ ids) ts k =
    node_of-tile_loop F mr gap area count (if is_tiled ts j then suc i else i) ids _ k
    ∙ node_of-place_if (is_tiled ts j) j (tile_box F mr gap area count i) ts k

pub node_of-monocle_loop :
    (gap : ℤ) (area : Box) (ids : List ℕ) (ts : List Toplevel) (k : ℕ)
    → node_of (monocle_loop gap area ids ts) k ≡ node_of ts k
unfolding monocle_loop
node_of-monocle_loop gap area [] ts k = refl
node_of-monocle_loop gap area (j ∷ ids) ts k =
    node_of-monocle_loop gap area ids _ k ∙ node_of-place_if (is_tiled ts j) j _ ts k
