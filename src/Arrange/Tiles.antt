-- ===== src/Arrange/Tiles.antt =====
-- The boxes of the tile layout in `kum_workspace_arrange` of src/workspace.c.
use kum_de.Base.{ℕ, suc, ◌+◌, ◌*◌, ◌≡◌, sym, ◌∙◌, arith}
use kum_de.Base.Int.{ℤ, pos_part, neg_part, ◌+ℤ◌, ◌-ℤ◌, ◌*ℤ◌, +ℤ_parts, -ℤ_parts, eq_of_parts}
use kum_de.Arrange.{tile_box, master_width}
use kum_de.Server.{Floats, Box}

*ℤ_parts : (a : ℤ) (n : ℕ) → pos_part (a *ℤ n) + neg_part a * n ≡ neg_part (a *ℤ n) + pos_part a * n
unfolding ◌*ℤ◌
*ℤ_parts a n = ground arith

next_slot : (a x : ℤ) (n : ℕ) → a +ℤ x *ℤ suc n ≡ a +ℤ x *ℤ n +ℤ x
next_slot a x n = eq_of_parts _ _ (
    omega (
      arith,
      +ℤ_parts a (x *ℤ suc n),
      +ℤ_parts (a +ℤ x *ℤ n) x,
      +ℤ_parts a (x *ℤ n),
      *ℤ_parts x n,
      *ℤ_parts x (suc n),
    ))

assoc : (a b c : ℤ) → a +ℤ (b +ℤ c) ≡ a +ℤ b +ℤ c
assoc a b c =
    eq_of_parts _ _
      (omega (arith, +ℤ_parts a (b +ℤ c), +ℤ_parts b c, +ℤ_parts (a +ℤ b) c, +ℤ_parts a b))

master_edge : (x g w : ℤ) → x +ℤ g +ℤ w +ℤ g ≡ x +ℤ g *ℤ 2 +ℤ w
master_edge x g w = eq_of_parts _ _ (
    omega (
      arith,
      +ℤ_parts (x +ℤ g +ℤ w) g,
      +ℤ_parts (x +ℤ g) w,
      +ℤ_parts x g,
      +ℤ_parts (x +ℤ g *ℤ 2) w,
      +ℤ_parts x (g *ℤ 2),
      *ℤ_parts g 2,
    ))

stack_edge : (x g w m : ℤ) → x +ℤ g *ℤ 2 +ℤ m +ℤ (w -ℤ g *ℤ 3 -ℤ m) +ℤ g ≡ x +ℤ w
stack_edge x g w m = eq_of_parts _ _ (
    omega (
      arith,
      +ℤ_parts (x +ℤ g *ℤ 2 +ℤ m +ℤ (w -ℤ g *ℤ 3 -ℤ m)) g,
      +ℤ_parts (x +ℤ g *ℤ 2 +ℤ m) (w -ℤ g *ℤ 3 -ℤ m),
      +ℤ_parts (x +ℤ g *ℤ 2) m,
      +ℤ_parts x (g *ℤ 2),
      *ℤ_parts g 2,
      -ℤ_parts (w -ℤ g *ℤ 3) m,
      -ℤ_parts w (g *ℤ 3),
      *ℤ_parts g 3,
      +ℤ_parts x w,
    ))

-- The tiles stand a gap apart: the master's right edge and the stack's left one, the stack's right
-- edge and the area's, and each window of the stack and the next one below it.
pub tile_box-gaps :
    (F : Floats) (mr : F.Real) (gap : ℤ) (area : Box) (count slot : ℕ)
    → (let master : Box = tile_box F mr gap area count 0 in
        let this : Box = tile_box F mr gap area count (suc slot) in
        let next : Box = tile_box F mr gap area count (suc (suc slot)) in
        (master.x +ℤ master.width +ℤ gap ≡ this.x)
        × (this.x +ℤ this.width +ℤ gap ≡ area.x +ℤ area.width)
        × (this.y +ℤ this.height +ℤ gap ≡ next.y))
unfolding tile_box
tile_box-gaps F mr gap area count slot = (
  master_edge area.x gap (master_width F mr gap area count),
  stack_edge area.x gap area.width (master_width F mr gap area count),
  sym (assoc _ _ gap) ∙ sym (next_slot _ _ slot),
)
