-- ===== src/Launcher/Order.antt =====
-- The order of the programs in kumlauncher/src/main.c.
use kum_de.Base.{
  ℕ, ◌+◌, ◌<◌, ◌≡◌, refl, map, true, false, Bool, not, ◌&&◌, [], ◌∷◌, arith, All, ◌==◌,
  if◌then◌else◌,
}
use kum_de.Base.Int.{
  ℤ, pos, negsuc, ◌≤ℤ◌, ◌-ℤ◌, -ℤ_parts, eq_of_parts, ◌+ℤ◌, ltb_ℤ, pos_part, neg_part,
}
use kum_de.Launcher.{Entry, to_lower}
use kum_de.Text.{Bytes}

-- `strcasecmp`
unfoldable pub strcasecmp : Bytes → Bytes → ℤ
strcasecmp [] [] = pos 0
strcasecmp [] (d ∷ t) = pos 0 -ℤ pos (to_lower d)
strcasecmp (c ∷ s) [] = pos (to_lower c)
strcasecmp (c ∷ s) (d ∷ t) =
    let rest = strcasecmp s t in
    if to_lower c == to_lower d then rest else pos (to_lower c) -ℤ pos (to_lower d)

-- The order that the table is sorted by.
unfoldable pub entry_cmp : Entry → Entry → ℤ
unfolding strcasecmp
entry_cmp a b =
    if a.from_desktop && not b.from_desktop
    then negsuc 0
    else if not a.from_desktop && b.from_desktop
    then pos 1
    else strcasecmp a.name b.name

-- A C string holds no NUL.
abbrev pub NoNul : Bytes → Type 0
NoNul s = All (λ c. 0 < c) s

-- The opposite sign, and the same distance from 0.
abbrev pub Opposite : ℤ → ℤ → Type 0
Opposite m n = n ≡ pos 0 -ℤ m

-- One byte more in front of three texts.
step :
    (x y z : ℕ) (ab bc ac : ℤ)
    → (ab ≤ℤ pos 0 → bc ≤ℤ pos 0 → ac ≤ℤ pos 0)
    → (if x == y then ab else pos x -ℤ pos y) ≤ℤ pos 0
    → (if y == z then bc else pos y -ℤ pos z) ≤ℤ pos 0
    → (if x == z then ac else pos x -ℤ pos z) ≤ℤ pos 0
step x y z ab bc ac f h k =
    let xy = -ℤ_parts (pos x) (pos y) in
    let yz = -ℤ_parts (pos y) (pos z) in
    let xz = -ℤ_parts (pos x) (pos z) in ground (arith, xy, yz, xz, f)

Opposite-step :
    (x y : ℕ) (ab ba : ℤ)
    → Opposite ab ba
    → Opposite (if x == y then ab else pos x -ℤ pos y) (if y == x then ba else pos y -ℤ pos x)
Opposite-step x y ab ba h =
    let xy = -ℤ_parts (pos x) (pos y) in
    let yx = -ℤ_parts (pos y) (pos x) in
    let back = -ℤ_parts (pos 0) (pos x -ℤ pos y) in
    let same = eq_of_parts (pos y -ℤ pos x) (pos 0 -ℤ (pos x -ℤ pos y)) in
    ground (arith, xy, yx, back, same, h)

-- Entries of desktop files come first.
by_kind : Bool → Bool → ℤ → ℤ
by_kind a b n = if a && not b then negsuc 0 else if not a && b then pos 1 else n

kinds :
    (a b c : Bool) (ab bc ac : ℤ)
    → (ab ≤ℤ pos 0 → bc ≤ℤ pos 0 → ac ≤ℤ pos 0)
    → by_kind a b ab ≤ℤ pos 0
    → by_kind b c bc ≤ℤ pos 0
    → by_kind a c ac ≤ℤ pos 0
unfolding by_kind
kinds a b c ab bc ac f h k = ground (arith, f)

Opposite-kinds :
    (a b : Bool) (ab ba : ℤ) → Opposite ab ba → Opposite (by_kind a b ab) (by_kind b a ba)
unfolding by_kind ◌-ℤ◌ ◌+ℤ◌
Opposite-kinds true true ab ba h = h
Opposite-kinds true false ab ba h = refl
Opposite-kinds false true ab ba h = refl
Opposite-kinds false false ab ba h = h

-- Entries that are equal to the order, where `Names` follows from equal names.
equal_kinds :
    (a b : Bool) (n : ℤ) (Names : Type 0)
    → (n ≡ pos 0 → Names)
    → by_kind a b n ≡ pos 0
    → (a ≡ b) × Names
unfolding by_kind
equal_kinds true true n Names f h = (refl, f h)
equal_kinds true false n Names f h = absurd (ground (arith, h))
equal_kinds false true n Names f h = absurd (ground (arith, h))
equal_kinds false false n Names f h = (refl, f h)

strcasecmp_trans :
    (a b c : Bytes)
    → NoNul a
    → NoNul b
    → NoNul c
    → strcasecmp a b ≤ℤ pos 0
    → strcasecmp b c ≤ℤ pos 0
    → strcasecmp a c ≤ℤ pos 0
unfolding strcasecmp
strcasecmp_trans [] b [] na nb nc h k = omega arith
strcasecmp_trans [] b (z ∷ c) na nb nc h k =
    let below = -ℤ_parts (pos 0) (pos (to_lower z)) in omega (arith, below)
strcasecmp_trans (x ∷ a) [] c na nb nc h k = absurd (ground (arith, na))
strcasecmp_trans (x ∷ a) (y ∷ b) [] na nb nc h k = absurd (ground (arith, nb))
strcasecmp_trans (x ∷ a) (y ∷ b) (z ∷ c) na nb nc h k =
    step (to_lower x) (to_lower y) (to_lower z) _ _ _ (strcasecmp_trans a b c na.1 nb.1 nc.1) h k

strcasecmp-Opposite : (a b : Bytes) → Opposite (strcasecmp a b) (strcasecmp b a)
unfolding strcasecmp ◌-ℤ◌ ◌+ℤ◌
strcasecmp-Opposite [] [] = refl
strcasecmp-Opposite [] (d ∷ b) =
    let below = -ℤ_parts (pos 0) (pos (to_lower d)) in
    let back = -ℤ_parts (pos 0) (pos 0 -ℤ pos (to_lower d)) in
    eq_of_parts (pos (to_lower d)) (pos 0 -ℤ (pos 0 -ℤ pos (to_lower d)))
      (omega (arith, below, back))
strcasecmp-Opposite (c ∷ a) [] = refl
strcasecmp-Opposite (c ∷ a) (d ∷ b) =
    Opposite-step (to_lower c) (to_lower d) _ _ (strcasecmp-Opposite a b)

-- Equal texts but for case.
strcasecmp_zero :
    (a b : Bytes) → NoNul a → NoNul b → strcasecmp a b ≡ pos 0 → map to_lower a ≡ map to_lower b
unfolding strcasecmp
strcasecmp_zero [] [] na nb h = refl
strcasecmp_zero [] (d ∷ b) na nb h =
    let below = -ℤ_parts (pos 0) (pos (to_lower d)) in absurd (ground (arith, below, h, nb))
strcasecmp_zero (c ∷ a) [] na nb h = absurd (ground (arith, h, na))
strcasecmp_zero (c ∷ a) (d ∷ b) na nb h =
    let apart = -ℤ_parts (pos (to_lower c)) (pos (to_lower d)) in
    let rest = strcasecmp_zero a b na.1 nb.1 in go (to_lower c == to_lower d) refl rest apart h
  where
    go :
        (t : Bool)
        → (to_lower c == to_lower d) ≡ t
        → (strcasecmp a b ≡ pos 0 → map to_lower a ≡ map to_lower b)
        → pos_part (pos (to_lower c) -ℤ pos (to_lower d))
            + neg_part (pos (to_lower c))
            + pos_part (pos (to_lower d))
          ≡ neg_part (pos (to_lower c) -ℤ pos (to_lower d))
            + pos_part (pos (to_lower c))
            + neg_part (pos (to_lower d))
        → (if t then strcasecmp a b else pos (to_lower c) -ℤ pos (to_lower d)) ≡ pos 0
        → map to_lower (c ∷ a) ≡ map to_lower (d ∷ b)
    go true e rest apart h =
        let head : to_lower c ≡ to_lower d = ground (arith, e) in
        let tail = rest h in cc (head, tail)
    go false e rest apart h = absurd (ground (arith, e, apart, h))

-- The order by which the table is sorted is one, as `qsort` asks for: for entries whose names hold no
-- NUL, it is transitive, the comparison of two entries the other way round has the opposite sign, two
-- entries are equal to it only if they are of one kind and have one name but for case, and every entry
-- of a desktop file comes before every program of `PATH`.
pub entry_cmp-preorder :
    (a b c : Entry)
    → NoNul a.name
    → NoNul b.name
    → NoNul c.name
    → (entry_cmp a b ≤ℤ pos 0 → entry_cmp b c ≤ℤ pos 0 → entry_cmp a c ≤ℤ pos 0)
      × Opposite (entry_cmp a b) (entry_cmp b a)
      × (entry_cmp a b ≡ pos 0
          → (a.from_desktop ≡ b.from_desktop) × (map to_lower a.name ≡ map to_lower b.name))
      × (a.from_desktop ≡ true → b.from_desktop ≡ false → ltb_ℤ (entry_cmp a b) (pos 0) ≡ true)
unfolding entry_cmp by_kind
entry_cmp-preorder a b c na nb nc =
    let trans = strcasecmp_trans a.name b.name c.name na nb nc in
    let zero = strcasecmp_zero a.name b.name na nb in
    (
      kinds a.from_desktop b.from_desktop c.from_desktop _ _ _ trans,
      Opposite-kinds a.from_desktop b.from_desktop _ _ (strcasecmp-Opposite a.name b.name),
      equal_kinds a.from_desktop b.from_desktop _ _ zero,
      λ d p. rw (d, p) refl,
    )
