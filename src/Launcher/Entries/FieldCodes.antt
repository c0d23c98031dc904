-- ===== src/Launcher/Entries/FieldCodes.antt =====
-- `strip_field_codes` of kumlauncher/src/main.c.
use kum_de.Base.{
  ℕ, zero, suc, ◌≤◌, ◌≡◌, ◌≢◌, refl, ap, Bool, [], ◌∷◌, length, ◌==◌, if◌then◌else◌, true, false,
  arith, All,
}
use kum_de.Launcher.Entries.{strip_loop, strip_field_codes}
use kum_de.Text.{Bytes, trim, skip_space, drop_space_end, is_space}

-- Without a `%`, save as the last byte.
abbrev pub NoCode : Bytes → Type 0
NoCode [] = Unit
NoCode (c ∷ []) = Unit
NoCode (c ∷ d ∷ s) = (c ≢ b'%') × NoCode (d ∷ s)

strip_loop-length : (room : ℕ) (s : Bytes) → length (strip_loop room s) ≤ room
unfolding strip_loop
strip_loop-length room [] = omega arith
strip_loop-length zero (c ∷ s) = omega arith
strip_loop-length (suc room) (c ∷ []) = omega arith
strip_loop-length (suc room) (c ∷ d ∷ s) =
    let skipped = strip_loop-length (suc room) s in
    let kept = strip_loop-length room (d ∷ s) in ground (arith, skipped, kept)

NoCode-cons : (c : ℕ) (s : Bytes) → c ≢ b'%' → NoCode s → NoCode (c ∷ s)
NoCode-cons c [] h n = tt
NoCode-cons c (d ∷ s) h n = (h, n)

strip_loop-NoCode : (room : ℕ) (s : Bytes) → NoCode (strip_loop room s)
unfolding strip_loop
strip_loop-NoCode room [] = tt
strip_loop-NoCode zero (c ∷ s) = tt
strip_loop-NoCode (suc room) (c ∷ []) = tt
strip_loop-NoCode (suc room) (c ∷ d ∷ s) =
    go (c == b'%') refl (strip_loop-NoCode (suc room) s) (strip_loop-NoCode room (d ∷ s))
  where
    go :
        (b : Bool)
        → (c == b'%') ≡ b
        → NoCode (strip_loop (suc room) s)
        → NoCode (strip_loop room (d ∷ s))
        → NoCode (if b then strip_loop (suc room) s else c ∷ strip_loop room (d ∷ s))
    go true h skipped kept = skipped
    go false h skipped kept = NoCode-cons c _ (ground arith) kept

NoCode-tail : (c : ℕ) (s : Bytes) → NoCode (c ∷ s) → NoCode s
NoCode-tail c [] n = tt
NoCode-tail c (d ∷ s) n = n.1

-- What a text keeps under `trim`: it loses bytes only, and is no longer than before.
Shorter : Bytes → Bytes → Type 0
Shorter s t = (NoCode s → NoCode t) × (length t ≤ length s)

skip_space-Shorter : (s : Bytes) → Shorter s (skip_space s)
unfolding Shorter skip_space
skip_space-Shorter [] = (λ n. n, omega arith)
skip_space-Shorter (c ∷ s) = go (is_space c) (skip_space-Shorter s)
  where
    go : (b : Bool) → Shorter s (skip_space s) → Shorter (c ∷ s) (if b then skip_space s else c ∷ s)
    go true (n, l) = (λ m. n (NoCode-tail c s m), omega arith)
    go false h = (λ n. n, omega arith)

drop_space_end-Shorter : (s : Bytes) → Shorter s (drop_space_end s)
unfolding Shorter drop_space_end
drop_space_end-Shorter [] = (λ n. n, omega arith)
drop_space_end-Shorter (c ∷ s) = go s (drop_space_end s) (is_space c) (drop_space_end-Shorter s)
  where
    go :
        (s t : Bytes) (b : Bool)
        → Shorter s t
        → Shorter (c ∷ s) (elim t [ [] ↦ if b then [] else c ∷ [] | d ∷ r ↦ c ∷ d ∷ r ])
    go s [] true h = (λ m. tt, omega arith)
    go s [] false h = (λ m. tt, omega arith)
    go [] (d ∷ r) b h = absurd (omega arith)
    go (x ∷ s) (d ∷ r) b (n, l) = (λ m. (m.0, n m.1), omega arith)

-- The command of every desktop entry fits into its buffer of 512 bytes, and a `%` is left in it only
-- as its last byte.
pub strip_field_codes-NoCode :
    (exec : Bytes) → NoCode (strip_field_codes exec) × (length (strip_field_codes exec) ≤ 510)
unfolding strip_field_codes trim Shorter
strip_field_codes-NoCode exec =
    let (n, l) = skip_space-Shorter (strip_loop 510 exec) in
    let (m, k) = drop_space_end-Shorter (skip_space (strip_loop 510 exec)) in
    let short = strip_loop-length 510 exec in
    (m (n (strip_loop-NoCode 510 exec)), omega (arith, l, k, short))

strip_loop-same :
    (room : ℕ) (s : Bytes) → length s ≤ room → All (λ c. c ≢ b'%') s → strip_loop room s ≡ s
unfolding strip_loop
strip_loop-same room [] l a = refl
strip_loop-same zero (c ∷ s) l a = absurd (omega arith)
strip_loop-same (suc room) (c ∷ []) l a = refl
strip_loop-same (suc room) (c ∷ d ∷ s) l a =
    let rest = strip_loop-same room (d ∷ s) (omega arith) a.1 in ground (arith, rest, a.0)

-- A command of at most 510 bytes without a `%` is only trimmed.
pub strip_field_codes-trim :
    (exec : Bytes)
    → length exec ≤ 510
    → All (λ c. c ≢ b'%') exec
    → strip_field_codes exec ≡ trim exec
unfolding strip_field_codes
strip_field_codes-trim exec l a = ap trim (strip_loop-same 510 exec l a)
