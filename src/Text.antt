-- ===== src/Text.antt =====
-- C strings as lists of byte values with no terminator, and the parts of <string.h>, <ctype.h> and
-- <stdlib.h> that the programs call on them.
use Prim.Native.Char.{code}
use Prim.Native.String.{String}
use mathlib.Core.Option
use kum_de.Base.{
  ℕ, zero, suc, ◌+◌, ◌*◌, ◌-◌, ◌≡◌, ◌≢◌, ◌↔◌, Bool, true, false, ◌&&◌, ◌||◌, List, [], ◌∷◌, ◌++◌,
  Option, none, some, take, any, All, All-append, leb, ◌==◌, if◌then◌else◌, arith,
}
use kum_de.Base.Int.{ℤ, pos, sub_ℕ}

abbrev pub Bytes : Type 0
Bytes = List ℕ

-- The code points of a literal, which are its bytes: every literal here is ASCII.
abbrev pub codes : String → Bytes
codes String.[] = []
codes (String.◌∷◌ c s) = code c ∷ codes s

-- `strcmp(a, b) == 0`
unfoldable pub bytes_eq : Bytes → Bytes → Bool
bytes_eq [] [] = true
bytes_eq (x ∷ xs) (y ∷ ys) = x == y && bytes_eq xs ys
bytes_eq _ _ = false

pub bytes_eq_iff : (a b : Bytes) → (bytes_eq a b ≡ true) ↔ (a ≡ b)
unfolding bytes_eq
bytes_eq_iff (x ∷ a) (y ∷ b) = ground (arith, bytes_eq_iff a b)
bytes_eq_iff _ _ = ground arith

-- `isspace` in the C locale
abbrev pub is_space : ℕ → Bool
is_space c = c == b' ' || (leb 9 c && leb c 13)

abbrev pub is_digit : ℕ → Bool
is_digit c = leb b'0' c && leb c b'9'

unfoldable pub skip_space : Bytes → Bytes
skip_space [] = []
skip_space (c ∷ s) = if is_space c then skip_space s else c ∷ s

-- The text without the white space at its end.
unfoldable pub drop_space_end : Bytes → Bytes
drop_space_end [] = []
drop_space_end (c ∷ s) = elim (drop_space_end s) [
  | [] ↦ if is_space c then [] else c ∷ []
  | d ∷ r ↦ c ∷ d ∷ r
]

-- `trim` of src/conf.c and of kumlauncher, `rtrim` of src/rules.c: three copies of one function.
unfoldable pub trim : Bytes → Bytes
unfolding skip_space drop_space_end
trim s = drop_space_end (skip_space s)

-- The text in front of the first `c`, and the text behind it: `strchr` and a write of NUL.
unfoldable pub split_at : ℕ → Bytes → Option (Bytes × Bytes)
split_at c [] = none
split_at c (d ∷ s) =
    if d == c
    then some ([], s)
    else Option.map (λ (p : Bytes × Bytes). (d ∷ p.0, p.1)) (split_at c s)

-- What follows `prefix`, as where `strncmp(s, prefix, strlen(prefix)) == 0` or a literal of `sscanf`.
unfoldable pub after : Bytes → Bytes → Option Bytes
after [] s = some s
after (p ∷ ps) [] = none
after (p ∷ ps) (c ∷ s) = if p == c then after ps s else none

-- `%<n>[^c]` of `sscanf`: at most `n` bytes up to the first `c`. It fails on no byte, which leaves the
-- target as it is; the caller tests for `[]`.
unfoldable pub scan_until : ℕ → ℕ → Bytes → Bytes
scan_until c n [] = []
scan_until c zero (d ∷ s) = []
scan_until c (suc n) (d ∷ s) = if d == c then [] else d ∷ scan_until c n s

unfoldable pub digits_value : ℕ → Bytes → ℕ
digits_value acc [] = acc
digits_value acc (c ∷ s) = if is_digit c then digits_value (acc * 10 + (c - b'0')) s else acc

abbrev pub starts_digit : Bytes → Bool
starts_digit [] = false
starts_digit (c ∷ s) = is_digit c

-- A sign and digits; out of the range of `int` the source's behaviour is undefined.
unfoldable pub signed : Bytes → Option ℤ
unfolding digits_value
signed [] = none
signed (c ∷ s) =
    if c == b'-'
    then (if starts_digit s then some (sub_ℕ 0 (digits_value 0 s)) else none)
    else if c == b'+'
    then (if starts_digit s then some (pos (digits_value 0 s)) else none)
    else if is_digit c
    then some (pos (digits_value 0 (c ∷ s)))
    else none

-- `%d` of `sscanf`
unfoldable pub scan_int : Bytes → Option ℤ
unfolding skip_space signed
scan_int s = signed (skip_space s)

-- `atoi`
unfoldable pub atoi : Bytes → ℤ
unfolding scan_int
atoi s = elim (scan_int s) [ none ↦ pos 0 | some n ↦ n ]

unfoldable pub cons_token : Bytes → List Bytes → List Bytes
cons_token [] ps = ps
cons_token (y ∷ ys) ps = (y ∷ ys) ∷ ps

-- `strtok`: the pieces between separators, without the empty ones. `piece` is what was read of the
-- current one.
unfoldable pub tokens : ℕ → Bytes → Bytes → List Bytes
unfolding cons_token
tokens sep piece [] = cons_token piece []
tokens sep piece (d ∷ s) =
    let inside = tokens sep (piece ++ d ∷ []) s in
    let next = tokens sep [] s in if d == sep then cons_token piece next else inside

-- `strncpy(dst, s, n)` into a zeroed buffer of more than `n` bytes.
abbrev pub copied : ℕ → Bytes → Bytes
copied n s = take n s

abbrev pub NoLineFeed : ℕ → Type 0
NoLineFeed c = c ≢ b'\n'

-- A text without a line feed, by its Boolean test.
pub lacks : (s : Bytes) → any (λ c. c == b'\n') s ≡ false → All NoLineFeed s
lacks [] h = tt
lacks (c ∷ s) h = (ground arith, lacks s (ground arith))

-- A literal without a line feed in front of a text without one.
pub lead :
    (lit rest : Bytes)
    → any (λ c. c == b'\n') lit ≡ false
    → All NoLineFeed rest
    → All NoLineFeed (lit ++ rest)
lead lit rest h a = All-append NoLineFeed lit rest (lacks lit h) a
