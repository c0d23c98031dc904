-- ===== src/Msg/Decimal.antt =====
-- The numbers that tools/kumde-msg.c prints, as `sscanf` reads them.
use kum_de.Base.{
  ℕ, zero, suc, ◌+◌, ◌-◌, ◌*◌, ◌/◌, ◌%◌, ◌<◌, ◌≤◌, ◌≡◌, refl, ap, ◌∙◌, Bool, true, false, [], ◌∷◌,
  ◌++◌, some, ltb, if◌then◌else◌, arith, All, inl, inr, Bool-cases,
}
use kum_de.Base.Int.{ℤ, pos, negsuc, sub_ℕ}
use kum_de.Msg.{emit, print_int}
use kum_de.Text.{
  NoLineFeed, Bytes, is_digit, digits_value, signed, scan_int, skip_space, starts_digit,
}

one_digit :
    (acc d : ℕ) (out : Bytes)
    → d < 10
    → digits_value acc ((b'0' + d) ∷ out) ≡ digits_value (acc * 10 + d) out
unfolding digits_value
one_digit acc d out h =
    let same : acc * 10 + (b'0' + d - b'0') ≡ acc * 10 + d = omega arith in
    let read = ap (λ m. digits_value m out) same in ground (arith, read)

digits_value-emit :
    (fuel n : ℕ) (out : Bytes) → n ≤ fuel → digits_value 0 (emit fuel n out) ≡ digits_value n out
unfolding emit
digits_value-emit zero n out h =
    one_digit 0 (n % 10) out (omega arith) ∙ ap (λ m. digits_value m out) (omega arith)
digits_value-emit (suc fuel) n out h = elim (Bool-cases (ltb n 10)) [
  | inl b ↦
      rw (b, emit) (one_digit 0 n out (ground arith) ∙ ap (λ m. digits_value m out) (omega arith))
  | inr b ↦
      rw (b, emit)
        (digits_value-emit fuel (n / 10) ((b'0' + n % 10) ∷ out) (ground arith)
          ∙ one_digit (n / 10) (n % 10) out (omega arith)
          ∙ ap (λ m. digits_value m out) (omega arith))
]

starts_digit-emit : (fuel n : ℕ) (out : Bytes) → starts_digit (emit fuel n out) ≡ true
unfolding emit
starts_digit-emit zero n out = ground arith
starts_digit-emit (suc fuel) n out =
    let rest = starts_digit-emit fuel (n / 10) ((b'0' + n % 10) ∷ out) in ground (arith, rest)

-- A text that starts with a digit is a number.
signed-digits : (s : Bytes) → starts_digit s ≡ true → scan_int s ≡ some (pos (digits_value 0 s))
unfolding scan_int skip_space signed
signed-digits [] h = absurd (ground arith)
signed-digits (c ∷ s) h = ground (arith, h)

signed-minus :
    (s : Bytes) → starts_digit s ≡ true → scan_int (b'-' ∷ s) ≡ some (sub_ℕ 0 (digits_value 0 s))
unfolding scan_int skip_space signed
signed-minus s h = ground (arith, h)

digits_stop : (n c : ℕ) (t : Bytes) → is_digit c ≡ false → digits_value n (c ∷ t) ≡ n
unfolding digits_value
digits_stop n c t h = ground (arith, h)

-- What `%d` prints in front of a byte that is no digit is read by `%d` as the same number.
pub scan_int-print_int :
    (z : ℤ) (c : ℕ) (t : Bytes) → is_digit c ≡ false → scan_int (print_int z (c ∷ t)) ≡ some z
unfolding print_int
scan_int-print_int (pos n) c t h =
    signed-digits (emit n n (c ∷ t)) (starts_digit-emit n n (c ∷ t))
    ∙ ap (λ m. some (pos m)) (digits_value-emit n n (c ∷ t) (omega arith) ∙ digits_stop n c t h)
scan_int-print_int (negsuc n) c t h =
    let minus : sub_ℕ 0 (suc n) ≡ negsuc n = ground arith in
    signed-minus (emit (suc n) (suc n) (c ∷ t)) (starts_digit-emit (suc n) (suc n) (c ∷ t))
    ∙ ap (λ m. some (sub_ℕ 0 m))
        (digits_value-emit (suc n) (suc n) (c ∷ t) (omega arith) ∙ digits_stop (suc n) c t h)
    ∙ ap some minus

emit-append : (fuel n : ℕ) (s t : Bytes) → emit fuel n (s ++ t) ≡ emit fuel n s ++ t
unfolding emit
emit-append zero n s t = refl
emit-append (suc fuel) n s t =
    let rest = emit-append fuel (n / 10) ((b'0' + n % 10) ∷ s) t in ground (arith, rest)

pub print_int-append : (z : ℤ) (s t : Bytes) → print_int z (s ++ t) ≡ print_int z s ++ t
unfolding print_int
print_int-append (pos n) s t = emit-append n n s t
print_int-append (negsuc n) s t = ap (λ r. b'-' ∷ r) (emit-append (suc n) (suc n) s t)

emit-line : (fuel n : ℕ) (s : Bytes) → All NoLineFeed s → All NoLineFeed (emit fuel n s)
unfolding emit
emit-line zero n s a = (omega arith, a)
emit-line (suc fuel) n s a =
    go (ltb n 10) (emit-line fuel (n / 10) ((b'0' + n % 10) ∷ s) (omega arith, a))
  where
    go :
        (b : Bool)
        → All NoLineFeed (emit fuel (n / 10) ((b'0' + n % 10) ∷ s))
        → All NoLineFeed (if b then (b'0' + n) ∷ s else emit fuel (n / 10) ((b'0' + n % 10) ∷ s))
    go true rest = (omega arith, a)
    go false rest = rest

pub print_int-line : (z : ℤ) (s : Bytes) → All NoLineFeed s → All NoLineFeed (print_int z s)
unfolding print_int
print_int-line (pos n) s a = emit-line n n s a
print_int-line (negsuc n) s a = (omega arith, emit-line (suc n) (suc n) s a)
