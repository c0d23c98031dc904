-- ===== src/Rules/Load/Position.antt =====
-- The `pos` of a rule in src/rules.c: `strtok` has cut the value at its comma before `sscanf` reads it.
use mathlib.Core.Path.{subst}
use kum_de.Base.{
  ℕ, ◌≡◌, refl, ◌∙◌, inl, inr, Bool, true, false, List, [], ◌∷◌, ◌++◌, some, All, arith, ◌==◌,
  if◌then◌else◌, Bool-cases, Option-cases,
}
use kum_de.Base.Int.{ℤ, pos}
use kum_de.Rules.Load.{
  parse_rule, apply_tokens, apply_token, apply_option, scan_pair, scan_second, drop_digits,
  drop_sign,
}
use kum_de.Server.{Rule}
use kum_de.Text.{
  Bytes, is_space, is_digit, skip_space, drop_space_end, trim, split_at, scan_int, tokens,
  cons_token, copied,
}

abbrev NoComma : Bytes → Type 0
NoComma s = All (λ c. (c == b',') ≡ false) s

NoComma-append : (xs ys : Bytes) → NoComma xs → NoComma ys → NoComma (xs ++ ys)
NoComma-append [] ys h k = k
NoComma-append (x ∷ xs) ys h k = (h.0, NoComma-append xs ys h.1 k)

NoComma-skip_space : (s : Bytes) → NoComma s → NoComma (skip_space s)
unfolding skip_space
NoComma-skip_space [] h = tt
NoComma-skip_space (c ∷ s) h = elim (Bool-cases (is_space c)) [
  | inl e ↦ rw e (NoComma-skip_space s h.1)
  | inr e ↦ rw e h
]

NoComma-drop_digits : (s : Bytes) → NoComma s → NoComma (drop_digits s)
unfolding drop_digits
NoComma-drop_digits [] h = tt
NoComma-drop_digits (c ∷ s) h = elim (Bool-cases (is_digit c)) [
  | inl e ↦ rw e (NoComma-drop_digits s h.1)
  | inr e ↦ rw e h
]

NoComma-drop_sign : (s : Bytes) → NoComma s → NoComma (drop_sign s)
unfolding drop_sign
NoComma-drop_sign [] h = tt
NoComma-drop_sign (c ∷ s) h = ground arith

NoComma-drop_space_end : (s : Bytes) → NoComma s → NoComma (drop_space_end s)
unfolding drop_space_end
NoComma-drop_space_end [] h = tt
NoComma-drop_space_end (c ∷ s) h = go (drop_space_end s) (is_space c) (NoComma-drop_space_end s h.1)
  where
    go :
        (r : Bytes) (b : Bool)
        → NoComma r
        → NoComma (elim r [ [] ↦ if b then [] else c ∷ [] | d ∷ t ↦ c ∷ d ∷ t ])
    go [] true k = tt
    go [] false k = (h.0, tt)
    go (d ∷ t) b k = (h.0, k)

NoComma-trim : (s : Bytes) → NoComma s → NoComma (trim s)
unfolding trim
NoComma-trim s h = NoComma-drop_space_end (skip_space s) (NoComma-skip_space s h)

NoComma-cons_token :
    (p : Bytes) (ps : List Bytes) → NoComma p → All NoComma ps → All NoComma (cons_token p ps)
unfolding cons_token
NoComma-cons_token [] ps h k = k
NoComma-cons_token (c ∷ p) ps h k = (h, k)

-- The tokens between commas have none.
tokens-NoComma : (piece s : Bytes) → NoComma piece → All NoComma (tokens b',' piece s)
unfolding tokens
tokens-NoComma piece [] h = NoComma-cons_token piece [] h tt
tokens-NoComma piece (d ∷ s) h = elim (Bool-cases (d == b',')) [
  | inl e ↦ rw e (NoComma-cons_token piece (tokens b',' [] s) h (tokens-NoComma [] s tt))
  | inr e ↦ rw e (tokens-NoComma (piece ++ d ∷ []) s (NoComma-append piece (d ∷ []) h (e, tt)))
]

scan_second-NoComma : (s : Bytes) (b : ℤ) → NoComma s → scan_second b',' s b ≡ b
unfolding scan_second
scan_second-NoComma [] b h = refl
scan_second-NoComma (c ∷ s) b h = rw h.0 refl

scan_pair-NoComma : (s : Bytes) (a b : ℤ) → NoComma s → (scan_pair b',' s a b).1 ≡ b
unfolding scan_pair
scan_pair-NoComma s a b h = elim (Option-cases (scan_int s)) [
  | inl e ↦ rw (e, scan_pair) refl
  | inr (n, e) ↦
      rw (e, scan_pair)
        (scan_second-NoComma _ b
          (NoComma-drop_digits _ (NoComma-drop_sign _ (NoComma-skip_space s h))))
]

apply_option-y : (rk rv : Bytes) (r : Rule) → NoComma rv → (apply_option rk rv r).y ≡ r.y
unfolding apply_option
apply_option-y rk rv r h = ground (arith, scan_pair-NoComma rv r.x r.y)

split_at-NoComma :
    (c : ℕ) (s : Bytes) {a b : Bytes} → NoComma s → split_at c s ≡ some (a, b) → NoComma b
unfolding split_at
split_at-NoComma c [] h e = absurd (cc)
split_at-NoComma c (d ∷ s) {a} {b} h e = elim (Bool-cases (d == c)) [
  | inl t ↦ let same : s ≡ b = ground arith in subst NoComma same h.1
  | inr t ↦ elim (Option-cases (split_at c s)) [
    | inl f ↦ absurd (ground arith)
    | inr (p, f) ↦
        let same : p.1 ≡ b = ground arith in
        subst NoComma same (split_at-NoComma c s {a = p.0} {b = p.1} h.1 f)
  ]
]

apply_token-y : (tok : Bytes) (r : Rule) → NoComma tok → (apply_token tok r).y ≡ r.y
unfolding apply_token
apply_token-y tok r h = elim (Option-cases (split_at b':' (trim tok))) [
  | inl e ↦ rw (e, apply_token) refl
  | inr (p, e) ↦
      rw (e, apply_token)
        (apply_option-y (trim p.0) (trim p.1) r (
          NoComma-trim p.1
            (split_at-NoComma b':' (trim tok) {a = p.0} {b = p.1} (NoComma-trim tok h) e)))
]

apply_tokens-y : (toks : List Bytes) (r : Rule) → All NoComma toks → (apply_tokens toks r).y ≡ r.y
unfolding apply_tokens
apply_tokens-y [] r h = refl
apply_tokens-y (tok ∷ toks) r h =
    apply_tokens-y toks (apply_token tok r) h.1 ∙ apply_token-y tok r h.0

-- Whatever a rule of the file says, its second coordinate of `pos` stays 0.
pub parse_rule-y : (val : Bytes) → (parse_rule val).y ≡ pos 0
unfolding parse_rule
parse_rule-y val =
    apply_tokens-y (tokens b',' [] (copied 511 val)) _ (tokens-NoComma [] (copied 511 val) tt)
