-- ===== src/Json/RoundTrip.antt =====
-- A reader of JSON string contents, written from RFC 8259 and not from the program, gets the
-- source text back from `kum_json_escape`, up to where the buffer ran out.
use mathlib.Core.Option
use kum_de.Base.{
  ℕ, suc, ◌+◌, ◌*◌, ◌≤◌, ◌<◌, ◌≡◌, refl, ap, ◌∙◌, Bool, true, false, ◌||◌, [], ◌∷◌, ◌++◌, Option,
  none, some, ◌⊎◌, inl, inr, length, length-append, take, filter, All, arith, ltb, leb, ◌==◌,
  if◌then◌else◌, Bool-cases, ==_iff,
}
use kum_de.Text.{Bytes}
use kum_de.Json.{is_line_escape, escape_byte, escape_loop, kum_json_escape}
use kum_de.Json.Bounds.{length-escape_byte}

-- The meaning of the letter behind a backslash.
decode : ℕ → Option ℕ
decode c =
    if c == b'n'
    then some b'\n'
    else if c == b'r'
    then some b'\r'
    else if c == b't'
    then some b'\t'
    else if c == b'"' || c == b'\\'
    then some c
    else none

-- The flag says that a backslash was read. A quote, a control character and a dangling backslash
-- are no part of a JSON string.
unescape_from : Bool → Bytes → Option Bytes
unfolding decode
unescape_from true [] = none
unescape_from false [] = some []
unescape_from true (c ∷ s) =
    let rest = unescape_from false s in
    elim (decode c) [ none ↦ none | some d ↦ Option.map (λ t. d ∷ t) rest ]
unescape_from false (c ∷ s) =
    let escaped = unescape_from true s in
    let plain = Option.map (λ t. c ∷ t) (unescape_from false s) in
    if c == b'\\' then escaped else if c == b'"' || ltb c 0x20 then none else plain

unfoldable pub unescape : Bytes → Option Bytes
unfolding unescape_from
unescape s = unescape_from false s

-- What the escaping keeps: all but the control characters with no short escape.
abbrev pub is_kept : ℕ → Bool
is_kept c = leb 0x20 c || is_line_escape c

-- A byte with no escape of its own is stored as it is, or dropped.
control :
    (c : ℕ) (rest : Bytes)
    → (c == b'"') ≡ false
    → (c == b'\\') ≡ false
    → unescape ((if ltb c 0x20 then [] else c ∷ []) ++ rest)
      ≡ (if leb 0x20 c || false then Option.map (λ t. c ∷ t) (unescape rest) else unescape rest)
unfolding unescape
control c rest quote slash = ground arith

unescape-escape_byte :
    (c : ℕ) (rest : Bytes)
    → unescape (escape_byte c ++ rest)
      ≡ (if is_kept c then Option.map (λ t. c ∷ t) (unescape rest) else unescape rest)
unfolding unescape escape_byte
unescape-escape_byte c rest = elim (Bool-cases (c == b'"')) [
  | inl e ↦ rw ((==_iff c b'"').0 e)
  | inr quote ↦ elim (Bool-cases (c == b'\\')) [
    | inl e ↦ rw ((==_iff c b'\\').0 e)
    | inr slash ↦ elim (Bool-cases (c == b'\n')) [
      | inl e ↦ rw ((==_iff c b'\n').0 e)
      | inr feed ↦ elim (Bool-cases (c == b'\r')) [
        | inl e ↦ rw ((==_iff c b'\r').0 e)
        | inr return ↦ elim (Bool-cases (c == b'\t')) [
          | inl e ↦ rw ((==_iff c b'\t').0 e)
          | inr tab ↦ rw (quote, slash, feed, return, tab) (control c rest quote slash)
        ]
      ]
    ]
  ]
]

-- `escape_loop` in one step, at a byte that it takes.
escape_loop_step :
    (dst_size o c : ℕ) (src : Bytes)
    → 0 < c
    → o + 2 < dst_size
    → escape_loop dst_size o (c ∷ src)
      ≡ escape_byte c ++ escape_loop dst_size (o + length (escape_byte c)) src
unfolding escape_loop
escape_loop_step dst_size o c src h k = ground arith

escape_loop_full :
    (dst_size o c : ℕ) (src : Bytes) → dst_size ≤ o + 2 → escape_loop dst_size o (c ∷ src) ≡ []
unfolding escape_loop
escape_loop_full dst_size o c src k = ground arith

-- What a reader gets from the text stored behind offset `o`, and why the loop stopped.
record Reads (dst_size o : ℕ) (src : Bytes) : Type 0 where
  taken : ℕ
  read : unescape (escape_loop dst_size o src) ≡ some (filter is_kept (take taken src))
  stopped : (take taken src ≡ src) ⊎ (dst_size ≤ o + length (escape_loop dst_size o src) + 2)

filter_cons :
    (c : ℕ) (s : Bytes) (o : Option Bytes)
    → o ≡ some (filter is_kept s)
    → (if is_kept c then Option.map (λ t. c ∷ t) o else o) ≡ some (filter is_kept (c ∷ s))
filter_cons c s o h = rw h (ground arith)

escape_loop-Reads : (dst_size o : ℕ) (src : Bytes) → All (λ c. 0 < c) src → Reads dst_size o src
escape_loop-Reads dst_size o [] h = record {
  taken = 0;
  read = unfold unescape escape_loop in refl;
  stopped = inl refl;
}
escape_loop-Reads dst_size o (c ∷ src) h = elim (Bool-cases (leb dst_size (o + 2))) [
  | inl full ↦ record {
    taken = 0;
    read = rw (escape_loop_full dst_size o c src (ground arith)) (unfold unescape in refl);
    stopped = inr (ground arith);
  }
  | inr room ↦
      let later = escape_loop-Reads dst_size (o + length (escape_byte c)) src h.1 in
      let step = escape_loop_step dst_size o c src h.0 (ground arith) in
      record {
        taken = suc later.taken;
        read =
            ap unescape step
            ∙ unescape-escape_byte c _
            ∙ filter_cons c (take later.taken src) _ later.read;
        stopped = elim later.stopped [
          | inl all ↦ inl (ap (◌∷◌ c) all)
          | inr full ↦ inr (
              rw step (
                omega (
                  arith,
                  length-append (escape_byte c)
                      (escape_loop dst_size (o + length (escape_byte c)) src),
                )))
        ];
      }
]

-- Reading the escaped text back gives a prefix of the source without its other control characters;
-- the prefix is the whole source unless the buffer had two bytes or fewer left.
pub unescape-kum_json_escape :
    (dst_size : ℕ) (src out : Bytes)
    → All (λ c. 0 < c) src
    → kum_json_escape dst_size src ≡ some out
    → (n : ℕ) × (unescape out ≡ some (filter is_kept (take n src)))
      × ((take n src ≡ src) ⊎ (dst_size ≤ length out + 2))
unfolding kum_json_escape
unescape-kum_json_escape dst_size src out h e =
    let r = escape_loop-Reads dst_size 0 src h in
    let same : escape_loop dst_size 0 src ≡ out = ground arith in
    (r.taken, rw (← same) r.read, rw (← same) (stop r))
  where
    stop :
        (r : Reads dst_size 0 src)
        → (take r.taken src ≡ src) ⊎ (dst_size ≤ length (escape_loop dst_size 0 src) + 2)
    stop r = elim r.stopped [ inl a ↦ inl a | inr b ↦ inr (omega arith) ]

escape_loop_whole :
    (dst_size o : ℕ) (src : Bytes)
    → All (λ c. 0 < c) src
    → o + 2 * length src < dst_size
    → unescape (escape_loop dst_size o src) ≡ some (filter is_kept src)
escape_loop_whole dst_size o [] h room = unfold unescape escape_loop in refl
escape_loop_whole dst_size o (c ∷ src) h room =
    ap unescape (escape_loop_step dst_size o c src h.0 (omega arith))
    ∙ unescape-escape_byte c _
    ∙ filter_cons c src _ (
        escape_loop_whole dst_size (o + length (escape_byte c)) src h.1
          (omega (arith, length-escape_byte c)))

-- In a buffer of more than twice the source's length nothing is cut off: reading the escaped text
-- back gives the source without its other control characters.
pub unescape-kum_json_escape_whole :
    (dst_size : ℕ) (src out : Bytes)
    → All (λ c. 0 < c) src
    → 2 * length src < dst_size
    → kum_json_escape dst_size src ≡ some out
    → unescape out ≡ some (filter is_kept src)
unfolding kum_json_escape
unescape-kum_json_escape_whole dst_size src out h room e =
    let same : escape_loop dst_size 0 src ≡ out = ground arith in
    rw (← same) (escape_loop_whole dst_size 0 src h (omega arith))
