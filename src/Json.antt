-- ===== src/Json.antt =====
-- src/jsonutil.c: `kum_json_escape`, which escapes a text for a JSON string within a buffer.
pub mod Bounds
pub mod RoundTrip
use kum_de.Base.{
  ℕ, ◌+◌, Bool, ◌&&◌, ◌||◌, List, [], ◌∷◌, ◌++◌, Option, none, some, length, ltb, leb, ◌==◌,
  if◌then◌else◌,
}
use kum_de.Text.{Bytes}

-- The bytes with a two-byte escape of their own: line feed, carriage return, tab.
abbrev pub is_line_escape : ℕ → Bool
is_line_escape c = c == b'\n' || c == b'\r' || c == b'\t'

-- What one turn of the loop stores for the byte `c`; nothing for the other control characters.
unfoldable pub escape_byte : ℕ → Bytes
escape_byte c =
    if c == b'"' || c == b'\\'
    then b'\\' ∷ c ∷ []
    else if is_line_escape c
    then b'\\' ∷ (if c == b'\n' then b'n' else if c == b'\r' then b'r' else b't') ∷ []
    else if ltb c 0x20
    then []
    else c ∷ []

-- The loop from `dst[o]` on. It stops at the end of `src`, at the guard `o + 2 < dst_size`, and at
-- the `break` of the line escapes.
unfoldable pub escape_loop : ℕ → ℕ → Bytes → Bytes
escape_loop dst_size o [] = []
escape_loop dst_size o (c ∷ src) =
    let stored = escape_byte c in
    let rest = stored ++ escape_loop dst_size (o + length stored) src in
    if c == 0 || leb dst_size (o + 2) || (is_line_escape c && leb dst_size (o + 2))
    then []
    else rest

-- The text that `dst` holds afterwards, in front of its terminator; `none` where a buffer of no
-- bytes is left alone.
unfoldable pub kum_json_escape : ℕ → Bytes → Option Bytes
kum_json_escape dst_size src = if dst_size == 0 then none else some (escape_loop dst_size 0 src)
