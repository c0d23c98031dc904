-- ===== src/Json/Bounds.antt =====
-- The writes of `kum_json_escape` stay inside the buffer.
use kum_de.Base.{ℕ, ◌+◌, ◌≤◌, ◌<◌, ◌≡◌, [], ◌∷◌, some, length, length-append, arith}
use kum_de.Text.{Bytes}
use kum_de.Json.{escape_byte, escape_loop, kum_json_escape}

pub length-escape_byte : (c : ℕ) → length (escape_byte c) ≤ 2
unfolding escape_byte
length-escape_byte c = ground arith

-- From any offset with room for the terminator, the terminator's place stays inside.
pub length-escape_loop :
    (dst_size o : ℕ) (src : Bytes)
    → o < dst_size
    → o + length (escape_loop dst_size o src) < dst_size
unfolding escape_loop
length-escape_loop dst_size o [] h = omega arith
length-escape_loop dst_size o (c ∷ src) h = ground (
  arith,
  length-escape_byte c,
  length-append (escape_byte c) (escape_loop dst_size (o + length (escape_byte c)) src),
  length-escape_loop dst_size (o + length (escape_byte c)) src,
)

-- The escaped text and its terminator fit the buffer, whatever the source holds.
pub kum_json_escape-fits :
    (dst_size : ℕ) (src : Bytes) {out : Bytes}
    → kum_json_escape dst_size src ≡ some out
    → length out < dst_size
unfolding kum_json_escape
kum_json_escape-fits dst_size src h = ground (arith, length-escape_loop dst_size 0 src)
