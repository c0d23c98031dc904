-- ===== src/Tests/Text.antt =====
-- The JSON escape of short titles.
use kum_de.Base.{ℕ, ◌+◌, ◌<◌, ◌≤◌, ◌≡◌, refl, ◌⊎◌, some, length, filter, take, arith}
use kum_de.Json.{kum_json_escape, escape_loop, escape_byte}
use kum_de.Json.Bounds.{kum_json_escape-fits}
use kum_de.Json.RoundTrip.{
  unescape, is_kept, unescape-kum_json_escape, unescape-kum_json_escape_whole,
}
use kum_de.Text.{codes}

kum_json_escape-fits_example : length (codes "a\\\"b") < 6
unfolding kum_json_escape escape_loop escape_byte
kum_json_escape-fits_example = kum_json_escape-fits 6 (codes "a\"b") refl

unescape-kum_json_escape_example :
    (n : ℕ) × (unescape (codes "a\\\"") ≡ some (filter is_kept (take n (codes "a\"b"))))
    × ((take n (codes "a\"b") ≡ codes "a\"b") ⊎ (5 ≤ length (codes "a\\\"") + 2))
unfolding kum_json_escape escape_loop escape_byte
unescape-kum_json_escape_example =
    unescape-kum_json_escape 5 (codes "a\"b") (codes "a\\\"")
      (omega arith, (omega arith, (omega arith, tt))) refl

unescape-kum_json_escape_whole_example :
    unescape (codes "a\\\"b") ≡ some (filter is_kept (codes "a\"b"))
unfolding kum_json_escape escape_loop escape_byte
unescape-kum_json_escape_whole_example =
    unescape-kum_json_escape_whole 350 (codes "a\"b") (codes "a\\\"b")
      (omega arith, (omega arith, (omega arith, tt))) (omega arith) refl
