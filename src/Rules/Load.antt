-- ===== src/Rules/Load.antt =====
-- src/rules.c: `kum_rules_load`, at the lines that `fgets` gives.
pub mod Position
use kum_de.Base.{
  ℕ, Bool, true, false, ◌&&◌, ◌||◌, List, [], ◌∷◌, Option, none, some, ◌==◌, if◌then◌else◌,
}
use kum_de.Base.Int.{ℤ, pos, negsuc, ◌-ℤ◌}
use kum_de.Rules.{is_empty}
use kum_de.Server.{Rule}
use kum_de.Text.{
  Bytes, codes, bytes_eq, is_digit, skip_space, trim, split_at, scan_int, atoi, tokens, copied,
}

abbrev blank_rule : Rule
blank_rule = record {
  app_id = [];
  title = [];
  workspace = negsuc 0;
  floating = false;
  fullscreen = false;
  w = pos 0;
  h = pos 0;
  x = pos 0;
  y = pos 0;
}

-- What follows the number that `%d` has read.
unfoldable pub drop_digits : Bytes → Bytes
drop_digits [] = []
drop_digits (c ∷ s) = if is_digit c then drop_digits s else c ∷ s

unfoldable pub drop_sign : Bytes → Bytes
drop_sign [] = []
drop_sign (c ∷ s) = if c == b'-' || c == b'+' then s else c ∷ s

-- `sscanf(s, "%d<sep>%d", &a, &b)`, from the values that `a` and `b` had
unfoldable pub scan_second : ℕ → Bytes → ℤ → ℤ
scan_second sep [] b = b
scan_second sep (c ∷ s) b = if c == sep then elim (scan_int s) [ none ↦ b | some n ↦ n ] else b

unfoldable pub scan_pair : ℕ → Bytes → ℤ → ℤ → ℤ × ℤ
unfolding drop_digits drop_sign scan_second
scan_pair sep s a b = elim (scan_int s) [
  | none ↦ (a, b)
  | some n ↦ (n, scan_second sep (drop_digits (drop_sign (skip_space s))) b)
]

-- The chain of `strcmp`s over one key and its value.
unfoldable pub apply_option : Bytes → Bytes → Rule → Rule
unfolding scan_pair
apply_option rk rv r =
    if bytes_eq rk (codes "app_id")
    then record r { app_id = copied 127 rv }
    else if bytes_eq rk (codes "title")
    then record r { title = copied 127 rv }
    else if bytes_eq rk (codes "workspace")
    then record r { workspace = atoi rv -ℤ pos 1 }
    else if bytes_eq rk (codes "floating")
    then record r { floating = bytes_eq rv (codes "true") }
    else if bytes_eq rk (codes "fullscreen")
    then record r { fullscreen = bytes_eq rv (codes "true") }
    else if bytes_eq rk (codes "size")
    then (let p = scan_pair b'x' rv r.w r.h in record r { w = p.0; h = p.1 })
    else if bytes_eq rk (codes "pos")
    then (let p = scan_pair b',' rv r.x r.y in record r { x = p.0; y = p.1 })
    else r

-- One turn of the `strtok` loop.
unfoldable pub apply_token : Bytes → Rule → Rule
unfolding apply_option
apply_token tok r = elim (split_at b':' (trim tok)) [
  | none ↦ r
  | some (rk, rv) ↦ apply_option (trim rk) (trim rv) r
]

unfoldable pub apply_tokens : List Bytes → Rule → Rule
unfolding apply_token
apply_tokens [] r = r
apply_tokens (tok ∷ toks) r = apply_tokens toks (apply_token tok r)

unfoldable pub parse_rule : Bytes → Rule
unfolding apply_tokens
parse_rule val = apply_tokens (tokens b',' [] (copied 511 val)) blank_rule

-- A line `rule = …` of the section; a rule that names neither an application nor a title is dropped.
unfoldable add_rule : Bytes → List Rule → List Rule
unfolding parse_rule
add_rule val rules =
    let r = parse_rule val in if is_empty r.app_id && is_empty r.title then rules else r ∷ rules

unfoldable read_entry : Bytes → List Rule → List Rule
unfolding add_rule
read_entry s rules = elim (split_at b'=' s) [
  | none ↦ rules
  | some (key, val) ↦
      if bytes_eq (trim key) (codes "rule") then add_rule (trim val) rules else rules
]

abbrev starts_with : ℕ → Bytes → Bool
starts_with c [] = false
starts_with c (d ∷ s) = d == c

-- The loop over the lines, with `in_rules`.
unfoldable read_lines : Bool → List Bytes → List Rule → List Rule
unfolding read_entry
read_lines in_rules [] rules = rules
read_lines in_rules (line ∷ lines) rules =
    let s = trim line in
    let skipped = read_lines in_rules lines rules in
    let entered = read_lines true lines rules in
    let left = read_lines false lines rules in
    let read = read_lines in_rules lines (read_entry s rules) in
    if is_empty s || starts_with b'#' s
    then skipped
    else if bytes_eq s (codes "[rules]")
    then entered
    else if starts_with b'[' s
    then left
    else if in_rules
    then read
    else skipped

unfoldable pub kum_rules_load : List Bytes → List Rule → List Rule
unfolding read_lines
kum_rules_load lines rules = read_lines false lines rules
