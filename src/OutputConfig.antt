-- ===== src/OutputConfig.antt =====
-- src/conf.c: `parse_bool` and `apply_output`, one entry of an `[output …]` section. The `float` of
-- the scale, with `atof` and its tests, is a parameter.
use kum_de.Base.{
  ℕ, ◌≡◌, Bool, true, false, ◌||◌, List, [], ◌∷◌, Option, none, some, ◌==◌, if◌then◌else◌, arith,
}
use kum_de.Base.Int.{ℤ, pos}
use kum_de.Rules.Load.{scan_pair, drop_digits, drop_sign}
use kum_de.Text.{Bytes, codes, bytes_eq, skip_space, scan_int, copied}

-- `!strcmp(v,"true") || !strcmp(v,"1") || !strcmp(v,"yes")`
unfoldable pub parse_bool : Bytes → Bool
parse_bool v = bytes_eq v (codes "true") || bytes_eq v (codes "1") || bytes_eq v (codes "yes")

-- What follows `<c>` at the head, as a number that `%d` reads.
unfoldable pub number_behind : ℕ → Bytes → Option (ℤ × Bytes)
number_behind c [] = none
number_behind c (d ∷ s) =
    if d == c
    then elim (scan_int s) [
      | none ↦ none
      | some n ↦ some (n, drop_digits (drop_sign (skip_space s)))
    ]
    else none

-- The third number of `"%dx%d@%d"`, 0 where the text stops matching before it.
unfoldable pub scan_refresh : Bytes → ℤ
unfolding number_behind
scan_refresh val = elim (scan_int val) [
  | none ↦ pos 0
  | some w ↦ elim (number_behind b'x' (drop_digits (drop_sign (skip_space val)))) [
    | none ↦ pos 0
    | some (h, rest) ↦ elim (number_behind b'@' rest) [ none ↦ pos 0 | some (r, end) ↦ r ]
  ]
]

module _ (Real : Type 0) (atof : Bytes → Real) (positive : Real → Bool) (one : Real) where
  -- `kum_output_config`
  pub record OutputEntry : Type 0 where
    pub width : ℤ
    pub height : ℤ
    pub refresh : ℤ
    pub x : ℤ
    pub y : ℤ
    pub scale : Real
    pub transform : Bytes
    pub enabled : Bool

  unfoldable pub apply_output : Bytes → Bytes → OutputEntry → OutputEntry
  unfolding scan_refresh parse_bool
  apply_output key val oc0 =
      let oc : OutputEntry = record oc0 {
        scale = if positive oc0.scale then oc0.scale else one;
        enabled = true;
      } in
      if bytes_eq key (codes "mode")
      then (let p = scan_pair b'x' val oc.width oc.height in
          record oc { width = p.0; height = p.1; refresh = scan_refresh val })
      else if bytes_eq key (codes "pos")
      then (let p = scan_pair b',' val oc.x oc.y in record oc { x = p.0; y = p.1 })
      else if bytes_eq key (codes "scale")
      then record oc { scale = atof val }
      else if bytes_eq key (codes "transform")
      then record oc { transform = copied 15 val }
      else if bytes_eq key (codes "enabled")
      then record oc { enabled = parse_bool val }
      else oc

  -- The entries of one section, in order.
  unfoldable pub apply_entries : List (Bytes × Bytes) → OutputEntry → OutputEntry
  apply_entries [] oc = oc
  apply_entries ((key, val) ∷ rest) oc = apply_entries rest (apply_output key val oc)

  -- After an entry that turns the output off, any entry with another key turns it on again.
  pub apply_output-enabled :
      (key val : Bytes) (oc : OutputEntry)
      → bytes_eq key (codes "enabled") ≡ false
      → (apply_entries ((codes "enabled", codes "false") ∷ (key, val) ∷ []) oc).enabled ≡ true
  unfolding apply_entries apply_output
  apply_output-enabled key val oc h = ground arith
