-- ===== src/Config.antt =====
-- src/conf.c: the configuration and the lines of its file, as `fgets` gives them. `float` with its
-- `atof` and `sscanf` is a parameter.
pub mod Bounds
use kum_de.Base.{
  ℕ, zero, suc, ◌+◌, Bool, true, false, not, ◌&&◌, ◌||◌, List, [], ◌∷◌, ◌++◌, Option, none, some,
  length, ltb, ◌==◌, if◌then◌else◌,
}
use kum_de.Base.Int.{ℤ, pos}
use kum_de.OutputConfig.{OutputEntry, apply_output, parse_bool}
use kum_de.Text.{
  Bytes, codes, bytes_eq, after, trim, split_at, scan_until, skip_space, atoi, copied,
}

-- `float`: `atof`, the test `> 0`, the constant 1 and `"%f %f %f"` from the values that there were.
pub record Reals : Type 1 where
  pub Real : Type 0
  pub atof : Bytes → Real
  pub positive : Real → Bool
  pub one : Real
  pub scan_rgb : Bytes → Real × Real × Real → Real × Real × Real

abbrev pub Entry : Reals → Type 0
Entry r = OutputEntry r.Real r.atof r.positive r.one

-- `struct kum_runtime_config`; a section of an output is kept with its name.
pub record RuntimeConfig (r : Reals) : Type 0 where
  pub terminal : Bytes
  pub border_width : ℤ
  pub border_active : r.Real × r.Real × r.Real
  pub border_inactive : r.Real × r.Real × r.Real
  pub anim_open_ms : r.Real
  pub anim_close_ms : r.Real
  pub anim_focus_ms : r.Real
  pub cursor_size : ℤ
  pub xwayland : Bool
  pub animations : Bool
  pub gap : ℤ
  pub master_ratio : r.Real
  pub corner_radius : ℤ
  pub shadow_radius : ℤ
  pub shadow_alpha : r.Real
  pub shadow_offset_x : ℤ
  pub shadow_offset_y : ℤ
  pub shadows : Bool
  pub rounded_corners : Bool
  pub focus_follows_mouse : Bool
  pub kb_layout : Bytes
  pub kb_variant : Bytes
  pub kb_model : Bytes
  pub kb_options : Bytes
  pub tap_to_click : Bool
  pub natural_scroll : Bool
  pub disable_while_typing : Bool
  pub pointer_accel : r.Real
  pub autostart : List Bytes
  pub output_configs : List (Bytes × Entry r)

-- `section`, with `out_idx` in the section of an output; -1 is `none`.
pub data Section : Type 0 where
  global input rules : Section
  output : Option ℕ → Section

-- The entry goes to `output_configs[i]`.
unfoldable pub apply_at :
    (r : Reals) → ℕ → Bytes → Bytes → List (Bytes × Entry r) → List (Bytes × Entry r)
unfolding apply_output
apply_at r i key val [] = []
apply_at r zero key val (o ∷ os) =
    (o.0, apply_output r.Real r.atof r.positive r.one key val o.1) ∷ os
apply_at r (suc i) key val (o ∷ os) = o ∷ apply_at r i key val os

-- A section of an output after `memset`.
abbrev pub blank_output : (r : Reals) → Entry r
blank_output r = record {
  width = pos 0;
  height = pos 0;
  refresh = pos 0;
  x = pos 0;
  y = pos 0;
  scale = r.one;
  transform = [];
  enabled = false;
}

module _ {r : Reals} where
  unfoldable pub add_autostart : Bytes → RuntimeConfig r → RuntimeConfig r
  add_autostart val c =
      if ltb (length c.autostart) 16
      then record c { autostart = c.autostart ++ copied 255 val ∷ [] }
      else c

  -- One key of `apply_global`; the chain is cut in two, and its second half ends with `autostart`.
  unfoldable pub apply_global_last : Bytes → Bytes → RuntimeConfig r → RuntimeConfig r
  unfolding parse_bool add_autostart
  apply_global_last key val c =
      if bytes_eq key (codes "master_ratio")
      then record c { master_ratio = r.atof val }
      else if bytes_eq key (codes "corner_radius")
      then record c { corner_radius = atoi val }
      else if bytes_eq key (codes "shadow_radius")
      then record c { shadow_radius = atoi val }
      else if bytes_eq key (codes "shadow_alpha")
      then record c { shadow_alpha = r.atof val }
      else if bytes_eq key (codes "shadow_offset_x")
      then record c { shadow_offset_x = atoi val }
      else if bytes_eq key (codes "shadow_offset_y")
      then record c { shadow_offset_y = atoi val }
      else if bytes_eq key (codes "shadows")
      then record c { shadows = parse_bool val }
      else if bytes_eq key (codes "rounded_corners")
      then record c { rounded_corners = parse_bool val }
      else if bytes_eq key (codes "focus_follows_mouse")
      then record c { focus_follows_mouse = parse_bool val }
      else if bytes_eq key (codes "autostart")
      then add_autostart val c
      else c

  unfoldable pub apply_global : Bytes → Bytes → RuntimeConfig r → RuntimeConfig r
  unfolding parse_bool apply_global_last
  apply_global key val c =
      if bytes_eq key (codes "terminal")
      then record c { terminal = copied 255 val }
      else if bytes_eq key (codes "border_width")
      then record c { border_width = atoi val }
      else if bytes_eq key (codes "border_active")
      then record c { border_active = r.scan_rgb val c.border_active }
      else if bytes_eq key (codes "border_inactive")
      then record c { border_inactive = r.scan_rgb val c.border_inactive }
      else if bytes_eq key (codes "anim_open_ms")
      then record c { anim_open_ms = r.atof val }
      else if bytes_eq key (codes "anim_close_ms")
      then record c { anim_close_ms = r.atof val }
      else if bytes_eq key (codes "anim_focus_ms")
      then record c { anim_focus_ms = r.atof val }
      else if bytes_eq key (codes "cursor_size")
      then record c { cursor_size = atoi val }
      else if bytes_eq key (codes "animations")
      then record c { animations = parse_bool val }
      else if bytes_eq key (codes "xwayland")
      then record c { xwayland = parse_bool val }
      else if bytes_eq key (codes "gap")
      then record c { gap = atoi val }
      else apply_global_last key val c

  unfoldable pub apply_input : Bytes → Bytes → RuntimeConfig r → RuntimeConfig r
  unfolding parse_bool
  apply_input key val c =
      if bytes_eq key (codes "tap_to_click")
      then record c { tap_to_click = parse_bool val }
      else if bytes_eq key (codes "natural_scroll")
      then record c { natural_scroll = parse_bool val }
      else if bytes_eq key (codes "disable_while_typing")
      then record c { disable_while_typing = parse_bool val }
      else if bytes_eq key (codes "pointer_accel")
      then record c { pointer_accel = r.atof val }
      else if bytes_eq key (codes "kb_layout")
      then record c { kb_layout = copied 63 val }
      else if bytes_eq key (codes "kb_variant")
      then record c { kb_variant = copied 63 val }
      else if bytes_eq key (codes "kb_model")
      then record c { kb_model = copied 63 val }
      else if bytes_eq key (codes "kb_options")
      then record c { kb_options = copied 127 val }
      else c

  -- `[output NAME]`: a section beyond the eighth has no place.
  unfoldable pub open_output : Bytes → RuntimeConfig r → Section × RuntimeConfig r
  open_output rest c =
      if ltb (length c.output_configs) 8
      then (
        output (some (length c.output_configs)),
        record c {
          output_configs =
              c.output_configs ++ (scan_until b']' 63 (skip_space rest), blank_output r) ∷ [];
        },
      )
      else (output none, c)

  unfoldable pub open_section : Bytes → RuntimeConfig r → Section × RuntimeConfig r
  unfolding open_output
  open_section s c =
      let other : Section × RuntimeConfig r = elim (after (codes "[output ") s) [
        | none ↦ (global, c)
        | some rest ↦ open_output rest c
      ] in
      if bytes_eq s (codes "[input]")
      then (input, c)
      else if bytes_eq s (codes "[rules]")
      then (rules, c)
      else other

  unfoldable pub apply_entry : Section → Bytes → Bytes → RuntimeConfig r → RuntimeConfig r
  unfolding apply_global apply_input apply_at
  apply_entry global key val c = apply_global key val c
  apply_entry input key val c = apply_input key val c
  apply_entry rules key val c = c
  apply_entry (output none) key val c = c
  apply_entry (output (some i)) key val c = record c {
    output_configs = apply_at r i key val c.output_configs;
  }

  unfoldable pub read_line : Bytes → Section → RuntimeConfig r → Section × RuntimeConfig r
  unfolding open_section apply_entry
  read_line line section c = elim (trim line) [
    | [] ↦ (section, c)
    | d ∷ s ↦
        if d == b'#'
        then (section, c)
        else if d == b'['
        then open_section (d ∷ s) c
        else elim (split_at b'=' (d ∷ s)) [
          | none ↦ (section, c)
          | some (key, val) ↦ (section, apply_entry section (trim key) (trim val) c)
        ]
  ]

  unfoldable pub load_lines : List Bytes → Section → RuntimeConfig r → RuntimeConfig r
  unfolding read_line
  load_lines [] section c = c
  load_lines (line ∷ lines) section c =
      let next = read_line line section c in load_lines lines next.0 next.1

  -- `kum_config_load` at a file that opens
  unfoldable pub kum_config_load : List Bytes → RuntimeConfig r → RuntimeConfig r
  unfolding load_lines
  kum_config_load lines c = load_lines lines global c
