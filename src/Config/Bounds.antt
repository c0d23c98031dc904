-- ===== src/Config/Bounds.antt =====
-- What a file can make of the configuration of src/conf.c.
pub mod Lines
use mathlib.Core.Path.{subst}
use kum_de.Base.{
  sym, ap, ℕ, zero, suc, ◌+◌, ◌<◌, ◌≤◌, ◌≡◌, refl, Bool, true, false, not, ◌&&◌, List, [], ◌∷◌,
  ◌++◌, Option, none, some, length, take, ltb, ◌==◌, if◌then◌else◌, arith, All, All-append,
  length-append, length-take-le, Bool-cases, inl, inr,
}
use kum_de.Config.{
  Reals, Entry, RuntimeConfig, Section, global, input, rules, output, apply_at, blank_output,
  apply_global_last, add_autostart, apply_global, apply_input, open_output, open_section,
  apply_entry, read_line, load_lines, kum_config_load,
}
use kum_de.OutputConfig.{parse_bool}
use kum_de.Text.{
  Bytes, codes, bytes_eq, atoi, after, trim, split_at, scan_until, skip_space, copied,
}

-- The texts of an output leave room for their terminators.
abbrev pub Room : (r : Reals) → Bytes × Entry r → Type 0
Room r o = (length o.0 < 64) × (length o.1.transform < 16)

-- Every text leaves room for its terminator, and the two tables do not outgrow their arrays.
pub record Bounded {r : Reals} (c : RuntimeConfig r) : Type 0 where
  pub terminal : length c.terminal < 256
  pub kb_layout : length c.kb_layout < 64
  pub kb_variant : length c.kb_variant < 64
  pub kb_model : length c.kb_model < 64
  pub kb_options : length c.kb_options < 128
  pub autostart : length c.autostart ≤ 16
  pub commands : All (λ s. length s < 256) c.autostart
  pub output_configs : length c.output_configs ≤ 8
  pub output_texts : All (Room r) c.output_configs

-- The parts of a configuration that have a bound.
pub record Core (r : Reals) : Type 0 where
  pub terminal : Bytes
  pub kb_layout : Bytes
  pub kb_variant : Bytes
  pub kb_model : Bytes
  pub kb_options : Bytes
  pub autostart : List Bytes
  pub outputs : List (Bytes × Entry r)

abbrev core : {r : Reals} → RuntimeConfig r → Core r
core c = record {
  terminal = c.terminal;
  kb_layout = c.kb_layout;
  kb_variant = c.kb_variant;
  kb_model = c.kb_model;
  kb_options = c.kb_options;
  autostart = c.autostart;
  outputs = c.output_configs;
}

copied-lt : (n : ℕ) (s : Bytes) → length (copied n s) < suc n
copied-lt n s = let short = length-take-le n s in omega (arith, short)

module _ {r : Reals} where
  -- A change of something else.
  keep : (c d : RuntimeConfig r) → Bounded c → core d ≡ core c → Bounded d
  keep c d b e = record {
    terminal = subst (λ k. length k.terminal < 256) (sym e) b.terminal;
    kb_layout = subst (λ k. length k.kb_layout < 64) (sym e) b.kb_layout;
    kb_variant = subst (λ k. length k.kb_variant < 64) (sym e) b.kb_variant;
    kb_model = subst (λ k. length k.kb_model < 64) (sym e) b.kb_model;
    kb_options = subst (λ k. length k.kb_options < 128) (sym e) b.kb_options;
    autostart = subst (λ k. length k.autostart ≤ 16) (sym e) b.autostart;
    commands = subst (λ k. All (λ s. length s < 256) k.autostart) (sym e) b.commands;
    output_configs = subst (λ k. length k.outputs ≤ 8) (sym e) b.output_configs;
    output_texts = subst (λ k. All (Room r) k.outputs) (sym e) b.output_texts;
  }

  add_autostart-Bounded :
      (val : Bytes) (c : RuntimeConfig r) → Bounded c → Bounded (add_autostart val c)
  unfolding add_autostart
  add_autostart-Bounded val c b = go _ refl
    where
      go :
          (t : Bool)
          → t ≡ ltb (length c.autostart) 16
          → Bounded (if t then record c { autostart = c.autostart ++ copied 255 val ∷ [] } else c)
      go true e =
          let sum = length-append c.autostart (copied 255 val ∷ []) in
          record {
            terminal = b.terminal;
            kb_layout = b.kb_layout;
            kb_variant = b.kb_variant;
            kb_model = b.kb_model;
            kb_options = b.kb_options;
            autostart = ground (arith, sum, e);
            commands =
                All-append (λ s. length s < 256) c.autostart (copied 255 val ∷ []) b.commands
                  (copied-lt 255 val, tt);
            output_configs = b.output_configs;
            output_texts = b.output_texts;
          }
      go false e = b

  pub apply_input-Bounded :
      (key val : Bytes) (c : RuntimeConfig r) → Bounded c → Bounded (apply_input key val c)
  unfolding apply_input
  apply_input-Bounded key val c b = chain _ _ _ _ _ _ _ _
    where
      chain :
          (t0 t1 t2 t3 t4 t5 t6 t7 : Bool)
          → Bounded (
              if t0
              then record c { tap_to_click = parse_bool val }
              else if t1
              then record c { natural_scroll = parse_bool val }
              else if t2
              then record c { disable_while_typing = parse_bool val }
              else if t3
              then record c { pointer_accel = r.atof val }
              else if t4
              then record c { kb_layout = copied 63 val }
              else if t5
              then record c { kb_variant = copied 63 val }
              else if t6
              then record c { kb_model = copied 63 val }
              else if t7
              then record c { kb_options = copied 127 val }
              else c)
      chain true _ _ _ _ _ _ _ = keep c _ b refl
      chain false true _ _ _ _ _ _ = keep c _ b refl
      chain false false true _ _ _ _ _ = keep c _ b refl
      chain false false false true _ _ _ _ = keep c _ b refl
      chain false false false false true _ _ _ = record {
        terminal = b.terminal;
        kb_layout = copied-lt 63 val;
        kb_variant = b.kb_variant;
        kb_model = b.kb_model;
        kb_options = b.kb_options;
        autostart = b.autostart;
        commands = b.commands;
        output_configs = b.output_configs;
        output_texts = b.output_texts;
      }
      chain false false false false false true _ _ = record {
        terminal = b.terminal;
        kb_layout = b.kb_layout;
        kb_variant = copied-lt 63 val;
        kb_model = b.kb_model;
        kb_options = b.kb_options;
        autostart = b.autostart;
        commands = b.commands;
        output_configs = b.output_configs;
        output_texts = b.output_texts;
      }
      chain false false false false false false true _ = record {
        terminal = b.terminal;
        kb_layout = b.kb_layout;
        kb_variant = b.kb_variant;
        kb_model = copied-lt 63 val;
        kb_options = b.kb_options;
        autostart = b.autostart;
        commands = b.commands;
        output_configs = b.output_configs;
        output_texts = b.output_texts;
      }
      chain false false false false false false false true = record {
        terminal = b.terminal;
        kb_layout = b.kb_layout;
        kb_variant = b.kb_variant;
        kb_model = b.kb_model;
        kb_options = copied-lt 127 val;
        autostart = b.autostart;
        commands = b.commands;
        output_configs = b.output_configs;
        output_texts = b.output_texts;
      }
      chain false false false false false false false false = b

  apply_global_last-Bounded :
      (key val : Bytes) (c : RuntimeConfig r) → Bounded c → Bounded (apply_global_last key val c)
  unfolding apply_global_last
  apply_global_last-Bounded key val c b = chain _ _ _ _ _ _ _ _ _ _
    where
      chain :
          (t0 t1 t2 t3 t4 t5 t6 t7 t8 t9 : Bool)
          → Bounded (
              if t0
              then record c { master_ratio = r.atof val }
              else if t1
              then record c { corner_radius = atoi val }
              else if t2
              then record c { shadow_radius = atoi val }
              else if t3
              then record c { shadow_alpha = r.atof val }
              else if t4
              then record c { shadow_offset_x = atoi val }
              else if t5
              then record c { shadow_offset_y = atoi val }
              else if t6
              then record c { shadows = parse_bool val }
              else if t7
              then record c { rounded_corners = parse_bool val }
              else if t8
              then record c { focus_follows_mouse = parse_bool val }
              else if t9
              then add_autostart val c
              else c)
      chain true _ _ _ _ _ _ _ _ _ = keep c _ b refl
      chain false true _ _ _ _ _ _ _ _ = keep c _ b refl
      chain false false true _ _ _ _ _ _ _ = keep c _ b refl
      chain false false false true _ _ _ _ _ _ = keep c _ b refl
      chain false false false false true _ _ _ _ _ = keep c _ b refl
      chain false false false false false true _ _ _ _ = keep c _ b refl
      chain false false false false false false true _ _ _ = keep c _ b refl
      chain false false false false false false false true _ _ = keep c _ b refl
      chain false false false false false false false false true _ = keep c _ b refl
      chain false false false false false false false false false true =
          add_autostart-Bounded val c b
      chain false false false false false false false false false false = b

  pub apply_global-Bounded :
      (key val : Bytes) (c : RuntimeConfig r) → Bounded c → Bounded (apply_global key val c)
  unfolding apply_global
  apply_global-Bounded key val c b = chain _ _ _ _ _ _ _ _ _ _ _
    where
      chain :
          (t0 t1 t2 t3 t4 t5 t6 t7 t8 t9 t10 : Bool)
          → Bounded (
              if t0
              then record c { terminal = copied 255 val }
              else if t1
              then record c { border_width = atoi val }
              else if t2
              then record c { border_active = r.scan_rgb val c.border_active }
              else if t3
              then record c { border_inactive = r.scan_rgb val c.border_inactive }
              else if t4
              then record c { anim_open_ms = r.atof val }
              else if t5
              then record c { anim_close_ms = r.atof val }
              else if t6
              then record c { anim_focus_ms = r.atof val }
              else if t7
              then record c { cursor_size = atoi val }
              else if t8
              then record c { animations = parse_bool val }
              else if t9
              then record c { xwayland = parse_bool val }
              else if t10
              then record c { gap = atoi val }
              else apply_global_last key val c)
      chain true _ _ _ _ _ _ _ _ _ _ = record {
        terminal = copied-lt 255 val;
        kb_layout = b.kb_layout;
        kb_variant = b.kb_variant;
        kb_model = b.kb_model;
        kb_options = b.kb_options;
        autostart = b.autostart;
        commands = b.commands;
        output_configs = b.output_configs;
        output_texts = b.output_texts;
      }
      chain false true _ _ _ _ _ _ _ _ _ = keep c _ b refl
      chain false false true _ _ _ _ _ _ _ _ = keep c _ b refl
      chain false false false true _ _ _ _ _ _ _ = keep c _ b refl
      chain false false false false true _ _ _ _ _ _ = keep c _ b refl
      chain false false false false false true _ _ _ _ _ = keep c _ b refl
      chain false false false false false false true _ _ _ _ = keep c _ b refl
      chain false false false false false false false true _ _ _ = keep c _ b refl
      chain false false false false false false false false true _ _ = keep c _ b refl
      chain false false false false false false false false false true _ = keep c _ b refl
      chain false false false false false false false false false false true = keep c _ b refl
      chain false false false false false false false false false false false =
          apply_global_last-Bounded key val c b
