-- ===== src/Tests/Config.antt =====
-- A configuration with texts of its own for numbers.
use kum_de.Base.{true, false, List, [], ◌∷◌, arith}
use kum_de.Base.Int.{pos}
use kum_de.Config.{RuntimeConfig, kum_config_load}
use kum_de.Config.Bounds.{Bounded}
use kum_de.Config.Bounds.Lines.{kum_config_load-Bounded}
use kum_de.Tests.Sample.{texts}
use kum_de.Text.{Bytes, codes}

abbrev defaults : RuntimeConfig texts
defaults = record {
  terminal = codes "foot";
  border_width = pos 2;
  border_active = ([], [], []);
  border_inactive = ([], [], []);
  anim_open_ms = [];
  anim_close_ms = [];
  anim_focus_ms = [];
  cursor_size = pos 24;
  xwayland = false;
  animations = true;
  gap = pos 8;
  master_ratio = [];
  corner_radius = pos 0;
  shadow_radius = pos 0;
  shadow_alpha = [];
  shadow_offset_x = pos 0;
  shadow_offset_y = pos 0;
  shadows = false;
  rounded_corners = false;
  focus_follows_mouse = false;
  kb_layout = codes "us";
  kb_variant = [];
  kb_model = [];
  kb_options = [];
  tap_to_click = true;
  natural_scroll = false;
  disable_while_typing = true;
  pointer_accel = [];
  autostart = [];
  output_configs = [];
}

defaults-Bounded : Bounded defaults
defaults-Bounded = record {
  terminal = omega arith;
  kb_layout = omega arith;
  kb_variant = omega arith;
  kb_model = omega arith;
  kb_options = omega arith;
  autostart = omega arith;
  commands = tt;
  output_configs = omega arith;
  output_texts = tt;
}

abbrev file : List Bytes
file = codes "autostart = kumbar" ∷ codes "[output DP-1]" ∷ codes "scale = 2" ∷ []

kum_config_load-Bounded_example : Bounded (kum_config_load file defaults)
kum_config_load-Bounded_example = kum_config_load-Bounded file defaults defaults-Bounded
