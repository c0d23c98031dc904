-- ===== src/Tests/Sample.antt =====
-- A server without outputs, and the same server with two outputs and three windows.
use kum_de.Base.{ℕ, ◌+◌, true, false, [], ◌∷◌, none, some, ltb}
use kum_de.Base.Int.{pos, pos_part, ◌*ℤ◌, ◌/ℤ◌}
use kum_de.Actions.{World}
use kum_de.Config.{Reals}
use kum_de.Output.{kum_new_output}
use kum_de.Server.{Floats, Server, Box, Toplevel, anim_none, no_edges}
use kum_de.Text.{Bytes, codes, bytes_eq}
use kum_de.Visible.Reach.{Setting}
use kum_de.Workspace.{initial_workspaces}

-- Ratios in thousandths.
abbrev pub thousandths : Floats
thousandths = record {
  Real = ℕ;
  share = λ r w. (w *ℤ r) /ℤ 1000;
  step = λ r dw. r + pos_part dw;
  less = ltb;
  low = 100;
  high = 900;
}

abbrev pub screen : Box
screen = record { x = pos 0; y = pos 0; width = pos 1920; height = pos 1080 }

abbrev pub right_screen : Box
right_screen = record { x = pos 1920; y = pos 0; width = pos 1280; height = pos 1024 }

abbrev pub small_box : Box
small_box = record { x = pos 40; y = pos 30; width = pos 640; height = pos 480 }

abbrev pub window_of : ℕ → Toplevel
window_of k = record {
  id = k;
  workspace = 0;
  mapped = true;
  floating = false;
  focus_serial = 0;
  activated = false;
  anim = anim_none;
  node_enabled = true;
  node_x = pos 0;
  node_y = pos 0;
  asked_width = pos 0;
  asked_height = pos 0;
  geometry = small_box;
  saved_geom = small_box;
  fullscreen = false;
  asked_fullscreen = false;
  asked_maximized = false;
  grabbed = false;
  resize_edges = no_edges;
  grab_x = pos 0;
  grab_y = pos 0;
  grab_geobox = small_box;
  app_id = codes "foot";
  title = codes "shell";
}

abbrev pub start : Server thousandths
start = record {
  outputs = [];
  toplevels = [];
  workspaces = initial_workspaces;
  focused = none;
  seat_focus = none;
  has_keyboard = true;
  locked = false;
  cursor_output = some 1;
  next_focus_serial = 0;
  scratchpad_ws = 8;
  gap = pos 8;
  master_ratio = 550;
  animations = true;
  rules = [];
  layouts = codes "us" ∷ codes "rs" ∷ [];
  layout_current = 0;
  keymap_layout = none;
  layer_surfaces = [];
  cursor_x = pos 100;
  cursor_y = pos 100;
  active_lock = none;
  lock_rects = [];
  lock_surfaces = [];
  z_order = [];
  sent = [];
}

abbrev pub one_output : Server thousandths
one_output = kum_new_output 1 (codes "DP-1") screen start

abbrev pub two_outputs : Server thousandths
two_outputs = kum_new_output 2 (codes "DP-2") right_screen one_output

abbrev pub world : World
world = record { box = λ o. screen; probe = λ o dx dy. some 2; kb_layout = codes "us,rs" }

-- Texts for `float`.
abbrev pub texts : Reals
texts = record {
  Real = Bytes;
  atof = λ s. s;
  positive = λ s. true;
  one = codes "1";
  scan_rgb = λ s rgb. (s, s, s);
}

abbrev pub setting : Setting
setting = record {
  reals = texts;
  world = world;
  fnmatch = bytes_eq;
  configure = λ ls full usable. usable;
}
