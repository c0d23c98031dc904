-- ===== src/Keybind.antt =====
-- src/keybind.c: the key bindings and their actions.
use mathlib.Core.Bool.{decide}
use native.Mathlib.Decide.{ℕ_discrete}
use kum_de.Base.{
  ℕ, zero, suc, Bool, true, false, ◌&&◌, List, [], ◌∷◌, Option, none, some, if◌then◌else◌,
}

-- The key symbols that are bound; `digit i` is XKB_KEY_1 + i.
pub data Key : Type 0 where
  key_q tab key_c key_t space key_f grave key_m key_k enter print_screen key_l : Key
  left right up down : Key
  raise_volume lower_volume mute brightness_up brightness_down : Key
  digit : ℕ → Key

Key-discrete : Discrete Key
Key-discrete = hlevel ℕ_discrete

-- KUM_MOD_KEY, WLR_MODIFIER_SHIFT and the modifiers that no binding has.
pub record Modifiers : Type 0 where
  pub logo : Bool
  pub shift : Bool
  pub others : ℕ

Modifiers-discrete : Discrete Modifiers
Modifiers-discrete = hlevel ℕ_discrete

pub data Action : Type 0 where
  quit cycle_focus close_focused toggle_layout toggle_floating : Action
  switch_workspace move_to_workspace : ℕ → Action
  focus_left focus_right focus_up focus_down toggle_fullscreen scratchpad layout_monocle : Action
  kb_layout_next swap_master resize_right resize_left resize_down resize_up : Action
  screenshot screenshot_region shutdown lock : Action
  volume_up volume_down volume_mute backlight_up backlight_down : Action

-- `struct kum_keybind`
pub record Keybind : Type 0 where
  pub modifiers : Modifiers
  pub sym : Key
  pub action : Action

abbrev bind : Modifiers → Key → Action → Keybind
bind m k a = record { modifiers = m; sym = k; action = a }

-- `kum_keybind_register` puts the newest binding at the head.
unfoldable pub kum_keybind_register : Keybind → List Keybind → List Keybind
kum_keybind_register kb kbs = kb ∷ kbs

register_all : List Keybind → List Keybind → List Keybind
unfolding kum_keybind_register
register_all [] kbs = kbs
register_all (kb ∷ rest) kbs = register_all rest (kum_keybind_register kb kbs)

abbrev mod_key : Modifiers
mod_key = record { logo = true; shift = false; others = 0 }

abbrev mod_s : Modifiers
mod_s = record { logo = true; shift = true; others = 0 }

abbrev plain : Modifiers
plain = record { logo = false; shift = false; others = 0 }

-- The loop over `ws_keys`, `n` of them from `i` on.
workspace_binds : ℕ → ℕ → List Keybind
workspace_binds zero i = []
workspace_binds (suc n) i =
    bind mod_key (digit i) (switch_workspace i)
    ∷ bind mod_s (digit i) (move_to_workspace i)
    ∷ workspace_binds n (suc i)

-- `kum_keybind_setup_defaults`
unfoldable pub default_binds : List Keybind
unfolding workspace_binds
default_binds =
    bind mod_key key_q quit
    ∷ bind mod_key tab cycle_focus
    ∷ bind mod_s key_c close_focused
    ∷ bind mod_key key_t toggle_layout
    ∷ bind mod_key space toggle_floating
    ∷ workspace_binds 9 0

-- `kum_keybind_setup_extended`
unfoldable pub extended_binds : List Keybind
extended_binds =
    bind mod_key left focus_left
    ∷ bind mod_key right focus_right
    ∷ bind mod_key up focus_up
    ∷ bind mod_key down focus_down
    ∷ bind mod_s key_f toggle_fullscreen
    ∷ bind mod_key grave scratchpad
    ∷ bind mod_key key_m layout_monocle
    ∷ []

-- `kum_keybind_setup_session`
unfoldable pub session_binds : List Keybind
session_binds =
    bind mod_key key_k kb_layout_next
    ∷ bind mod_key enter swap_master
    ∷ bind mod_s right resize_right
    ∷ bind mod_s left resize_left
    ∷ bind mod_s down resize_down
    ∷ bind mod_s up resize_up
    ∷ bind mod_key print_screen screenshot
    ∷ bind mod_s print_screen screenshot_region
    ∷ bind mod_s key_q shutdown
    ∷ bind mod_s key_l lock
    ∷ bind plain raise_volume volume_up
    ∷ bind plain lower_volume volume_down
    ∷ bind plain mute volume_mute
    ∷ bind plain brightness_up backlight_up
    ∷ bind plain brightness_down backlight_down
    ∷ []

-- The bindings after the three setups of `server_setup_input`.
unfoldable pub keybinds : List Keybind
unfolding register_all default_binds extended_binds session_binds
keybinds = register_all session_binds (register_all extended_binds (register_all default_binds []))

unfoldable pub same_keys : Modifiers → Key → Keybind → Bool
unfolding Key-discrete Modifiers-discrete
same_keys m k kb = decide (Modifiers-discrete kb.modifiers m) && decide (Key-discrete kb.sym k)

-- The action that `kum_keybind_handle` runs, if any.
unfoldable pub find_action : Modifiers → Key → List Keybind → Option Action
find_action m k [] = none
find_action m k (kb ∷ kbs) = if same_keys m k kb then some kb.action else find_action m k kbs
