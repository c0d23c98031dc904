-- ===== src/Server.antt =====
-- include/kumde.h: the compositor's state, without XWayland (the build that leaves KUM_XWAYLAND
-- undefined). Pointers to outputs and windows are their identities; a `wl_list` is a list, head
-- first. A field of the scene graph or of the seat holds what the code last handed to wlroots.
use kum_de.Base.{
  ℕ, zero, suc, Bool, true, false, List, [], ◌∷◌, Option, none, some, find?, ◌==◌, if◌then◌else◌,
}
use kum_de.Base.Int.{ℤ}
use kum_de.Text.{Bytes}
use native.Mathlib.Decide.{ℕ_discrete}

-- C's `float` where the master pane's share of the width is kept: `share r w` is `(int)(w * r)`,
-- `step r dw` is `r + (float)dw / 2000.0f`.
pub record Floats : Type 1 where
  pub Real : Type 0
  pub share : Real → ℤ → ℤ
  pub step : Real → ℤ → Real
  pub less : Real → Real → Bool
  pub low : Real
  pub high : Real

abbrev pub workspace_count : ℕ
workspace_count = 9

pub data LayoutMode : Type 0 where
  floating tile monocle : LayoutMode

abbrev pub is_floating : LayoutMode → Bool
is_floating floating = true
is_floating _ = false

abbrev pub is_tile : LayoutMode → Bool
is_tile tile = true
is_tile _ = false

-- `struct wlr_box`
pub record Box : Type 0 where
  pub x : ℤ
  pub y : ℤ
  pub width : ℤ
  pub height : ℤ

-- Whose `wl_surface` the seat's keyboard focus is on.
pub data Surface : Type 0 where
  window layer_surface lock_surface : ℕ → Surface

pub Surface-discrete : Discrete Surface
Surface-discrete = hlevel ℕ_discrete

abbrev pub is_window : Option Surface → ℕ → Bool
is_window (some (window i)) k = i == k
is_window _ k = false

-- `kum_anim_type`; the curves and the clock are not part of the server's state here.
pub data AnimType : Type 0 where
  anim_none opening closing focusing : AnimType

-- `enum wlr_edges`, a set of bits.
pub record Edges : Type 0 where
  pub top : Bool
  pub bottom : Bool
  pub left : Bool
  pub right : Bool

abbrev pub no_edges : Edges
no_edges = record { top = false; bottom = false; left = false; right = false }

-- `struct kum_rule`
pub record Rule : Type 0 where
  pub app_id : Bytes
  pub title : Bytes
  pub workspace : ℤ
  pub floating : Bool
  pub fullscreen : Bool
  pub w : ℤ
  pub h : ℤ
  pub x : ℤ
  pub y : ℤ

-- `struct kum_toplevel`, with what the code reads of its surface.
pub record Toplevel : Type 0 where
  pub id : ℕ
  pub workspace : ℕ
  pub mapped : Bool
  pub floating : Bool
  pub focus_serial : ℕ
  pub activated : Bool
  pub anim : AnimType
  pub node_enabled : Bool  -- as the handlers set it; `tick_animations` writes it too, for a time
  pub node_x : ℤ
  pub node_y : ℤ
  pub asked_width : ℤ
  pub asked_height : ℤ
  pub geometry : Box
  pub saved_geom : Box
  pub fullscreen : Bool  -- `xdg_toplevel->current.fullscreen`
  pub asked_fullscreen : Bool
  pub asked_maximized : Bool
  pub grabbed : Bool
  pub resize_edges : Edges
  pub grab_x : ℤ
  pub grab_y : ℤ
  pub grab_geobox : Box
  pub app_id : Bytes
  pub title : Bytes

-- `struct kum_workspace`; `toplevels` runs through `workspace_link`.
pub record Workspace : Type 0 where
  pub layout : LayoutMode
  pub toplevels : List ℕ
  pub enabled : Bool

-- `struct kum_output`
pub record Output : Type 0 where
  pub id : ℕ
  pub name : Bytes
  pub usable_area : Box
  pub active_workspace : ℕ
  pub previous_workspace : ℕ

-- `struct kum_layer_surface`, with what the code reads of its wlroots surface: `interactive` says that
-- it asks for the keyboard, `layout_changed` that the commit touched one of `LAYOUT_BITS`.
pub record LayerSurface : Type 0 where
  pub id : ℕ
  pub output : Option ℕ
  pub layer : ℕ
  pub mapped : Bool
  pub initial_commit : Bool
  pub interactive : Bool
  pub layout_changed : Bool

-- What is broadcast to the clients of the IPC socket.
pub data Broadcast : Type 0 where
  workspace_event : Bytes → ℕ → Broadcast
  title_event : Bytes → Bytes → Broadcast
  occupancy_event : List Bool → Broadcast
  layout_event : Bytes → Broadcast

-- `struct kum_server`. `cursor_output` is the output that the layout has at the cursor.
pub record Server (F : Floats) : Type 0 where
  pub outputs : List Output
  pub toplevels : List Toplevel
  pub workspaces : List Workspace
  pub focused : Option ℕ
  pub seat_focus : Option Surface
  pub has_keyboard : Bool
  pub locked : Bool
  pub cursor_output : Option ℕ
  pub next_focus_serial : ℕ
  pub scratchpad_ws : ℕ
  pub gap : ℤ
  pub master_ratio : F.Real
  pub animations : Bool
  pub rules : List Rule
  pub layouts : List Bytes  -- `split_layouts` of src/kblayout.c
  pub layout_current : ℕ
  pub keymap_layout : Option Bytes  -- the last layout handed to every keyboard
  pub layer_surfaces : List LayerSurface
  pub cursor_x : ℤ  -- `(int)server->cursor->x`
  pub cursor_y : ℤ
  pub active_lock : Option ℕ
  pub lock_rects : List Box  -- the black rectangles under `lock_tree`
  pub lock_surfaces : List ℕ  -- the lock surfaces' trees under `lock_tree`
  pub z_order : List ℕ  -- topmost first
  pub sent : List Broadcast  -- newest first

-- Pointers: reading and writing through an identity.
abbrev pub find_output : ℕ → List Output → Option Output
find_output k os = find? (λ o. o.id == k) os

unfoldable pub update_output : ℕ → (Output → Output) → List Output → List Output
update_output k f [] = []
update_output k f (o ∷ os) = (if o.id == k then f o else o) ∷ update_output k f os

abbrev pub find_toplevel : ℕ → List Toplevel → Option Toplevel
find_toplevel k ts = find? (λ t. t.id == k) ts

unfoldable pub update_toplevel : ℕ → (Toplevel → Toplevel) → List Toplevel → List Toplevel
update_toplevel k f [] = []
update_toplevel k f (t ∷ ts) = (if t.id == k then f t else t) ∷ update_toplevel k f ts

-- `server->workspaces[i]`; every index that the code uses is below `workspace_count`.
abbrev pub blank_workspace : Workspace
blank_workspace = record { layout = floating; toplevels = []; enabled = false }

unfoldable pub workspace_at : ℕ → List Workspace → Workspace
workspace_at i [] = blank_workspace
workspace_at zero (w ∷ ws) = w
workspace_at (suc i) (w ∷ ws) = workspace_at i ws

unfoldable pub update_workspace : ℕ → (Workspace → Workspace) → List Workspace → List Workspace
update_workspace i f [] = []
update_workspace zero f (w ∷ ws) = f w ∷ ws
update_workspace (suc i) f (w ∷ ws) = w ∷ update_workspace i f ws

-- `wl_list_remove` on the list of identities.
unfoldable pub remove_id : ℕ → List ℕ → List ℕ
remove_id k [] = []
remove_id k (j ∷ js) = if j == k then js else j ∷ remove_id k js

unfoldable pub remove_toplevel : ℕ → List Toplevel → List Toplevel
remove_toplevel k [] = []
remove_toplevel k (t ∷ ts) = if t.id == k then ts else t ∷ remove_toplevel k ts

module _ {F : Floats} where
  -- `wlr_scene_node_set_enabled` on a workspace's tree
  unfoldable pub set_workspace_enabled : ℕ → Bool → Server F → Server F
  set_workspace_enabled i b s = record s {
    workspaces = update_workspace i (λ w. record w { enabled = b }) s.workspaces;
  }

  abbrev pub broadcast : Broadcast → Server F → Server F
  broadcast b s = record s { sent = b ∷ s.sent }

  -- `output_for_workspace`, and `output_for_toplevel` at the window's workspace
  unfoldable pub output_for_workspace : Server F → ℕ → Option Output
  output_for_workspace s i = find? (λ o. o.active_workspace == i) s.outputs

  -- `kum_output_focused`
  unfoldable pub kum_output_focused : Server F → Option Output
  kum_output_focused s = elim s.cursor_output [ none ↦ none | some k ↦ find_output k s.outputs ]
