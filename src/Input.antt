-- ===== src/Input.antt =====
-- src/input.c: keys, the motion of the cursor and its buttons. What `kum_scene_node_at` finds under
-- the cursor comes with the event, as does where wlroots moves the cursor, in whole pixels; what goes
-- to the seat and the pictures of borders are not state of the model.
pub mod Drag
use kum_de.Base.{
  ℕ, ◌+◌, Bool, true, false, not, ◌&&◌, ◌||◌, List, [], ◌∷◌, ◌++◌, Option, none, some, map, find?,
  ltb, ◌==◌, if◌then◌else◌,
}
use kum_de.Base.Int.{ℤ, pos, ltb_ℤ, ◌+ℤ◌, ◌-ℤ◌}
use kum_de.Actions.{Effect, World, kum_keybind_handle}
use kum_de.Focus.{kum_focus_toplevel}
use kum_de.Keybind.{Key, Modifiers}
use kum_de.Server.{Floats, Server, Box, Edges, Toplevel, no_edges, find_toplevel}
use kum_de.Text.{Bytes, codes}
use kum_de.Toplevel.{with_toplevel, kum_toplevel_begin_interactive}

abbrev pub is_none : Edges → Bool
is_none e = not (e.top || e.bottom || e.left || e.right)

abbrev pub name_of : Bool → Bool → Bool → Bool → Bytes
name_of true false false false = codes "n-resize"
name_of false true false false = codes "s-resize"
name_of false false true false = codes "w-resize"
name_of false false false true = codes "e-resize"
name_of true false true false = codes "nw-resize"
name_of true false false true = codes "ne-resize"
name_of false true true false = codes "sw-resize"
name_of false true false true = codes "se-resize"
name_of _ _ _ _ = codes "default"

abbrev pub cursor_name_for_edges : Edges → Bytes
cursor_name_for_edges e = name_of e.top e.bottom e.left e.right

abbrev pub edge_px : ℤ
edge_px = pos 8

-- `edges_at_point_wh`, for a window at `nx` and `ny`
unfoldable pub edges_at_point_wh : ℤ → ℤ → ℤ → ℤ → ℤ → ℤ → Edges
edges_at_point_wh nx ny lx ly w h =
    let rx = lx -ℤ nx in
    let ry = ly -ℤ ny in
    let left = ltb_ℤ rx edge_px in
    let top = ltb_ℤ ry edge_px in
    record {
      left = left;
      right = not left && ltb_ℤ (w -ℤ edge_px) rx;
      top = top;
      bottom = not top && ltb_ℤ (h -ℤ edge_px) ry;
    }

unfoldable pub edges_at_point : Toplevel → ℤ → ℤ → Edges
unfolding edges_at_point_wh
edges_at_point t lx ly =
    edges_at_point_wh t.node_x t.node_y lx ly t.geometry.width t.geometry.height

abbrev pub min_w : ℤ
min_w = pos 120

abbrev pub min_h : ℤ
min_h = pos 80

abbrev pub at_least : ℤ → ℤ → ℤ
at_least low n = if ltb_ℤ n low then low else n

-- The box of a window that is resized at `edges`, when the cursor has moved by `dx` and `dy`.
unfoldable pub resized : Edges → ℤ → ℤ → Box → Box
resized e dx dy g = record {
  x = if e.left then g.x +ℤ dx else g.x;
  y = if e.top then g.y +ℤ dy else g.y;
  width =
      at_least min_w (if e.left then g.width -ℤ dx else if e.right then g.width +ℤ dx else g.width);
  height =
      at_least min_h
        (if e.top then g.height -ℤ dy else if e.bottom then g.height +ℤ dy else g.height);
}

-- A window that is grabbed, when the cursor is at `cx` and `cy`.
unfoldable pub dragged : ℤ → ℤ → Toplevel → Toplevel
unfolding resized
dragged cx cy t =
    let dx = cx -ℤ t.grab_x in
    let dy = cy -ℤ t.grab_y in
    let b = resized t.resize_edges dx dy t.grab_geobox in
    if is_none t.resize_edges
    then record t { node_x = t.grab_geobox.x +ℤ dx; node_y = t.grab_geobox.y +ℤ dy }
    else record t { node_x = b.x; node_y = b.y; asked_width = b.width; asked_height = b.height }

abbrev pub is_focus : Option ℕ → ℕ → Bool
is_focus none k = false
is_focus (some i) k = i == k

-- The buttons that the code tells apart.
pub data Button : Type 0 where
  btn_left btn_right btn_other : Button

module _ {F : Floats} where
  -- Nothing is grabbed: the window under the cursor may take the focus.
  unfoldable pub hover : Bool → Option ℕ → Server F → Server F × Bytes
  unfolding edges_at_point
  hover follows none s = (s, codes "default")
  hover follows (some k) s =
      let name : Bytes = elim (find_toplevel k s.toplevels) [
        | none ↦ codes "default"
        | some t ↦ cursor_name_for_edges (edges_at_point t s.cursor_x s.cursor_y)
      ] in
      (if follows && not (is_focus s.focused k) then kum_focus_toplevel k s else s, name)

  -- `process_cursor_motion`: the server, and the name of the cursor's picture. `follows` is
  -- `cfg.focus_follows_mouse`.
  unfoldable pub process_cursor_motion : Bool → Option ℕ → Server F → Server F × Bytes
  unfolding hover dragged
  process_cursor_motion follows under s = elim (find? (λ t. t.grabbed) s.toplevels) [
    | none ↦ hover follows under s
    | some t ↦ (
      with_toplevel t.id (dragged s.cursor_x s.cursor_y) s,
      if is_none t.resize_edges then codes "grabbing" else cursor_name_for_edges t.resize_edges,
    )
  ]

  -- `kum_cursor_motion` and `kum_cursor_motion_absolute`: wlroots moves the cursor to `x` and `y`, over
  -- the output `o`.
  unfoldable pub kum_cursor_motion :
      Bool → ℤ → ℤ → Option ℕ → Option ℕ → Server F → Server F × Bytes
  unfolding process_cursor_motion
  kum_cursor_motion follows x y o under s =
      process_cursor_motion follows under
        (record s { cursor_x = x; cursor_y = y; cursor_output = o })

  -- The release of a button.
  unfoldable pub release : Server F → Server F
  release s = record s {
    toplevels = map {A = Toplevel} (λ t. record t { grabbed = false }) s.toplevels;
  }

  -- A press of the left button at an edge of the window.
  unfoldable pub press_edge : ℕ → Server F → Option (Server F)
  unfolding edges_at_point
  press_edge k s = elim (find_toplevel k s.toplevels) [
    | none ↦ some s
    | some t ↦
        let e = edges_at_point t s.cursor_x s.cursor_y in
        if is_none e then some s else kum_toplevel_begin_interactive k e s
  ]

  -- A press over window `k`, which has the focus by now.
  unfoldable pub press : Button → Bool → ℕ → Server F → Option (Server F)
  unfolding press_edge
  press btn_other mod_held k s = some s
  press btn_left mod_held k s =
      if mod_held then kum_toplevel_begin_interactive k no_edges s else press_edge k s
  press btn_right mod_held k s =
      if mod_held
      then kum_toplevel_begin_interactive k
          (record { top = false; bottom = true; left = false; right = true }) s
      else some s

  -- `kum_cursor_button`; `mod_held` says that the modifiers are `KUM_MOD_KEY`.
  unfoldable pub kum_cursor_button : Bool → Button → Bool → Option ℕ → Server F → Option (Server F)
  unfolding release press
  kum_cursor_button true button mod_held under s = some (release s)
  kum_cursor_button false button mod_held none s = some s
  kum_cursor_button false button mod_held (some k) s =
      press button mod_held k (kum_focus_toplevel k s)

  -- The loop over the symbols of a key: whether a binding was found, and what the bindings did.
  unfoldable pub handle_syms :
      World → Modifiers → List Key → Server F → Option (Server F × List Effect × Bool)
  handle_syms w m [] s = some (s, [], false)
  handle_syms w m (k ∷ ks) s = elim (kum_keybind_handle w m k s) [
    | none ↦ none
    | some (t, es, found) ↦ elim (handle_syms w m ks t) [
      | none ↦ none
      | some (u, fs, later) ↦ some (u, es ++ fs, found || later)
    ]
  ]

  -- `keyboard_key`: the last component says that the key was handled, else the seat gets it.
  unfoldable pub keyboard_key :
      World → Modifiers → List Key → Bool → Server F → Option (Server F × List Effect × Bool)
  unfolding handle_syms
  keyboard_key w m syms pressed s =
      if not s.locked && pressed then handle_syms w m syms s else some (s, [], false)
