-- ===== src/Focus.antt =====
-- src/toplevel.c: `kum_focus_toplevel`, with the title broadcast of src/ipc.c that it makes, and
-- the loop by which other operations focus the first mapped window of a workspace.
use kum_de.Base.{
  ℕ, ◌+◌, ◌%◌, ◌^◌, Bool, true, false, List, [], ◌∷◌, Option, none, some, find?, if◌then◌else◌,
}
use kum_de.Text.{Bytes}
use kum_de.Json.{kum_json_escape}
use kum_de.Arrange.{raise}
use kum_de.Server.{
  Floats, Server, Toplevel, Surface, window, is_window, focusing, title_event, broadcast,
  find_toplevel, update_toplevel, remove_toplevel, workspace_at, output_for_workspace,
}

-- `server->next_focus_serial` is a `uint64_t`.
unfoldable pub next_serial : ℕ → ℕ
next_serial n = (n + 1) % 2 ^ 64

-- The previous holder of the focus is told, if it is a window.
unfoldable pub deactivate : Option Surface → List Toplevel → List Toplevel
deactivate (some (window j)) ts = update_toplevel j (λ t. record t { activated = false }) ts
deactivate _ ts = ts

-- `wl_list_remove`, then `wl_list_insert` at the head
unfoldable pub to_front : ℕ → List Toplevel → List Toplevel
to_front k ts = elim (find_toplevel k ts) [ none ↦ ts | some t ↦ t ∷ remove_toplevel k ts ]

abbrev pub title_of : List Toplevel → ℕ → Bytes
title_of ts k = elim (find_toplevel k ts) [ none ↦ [] | some t ↦ t.title ]

abbrev pub workspace_of : List Toplevel → ℕ → ℕ
workspace_of ts k = elim (find_toplevel k ts) [ none ↦ 0 | some t ↦ t.workspace ]

-- `title_esc` is a buffer of 350 bytes.
abbrev pub escaped_title : Bytes → Bytes
escaped_title title = elim (kum_json_escape 350 title) [ none ↦ [] | some e ↦ e ]

abbrev pub is_mapped : List Toplevel → ℕ → Bool
is_mapped ts k = elim (find_toplevel k ts) [ none ↦ false | some t ↦ t.mapped ]

module _ {F : Floats} where
  unfoldable pub kum_ipc_broadcast_window_title : ℕ → Bytes → Server F → Server F
  kum_ipc_broadcast_window_title i title s = elim (output_for_workspace s i) [
    | none ↦ s
    | some o ↦ broadcast (title_event o.name (escaped_title title)) s
  ]

  -- The part behind the early returns.
  unfoldable pub take_focus : ℕ → Server F → Server F
  unfolding next_serial deactivate to_front
  take_focus k s =
      let serial = next_serial s.next_focus_serial in
      let s' : Server F = record s {
        toplevels =
            update_toplevel k
              (λ t. record t { activated = true; anim = focusing; focus_serial = serial })
              (to_front k (deactivate s.seat_focus s.toplevels));
        z_order = raise k s.z_order;
        focused = some k;
        next_focus_serial = serial;
      } in
      let told =
        kum_ipc_broadcast_window_title (workspace_of s.toplevels k) (title_of s.toplevels k) s' in
      if s.has_keyboard then record told { seat_focus = some (window k) } else told

  -- The focus of window `k`, through its own surface.
  unfoldable pub kum_focus_toplevel : ℕ → Server F → Server F
  unfolding take_focus kum_ipc_broadcast_window_title
  kum_focus_toplevel k s =
      if s.locked then s else if is_window s.seat_focus k then s else take_focus k s

  -- The loop that ends a change of workspace.
  unfoldable pub focus_first_mapped : ℕ → Server F → Server F
  focus_first_mapped i s =
      elim (find? (is_mapped s.toplevels) (workspace_at i s.workspaces).toplevels) [
        | none ↦ s
        | some k ↦ kum_focus_toplevel k s
      ]

  -- `server->focused = NULL; wlr_seat_keyboard_clear_focus(seat);`
  abbrev pub clear_focus : Server F → Server F
  clear_focus s = record s { focused = none; seat_focus = none }
