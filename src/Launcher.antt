-- ===== src/Launcher.antt =====
-- kumlauncher/src/main.c: the state of the launcher, its search and its keys and pointer. What the
-- keyboard gives for a key is part of the event; drawing is not modelled, and the command
-- that a child process runs is a field.
pub mod Entries
pub mod Filter
pub mod Order
pub mod Selection
use kum_de.Base.{
  ℕ, ◌+◌, ◌-◌, ◌*◌, ◌/◌, Bool, true, false, not, ◌&&◌, ◌||◌, List, [], ◌∷◌, ◌++◌, Option, none,
  some, length, get_elem?, take, any, leb, ltb, ◌==◌, if◌then◌else◌,
}
use kum_de.Base.Int.{ℤ, pos, negsuc, pos_part, ltb_ℤ, eqb_ℤ, ◌+ℤ◌, ◌-ℤ◌}
use kum_de.Text.{Bytes}

pub record Entry : Type 0 where
  pub name : Bytes
  pub exec : Bytes
  pub comment : Bytes
  pub from_desktop : Bool

-- The part of `app` that the search and the events change: `filtered[0 .. filtered_count)` is a list,
-- `pointer_y` a `wl_fixed_t` in 1/256 of a pixel, and `launched` holds the commands handed to
-- `/bin/sh`, the last one first.
pub record App : Type 0 where
  pub entries : List Entry
  pub query : Bytes
  pub filtered : List ℕ
  pub selected : ℤ
  pub scroll : ℤ
  pub pointer_y : ℤ
  pub running : Bool
  pub launched : List Bytes

abbrev pub max_entries : ℕ
max_entries = 1024

abbrev pub max_query : ℕ
max_query = 128

abbrev pub item_height : ℕ
item_height = 38

abbrev pub visible_rows : ℕ
visible_rows = 10

-- `tolower` in the C locale
abbrev pub to_lower : ℕ → ℕ
to_lower c = if leb b'A' c && leb c b'Z' then c + 32 else c

-- A buffer as a C string: up to its first NUL.
unfoldable pub c_string : Bytes → Bytes
c_string [] = []
c_string (c ∷ s) = let rest = c_string s in if c == 0 then [] else c ∷ rest

-- `strncasecmp(s, prefix, n) == 0` for the `n` bytes of `prefix` and a string `s` without a NUL, which
-- has one behind it: the comparison ends at a NUL of both.
unfoldable pub begins_with : Bytes → Bytes → Bool
begins_with [] s = true
begins_with (p ∷ ps) [] = p == 0
begins_with (p ∷ ps) (c ∷ s) = to_lower p == to_lower c && begins_with ps s

-- `strcasestr(s, q) != NULL`, for strings without their NUL
unfoldable pub contains : Bytes → Bytes → Bool
unfolding begins_with
contains q [] = begins_with q []
contains q (c ∷ s) = begins_with q (c ∷ s) || contains q s

-- The loops of `filter_entries` at index `i`; `filtered` is what was appended so far.
unfoldable pub all_loop : ℕ → List Entry → List ℕ → List ℕ
all_loop i [] filtered = filtered
all_loop i (e ∷ es) filtered = all_loop (i + 1) es (filtered ++ i ∷ [])

unfoldable pub prefix_loop : Bytes → ℕ → List Entry → List ℕ → List ℕ
prefix_loop query i [] filtered = filtered
prefix_loop query i (e ∷ es) filtered =
    prefix_loop query (i + 1) es (if begins_with query e.name then filtered ++ i ∷ [] else filtered)

unfoldable pub substring_loop : Bytes → ℕ → List Entry → List ℕ → List ℕ
unfolding contains c_string
substring_loop query i [] filtered = filtered
substring_loop query i (e ∷ es) filtered =
    let already = any (λ j. j == i) filtered in
    substring_loop query (i + 1) es
      (if not already && contains (c_string query) e.name then filtered ++ i ∷ [] else filtered)

unfoldable pub search_entries : Bytes → List Entry → List ℕ
unfolding all_loop prefix_loop substring_loop
search_entries query entries =
    if length query == 0
    then all_loop 0 entries []
    else substring_loop query 0 entries (prefix_loop query 0 entries [])

unfoldable pub filter_entries : App → App
unfolding search_entries
filter_entries a = record a {
  filtered = search_entries a.query a.entries;
  selected = pos 0;
  scroll = pos 0;
}

-- A read of `app.filtered` at an `int`.
abbrev pub elem_at : List ℕ → ℤ → Option ℕ
elem_at xs (pos i) = get_elem? xs i
elem_at xs (negsuc _) = none

-- `none` is a read out of bounds.
unfoldable pub launch_selected : App → Option App
launch_selected a =
    if length a.filtered == 0 then some a else elim (elem_at a.filtered a.selected) [
      | none ↦ none
      | some i ↦ elim (get_elem? a.entries i) [
        | none ↦ none
        | some e ↦ some (record a { launched = e.exec ∷ a.launched; running = false })
      ]
    ]

-- A pressed key: the symbols that the code tests for, else what `xkb_state_key_get_utf8` answers for
-- it: the length of its text, which may be more than the buffer has, and the bytes of the buffer.
pub data Key : Type 0 where
  escape return_key back_space up down page_up page_down : Key
  typed : (len : ℕ) (buf : Bytes) → Key

unfoldable pub select_up : App → App
select_up a =
    if ltb_ℤ (pos 0) a.selected
    then (let selected = a.selected -ℤ pos 1 in
        record a {
          selected = selected;
          scroll = if ltb_ℤ selected a.scroll then selected else a.scroll;
        })
    else a

-- The scroll that keeps a selection behind it on the page.
unfoldable pub scroll_down : ℤ → ℤ → ℤ
scroll_down selected scroll =
    if ltb_ℤ selected (scroll +ℤ pos visible_rows)
    then scroll
    else selected -ℤ pos visible_rows +ℤ pos 1

unfoldable pub select_down : App → App
unfolding scroll_down
select_down a =
    if ltb_ℤ a.selected (pos (length a.filtered) -ℤ pos 1)
    then (let selected = a.selected +ℤ pos 1 in
        record a { selected = selected; scroll = scroll_down selected a.scroll })
    else a

unfoldable pub select_page_up : App → App
select_page_up a =
    let back = a.selected -ℤ pos visible_rows in
    let selected = if ltb_ℤ back (pos 0) then pos 0 else back in
    record a {
      selected = selected;
      scroll = if ltb_ℤ selected a.scroll then selected else a.scroll;
    }

unfoldable pub select_page_down : App → App
unfolding scroll_down
select_page_down a =
    let ahead = a.selected +ℤ pos visible_rows in
    let last = pos (length a.filtered) -ℤ pos 1 in
    let selected = if ltb_ℤ ahead (pos (length a.filtered)) then ahead else last in
    record a { selected = selected; scroll = scroll_down selected a.scroll }

-- `handle_key` at a key that is pressed; `none` is a read out of bounds.
unfoldable pub handle_key : Key → App → Option App
unfolding filter_entries launch_selected select_up select_down select_page_up select_page_down
handle_key escape a = some (record a { running = false })
handle_key return_key a = launch_selected a
handle_key back_space a =
    if ltb 0 (length a.query)
    then some (filter_entries (record a { query = take (length a.query - 1) a.query }))
    else some a
handle_key up a = some (select_up a)
handle_key down a = some (select_down a)
handle_key page_up a = some (select_page_up a)
handle_key page_down a = some (select_page_down a)
handle_key (typed len buf) a =
    let copied = some (filter_entries (record a { query = a.query ++ take len buf })) in
    if ltb 0 len && ltb (length a.query + len) (max_query - 1)
    then (if leb len (length buf) then copied else none)
    else some a

-- The first row starts at one height of an item, in 1/256 of a pixel.
abbrev pub row_units : ℕ
row_units = item_height * 256

-- `none` is the answer -1.
unfoldable pub row_at : App → Option ℤ
row_at a =
    let row = (pos_part a.pointer_y - row_units) / row_units in
    let idx = a.scroll +ℤ pos row in
    let count = length a.filtered in
    let rows = if ltb count visible_rows then count else visible_rows in
    if ltb_ℤ a.pointer_y (pos row_units)
    then none
    else if not (ltb_ℤ idx (pos count))
    then none
    else if leb rows row
    then none
    else some idx

unfoldable pub ptr_motion : ℤ → App → App
unfolding row_at
ptr_motion y a =
    let b : App = record a { pointer_y = y } in
    elim (row_at b) [
      | none ↦ b
      | some idx ↦
          if not (ltb_ℤ idx (pos 0)) && not (eqb_ℤ idx b.selected)
          then record b { selected = idx }
          else b
    ]

-- `ptr_button` at a press of the left button
unfoldable pub ptr_button : App → Option App
unfolding row_at launch_selected
ptr_button a = elim (row_at a) [
  | none ↦ some a
  | some idx ↦ if ltb_ℤ idx (pos 0) then some a else launch_selected (record a { selected = idx })
]

-- `ptr_axis` at the vertical axis
unfoldable pub ptr_axis : ℤ → App → App
unfolding select_up select_down
ptr_axis value a =
    if ltb_ℤ (pos 0) value && ltb_ℤ a.selected (pos (length a.filtered) -ℤ pos 1)
    then select_down a
    else if ltb_ℤ value (pos 0)
    then select_up a
    else a

pub data Event : Type 0 where
  key : Key → Event
  entered moved : ℤ → Event
  clicked : Event
  scrolled : ℤ → Event

unfoldable pub handle_event : Event → App → Option App
unfolding handle_key ptr_motion ptr_button ptr_axis
handle_event (key k) a = handle_key k a
handle_event (entered y) a = some (record a { pointer_y = y })
handle_event (moved y) a = some (ptr_motion y a)
handle_event clicked a = ptr_button a
handle_event (scrolled value) a = some (ptr_axis value a)

-- The events of one session, in order.
unfoldable pub handle_events : List Event → App → Option App
unfolding handle_event
handle_events [] a = some a
handle_events (e ∷ es) a = elim (handle_event e a) [ none ↦ none | some b ↦ handle_events es b ]
