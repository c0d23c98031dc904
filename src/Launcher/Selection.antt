-- ===== src/Launcher/Selection.antt =====
-- What the keys and the pointer of kumlauncher/src/main.c keep: the selection stays on the list, so
-- that a launch reads a program that is there, and the query stays in its buffer.
pub mod Events
use mathlib.Core.Path.{subst}
use native.Mathlib.Decide.{dec_lt}
use kum_de.Base.{
  ap, ◌∙◌, refl, ℕ, ◌+◌, ◌-◌, ◌/◌, ◌<◌, ◌≤◌, ◌≡◌, ◌⊎◌, inl, inr, Bool, true, false, not, ◌&&◌, List,
  [], ◌∷◌, ◌++◌, Option, none, some, length, take, get_elem?, ltb, if◌then◌else◌, arith, Bool-cases,
  Option-cases, All-get_elem?, sym, length-append, length-take-le, All,
}
use kum_de.Base.Int.{
  ℤ, pos, negsuc, pos_part, neg_part, ltb_ℤ, eqb_ℤ, ◌≤ℤ◌, ◌+ℤ◌, ◌-ℤ◌, +ℤ_parts, -ℤ_parts,
  eq_of_parts,
}
use kum_de.Launcher.{
  Entry, App, Key, Event, escape, return_key, back_space, up, down, page_up, page_down, typed, key,
  entered, moved, clicked, scrolled, visible_rows, max_query, row_units, search_entries,
  filter_entries, elem_at, launch_selected, scroll_down, select_up, select_down, select_page_up,
  select_page_down, handle_key, row_at, ptr_motion, ptr_button, ptr_axis, handle_event,
  handle_events,
}
use kum_de.Launcher.Filter.{Shows, matches, search_entries-Shows}
use kum_de.Text.{Bytes}

-- With no match the selection is 0, or -1 behind a press of Page Down; else it is an index of the
-- list, and one of the rows that are visible.
abbrev pub Page : ℕ → ℤ → ℤ → Type 0
Page n selected scroll =
    ((n ≡ 0) × (scroll ≡ pos 0) × ((selected ≡ pos 0) ⊎ (selected ≡ negsuc 0)))
    ⊎ ((pos 0 ≤ℤ scroll)
        × (scroll ≤ℤ selected)
        × (ltb_ℤ selected (scroll +ℤ pos visible_rows) ≡ true)
        × (ltb_ℤ selected (pos n) ≡ true))

Page-up :
    (n : ℕ) (selected scroll : ℤ)
    → Page n selected scroll
    → ltb_ℤ (pos 0) selected ≡ true
    → Page n
        (selected -ℤ pos 1)
        (if ltb_ℤ (selected -ℤ pos 1) scroll then selected -ℤ pos 1 else scroll)
Page-up n selected scroll (inl q) h = absurd (ground (arith, q))
Page-up n selected scroll (inr q) h =
    let less = -ℤ_parts selected (pos 1) in
    let page = +ℤ_parts scroll (pos visible_rows) in
    let page2 = +ℤ_parts (selected -ℤ pos 1) (pos visible_rows) in
    inr (ground (arith, less, page, page2, q))

Page-scroll_down :
    (n : ℕ) (selected scroll : ℤ)
    → pos 0 ≤ℤ scroll
    → scroll ≤ℤ selected
    → ltb_ℤ selected (pos n) ≡ true
    → Page n selected (scroll_down selected scroll)
unfolding scroll_down
Page-scroll_down n selected scroll a b c =
    let page = +ℤ_parts scroll (pos visible_rows) in
    let back = -ℤ_parts selected (pos visible_rows) in
    let next = +ℤ_parts (selected -ℤ pos visible_rows) (pos 1) in
    let page2 = +ℤ_parts (selected -ℤ pos visible_rows +ℤ pos 1) (pos visible_rows) in
    inr (ground (arith, page, back, next, page2))

-- The list is the one of the query, the query leaves room for its terminator, and the selection is on
-- the list.
pub record Sound (a : App) : Type 0 where
  pub current : a.filtered ≡ search_entries a.query a.entries
  pub room : length a.query < max_query - 1
  pub page : Page (length a.filtered) a.selected a.scroll

select-Sound :
    (a : App) (selected scroll : ℤ)
    → Sound a
    → Page (length a.filtered) selected scroll
    → Sound (record a { selected = selected; scroll = scroll })
select-Sound a selected scroll h p = record { current = h.current; room = h.room; page = p }

Page-first : (n : ℕ) → Page n (pos 0) (pos 0)
Page-first n =
    let page = +ℤ_parts (pos 0) (pos visible_rows) in
    elim (dec_lt 0 n) [ yes l ↦ inr (ground (arith, page)) | no l ↦ inl (ground arith) ]

pub filter_entries-Sound : (a : App) → length a.query < max_query - 1 → Sound (filter_entries a)
unfolding filter_entries
filter_entries-Sound a r = record {
  current = refl;
  room = r;
  page = Page-first (length (search_entries a.query a.entries));
}

pub select_up-Sound : (a : App) → Sound a → Sound (select_up a)
unfolding select_up
select_up-Sound a h = go _ refl
  where
    go :
        (b : Bool)
        → ltb_ℤ (pos 0) a.selected ≡ b
        → Sound (
            if b
            then record a {
              selected = a.selected -ℤ pos 1;
              scroll =
                  if ltb_ℤ (a.selected -ℤ pos 1) a.scroll then a.selected -ℤ pos 1 else a.scroll;
            }
            else a)
    go true e = select-Sound a _ _ h (Page-up _ _ _ h.page e)
    go false e = h

pub select_down-Sound : (a : App) → Sound a → Sound (select_down a)
unfolding select_down
select_down-Sound a h = go _ refl
  where
    ahead :
        ltb_ℤ a.selected (pos (length a.filtered) -ℤ pos 1) ≡ true
        → Page
            (length a.filtered)
            (a.selected +ℤ pos 1)
            (scroll_down (a.selected +ℤ pos 1) a.scroll)
    ahead e = elim h.page [
      | inl q ↦
          let last = -ℤ_parts (pos (length a.filtered)) (pos 1) in absurd (ground (arith, last, q))
      | inr q ↦
          let last = -ℤ_parts (pos (length a.filtered)) (pos 1) in
          let next = +ℤ_parts a.selected (pos 1) in
          Page-scroll_down _ _ _ q.0 (omega (arith, next, q)) (ground (arith, last, next, q))
    ]

    go :
        (b : Bool)
        → ltb_ℤ a.selected (pos (length a.filtered) -ℤ pos 1) ≡ b
        → Sound (
            if b
            then record a {
              selected = a.selected +ℤ pos 1;
              scroll = scroll_down (a.selected +ℤ pos 1) a.scroll;
            }
            else a)
    go true e = select-Sound a _ _ h (ahead e)
    go false e = h

Page-back :
    (n : ℕ) (selected scroll reached : ℤ)
    → Page n selected scroll
    → pos 0 ≤ℤ reached
    → (reached ≡ pos 0) ⊎ (reached ≤ℤ selected)
    → Page n reached (if ltb_ℤ reached scroll then reached else scroll)
Page-back n selected scroll reached (inl q) a b =
    let first = eq_of_parts reached (pos 0) in inl (ground (arith, q, first))
Page-back n selected scroll reached (inr q) a b =
    let page = +ℤ_parts scroll (pos visible_rows) in
    let page2 = +ℤ_parts reached (pos visible_rows) in inr (ground (arith, page, page2, q))

pub select_page_up-Sound : (a : App) → Sound a → Sound (select_page_up a)
unfolding select_page_up
select_page_up-Sound a h =
    let back = -ℤ_parts a.selected (pos visible_rows) in
    select-Sound a _ _ h
      (Page-back _ a.selected _ _ h.page (ground (arith, back)) (ground (arith, back)))

-- The page behind a press of Page Down on an empty list.
Page-ahead_empty :
    (selected : ℤ)
    → (selected ≡ pos 0) ⊎ (selected ≡ negsuc 0)
    → Page 0 (pos 0 -ℤ pos 1) (scroll_down (pos 0 -ℤ pos 1) (pos 0))
unfolding scroll_down ◌-ℤ◌ ◌+ℤ◌
Page-ahead_empty selected c = inl (refl, refl, inr refl)

-- Page Down on a list that is not empty; on an empty one it leaves the selection at -1.
pub select_page_down-Sound : (a : App) → Sound a → Sound (select_page_down a)
unfolding select_page_down
select_page_down-Sound a h = select-Sound a _ _ h (go _ refl h.page)
  where
    ahead : ℤ
    ahead = a.selected +ℤ pos visible_rows

    last : ℤ
    last = pos (length a.filtered) -ℤ pos 1

    go :
        (selected : ℤ)
        → selected ≡ (
            if ltb_ℤ (a.selected +ℤ pos visible_rows) (pos (length a.filtered))
            then a.selected +ℤ pos visible_rows
            else pos (length a.filtered) -ℤ pos 1)
        → Page (length a.filtered) a.selected a.scroll
        → Page (length a.filtered) selected (scroll_down selected a.scroll)
    go selected e (inl q) =
        let next = +ℤ_parts a.selected (pos visible_rows) in
        let end = -ℤ_parts (pos (length a.filtered)) (pos 1) in
        let last_one : selected ≡ pos 0 -ℤ pos 1 = ground (arith, q, e, next, end) in
        rw (q.0, q.1, last_one) (Page-ahead_empty a.selected q.2)
    go selected e (inr q) =
        let next = +ℤ_parts a.selected (pos visible_rows) in
        let end = -ℤ_parts (pos (length a.filtered)) (pos 1) in
        Page-scroll_down _ _ _ q.0 (ground (arith, next, end, q, e))
          (ground (arith, next, end, q, e))

elem_at-some :
    {P : ℕ → Type 0} (xs : List ℕ) (i : ℤ)
    → pos 0 ≤ℤ i
    → ltb_ℤ i (pos (length xs)) ≡ true
    → All P xs
    → (k x : ℕ) × (i ≡ pos k) × (get_elem? xs k ≡ some x) × P x
elem_at-some {P} xs (pos i) a b p =
    let (x, at, fine) = All-get_elem? P xs i (ground arith) p in (i, x, refl, at, fine)
elem_at-some xs (negsuc i) a b p = absurd (omega arith)

-- What a launch does with place `k` of the list, which is that of entry `i`.
abbrev pub Launches : App → Type 0
Launches a =
    (k i : ℕ) × (e : Entry) × (a.selected ≡ pos k)
    × (get_elem? a.filtered k ≡ some i)
    × (get_elem? a.entries i ≡ some e)
    × (launch_selected a ≡ some (record a { launched = e.exec ∷ a.launched; running = false }))
    × (matches a.query e ≡ true)

-- From a state whose list is that of its query, with the selection on the list, and when the list is
-- not empty: the selection is a place of the list, that place has the index of an entry whose name
-- contains the query, up to a NUL in it and without regard to case, and a launch starts the command of
-- that entry and ends the launcher.
pub launch_selected-Launches : (a : App) → Sound a → 0 < length a.filtered → Launches a
unfolding launch_selected
launch_selected-Launches a h l = elim h.page [
  | inl q ↦ absurd (omega (arith, q))
  | inr q ↦
      let shown =
        subst (All (Shows (matches a.query) a.entries)) (sym h.current)
          (search_entries-Shows a.query a.entries) in
      let (k, i, here, at, (e, found, fine)) =
        elem_at-some a.filtered a.selected (omega (arith, q)) q.3 shown in
      let read : elem_at a.filtered a.selected ≡ some i = ap (elem_at a.filtered) here ∙ at in
      (k, i, e, here, at, found, ground (arith, read, found), fine)
]

pub launch_selected-Sound : (a : App) → Sound a → (b : App) × (launch_selected a ≡ some b) × Sound b
unfolding launch_selected
launch_selected-Sound a h = elim (dec_lt 0 (length a.filtered)) [
  | yes l ↦
      let (k, i, e, here, at, found, same, _) = launch_selected-Launches a h l in
      (_, same, record { current = h.current; room = h.room; page = h.page })
  | no l ↦ (a, ground arith, h)
]
