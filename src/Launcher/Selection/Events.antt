-- ===== src/Launcher/Selection/Events.antt =====
-- The events of kumlauncher/src/main.c, one after another.
use kum_de.Base.{
  refl, ℕ, ◌+◌, ◌-◌, ◌/◌, ◌<◌, ◌≤◌, ◌≡◌, inl, inr, Bool, true, false, not, ◌&&◌, List, [], ◌∷◌,
  ◌++◌, Option, none, some, length, take, ltb, leb, All, if◌then◌else◌, arith, Bool-cases,
  Option-cases, length-append, length-take-le,
}
use kum_de.Base.Int.{ℤ, pos, pos_part, ltb_ℤ, eqb_ℤ, ◌+ℤ◌, +ℤ_parts}
use kum_de.Launcher.{
  App, Key, Event, escape, return_key, back_space, up, down, page_up, page_down, typed, key,
  entered, moved, clicked, scrolled, visible_rows, max_query, row_units, select_up, select_down,
  handle_key, row_at, ptr_motion, ptr_button, ptr_axis, handle_event, handle_events,
}
use kum_de.Launcher.Selection.{
  Page, Sound, filter_entries-Sound, select_up-Sound, select_down-Sound, select_page_up-Sound,
  select_page_down-Sound, launch_selected-Sound,
}

-- The text of the key fits into the buffer that it is copied from.
abbrev pub Within : Event → Type 0
Within (key (typed len buf)) = len ≤ length buf
Within _ = Unit

handle_key-Sound :
    (k : Key) (a : App) → Within (key k) → Sound a → (b : App) × (handle_key k a ≡ some b) × Sound b
unfolding handle_key
handle_key-Sound escape a w h =
    (_, refl, record { current = h.current; room = h.room; page = h.page })
handle_key-Sound return_key a w h = launch_selected-Sound a h
handle_key-Sound back_space a w h = elim (Bool-cases (ltb 0 (length a.query))) [
  | inl b ↦
      let shorter = length-take-le (length a.query - 1) a.query in
      let room = h.room in
      (
        _,
        rw b,
        filter_entries-Sound (record a { query = take (length a.query - 1) a.query })
            (omega (arith, shorter, room)),
      )
  | inr b ↦ (a, rw b, h)
]
handle_key-Sound up a w h = (_, refl, select_up-Sound a h)
handle_key-Sound down a w h = (_, refl, select_down-Sound a h)
handle_key-Sound page_up a w h = (_, refl, select_page_up-Sound a h)
handle_key-Sound page_down a w h = (_, refl, select_page_down-Sound a h)
handle_key-Sound (typed len buf) a w h =
    elim (Bool-cases (ltb 0 len && ltb (length a.query + len) (max_query - 1))) [
      | inl b ↦
          let sum = length-append a.query (take len buf) in
          let short = length-take-le len buf in
          let whole : leb len (length buf) ≡ true = ground (arith, w) in
          (
            _,
            rw (b, whole),
            filter_entries-Sound (record a { query = a.query ++ take len buf })
                (ground (arith, sum, short)),
          )
      | inr b ↦ (a, rw b, h)
    ]

-- A row that the pointer is over is one of the rows that are visible.
row_at-Page :
    (a : App) {idx : ℤ} → Sound a → row_at a ≡ some idx → Page (length a.filtered) idx a.scroll
unfolding row_at
row_at-Page a {idx} h e =
    let row = (pos_part a.pointer_y - row_units) / row_units in
    let count = length a.filtered in
    let rows = if ltb count visible_rows then count else visible_rows in
    go row rows (ground arith) (ground arith) h.page
  where
    go :
        (row rows : ℕ)
        → rows ≤ visible_rows
        → (row < rows) × (idx ≡ a.scroll +ℤ pos row) × (ltb_ℤ idx (pos (length a.filtered)) ≡ true)
        → Page (length a.filtered) a.selected a.scroll
        → Page (length a.filtered) idx a.scroll
    go row rows l q (inl p) =
        let sum = +ℤ_parts a.scroll (pos row) in absurd (ground (arith, sum, p, q))
    go row rows l q (inr p) =
        let sum = +ℤ_parts a.scroll (pos row) in
        let page = +ℤ_parts a.scroll (pos visible_rows) in inr (ground (arith, sum, page, p, q))

over_row-Sound :
    (a : App) (idx : ℤ) → Sound a → row_at a ≡ some idx → Sound (record a { selected = idx })
over_row-Sound a idx h e = record { current = h.current; room = h.room; page = row_at-Page a h e }

ptr_motion-Sound : (y : ℤ) (a : App) → Sound a → Sound (ptr_motion y a)
unfolding ptr_motion
ptr_motion-Sound y a h = go (row_at b) refl
  where
    b : App
    b = record a { pointer_y = y }

    kept : Sound b
    kept = record { current = h.current; room = h.room; page = h.page }

    branch :
        (idx : ℤ) (t : Bool)
        → row_at b ≡ some idx
        → Sound (if t then record b { selected = idx } else b)
    branch idx true e = over_row-Sound b idx kept e
    branch idx false e = kept

    go :
        (o : Option ℤ)
        → row_at b ≡ o
        → Sound (elim o [
          | none ↦ b
          | some idx ↦
              if not (ltb_ℤ idx (pos 0)) && not (eqb_ℤ idx b.selected)
              then record b { selected = idx }
              else b
        ])
    go none e = kept
    go (some idx) e = branch idx _ e

ptr_button-Sound : (a : App) → Sound a → (b : App) × (ptr_button a ≡ some b) × Sound b
unfolding ptr_button
ptr_button-Sound a h = elim (Option-cases (row_at a)) [
  | inl e ↦ (a, rw (ptr_button, e), h)
  | inr (idx, e) ↦ elim (Bool-cases (ltb_ℤ idx (pos 0))) [
    | inl b ↦ (a, rw (ptr_button, e, b), h)
    | inr b ↦
        let (c, same, kept) =
          launch_selected-Sound (record a { selected = idx }) (over_row-Sound a idx h e) in
        (c, rw (ptr_button, e, b) same, kept)
  ]
]

ptr_axis-Sound : (value : ℤ) (a : App) → Sound a → Sound (ptr_axis value a)
unfolding ptr_axis
ptr_axis-Sound value a h = go _ _
  where
    go : (b c : Bool) → Sound (if b then select_down a else if c then select_up a else a)
    go true c = select_down-Sound a h
    go false true = select_up-Sound a h
    go false false = h

handle_event-Sound :
    (e : Event) (a : App) → Within e → Sound a → (b : App) × (handle_event e a ≡ some b) × Sound b
unfolding handle_event
handle_event-Sound (key k) a w h = handle_key-Sound k a w h
handle_event-Sound (entered y) a w h =
    (_, refl, record { current = h.current; room = h.room; page = h.page })
handle_event-Sound (moved y) a w h = (_, refl, ptr_motion-Sound y a h)
handle_event-Sound clicked a w h = ptr_button-Sound a h
handle_event-Sound (scrolled value) a w h = (_, refl, ptr_axis-Sound value a h)

-- From a state whose list is that of its query, with room in the query and the selection on the list,
-- every sequence of keys and pointer events is handled without a read out of bounds and ends in such
-- a state, if the text of each typed key fits into the eight bytes that it is read into.
pub handle_events-Sound :
    (es : List Event) (a : App)
    → All Within es
    → Sound a
    → (b : App) × (handle_events es a ≡ some b) × Sound b
unfolding handle_events
handle_events-Sound [] a w h = (a, refl, h)
handle_events-Sound (e ∷ es) a w h =
    let (b, first, kept) = handle_event-Sound e a w.0 h in
    let (c, rest, done) = handle_events-Sound es b w.1 kept in
    (c, rw (handle_events, first) rest, done)
