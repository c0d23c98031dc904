-- ===== src/Notify/Stack.antt =====
-- Where kumnotify/src/main.c puts its notifications.
use kum_de.Base.{
  ℕ, zero, suc, ◌+◌, ◌<◌, ◌≤◌, ◌≡◌, refl, ap, ◌∙◌, Bool, true, false, not, List, [], ◌∷◌, none,
  some, length, if◌then◌else◌, arith, All, Bool-cases, inl, inr, ◌==◌, ltb,
}
use kum_de.Notify.{
  Notif, Board, Message, Event, received, closed, turned, notif_gap, notif_max, notif_of,
  restack_loop, restack, update, is_active, dismiss, slot_loop, next, show, scan_message,
  handle_msg, is_due, expire_loop, expire, handle_event, handle_events,
}
use kum_de.Text.{Bytes}

-- `m` ends above the place of `n`, with a gap.
abbrev pub Above : Notif → Notif → Type 0
Above n m = m.active ≡ true → m.margin + m.height + notif_gap ≤ n.margin

-- The notifications of later places stand above those of earlier ones.
abbrev pub Stacked : List Notif → Type 0
Stacked [] = Unit
Stacked (n ∷ ns) = (n.active ≡ true → All (Above n) ns) × Stacked ns

-- All that is active ends a gap above `y`.
abbrev Below : ℕ → List Notif → Type 0
Below y ns = All (λ m. m.active ≡ true → m.margin + m.height + notif_gap ≤ y) ns

Below-le : (y z : ℕ) (ns : List Notif) → y ≤ z → Below y ns → Below z ns
Below-le y z [] l b = tt
Below-le y z (n ∷ ns) l b = (λ a. let h = b.0 a in omega (arith, h), Below-le y z ns l b.1)

restack_loop-Below : (ns : List Notif) → Below (restack_loop ns).1 (restack_loop ns).0
unfolding restack_loop
restack_loop-Below [] = tt
restack_loop-Below (n ∷ ns) = go n.active refl (restack_loop-Below ns)
  where
    go :
        (b : Bool)
        → n.active ≡ b
        → Below (restack_loop ns).1 (restack_loop ns).0
        → (let r : List Notif × ℕ =
              if b
              then (
                record n { margin = (restack_loop ns).1 } ∷ (restack_loop ns).0,
                (restack_loop ns).1 + (n.height + notif_gap),
              )
              else (n ∷ (restack_loop ns).0, (restack_loop ns).1) in
            Below r.1 r.0)
    go true e h = (λ a. omega arith, Below-le _ _ _ (omega arith) h)
    go false e h = (λ a. absurd (cc), h)

restack-Stacked : (ns : List Notif) → Stacked (restack ns)
unfolding restack restack_loop
restack-Stacked [] = tt
restack-Stacked (n ∷ ns) = go n.active refl (restack-Stacked ns) (restack_loop-Below ns)
  where
    go :
        (b : Bool)
        → n.active ≡ b
        → Stacked (restack_loop ns).0
        → Below (restack_loop ns).1 (restack_loop ns).0
        → (let r : List Notif × ℕ =
              if b
              then (
                record n { margin = (restack_loop ns).1 } ∷ (restack_loop ns).0,
                (restack_loop ns).1 + (n.height + notif_gap),
              )
              else (n ∷ (restack_loop ns).0, (restack_loop ns).1) in
            Stacked r.0)
    go true e h k = (λ a. k, h)
    go false e h k = (λ a. absurd (cc), h)

dismiss-Stacked : (i : ℕ) (ns : List Notif) → Stacked ns → Stacked (dismiss i ns)
unfolding dismiss
dismiss-Stacked i ns h = go (is_active i ns)
  where
    go :
        (b : Bool)
        → Stacked (
            if b
            then restack (update i (λ n. record n { active = false; configured = false }) ns)
            else ns)
    go true = restack-Stacked _
    go false = h

expire_loop-Stacked :
    (now n i : ℕ) (ns : List Notif) → Stacked ns → Stacked (expire_loop now n i ns)
unfolding expire_loop
expire_loop-Stacked now zero i ns h = h
expire_loop-Stacked now (suc n) i ns h =
    go (is_due now i ns) (expire_loop-Stacked now n (i + 1) ns h)
      (expire_loop-Stacked now n (i + 1) (dismiss i ns) (dismiss-Stacked i ns h))
  where
    go :
        (b : Bool)
        → Stacked (expire_loop now n (i + 1) ns)
        → Stacked (expire_loop now n (i + 1) (dismiss i ns))
        → Stacked
            (if b then expire_loop now n (i + 1) (dismiss i ns) else expire_loop now n (i + 1) ns)
    go true kept gone = gone
    go false kept gone = kept

-- The number of places stays.
length-restack : (ns : List Notif) → length (restack ns) ≡ length ns
unfolding restack restack_loop
length-restack [] = refl
length-restack (n ∷ ns) = let rest = length-restack ns in ground (arith, rest)

length-update : (i : ℕ) (f : Notif → Notif) (ns : List Notif) → length (update i f ns) ≡ length ns
unfolding update
length-update i f [] = refl
length-update zero f (n ∷ ns) = refl
length-update (suc i) f (n ∷ ns) = ap suc (length-update i f ns)

length-dismiss : (i : ℕ) (ns : List Notif) → length (dismiss i ns) ≡ length ns
unfolding dismiss
length-dismiss i ns =
    let off : Notif → Notif = λ n. record n { active = false; configured = false } in
    let a = length-restack (update i off ns) in
    let b = length-update i off ns in ground (arith, a, b)

length-expire_loop : (now n i : ℕ) (ns : List Notif) → length (expire_loop now n i ns) ≡ length ns
unfolding expire_loop
length-expire_loop now zero i ns = refl
length-expire_loop now (suc n) i ns =
    let kept = length-expire_loop now n (i + 1) ns in
    let gone = length-expire_loop now n (i + 1) (dismiss i ns) in
    let same = length-dismiss i ns in ground (arith, kept, gone, same)

-- With a candidate the search for a place ends with one.
slot_loop-best : (i k e : ℕ) (ns : List Notif) → (j : ℕ) × (slot_loop i (some (k, e)) ns ≡ some j)
unfolding slot_loop
slot_loop-best i k e [] = (k, refl)
slot_loop-best i k e (n ∷ ns) =
    go (not n.active) (ltb n.expire_ms e) (slot_loop-best (i + 1) i n.expire_ms ns)
      (slot_loop-best (i + 1) k e ns)
  where
    go :
        (b c : Bool)
        → (j : ℕ) × (slot_loop (i + 1) (some (i, n.expire_ms)) ns ≡ some j)
        → (j : ℕ) × (slot_loop (i + 1) (some (k, e)) ns ≡ some j)
        → (j : ℕ) × ((if b
              then some i
              else if c
              then slot_loop (i + 1) (some (i, n.expire_ms)) ns
              else slot_loop (i + 1) (some (k, e)) ns)
            ≡ some j)
    go true c taken left = (i, refl)
    go false true taken left = taken
    go false false taken left = left

slot_loop-some : (ns : List Notif) → 0 < length ns → (j : ℕ) × (slot_loop 0 none ns ≡ some j)
unfolding slot_loop
slot_loop-some [] h = absurd (omega arith)
slot_loop-some (n ∷ ns) h = go (not n.active) (slot_loop-best 1 0 n.expire_ms ns)
  where
    go :
        (b : Bool)
        → (j : ℕ) × (slot_loop 1 (some (0, n.expire_ms)) ns ≡ some j)
        → (j : ℕ) × ((if b then some 0 else slot_loop 1 (some (0, n.expire_ms)) ns) ≡ some j)
    go true taken = (0, refl)
    go false taken = taken

-- The board has its places, and the notifications on it stand one above the other.
pub record Tidy (b : Board) : Type 0 where
  pub full : length b.notifs ≡ notif_max
  pub stacked : Stacked b.notifs

show-Tidy :
    (now : ℕ) (m : Message) (b : Board) → Tidy b → (c : Board) × (show now m b ≡ some c) × Tidy c
unfolding show
show-Tidy now m b t =
    let full = t.full in
    let (i, found) = slot_loop-some b.notifs (omega (arith, full)) in
    let placed = update i (λ _. notif_of now (next b.next_id) m) (dismiss i b.notifs) in
    (
      record { notifs = restack placed; next_id = next b.next_id },
      rw (found, show),
      record {
        full =
            length-restack placed
            ∙ length-update i _ (dismiss i b.notifs)
            ∙ length-dismiss i b.notifs
            ∙ full;
        stacked = restack-Stacked placed;
      },
    )

handle_msg-Tidy :
    (now : ℕ) (msg : Bytes) (b : Board)
    → Tidy b
    → (c : Board) × (handle_msg now msg b ≡ some c) × Tidy c
unfolding handle_msg
handle_msg-Tidy now msg b t = elim (Bool-cases (length (scan_message msg).summary == 0)) [
  | inl e ↦ (b, rw (e, handle_msg), t)
  | inr e ↦
      let (c, done, tidy) = show-Tidy now (scan_message msg) b t in
      (c, rw (e, handle_msg) done, tidy)
]

handle_event-Tidy :
    (e : Event) (b : Board) → Tidy b → (c : Board) × (handle_event e b ≡ some c) × Tidy c
unfolding handle_event expire
handle_event-Tidy (received now msg) b t = handle_msg-Tidy now msg b t
handle_event-Tidy (closed i) b t = (
  _,
  refl,
  record {
    full = length-dismiss i b.notifs ∙ t.full;
    stacked = dismiss-Stacked i b.notifs t.stacked;
  },
)
handle_event-Tidy (turned now) b t = (
  _,
  refl,
  record {
    full = length-expire_loop now notif_max 0 b.notifs ∙ t.full;
    stacked = expire_loop-Stacked now notif_max 0 b.notifs t.stacked;
  },
)

-- From a board with eight places and no overlap, every sequence of datagrams, dismissals and turns of
-- the loop finds a place for each notification and ends in such a board: no two notifications on the
-- screen overlap.
pub handle_events-Tidy :
    (es : List Event) (b : Board) → Tidy b → (c : Board) × (handle_events es b ≡ some c) × Tidy c
unfolding handle_events
handle_events-Tidy [] b t = (b, refl, t)
handle_events-Tidy (e ∷ es) b t =
    let (c, first, kept) = handle_event-Tidy e b t in
    let (d, rest, done) = handle_events-Tidy es c kept in (d, rw (handle_events, first) rest, done)
