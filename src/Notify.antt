-- ===== src/Notify.antt =====
-- kumnotify/src/main.c: the eight places for notifications. The clock comes with the event, in
-- milliseconds; drawing and the surfaces are not modelled, and the top margin that a surface is given
-- is a field.
pub mod Expiry
pub mod Stack
use kum_de.Base.{
  ℕ, zero, suc, ◌+◌, ◌%◌, ◌^◌, Bool, true, false, not, ◌&&◌, ◌||◌, List, [], ◌∷◌, ◌++◌, Option,
  none, some, length, get_elem?, set, leb, ltb, ◌==◌, if◌then◌else◌,
}
use kum_de.Base.Int.{ℤ, pos, negsuc, ltb_ℤ, pos_part}
use kum_de.Rules.Load.{scan_pair}
use kum_de.Text.{Bytes, codes, after, scan_until, skip_space, copied}

-- `notif_t`
pub record Notif : Type 0 where
  pub summary : Bytes
  pub body : Bytes
  pub app_name : Bytes
  pub urgency : ℤ
  pub expire_ms : ℕ
  pub id : ℕ
  pub active : Bool
  pub configured : Bool
  pub height : ℕ
  pub margin : ℕ

-- `app.notifs` and `app.next_id`
pub record Board : Type 0 where
  pub notifs : List Notif
  pub next_id : ℕ

abbrev pub notif_max : ℕ
notif_max = 8

abbrev pub notif_gap : ℕ
notif_gap = 8

abbrev pub notif_h : ℕ
notif_h = 72

abbrev pub notif_dur : ℕ
notif_dur = 5000

-- The loop of `restack`, which starts at the last place: the places, and `y` behind them.
unfoldable pub restack_loop : List Notif → List Notif × ℕ
restack_loop [] = ([], notif_gap)
restack_loop (n ∷ ns) =
    let rest = restack_loop ns in
    if n.active
    then (record n { margin = rest.1 } ∷ rest.0, rest.1 + (n.height + notif_gap))
    else (n ∷ rest.0, rest.1)

unfoldable pub restack : List Notif → List Notif
unfolding restack_loop
restack ns = (restack_loop ns).0

-- The place `i` changes.
unfoldable pub update : ℕ → (Notif → Notif) → List Notif → List Notif
update i f [] = []
update zero f (n ∷ ns) = f n ∷ ns
update (suc i) f (n ∷ ns) = n ∷ update i f ns

unfoldable pub is_active : ℕ → List Notif → Bool
is_active i [] = false
is_active zero (n ∷ ns) = n.active
is_active (suc i) (n ∷ ns) = is_active i ns

unfoldable pub dismiss : ℕ → List Notif → List Notif
unfolding restack update is_active
dismiss i ns =
    if is_active i ns
    then restack (update i (λ n. record n { active = false; configured = false }) ns)
    else ns

-- The loop of `show` over the places from `i` on: the first one that is free, else the one that
-- expires first, of which `oldest` is the best so far; -1 is `none`.
unfoldable pub slot_loop : ℕ → Option (ℕ × ℕ) → List Notif → Option ℕ
slot_loop i none [] = none
slot_loop i (some (oldest, oexp)) [] = some oldest
slot_loop i best (n ∷ ns) =
    let sooner : Bool = elim best [ none ↦ true | some (oldest, oexp) ↦ ltb n.expire_ms oexp ] in
    let taken = slot_loop (i + 1) (some (i, n.expire_ms)) ns in
    let left = slot_loop (i + 1) best ns in
    if not n.active then some i else if sooner then taken else left

-- What a notification says.
pub record Message : Type 0 where
  pub app_name : Bytes
  pub summary : Bytes
  pub body : Bytes
  pub urgency : ℤ
  pub timeout : ℤ

unfoldable pub lifetime : ℤ → ℕ
lifetime timeout = if ltb_ℤ (pos 0) timeout then pos_part timeout else notif_dur

-- `++app.next_id` in `uint32_t`
unfoldable pub next : ℕ → ℕ
next n = (n + 1) % 2 ^ 32

abbrev pub notif_of : ℕ → ℕ → Message → Notif
notif_of now id m = record {
  summary = copied 255 m.summary;
  body = copied 511 m.body;
  app_name = copied 127 m.app_name;
  urgency = m.urgency;
  expire_ms = now + lifetime m.timeout;
  id = id;
  active = true;
  configured = false;
  height = notif_h;
  margin = notif_gap;
}

-- `show` at the time `now`; without a place it would follow a negative index.
unfoldable pub show : ℕ → Message → Board → Option Board
unfolding slot_loop lifetime next dismiss restack update
show now m b = elim (slot_loop 0 none b.notifs) [
  | none ↦ none
  | some i ↦
      let freed = dismiss i b.notifs in
      let id = next b.next_id in
      some (record { notifs = restack (update i (λ _. notif_of now id m) freed); next_id = id })
]

-- The fields of `handle_msg` behind the one just read: each `%[^|]` needs a byte, and a `|` in front.
unfoldable pub drop_field : Bytes → Bytes → Option Bytes
drop_field [] s = after (codes "|") s
drop_field (_ ∷ name) [] = none
drop_field (_ ∷ name) (_ ∷ s) = drop_field name s

unfoldable pub scan_fields : List ℕ → Bytes → List Bytes × Option Bytes
unfolding drop_field
scan_fields [] s = ([], some s)
scan_fields (n ∷ ns) s = elim (scan_until b'|' n s) [
  | [] ↦ ([], none)
  | c ∷ field ↦ elim (drop_field (c ∷ field) s) [
    | none ↦ ((c ∷ field) ∷ [], none)
    | some rest ↦ let more = scan_fields ns rest in ((c ∷ field) ∷ more.0, more.1)
  ]
]

unfoldable pub field : ℕ → List Bytes → Bytes
field i fields = elim (get_elem? fields i) [ none ↦ [] | some f ↦ f ]

-- The numbers behind the texts, which are read only when all three texts were.
unfoldable pub numbers : Option Bytes → ℤ × ℤ
numbers none = (pos 1, negsuc 0)
numbers (some rest) = scan_pair b'|' rest (pos 1) (negsuc 0)

-- The message of a datagram; what `sscanf` does not reach keeps its first value.
unfoldable pub scan_message : Bytes → Message
unfolding scan_fields field numbers
scan_message msg = elim (after (codes "NOTIFY") msg) [
  | none ↦ record { app_name = []; summary = []; body = []; urgency = pos 1; timeout = negsuc 0 }
  | some rest ↦
      let read = scan_fields (127 ∷ 255 ∷ 511 ∷ []) (skip_space rest) in
      let ns = numbers read.1 in
      record {
        app_name = field 0 read.0;
        summary = field 1 read.0;
        body = field 2 read.0;
        urgency = ns.0;
        timeout = ns.1;
      }
]

unfoldable pub handle_msg : ℕ → Bytes → Board → Option Board
unfolding scan_message show
handle_msg now msg b =
    let m = scan_message msg in if length m.summary == 0 then some b else show now m b

-- `active && now >= expire_ms` at place `i`
unfoldable pub is_due : ℕ → ℕ → List Notif → Bool
is_due now i [] = false
is_due now zero (n ∷ ns) = n.active && leb n.expire_ms now
is_due now (suc i) (n ∷ ns) = is_due now i ns

-- One turn of the main loop at the places from `i` on, `n` of them: what has expired is dismissed.
unfoldable pub expire_loop : ℕ → ℕ → ℕ → List Notif → List Notif
unfolding dismiss is_due
expire_loop now zero i ns = ns
expire_loop now (suc n) i ns =
    let kept = expire_loop now n (i + 1) ns in
    let gone = expire_loop now n (i + 1) (dismiss i ns) in if is_due now i ns then gone else kept

unfoldable pub expire : ℕ → Board → Board
unfolding expire_loop
expire now b = record b { notifs = expire_loop now notif_max 0 b.notifs }

-- What the main loop does with the board: a datagram is read, a click or the compositor closes the
-- notification of a place, and each turn ends with what has expired.
pub data Event : Type 0 where
  received : ℕ → Bytes → Event
  closed : ℕ → Event
  turned : ℕ → Event

unfoldable pub handle_event : Event → Board → Option Board
unfolding handle_msg dismiss expire
handle_event (received now msg) b = handle_msg now msg b
handle_event (closed i) b = some (record b { notifs = dismiss i b.notifs })
handle_event (turned now) b = some (expire now b)

unfoldable pub handle_events : List Event → Board → Option Board
unfolding handle_event
handle_events [] b = some b
handle_events (e ∷ es) b = elim (handle_event e b) [ none ↦ none | some c ↦ handle_events es c ]
