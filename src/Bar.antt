-- ===== src/Bar.antt =====
-- kumbar/src/main.c: what the bar remembers of the compositor, the messages that it reads, and its
-- workspace buttons. Drawing is not modelled, and neither is the connection itself.
pub mod Boxes
pub mod Initial
pub mod Messages
pub mod Stream
use kum_de.Base.{
  ℕ, zero, suc, ◌+◌, ◌-◌, Bool, true, false, not, ◌&&◌, ◌||◌, List, [], ◌∷◌, ◌++◌, Option, none,
  some, length, map, take, leb, ltb, ◌==◌, if◌then◌else◌,
}
use kum_de.Base.Int.{ℤ, pos, negsuc, ltb_ℤ, eqb_ℤ, ◌/ℤ◌}
use kum_de.Text.{Bytes, codes, bytes_eq, is_digit, after, scan_until, scan_int, copied}

-- The state of a bar on one output that messages change, and `ws_box_x0` and `ws_box_x1` of the last
-- time that it was drawn.
pub record BarOutput : Type 0 where
  pub name : Bytes
  pub active_ws : ℤ
  pub occupied_ws : List Bool
  pub focused_title : Bytes
  pub dirty : Bool
  pub ws_boxes : List (ℕ × ℕ)

-- The bars of all outputs, and the part of `ipc_ibuf` in use.
pub record Bar : Type 0 where
  pub outputs : List BarOutput
  pub ipc_ibuf : Bytes

abbrev pub ws_count : ℕ
ws_count = 9

abbrev pub ipc_buf : ℕ
ipc_buf = 512

unfoldable pub drop : ℕ → Bytes → Bytes
drop zero s = s
drop (suc n) [] = []
drop (suc n) (c ∷ s) = drop n s

-- The parts of `sscanf(msg, "{\"event\":\"workspace\",\"output\":\"%63[^\"]\",\"index\":%d}", …) == 2`:
-- the number behind the name, the name, and the text in front of it.
unfoldable pub with_number : Bytes → Option ℤ → Option (Bytes × ℤ)
with_number name none = none
with_number name (some i) = some (name, i)

unfoldable pub scan_number : Bytes → Option Bytes → Option (Bytes × ℤ)
unfolding with_number
scan_number name none = none
scan_number name (some number) = with_number name (scan_int number)

unfoldable pub scan_name : Bytes → Bytes → Option (Bytes × ℤ)
unfolding drop scan_number
scan_name [] rest = none
scan_name (c ∷ name) rest =
    scan_number (c ∷ name) (after (codes "\",\"index\":") (drop (length (c ∷ name)) rest))

unfoldable pub scan_workspace : Bytes → Option (Bytes × ℤ)
unfolding scan_name
scan_workspace msg = elim (after (codes "{\"event\":\"workspace\",\"output\":\"") msg) [
  | none ↦ none
  | some rest ↦ scan_name (scan_until b'"' 63 rest) rest
]

-- The first output of a name shows a workspace.
unfoldable pub show_workspace : Bytes → ℤ → List BarOutput → List BarOutput
show_workspace name i [] = []
show_workspace name i (o ∷ os) =
    if bytes_eq o.name name
    then record o { active_ws = i; dirty = true } ∷ os
    else o ∷ show_workspace name i os

-- What follows the first `key` in the text: `strstr` and a step over it.
unfoldable pub find_after : Bytes → Bytes → Option Bytes
find_after key [] = after key []
find_after key (c ∷ s) =
    let later = find_after key s in
    elim (after key (c ∷ s)) [ none ↦ later | some rest ↦ some rest ]

-- The loop over the digits; `room` is the number of values that are still read.
unfoldable pub scan_flags : ℕ → Bytes → List Bool
scan_flags room [] = []
scan_flags zero (c ∷ s) = []
scan_flags (suc room) (c ∷ s) =
    if c == b']'
    then []
    else if is_digit c
    then not (c == b'0') ∷ scan_flags room s
    else scan_flags (suc room) s

-- `occupied_ws` with its first values replaced.
unfoldable pub put_flags : List Bool → List Bool → List Bool
put_flags [] old = old
put_flags (b ∷ flags) [] = []
put_flags (b ∷ flags) (c ∷ old) = b ∷ put_flags flags old

abbrev pub title_prefix : Bytes
title_prefix = codes "{\"event\":\"window_title\",\"output\":\""

-- `sscanf` of the name and the title; both may stay empty.
unfoldable pub scan_title : Bytes → Option (Bytes × Bytes)
unfolding drop
scan_title msg = elim (after title_prefix msg) [
  | none ↦ none
  | some rest ↦ elim (scan_until b'"' 63 rest) [
    | [] ↦ none
    | c ∷ name ↦ elim (after (codes "\",\"title\":\"") (drop (length (c ∷ name)) rest)) [
      | none ↦ some (c ∷ name, [])
      | some text ↦ some (c ∷ name, scan_until b'"' 255 text)
    ]
  ]
]

unfoldable pub handle_title : Bytes → List BarOutput → List BarOutput
unfolding scan_title
handle_title msg os = elim (scan_title msg) [
  | none ↦ os
  | some (name, title) ↦
      map {A = BarOutput}
        (λ o. if bytes_eq o.name name then record o { focused_title = title; dirty = true } else o)
        os
]

unfoldable pub handle_occupancy : Bytes → List BarOutput → List BarOutput
unfolding find_after scan_flags put_flags
handle_occupancy msg os = elim (find_after (codes "\"ws\":[") msg) [
  | none ↦ os
  | some p ↦
      map {A = BarOutput}
        (λ o. record o {
          occupied_ws = put_flags (scan_flags ws_count p) o.occupied_ws;
          dirty = true;
        })
        os
]

-- The branches behind the message of a workspace. `strncmp` compares 25 bytes with a literal of 23, so
-- only a message that ends there is one of a title.
unfoldable pub handle_other : Bytes → List BarOutput → List BarOutput
unfolding handle_title handle_occupancy
handle_other msg os =
    if bytes_eq msg (codes "{\"event\":\"window_title\"")
    then handle_title msg os
    else elim (after (codes "{\"event\":\"occupancy\"") msg) [
      | none ↦ os
      | some _ ↦ handle_occupancy msg os
    ]

unfoldable pub handle_scanned : Option (Bytes × ℤ) → Bytes → List BarOutput → List BarOutput
unfolding show_workspace handle_other
handle_scanned none msg os = handle_other msg os
handle_scanned (some (name, i)) msg os =
    if ltb_ℤ i (pos 0) then handle_other msg os else show_workspace name i os

unfoldable pub handle_ipc_message : Bytes → List BarOutput → List BarOutput
unfolding scan_workspace handle_scanned
handle_ipc_message msg os = handle_scanned (scan_workspace msg) msg os

-- The lines of the buffer, each without its line feed, and what is left; `line` is what was read of
-- the current one.
unfoldable pub cut_lines : Bytes → Bytes → List Bytes × Bytes
cut_lines line [] = ([], line)
cut_lines line (c ∷ s) =
    let next = cut_lines [] s in
    let more = cut_lines (line ++ c ∷ []) s in if c == b'\n' then (line ∷ next.0, next.1) else more

-- An empty line is no message.
unfoldable pub handle_lines : List Bytes → List BarOutput → List BarOutput
unfolding handle_ipc_message
handle_lines [] os = os
handle_lines ([] ∷ lines) os = handle_lines lines os
handle_lines ((c ∷ line) ∷ lines) os = handle_lines lines (handle_ipc_message (c ∷ line) os)

-- The end of `kumbar_ipc_dispatch`, behind a `recv` that gave bytes, without a NUL: those that find no
-- room are dropped.
unfoldable pub receive_bytes : Bytes → Bar → Bar
unfolding cut_lines handle_lines
receive_bytes received bar =
    let buffer = bar.ipc_ibuf ++ take (ipc_buf - length bar.ipc_ibuf - 1) received in
    let cut = cut_lines [] buffer in
    record { outputs = handle_lines cut.0 bar.outputs; ipc_ibuf = cut.1 }

-- `kumbar_ipc_connect` at a connection that is made
unfoldable pub kumbar_ipc_connect : Bar → Bar
kumbar_ipc_connect bar = record {
  outputs = map {A = BarOutput} (λ o. record o { dirty = true }) bar.outputs;
  ipc_ibuf = [];
}

-- `ipc_fd` and `ipc_last_attempt`: whether the socket is open, and when it was last tried, in seconds.
pub record Link : Type 0 where
  pub bar : Bar
  pub connected : Bool
  pub last_attempt : ℕ

-- What `recv` answers: bytes, that there are none yet, or that the compositor is gone.
pub data Received : Type 0 where
  bytes : Bytes → Received
  again gone : Received

abbrev pub reconnect_interval : ℕ
reconnect_interval = 3

-- `kumbar_ipc_dispatch` at the time `now`. `reachable` is whether a connection can be made, and
-- `received` what `recv` would answer.
unfoldable pub kumbar_ipc_dispatch : ℕ → Bool → Received → Link → Link
unfolding kumbar_ipc_connect receive_bytes
kumbar_ipc_dispatch now reachable received l =
    let linked : Link =
      if reachable
      then record { bar = kumbar_ipc_connect l.bar; connected = true; last_attempt = now }
      else record l { last_attempt = now } in
    let heard : Link = elim received [
      | bytes b ↦ record l { bar = receive_bytes b l.bar }
      | again ↦ l
      | gone ↦ record {
        bar = record l.bar {
          outputs = map {A = BarOutput} (λ o. record o { dirty = true }) l.bar.outputs;
        };
        connected = false;
        last_attempt = now;
      }
    ] in
    if not l.connected
    then (if leb reconnect_interval (now - l.last_attempt) then linked else l)
    else heard

abbrev pub padding : ℕ
padding = 10

abbrev pub cell : ℕ
cell = 18

-- The loop of `render_workspaces` over the workspaces from `i` on, at `x`: the horizontal range of
-- each button, empty for a workspace that is not drawn.
unfoldable pub box_loop : ℤ → ℕ → ℕ → List Bool → List (ℕ × ℕ)
box_loop active_ws i x [] = []
box_loop active_ws i x (occupied ∷ flags) =
    let skipped = box_loop active_ws (i + 1) x flags in
    let drawn = box_loop active_ws (i + 1) (x + (cell + 6)) flags in
    if not (eqb_ℤ (pos i) active_ws) && not occupied
    then (0, 0) ∷ skipped
    else (x - 4, x + cell + 4) ∷ drawn

unfoldable pub render_workspaces : BarOutput → BarOutput
unfolding box_loop
render_workspaces o = record o { ws_boxes = box_loop o.active_ws 0 padding o.occupied_ws }

-- The loop of `ptr_button` from `i` on: the workspace whose button is at `x`.
unfoldable pub hit_box : ℤ → ℕ → List (ℕ × ℕ) → Option ℕ
hit_box x i [] = none
hit_box x i ((x0, x1) ∷ boxes) =
    let later = hit_box x (i + 1) boxes in
    if leb x1 x0
    then later
    else if ltb_ℤ x (pos x0) || not (ltb_ℤ x (pos x1))
    then later
    else some i

-- `snprintf` of the command; the index has one digit.
abbrev pub click_message : ℕ → Bytes
click_message i = codes "{\"cmd\":\"workspace\",\"index\":" ++ ((b'0' + i) ∷ codes "}\n")

-- What is sent for a hit.
abbrev pub sent : Option ℕ → Option Bytes
sent none = none
sent (some i) = some (click_message i)

-- `ptr_button` at a press over a bar that is connected, at `pointer_x` in 1/256 of a pixel: what is
-- sent.
unfoldable pub ptr_button : ℤ → BarOutput → Option Bytes
unfolding hit_box
ptr_button pointer_x o = sent (hit_box (pointer_x /ℤ 256) 0 o.ws_boxes)
