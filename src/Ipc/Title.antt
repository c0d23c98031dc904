-- ===== src/Ipc/Title.antt =====
-- The message of `kum_ipc_broadcast_window_title` of src/ipc.c, which `snprintf` prints into a buffer
-- of 400 bytes and whose whole length is handed to `send`.
use kum_de.Base.{
  ℕ, ◌+◌, ◌-◌, ◌≤◌, ◌<◌, ◌≡◌, refl, [], ◌∷◌, ◌++◌, Option, none, some, length, length-append, take,
  arith, leb, ltb, true, false, if◌then◌else◌,
}
use kum_de.Focus.{escaped_title}
use kum_de.Json.{kum_json_escape}
use kum_de.Json.Bounds.{kum_json_escape-fits}
use kum_de.Text.{Bytes, codes}

-- The format with the name of the output and the escaped title.
unfoldable pub title_line : Bytes → Bytes → Bytes
title_line name title_esc =
    codes "{\"event\":\"window_title\",\"output\":\""
    ++ (name ++ (codes "\",\"title\":\"" ++ (title_esc ++ codes "\"}\n")))

abbrev pub msg_size : ℕ
msg_size = 400

-- `send(fd, msg, n)` behind `n = snprintf(msg, 400, …)` of a text: what is sent. `snprintf` answers the
-- length of the whole text, but puts at most 399 bytes of it and a NUL into the buffer; `none` is a read
-- behind the buffer.
unfoldable pub send_printed : Bytes → Option Bytes
send_printed text =
    let n = length text in
    if ltb n msg_size
    then some text
    else if leb n msg_size
    then some (take (msg_size - 1) text ++ 0 ∷ [])
    else none

-- What `kum_ipc_broadcast_window_title` hands to the clients for an output and a title.
unfoldable pub title_message : Bytes → Bytes → Option Bytes
unfolding title_line send_printed
title_message name title = send_printed (title_line name (escaped_title title))

send_printed-whole : (text : Bytes) → length text < msg_size → send_printed text ≡ some text
unfolding send_printed
send_printed-whole text h =
    let short : ltb (length text) msg_size ≡ true = ground (arith, h) in rw short refl

send_printed-behind : (text : Bytes) → msg_size < length text → send_printed text ≡ none
unfolding send_printed
send_printed-behind text h =
    let long : ltb (length text) msg_size ≡ false = ground (arith, h) in
    let behind : leb (length text) msg_size ≡ false = ground (arith, h) in rw (long, behind) refl

length-title_line :
    (name title_esc : Bytes)
    → length (title_line name title_esc) ≡ length name + length title_esc + 48
unfolding title_line
length-title_line name title_esc =
    let tail = length-append title_esc (codes "\"}\n") in
    let whole = length-append name (codes "\",\"title\":\"" ++ (title_esc ++ codes "\"}\n")) in
    omega (arith, tail, whole)

escaped_title-fits : (title : Bytes) → length (escaped_title title) < 350
escaped_title-fits title =
    go (kum_json_escape 350 title) (λ out e. kum_json_escape-fits 350 title e)
  where
    go :
        (o : Option Bytes)
        → ((out : Bytes) → o ≡ some out → length out < 350)
        → length (elim o as (λ _. Bytes) [ none ↦ [] | some e ↦ e ]) < 350
    go none h = omega arith
    go (some out) h = h out refl

-- For every title, the clients are sent the whole line if the name of the output and the escaped title
-- have at most 351 bytes together, as they always have for a name of at most two bytes; with more than
-- 352 bytes `send` is told to read behind the buffer.
pub title_message-sent :
    (name title : Bytes)
    → (length name ≤ 2 → title_message name title ≡ some (title_line name (escaped_title title)))
      × (length name + length (escaped_title title) ≤ 351
          → title_message name title ≡ some (title_line name (escaped_title title)))
      × (352 < length name + length (escaped_title title) → title_message name title ≡ none)
unfolding title_message
title_message-sent name title =
    let n = length-title_line name (escaped_title title) in
    let short = escaped_title-fits title in
    let line = title_line name (escaped_title title) in
    (
      λ h. send_printed-whole line (omega (arith, n, short, h)),
      λ h. send_printed-whole line (omega (arith, n, h)),
      λ h. send_printed-behind line (omega (arith, n, h)),
    )
