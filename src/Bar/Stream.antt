-- ===== src/Bar/Stream.antt =====
-- The line buffer of kumbar/src/main.c: what the socket gives in pieces is read line by line.
use mathlib.Core.List.{append_assoc, append-nil}
use kum_de.Base.{
  ℕ, ◌+◌, ◌-◌, ◌<◌, ◌≤◌, ◌≡◌, refl, sym, ap, ◌∙◌, Bool, true, false, not, List, [], ◌∷◌, ◌++◌,
  length, take, ◌==◌, if◌then◌else◌, arith, take-all, All,
}
use kum_de.Bar.{
  BarOutput, Bar, Link, Received, bytes, again, gone, ipc_buf, handle_ipc_message, cut_lines,
  handle_lines, receive_bytes, kumbar_ipc_dispatch,
}
use kum_de.Text.{Bytes}

-- The pieces that `recv` gave, one after another.
unfoldable pub dispatch_all : List Bytes → Bar → Bar
dispatch_all [] bar = bar
dispatch_all (p ∷ ps) bar = dispatch_all ps (receive_bytes p bar)

abbrev pub joined : List Bytes → Bytes
joined [] = []
joined (p ∷ ps) = p ++ joined ps

-- Each piece finds room in the buffer, behind what the pieces before it have left there.
abbrev pub Fits : List Bytes → Bytes → Type 0
Fits [] left = Unit
Fits (p ∷ ps) left = (length left + length p < ipc_buf) × Fits ps (cut_lines [] (left ++ p)).1

-- The bar that reads a whole stream at once, behind what is left in its buffer, with room for all of it.
abbrev pub read_all : Bytes → Bar → Bar
read_all stream bar = record {
  outputs = handle_lines (cut_lines [] (bar.ipc_ibuf ++ stream)).0 bar.outputs;
  ipc_ibuf = (cut_lines [] (bar.ipc_ibuf ++ stream)).1;
}

-- The lines of two texts in a row: the second one goes on with what the first one left.
cut_lines-append :
    (line s t : Bytes)
    → cut_lines line (s ++ t) ≡ (
      (cut_lines line s).0 ++ (cut_lines (cut_lines line s).1 t).0,
      (cut_lines (cut_lines line s).1 t).1,
    )
unfolding cut_lines
cut_lines-append line [] t = refl
cut_lines-append line (c ∷ s) t =
    go (c == b'\n') (cut_lines-append [] s t) (cut_lines-append (line ++ c ∷ []) s t)
  where
    go :
        (b : Bool)
        → cut_lines [] (s ++ t) ≡ (
          (cut_lines [] s).0 ++ (cut_lines (cut_lines [] s).1 t).0,
          (cut_lines (cut_lines [] s).1 t).1,
        )
        → cut_lines (line ++ c ∷ []) (s ++ t) ≡ (
          (cut_lines (line ++ c ∷ []) s).0 ++ (cut_lines (cut_lines (line ++ c ∷ []) s).1 t).0,
          (cut_lines (cut_lines (line ++ c ∷ []) s).1 t).1,
        )
        → (if b
            then (line ∷ (cut_lines [] (s ++ t)).0, (cut_lines [] (s ++ t)).1)
            else cut_lines (line ++ c ∷ []) (s ++ t))
          ≡ (let r : List Bytes × Bytes =
                if b
                then (line ∷ (cut_lines [] s).0, (cut_lines [] s).1)
                else cut_lines (line ++ c ∷ []) s in
              (r.0 ++ (cut_lines r.1 t).0, (cut_lines r.1 t).1))
    go true h k = ap (λ (p : List Bytes × Bytes). (line ∷ p.0, p.1)) h
    go false h k = k

-- A line that has not ended: it is left as it is.
abbrev pub Unfinished : Bytes → Type 0
Unfinished line = cut_lines [] line ≡ ([], line)

-- An unfinished line in front of a text is what was read of its first line.
cut_lines-Unfinished :
    (line t : Bytes) → Unfinished line → cut_lines [] (line ++ t) ≡ cut_lines line t
cut_lines-Unfinished line t u =
    cut_lines-append [] line t
    ∙ ap (λ (r : List Bytes × Bytes). (r.0 ++ (cut_lines r.1 t).0, (cut_lines r.1 t).1)) u

one_byte :
    (line : Bytes) (c : ℕ) → (c == b'\n') ≡ false → cut_lines line (c ∷ []) ≡ ([], line ++ c ∷ [])
unfolding cut_lines
one_byte line c h = ground arith

Unfinished-left : (line s : Bytes) → Unfinished line → Unfinished (cut_lines line s).1
unfolding cut_lines
Unfinished-left line [] u = u
Unfinished-left line (c ∷ s) u =
    go (c == b'\n') refl (Unfinished-left [] s refl)
      (λ more. Unfinished-left (line ++ c ∷ []) s more)
  where
    go :
        (b : Bool)
        → (c == b'\n') ≡ b
        → Unfinished (cut_lines [] s).1
        → (Unfinished (line ++ c ∷ []) → Unfinished (cut_lines (line ++ c ∷ []) s).1)
        → Unfinished (
            let r : List Bytes × Bytes =
              if b
              then (line ∷ (cut_lines [] s).0, (cut_lines [] s).1)
              else cut_lines (line ++ c ∷ []) s in
            r.1)
    go true e next more = next
    go false e next more = more (cut_lines-Unfinished line (c ∷ []) u ∙ one_byte line c e)

handle_lines-append :
    (ls ms : List Bytes) (os : List BarOutput)
    → handle_lines (ls ++ ms) os ≡ handle_lines ms (handle_lines ls os)
unfolding handle_lines
handle_lines-append [] ms os = refl
handle_lines-append ([] ∷ ls) ms os = handle_lines-append ls ms os
handle_lines-append ((c ∷ line) ∷ ls) ms os =
    handle_lines-append ls ms (handle_ipc_message (c ∷ line) os)

take-room :
    (left p : Bytes) → length left + length p < ipc_buf → take (ipc_buf - length left - 1) p ≡ p
take-room left p h = take-all (ipc_buf - length left - 1) p (omega arith)

-- The result of the lines and of what is left, for bars that show `os`.
abbrev result : List BarOutput → List Bytes × Bytes → Bar
result os cut = record { outputs = handle_lines cut.0 os; ipc_ibuf = cut.1 }

receive_bytes-room :
    (p : Bytes) (bar : Bar)
    → length bar.ipc_ibuf + length p < ipc_buf
    → receive_bytes p bar ≡ read_all p bar
unfolding receive_bytes
receive_bytes-room p bar h =
    ap (λ q. result bar.outputs (cut_lines [] (bar.ipc_ibuf ++ q))) (take-room bar.ipc_ibuf p h)

read_all-empty : (bar : Bar) → Unfinished bar.ipc_ibuf → read_all [] bar ≡ bar
unfolding handle_lines
read_all-empty bar u =
    ap (λ q. result bar.outputs (cut_lines [] q)) (append-nil bar.ipc_ibuf)
    ∙ ap (result bar.outputs) u

pub read_all-append :
    (p t : Bytes) (bar : Bar)
    → Unfinished bar.ipc_ibuf
    → read_all t (read_all p bar) ≡ read_all (p ++ t) bar
unfolding cut_lines
read_all-append p t bar u =
    let cut = cut_lines [] (bar.ipc_ibuf ++ p) in
    let kept = Unfinished-left [] (bar.ipc_ibuf ++ p) refl in
    let rest = cut_lines cut.1 t in
    ap (result (handle_lines cut.0 bar.outputs)) (cut_lines-Unfinished cut.1 t kept)
    ∙ ap (λ os. record { outputs = os; ipc_ibuf = rest.1 })
        (sym (handle_lines-append cut.0 rest.0 bar.outputs))
    ∙ ap (result bar.outputs) (
        sym (cut_lines-append [] (bar.ipc_ibuf ++ p) t)
        ∙ ap (cut_lines []) (append_assoc bar.ipc_ibuf p t))

pub dispatch_all-read_all :
    (ps : List Bytes) (bar : Bar)
    → Unfinished bar.ipc_ibuf
    → Fits ps bar.ipc_ibuf
    → dispatch_all ps bar ≡ read_all (joined ps) bar
unfolding dispatch_all cut_lines
dispatch_all-read_all [] bar u f = sym (read_all-empty bar u)
dispatch_all-read_all (p ∷ ps) bar u f =
    ap (dispatch_all ps) (receive_bytes-room p bar f.0)
    ∙ dispatch_all-read_all ps (read_all p bar) (Unfinished-left [] (bar.ipc_ibuf ++ p) refl) f.1
    ∙ read_all-append p (joined ps) bar u

receive_bytes-full :
    (received : Bytes) (bar : Bar)
    → ipc_buf ≤ length bar.ipc_ibuf + 1
    → Unfinished bar.ipc_ibuf
    → receive_bytes received bar ≡ bar
unfolding receive_bytes
receive_bytes-full received bar h u =
    let none_left : ipc_buf - length bar.ipc_ibuf - 1 ≡ 0 = omega arith in
    ap (λ n. result bar.outputs (cut_lines [] (bar.ipc_ibuf ++ take n received))) none_left
    ∙ read_all-empty bar u

-- The side of an open connection.
if_open : (c : Bool) (x y : Link) → c ≡ true → (if not c then x else y) ≡ y
if_open true x y h = refl
if_open false x y h = absurd (cc)

-- One dispatch: when, whether the compositor could be reached, and what `recv` answers.
abbrev pub Dispatch : Type 0
Dispatch = ℕ × Bool × Received

unfoldable pub dispatches : List Dispatch → Link → Link
dispatches [] l = l
dispatches ((now, reachable, received) ∷ ds) l =
    dispatches ds (kumbar_ipc_dispatch now reachable received l)

-- The connection does not end.
abbrev pub stays : Dispatch → Bool
stays (now, reachable, gone) = false
stays (now, reachable, _) = true

-- A line that fills the buffer before it ends stops the bar: for as long as the connection stays open,
-- whatever comes in whatever pieces is dropped, and nothing changes any more.
pub dispatches-full :
    (ds : List Dispatch) (l : Link)
    → l.connected ≡ true
    → ipc_buf ≤ length l.bar.ipc_ibuf + 1
    → Unfinished l.bar.ipc_ibuf
    → All (λ d. stays d ≡ true) ds
    → dispatches ds l ≡ l
unfolding dispatches kumbar_ipc_dispatch
dispatches-full [] l o h u s = refl
dispatches-full ((now, reachable, bytes b) ∷ ds) l o h u s =
    let same = ap (λ r. record l { bar = r }) (receive_bytes-full b l.bar h u) in
    let step : kumbar_ipc_dispatch now reachable (bytes b) l ≡ l =
      if_open l.connected _ _ o ∙ same in
    ap (dispatches ds) step ∙ dispatches-full ds l o h u s.1
dispatches-full ((now, reachable, again) ∷ ds) l o h u s =
    let step : kumbar_ipc_dispatch now reachable again l ≡ l = if_open l.connected _ _ o in
    ap (dispatches ds) step ∙ dispatches-full ds l o h u s.1
dispatches-full ((now, reachable, gone) ∷ ds) l o h u s = absurd (cc (s.0))
