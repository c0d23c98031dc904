-- ===== src/Bar/Messages.antt =====
-- The messages that src/ipc.c prints, read by kumbar/src/main.c.
use kum_de.Base.{
  ℕ, zero, suc, ◌+◌, ◌<◌, ◌≤◌, ◌≡◌, refl, sym, ap, ◌∙◌, ◌≢◌, Bool, true, false, List, [], ◌∷◌, ◌++◌,
  some, length, ltb, if◌then◌else◌, arith, All, All-map, All-append, map,
}
use mathlib.Core.List.{append_assoc, append-nil}
use kum_de.Base.Int.{pos}
use kum_de.Bar.{
  BarOutput, ws_count, drop, with_number, scan_number, scan_name, scan_workspace, handle_scanned,
  show_workspace, find_after, scan_flags, put_flags, handle_occupancy, handle_other,
  handle_ipc_message, cut_lines,
}
use kum_de.Ipc.Message.{print_ws, print_flags}
use kum_de.Text.{
  NoLineFeed, lacks, lead, Bytes, codes, after, scan_until, scan_int, skip_space, signed,
  digits_value, bytes_eq,
}

-- A byte that ends neither a JSON text nor a line.
abbrev pub Plain : Bytes → Type 0
Plain s = All (λ c. (c ≢ b'"') × (c ≢ b'\n')) s

-- A name that the bar and the compositor agree on.
abbrev pub Name : Bytes → Type 0
Name s = (0 < length s) × (length s ≤ 63) × Plain s

pub cut_lines-line :
    (line s t : Bytes)
    → All NoLineFeed s
    → cut_lines line (s ++ b'\n' ∷ t) ≡ ((line ++ s) ∷ (cut_lines [] t).0, (cut_lines [] t).1)
unfolding cut_lines
cut_lines-line line [] t a =
    ap (λ l. (l ∷ (cut_lines [] t).0, (cut_lines [] t).1)) (sym (append-nil line))
cut_lines-line line (c ∷ s) t a =
    let rest = cut_lines-line (line ++ c ∷ []) s t a.1 in
    let joined = append_assoc line (c ∷ []) s in grind (arith, rest, joined, a.0)

scan_until-name :
    (n : ℕ) (name t : Bytes)
    → length name ≤ n
    → Plain name
    → scan_until b'"' n (name ++ b'"' ∷ t) ≡ name
unfolding scan_until
scan_until-name zero [] t l p = refl
scan_until-name (suc n) [] t l p = refl
scan_until-name zero (c ∷ name) t l p = absurd (omega arith)
scan_until-name (suc n) (c ∷ name) t l p =
    let rest = scan_until-name n name t (omega arith) p.1 in ground (arith, rest, p.0)

drop-append : (s t : Bytes) → drop (length s) (s ++ t) ≡ t
unfolding drop
drop-append [] t = refl
drop-append (c ∷ s) t = drop-append s t

scan_int-digit : (i : ℕ) (t : Bytes) → i < 10 → scan_int ((b'0' + i) ∷ b'}' ∷ t) ≡ some (pos i)
unfolding scan_int skip_space signed digits_value
scan_int-digit i t l = ground arith

-- The message of a workspace is read as it was printed.
scan_workspace-workspace_message :
    (name : Bytes) (i : ℕ) (t : Bytes)
    → Name name
    → i < 10
    → scan_workspace (
        codes "{\"event\":\"workspace\",\"output\":\""
        ++ (name ++ (codes "\",\"index\":" ++ ((b'0' + i) ∷ b'}' ∷ t))))
      ≡ some (name, pos i)
unfolding scan_workspace scan_name scan_number with_number after
scan_workspace-workspace_message [] i t n l = absurd (omega arith)
scan_workspace-workspace_message (c ∷ name) i t n l =
    let tail = codes ",\"index\":" ++ ((b'0' + i) ∷ b'}' ∷ t) in
    ap (λ s. scan_name s ((c ∷ name) ++ b'"' ∷ tail)) (scan_until-name 63 (c ∷ name) tail n.1 n.2)
    ∙ ap (λ r. scan_number (c ∷ name) (after (codes "\",\"index\":") r))
        (drop-append (c ∷ name) (b'"' ∷ tail))
    ∙ ap (with_number (c ∷ name)) (scan_int-digit i t l)

abbrev pub workspace_line : Bytes → ℕ → Bytes
workspace_line name i =
    codes "{\"event\":\"workspace\",\"output\":\""
    ++ (name ++ (codes "\",\"index\":" ++ ((b'0' + i) ∷ b'}' ∷ [])))

pub handle_ipc_message-workspace_line :
    (name : Bytes) (i : ℕ) (os : List BarOutput)
    → Name name
    → i < 10
    → handle_ipc_message (workspace_line name i) os ≡ show_workspace name (pos i) os
unfolding handle_ipc_message handle_scanned
handle_ipc_message-workspace_line name i os n l =
    let scanned =
      ap (λ r. handle_scanned r (workspace_line name i) os)
        (scan_workspace-workspace_message name i [] n l) in
    scanned ∙ shown (ltb (i + 0) 0) (ground arith)
  where
    shown :
        (b : Bool)
        → b ≡ false
        → (if b then handle_other (workspace_line name i) os else show_workspace name (pos i) os)
          ≡ show_workspace name (pos i) os
    shown b e = rw e

All-Plain : (s : Bytes) → Plain s → All NoLineFeed s
All-Plain s p = All-map s (λ c q. q.1) p

pub workspace_line-line :
    (name : Bytes) (i : ℕ) → Plain name → i < 10 → All NoLineFeed (workspace_line name i)
workspace_line-line name i p l =
    let number : All NoLineFeed ((b'0' + i) ∷ b'}' ∷ []) = (omega arith, (omega arith, tt)) in
    lead (codes "{\"event\":\"workspace\",\"output\":\"") _ refl (
      All-append NoLineFeed name _ (All-Plain name p)
        (lead (codes "\",\"index\":") ((b'0' + i) ∷ b'}' ∷ []) refl number))

-- A message of a title, as the compositor prints it, changes nothing in the bar, whatever the output
-- and the title are.
pub handle_ipc_message-title :
    (rest : Bytes) (os : List BarOutput)
    → handle_ipc_message (codes "{\"event\":\"window_title\",\"output\":\"" ++ rest) os ≡ os
unfolding handle_ipc_message handle_scanned scan_workspace handle_other after bytes_eq
handle_ipc_message-title rest os = refl

scan_flags-print_flags :
    (room : ℕ) (flags : List Bool) (t : Bytes)
    → length flags ≤ room
    → scan_flags room (print_flags flags ++ b']' ∷ t) ≡ flags
unfolding scan_flags print_flags
scan_flags-print_flags zero [] t l = refl
scan_flags-print_flags (suc room) [] t l = refl
scan_flags-print_flags zero (b ∷ flags) t l = absurd (omega arith)
scan_flags-print_flags (suc room) (true ∷ flags) t l =
    ap (λ r. true ∷ r) (scan_flags-print_flags room flags t (omega arith))
scan_flags-print_flags (suc room) (false ∷ flags) t l =
    ap (λ r. false ∷ r) (scan_flags-print_flags room flags t (omega arith))

scan_flags-print_ws :
    (room : ℕ) (flags : List Bool) (t : Bytes)
    → length flags ≤ room
    → scan_flags room (print_ws flags ++ b']' ∷ t) ≡ flags
unfolding scan_flags print_ws
scan_flags-print_ws zero [] t l = refl
scan_flags-print_ws (suc room) [] t l = refl
scan_flags-print_ws zero (b ∷ flags) t l = absurd (omega arith)
scan_flags-print_ws (suc room) (true ∷ flags) t l =
    ap (λ r. true ∷ r) (scan_flags-print_flags room flags t (omega arith))
scan_flags-print_ws (suc room) (false ∷ flags) t l =
    ap (λ r. false ∷ r) (scan_flags-print_flags room flags t (omega arith))

put_flags-same : (flags old : List Bool) → length old ≡ length flags → put_flags flags old ≡ flags
unfolding put_flags
put_flags-same [] [] h = refl
put_flags-same [] (b ∷ old) h = absurd (omega (arith, h))
put_flags-same (b ∷ flags) [] h = absurd (omega (arith, h))
put_flags-same (b ∷ flags) (c ∷ old) h =
    ap (λ r. b ∷ r) (put_flags-same flags old (omega (arith, h)))

abbrev pub occupancy_line : List Bool → Bytes
occupancy_line flags = codes "{\"event\":\"occupancy\",\"ws\":[" ++ (print_ws flags ++ codes "]}")

abbrev pub show_occupancy : List Bool → List BarOutput → List BarOutput
show_occupancy flags [] = []
show_occupancy flags (o ∷ os) =
    record o { occupied_ws = flags; dirty = true } ∷ show_occupancy flags os

map-put_flags :
    (flags : List Bool) (os : List BarOutput)
    → All (λ o. length o.occupied_ws ≡ length flags) os
    → map {A = BarOutput}
        (λ o. record o { occupied_ws = put_flags flags o.occupied_ws; dirty = true })
        os
      ≡ show_occupancy flags os
map-put_flags flags [] a = refl
map-put_flags flags (o ∷ os) a =
    ap
      (λ r.
        record o { occupied_ws = r; dirty = true }
        ∷ map {A = BarOutput}
            (λ q. record q { occupied_ws = put_flags flags q.occupied_ws; dirty = true }) os)
      (put_flags-same flags o.occupied_ws a.0)
    ∙ ap (λ rest. record o { occupied_ws = flags; dirty = true } ∷ rest)
        (map-put_flags flags os a.1)

pub handle_ipc_message-occupancy_line :
    (flags : List Bool) (os : List BarOutput)
    → length flags ≤ ws_count
    → All (λ o. length o.occupied_ws ≡ length flags) os
    → handle_ipc_message (occupancy_line flags) os ≡ show_occupancy flags os
unfolding handle_ipc_message handle_scanned scan_workspace handle_other handle_occupancy after
    find_after bytes_eq
handle_ipc_message-occupancy_line flags os l a =
    ap
      (λ fs.
        map {A = BarOutput}
          (λ o. record o { occupied_ws = put_flags fs o.occupied_ws; dirty = true }) os)
      (scan_flags-print_ws ws_count flags (codes "}") l)
    ∙ map-put_flags flags os a

print_flags-line : (flags : List Bool) → All NoLineFeed (print_flags flags)
unfolding print_flags
print_flags-line [] = tt
print_flags-line (true ∷ flags) = (omega arith, (omega arith, print_flags-line flags))
print_flags-line (false ∷ flags) = (omega arith, (omega arith, print_flags-line flags))

print_ws-line : (flags : List Bool) → All NoLineFeed (print_ws flags)
unfolding print_ws
print_ws-line [] = tt
print_ws-line (true ∷ flags) = (omega arith, print_flags-line flags)
print_ws-line (false ∷ flags) = (omega arith, print_flags-line flags)

pub occupancy_line-line : (flags : List Bool) → All NoLineFeed (occupancy_line flags)
occupancy_line-line flags = lead (codes "{\"event\":\"occupancy\",\"ws\":[") _ refl (
    All-append NoLineFeed (print_ws flags) (codes "]}") (print_ws-line flags)
      (lacks (codes "]}") refl))
