-- ===== src/Launcher/Entries.antt =====
-- kumlauncher/src/main.c: the programs that the launcher offers, from the lines of desktop files, as
-- `fgets` gives them, and from the names in the directories of `PATH`.
pub mod Distinct
pub mod FieldCodes
use kum_de.Base.{
  ℕ, zero, suc, ◌-◌, Bool, true, false, not, ◌&&◌, ◌||◌, List, [], ◌∷◌, ◌++◌, Option, none, some,
  length, any, leb, ltb, ◌==◌, if◌then◌else◌,
}
use kum_de.Launcher.{Entry, max_entries}
use kum_de.Text.{Bytes, codes, bytes_eq, after, trim, split_at, copied}

-- The loop of `strip_field_codes`, where `room` is 510 less `j`.
unfoldable pub strip_loop : ℕ → Bytes → Bytes
strip_loop room [] = []
strip_loop zero (c ∷ s) = []
strip_loop (suc room) (c ∷ []) = c ∷ []
strip_loop (suc room) (c ∷ d ∷ s) =
    if c == b'%' then strip_loop (suc room) s else c ∷ strip_loop room (d ∷ s)

unfoldable pub strip_field_codes : Bytes → Bytes
unfolding strip_loop
strip_field_codes exec = trim (strip_loop 510 exec)

-- The variables of the loop over the lines of a desktop file.
pub record Reading : Type 0 where
  pub in_entry : Bool
  pub no_display : Bool
  pub entry : Entry

-- What a line does: the loop goes on, it ends, or the function returns.
pub data Line : Type 0 where
  go_on : Reading → Line
  stop : Reading → Line
  refused : Line

-- `e.name[0] == '\0'`
abbrev pub is_unset : Bytes → Bool
is_unset [] = true
is_unset (c ∷ s) = false

-- The chain of `strcmp`s over one key and its value.
unfoldable pub read_key : Bytes → Bytes → Reading → Line
read_key key val r =
    if bytes_eq key (codes "Name") && is_unset r.entry.name
    then go_on (record r { entry = record r.entry { name = copied 255 val } })
    else if bytes_eq key (codes "Exec") && is_unset r.entry.exec
    then go_on (record r { entry = record r.entry { exec = copied 511 val } })
    else if bytes_eq key (codes "Comment") && is_unset r.entry.comment
    then go_on (record r { entry = record r.entry { comment = copied 255 val } })
    else if bytes_eq key (codes "NoDisplay")
    then go_on (record r { no_display = bytes_eq val (codes "true") })
    else if bytes_eq key (codes "Type") && not (bytes_eq val (codes "Application"))
    then refused
    else go_on r

-- A line that starts with `[`.
unfoldable pub read_header : Bytes → Reading → Line
read_header s r = elim (after (codes "[Desktop Entry]") s) [
  | some _ ↦ go_on (record r { in_entry = true })
  | none ↦ if r.in_entry then stop r else go_on r
]

unfoldable pub read_line : Bytes → Reading → Line
unfolding read_key read_header
read_line line r = elim (trim line) [
  | [] ↦ go_on r
  | c ∷ s ↦
      if c == b'['
      then read_header (c ∷ s) r
      else if not r.in_entry || c == b'#'
      then go_on r
      else elim (split_at b'=' (c ∷ s)) [
        | none ↦ go_on r
        | some (key, val) ↦ read_key (trim key) (trim val) r
      ]
]

unfoldable pub read_lines : List Bytes → Reading → Option Reading
unfolding read_line
read_lines [] r = some r
read_lines (line ∷ lines) r = elim (read_line line r) [
  | go_on q ↦ read_lines lines q
  | stop q ↦ some q
  | refused ↦ none
]

abbrev pub blank : Reading
blank = record {
  in_entry = false;
  no_display = false;
  entry = record { name = []; exec = []; comment = []; from_desktop = true };
}

abbrev pub same_name : Entry → Entry → Bool
same_name e other = bytes_eq other.name e.name

-- The end of `parse_desktop_file`: a program that is not shown, or whose name is there, is dropped.
unfoldable pub add_entry : Reading → List Entry → List Entry
add_entry r entries =
    let e : Entry = record r.entry { exec = strip_field_codes r.entry.exec } in
    if not r.in_entry || is_unset r.entry.name || is_unset r.entry.exec || r.no_display
    then entries
    else if any (same_name e) entries
    then entries
    else entries ++ e ∷ []

unfoldable pub parse_desktop_file : List Bytes → List Entry → List Entry
unfolding read_lines add_entry
parse_desktop_file lines entries =
    if leb max_entries (length entries)
    then entries
    else elim (read_lines lines blank) [ none ↦ entries | some r ↦ add_entry r entries ]

-- The text that a file name is compared with.
abbrev pub known_as : Entry → Bytes
known_as e = if e.from_desktop then e.exec else e.name

-- The body of the loop of `collect_path_entries` at a file: its name and whether `stat` says that its
-- owner may execute it. A name has at most 255 bytes.
unfoldable pub add_path_entry : Bytes → Bool → List Entry → List Entry
add_path_entry d_name executable entries =
    let e : Entry = record {
      name = copied 255 d_name;
      exec = copied 511 d_name;
      comment = [];
      from_desktop = false;
    } in
    if any (λ other. bytes_eq (known_as other) d_name) entries || not executable
    then entries
    else entries ++ e ∷ []

unfoldable pub is_hidden : Bytes → Bool
is_hidden [] = false
is_hidden (c ∷ s) = c == b'.'

-- The files of the directories, in the order of `readdir`.
unfoldable pub collect_path_entries : List (Bytes × Bool) → List Entry → List Entry
unfolding add_path_entry is_hidden
collect_path_entries [] entries = entries
collect_path_entries ((d_name, executable) ∷ files) entries =
    let skipped = collect_path_entries files entries in
    let added = collect_path_entries files (add_path_entry d_name executable entries) in
    if not (ltb (length entries) max_entries)
    then entries
    else if is_hidden d_name
    then skipped
    else added

-- The desktop files of the directories, in the order of `readdir`, each with its lines.
unfoldable pub collect_desktop_entries : List (List Bytes) → List Entry → List Entry
unfolding parse_desktop_file
collect_desktop_entries [] entries = entries
collect_desktop_entries (lines ∷ files) entries =
    let rest = collect_desktop_entries files (parse_desktop_file lines entries) in
    if ltb (length entries) max_entries then rest else entries
