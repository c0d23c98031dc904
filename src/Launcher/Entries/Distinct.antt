-- ===== src/Launcher/Entries/Distinct.antt =====
-- The table of programs that kumlauncher/src/main.c fills.
use kum_de.Base.{
  ◌<◌, ◌≤◌, ◌≡◌, refl, ◌≢◌, Bool, true, false, not, ◌||◌, List, [], ◌∷◌, ◌++◌, Option, none, some,
  length, take-all, any, leb, ltb, arith, All, length-append, All-append, if◌then◌else◌,
}
use kum_de.Launcher.{Entry, max_entries}
use kum_de.Launcher.Entries.{
  Reading, same_name, known_as, is_unset, strip_field_codes, add_entry, parse_desktop_file,
  add_path_entry, is_hidden, collect_path_entries, collect_desktop_entries, read_lines, blank,
}
use kum_de.Text.{Bytes, bytes_eq, bytes_eq_iff, copied}

-- When both are of desktop files, or both of `PATH`, the names differ.
abbrev pub Differs : Entry → Entry → Type 0
Differs e other = e.from_desktop ≡ other.from_desktop → e.name ≢ other.name

-- The names differ among the entries of desktop files and among those of `PATH`.
abbrev pub Distinct : List Entry → Type 0
Distinct [] = Unit
Distinct (e ∷ es) = All (Differs e) es × Distinct es

Distinct-snoc :
    (es : List Entry) (e : Entry)
    → Distinct es
    → All (λ other. Differs other e) es
    → Distinct (es ++ e ∷ [])
Distinct-snoc [] e d a = (tt, tt)
Distinct-snoc (x ∷ es) e d a =
    (All-append (Differs x) es (e ∷ []) d.0 (a.0, tt), Distinct-snoc es e d.1 a.1)

-- A test that holds of no element.
any-All :
    {P : Entry → Type 0} (p : Entry → Bool) (es : List Entry)
    → ((e : Entry) → p e ≡ false → P e)
    → any p es ≡ false
    → All P es
any-All p [] f h = tt
any-All p (e ∷ es) f h = (f e (ground arith), any-All p es f (ground arith))

names_differ : (a b : Bytes) → bytes_eq a b ≡ false → a ≢ b
names_differ a b h e = let same = (bytes_eq_iff a b).1 e in absurd (cc)

-- The table never outgrows its array, and no name stands twice in it for the same kind of entry.
pub record Table (es : List Entry) : Type 0 where
  pub fits : length es ≤ max_entries
  pub distinct : Distinct es

Table-snoc :
    (es : List Entry) (e : Entry)
    → Table es
    → length es < max_entries
    → All (λ other. Differs other e) es
    → Table (es ++ e ∷ [])
Table-snoc es e t l a =
    let sum = length-append es (e ∷ []) in
    record { fits = omega (arith, sum); distinct = Distinct-snoc es e t.distinct a }

add_entry-Table :
    (r : Reading) (es : List Entry) → Table es → length es < max_entries → Table (add_entry r es)
unfolding add_entry
add_entry-Table r es t l =
    go (not r.in_entry || is_unset r.entry.name || is_unset r.entry.exec || r.no_display)
      (any (same_name e) es) refl
  where
    e : Entry
    e = record r.entry { exec = strip_field_codes r.entry.exec }

    go :
        (b c : Bool)
        → any (same_name e) es ≡ c
        → Table (if b then es else if c then es else es ++ e ∷ [])
    go true c h = t
    go false true h = t
    go false false h =
        Table-snoc es e t l
          (any-All (same_name e) es (λ other f kind. names_differ other.name e.name f) h)

parse_desktop_file-Table :
    (lines : List Bytes) (es : List Entry) → Table es → Table (parse_desktop_file lines es)
unfolding parse_desktop_file
parse_desktop_file-Table lines es t = go _ (read_lines lines blank) refl
  where
    go :
        (b : Bool) (o : Option Reading)
        → leb max_entries (length es) ≡ b
        → Table (if b then es else elim o [ none ↦ es | some r ↦ add_entry r es ])
    go true o h = t
    go false none h = t
    go false (some r) h = add_entry-Table r es t (ground arith)

-- From any such table, whatever the desktop files hold, their entries are added without outgrowing
-- the array of 1024 entries and without a second desktop entry of one name.
pub collect_desktop_entries-Table :
    (files : List (List Bytes)) (es : List Entry)
    → Table es
    → Table (collect_desktop_entries files es)
unfolding collect_desktop_entries
collect_desktop_entries-Table [] es t = t
collect_desktop_entries-Table (lines ∷ files) es t =
    go _ (collect_desktop_entries-Table files _ (parse_desktop_file-Table lines es t))
  where
    go :
        (b : Bool)
        → Table (collect_desktop_entries files (parse_desktop_file lines es))
        → Table (if b then collect_desktop_entries files (parse_desktop_file lines es) else es)
    go true h = h
    go false h = t

add_path_entry-Table :
    (d_name : Bytes) (executable : Bool) (es : List Entry)
    → length d_name ≤ 255
    → Table es
    → length es < max_entries
    → Table (add_path_entry d_name executable es)
unfolding add_path_entry
add_path_entry-Table d_name executable es s t l =
    go (any (λ other. bytes_eq (known_as other) d_name) es) (not executable) refl
  where
    e : Entry
    e = record {
      name = copied 255 d_name;
      exec = copied 511 d_name;
      comment = [];
      from_desktop = false;
    }

    apart : (other : Entry) → bytes_eq (known_as other) d_name ≡ false → Differs other e
    apart other f kind same =
        let whole = take-all 255 d_name s in
        names_differ (known_as other) d_name f (ground (arith, whole))

    go :
        (b c : Bool)
        → any (λ other. bytes_eq (known_as other) d_name) es ≡ b
        → Table (if b || c then es else es ++ e ∷ [])
    go true c h = t
    go false true h = t
    go false false h = Table-snoc es e t l (any-All _ es apart h)

-- From any such table, and for file names of at most 255 bytes, the programs of `PATH` are added
-- without outgrowing the array and without a second entry of one name among them.
pub collect_path_entries-Table :
    (files : List (Bytes × Bool)) (es : List Entry)
    → All (λ file. length file.0 ≤ 255) files
    → Table es
    → Table (collect_path_entries files es)
unfolding collect_path_entries
collect_path_entries-Table [] es s t = t
collect_path_entries-Table ((d_name, executable) ∷ files) es s t =
    go (ltb (length es) max_entries) (is_hidden d_name) refl
      (collect_path_entries-Table files es s.1 t)
      (λ l.
        collect_path_entries-Table files _ s.1 (add_path_entry-Table d_name executable es s.0 t l))
  where
    go :
        (b c : Bool)
        → ltb (length es) max_entries ≡ b
        → Table (collect_path_entries files es)
        → (length es < max_entries
            → Table (collect_path_entries files (add_path_entry d_name executable es)))
        → Table (
            if not b
            then es
            else if c
            then collect_path_entries files es
            else collect_path_entries files (add_path_entry d_name executable es))
    go false c h skipped added = t
    go true true h skipped added = skipped
    go true false h skipped added = added (ground arith)

-- If every file name in the directories of `PATH` has at most 255 bytes, the table that the launcher
-- starts with, of the desktop files and then the programs of `PATH`, has at most 1024 entries, no two
-- entries of desktop files in it have one name, and no two programs of `PATH` have one name.
pub Table-start :
    (desktop : List (List Bytes)) (files : List (Bytes × Bool))
    → All (λ file. length file.0 ≤ 255) files
    → Table (collect_path_entries files (collect_desktop_entries desktop []))
Table-start desktop files s =
    collect_path_entries-Table files _ s
      (collect_desktop_entries-Table desktop [] record { fits = omega arith; distinct = tt })
