-- ===== src/Tests/Launcher.antt =====
-- The launcher on three programs.
use kum_de.Base.{map, ◌≤◌, ◌≡◌, refl, true, false, List, [], ◌∷◌, ◌++◌, some, inr, length, arith}
use kum_de.Base.Int.{pos, negsuc, ◌≤ℤ◌, ◌+ℤ◌, ltb_ℤ}
use kum_de.Launcher.{
  to_lower, typed, c_string, Event, Entry, App, key, down, moved, scrolled, clicked, search_entries,
  all_loop, prefix_loop, substring_loop, begins_with, contains, handle_events,
}
use kum_de.Launcher.Entries.{strip_field_codes, collect_path_entries, collect_desktop_entries}
use kum_de.Launcher.Entries.Distinct.{Table, Table-start}
use kum_de.Launcher.Entries.FieldCodes.{NoCode, strip_field_codes-NoCode, strip_field_codes-trim}
use kum_de.Launcher.Filter.{places, begins, inside, search_entries-places}
use kum_de.Launcher.Order.{Opposite, entry_cmp, entry_cmp-preorder}
use kum_de.Launcher.Selection.{Sound, Launches, launch_selected-Launches}
use kum_de.Launcher.Selection.Events.{handle_events-Sound}
use kum_de.Text.{Bytes, codes, trim}

abbrev program : Bytes → Entry
program name = record { name = name; exec = name; comment = []; from_desktop = true }

abbrev programs : List Entry
programs = program (codes "Firefox") ∷ program (codes "GIMP") ∷ program (codes "xfig") ∷ []

abbrev fresh : App
fresh = record {
  entries = programs;
  query = codes "FI";
  filtered = 0 ∷ 2 ∷ [];
  selected = pos 0;
  scroll = pos 0;
  pointer_y = pos 0;
  running = true;
  launched = [];
}

search_entries-places_example :
    search_entries (codes "FI") programs
    ≡ places (begins (codes "FI")) 0 programs ++ places (inside (codes "FI")) 0 programs
search_entries-places_example = search_entries-places (codes "FI") programs

fresh-search : fresh.filtered ≡ search_entries fresh.query fresh.entries
unfolding search_entries all_loop prefix_loop substring_loop begins_with contains c_string
fresh-search = refl

fresh-Sound : Sound fresh
unfolding ◌+ℤ◌
fresh-Sound = record {
  current = fresh-search;
  room = omega arith;
  page = inr (omega arith, omega arith, refl, refl);
}

-- A letter, a key without a text, and the keys and the pointer.
abbrev session : List Event
session =
    key (typed 1 (codes "f       "))
    ∷ key (typed 0 [])
    ∷ key down
    ∷ scrolled (negsuc 0)
    ∷ moved (pos 20000)
    ∷ clicked
    ∷ []

handle_events-Sound_example : (b : App) × (handle_events session fresh ≡ some b) × Sound b
handle_events-Sound_example =
    handle_events-Sound session fresh (omega arith, (omega arith, (tt, (tt, (tt, (tt, tt))))))
      fresh-Sound

launch_selected-Launches_example : Launches fresh
launch_selected-Launches_example = launch_selected-Launches fresh fresh-Sound (omega arith)

Table-start_example : Table (
    collect_path_entries ((codes "ls", true) ∷ (codes "ls", true) ∷ (codes "cat", false) ∷ []) (
      collect_desktop_entries
        ((codes "[Desktop Entry]" ∷ codes "Name=GIMP" ∷ codes "Exec=gimp %U" ∷ []) ∷ [])
        []))
Table-start_example =
    Table-start ((codes "[Desktop Entry]" ∷ codes "Name=GIMP" ∷ codes "Exec=gimp %U" ∷ []) ∷ [])
      ((codes "ls", true) ∷ (codes "ls", true) ∷ (codes "cat", false) ∷ [])
      (omega arith, (omega arith, (omega arith, tt)))

strip_field_codes-NoCode_example :
    NoCode (strip_field_codes (codes "gimp %U -n"))
    × (length (strip_field_codes (codes "gimp %U -n")) ≤ 510)
strip_field_codes-NoCode_example = strip_field_codes-NoCode (codes "gimp %U -n")

strip_field_codes-trim_example : strip_field_codes (codes " ls -l") ≡ trim (codes " ls -l")
strip_field_codes-trim_example =
    strip_field_codes-trim (codes " ls -l") (omega arith)
      (omega arith, (omega arith, (omega arith, (omega arith, (omega arith, (omega arith, tt))))))

abbrev from_path : Entry
from_path = record (program (codes "B")) { from_desktop = false }

entry_cmp-preorder_example :
    (entry_cmp (program (codes "a")) from_path ≤ℤ pos 0
      → entry_cmp from_path (program (codes "c")) ≤ℤ pos 0
      → entry_cmp (program (codes "a")) (program (codes "c")) ≤ℤ pos 0)
    × Opposite
        (entry_cmp (program (codes "a")) from_path)
        (entry_cmp from_path (program (codes "a")))
    × (entry_cmp (program (codes "a")) from_path ≡ pos 0
        → ((program (codes "a")).from_desktop ≡ from_path.from_desktop)
          × (map to_lower (codes "a") ≡ map to_lower (codes "B")))
    × ((program (codes "a")).from_desktop ≡ true
        → from_path.from_desktop ≡ false
        → ltb_ℤ (entry_cmp (program (codes "a")) from_path) (pos 0) ≡ true)
entry_cmp-preorder_example =
    entry_cmp-preorder (program (codes "a")) from_path (program (codes "c")) (omega arith, tt)
      (omega arith, tt) (omega arith, tt)
