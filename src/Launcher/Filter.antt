-- ===== src/Launcher/Filter.antt =====
-- What `filter_entries` of kumlauncher/src/main.c shows, by a description without its loops.
use mathlib.Core.Path.{subst}
use mathlib.Core.List.{append_assoc, append-nil}
use kum_de.Base.{
  ℕ, ◌+◌, ◌≤◌, ◌<◌, ◌≡◌, refl, sym, ◌∙◌, ap, Bool, true, false, not, ◌&&◌, List, [], ◌∷◌, ◌++◌,
  some, length, get_elem?, any, All-append, All-map, get_elem?-length, ◌==◌, if◌then◌else◌, arith,
  length-append, All,
}
use kum_de.Launcher.{
  Entry, begins_with, contains, c_string, all_loop, prefix_loop, substring_loop, search_entries,
}
use kum_de.Text.{Bytes}

-- The indices, from `i` on, of the entries that pass a test.
unfoldable pub places : (Entry → Bool) → ℕ → List Entry → List ℕ
places p i [] = []
places p i (e ∷ es) = if p e then i ∷ places p (i + 1) es else places p (i + 1) es

abbrev pub begins : Bytes → Entry → Bool
begins query e = begins_with query e.name

abbrev pub inside : Bytes → Entry → Bool
inside query e = not (begins_with query e.name) && contains (c_string query) e.name

all_loop-places :
    (i : ℕ) (es : List Entry) (filtered : List ℕ)
    → all_loop i es filtered ≡ filtered ++ places (begins []) i es
unfolding all_loop places begins_with
all_loop-places i [] filtered = sym (append-nil filtered)
all_loop-places i (e ∷ es) filtered =
    all_loop-places (i + 1) es (filtered ++ i ∷ [])
    ∙ append_assoc filtered (i ∷ []) (places (begins []) (i + 1) es)

prefix_loop-places :
    (query : Bytes) (i : ℕ) (es : List Entry) (filtered : List ℕ)
    → prefix_loop query i es filtered ≡ filtered ++ places (begins query) i es
unfolding prefix_loop places
prefix_loop-places query i [] filtered = sym (append-nil filtered)
prefix_loop-places query i (e ∷ es) filtered =
    let rest = prefix_loop-places query (i + 1) es in
    let joined = append_assoc filtered (i ∷ []) (places (begins query) (i + 1) es) in
    grind (arith, rest, joined)

-- The list has the index of an entry, which is numbered from `i` on, exactly when the test holds of it.
abbrev Marked : (Entry → Bool) → ℕ → List Entry → List ℕ → Type 0
Marked p i [] filtered = Unit
Marked p i (e ∷ es) filtered = (any (λ j. j == i) filtered ≡ p e) × Marked p (i + 1) es filtered

Marked-cons :
    (p : Entry → Bool) (i j : ℕ) (es : List Entry) (filtered : List ℕ)
    → j < i
    → Marked p i es filtered
    → Marked p i es (j ∷ filtered)
Marked-cons p i j [] filtered l m = tt
Marked-cons p i j (e ∷ es) filtered l m =
    (ground (arith, m.0), Marked-cons p (i + 1) j es filtered (omega arith) m.1)

any-snoc :
    (i j : ℕ) (filtered : List ℕ)
    → j < i
    → any (λ k. k == i) (filtered ++ j ∷ []) ≡ any (λ k. k == i) filtered
any-snoc i j [] l = ground arith
any-snoc i j (k ∷ filtered) l = ground (arith, any-snoc i j filtered l)

Marked-snoc :
    (p : Entry → Bool) (i j : ℕ) (es : List Entry) (filtered : List ℕ)
    → j < i
    → Marked p i es filtered
    → Marked p i es (filtered ++ j ∷ [])
Marked-snoc p i j [] filtered l m = tt
Marked-snoc p i j (e ∷ es) filtered l m =
    (any-snoc i j filtered l ∙ m.0, Marked-snoc p (i + 1) j es filtered (omega arith) m.1)

any-places :
    (p : Entry → Bool) (i j : ℕ) (es : List Entry)
    → j < i
    → any (λ k. k == j) (places p i es) ≡ false
unfolding places
any-places p i j [] l = refl
any-places p i j (e ∷ es) l =
    let rest = any-places p (i + 1) j es (omega arith) in ground (arith, rest)

Marked-places : (p : Entry → Bool) (i : ℕ) (es : List Entry) → Marked p i es (places p i es)
unfolding places
Marked-places p i [] = tt
Marked-places p i (e ∷ es) = go (p e) refl (Marked-places p (i + 1) es)
  where
    go :
        (b : Bool)
        → p e ≡ b
        → Marked p (i + 1) es (places p (i + 1) es)
        → Marked p i (e ∷ es) (if b then i ∷ places p (i + 1) es else places p (i + 1) es)
    go true h m = (ground arith, Marked-cons p (i + 1) i es _ (omega arith) m)
    go false h m = (any-places p (i + 1) i es (omega arith) ∙ sym h, m)

substring_loop-places :
    (query : Bytes) (i : ℕ) (es : List Entry) (filtered : List ℕ)
    → Marked (begins query) i es filtered
    → substring_loop query i es filtered ≡ filtered ++ places (inside query) i es
unfolding substring_loop places
substring_loop-places query i [] filtered m = sym (append-nil filtered)
substring_loop-places query i (e ∷ es) filtered m =
    let kept = substring_loop-places query (i + 1) es filtered m.1 in
    let more =
      substring_loop-places query (i + 1) es (filtered ++ i ∷ [])
        (Marked-snoc (begins query) (i + 1) i es filtered (omega arith) m.1) in
    let joined = append_assoc filtered (i ∷ []) (places (inside query) (i + 1) es) in
    let seen = m.0 in grind (arith, kept, more, joined, seen)

places-none : (i : ℕ) (es : List Entry) → places (inside []) i es ≡ []
unfolding places begins_with
places-none i [] = refl
places-none i (e ∷ es) = places-none (i + 1) es

-- For every query and every table of entries, the search of the launcher lists the indices of the
-- entries whose name begins with the query, in the order of the table, and behind them those of the
-- other entries whose name contains the query, in the order of the table. Case is ignored. The first
-- test, as `strncasecmp`, compares a NUL in the query with the end of the name, and the second one, as
-- `strcasestr`, reads the query up to its first NUL.
pub search_entries-places :
    (query : Bytes) (entries : List Entry)
    → search_entries query entries
      ≡ places (begins query) 0 entries ++ places (inside query) 0 entries
unfolding search_entries
search_entries-places [] entries =
    all_loop-places 0 entries []
    ∙ sym (ap (λ r. places (begins []) 0 entries ++ r) (places-none 0 entries) ∙ append-nil _)
search_entries-places (c ∷ query) entries =
    let first = prefix_loop-places (c ∷ query) 0 entries [] in
    let second =
      substring_loop-places (c ∷ query) 0 entries _
        (Marked-places (begins (c ∷ query)) 0 entries) in
    let both = ap (substring_loop (c ∷ query) 0 entries) first ∙ second in ground (arith, both)

-- Two tests that exclude each other list at most as many indices as there are entries.
places-length :
    (p q : Entry → Bool) (i : ℕ) (es : List Entry)
    → ((e : Entry) → p e && q e ≡ false)
    → length (places p i es) + length (places q i es) ≤ length es
unfolding places
places-length p q i [] h = omega arith
places-length p q i (e ∷ es) h =
    let rest = places-length p q (i + 1) es h in let apart = h e in ground (arith, rest, apart)

-- An index that the search may list: that of an entry whose name has the query in it.
abbrev pub Shows : (Entry → Bool) → List Entry → ℕ → Type 0
Shows p entries j = (e : Entry) × (get_elem? entries j ≡ some e) × (p e ≡ true)

Shows-places :
    (p : Entry → Bool) (front es : List Entry)
    → All (Shows p (front ++ es)) (places p (length front) es)
unfolding places
Shows-places p front [] = tt
Shows-places p front (e ∷ es) = go (p e) refl (
    subst (λ n. All (Shows p (front ++ e ∷ es)) (places p n es)) (length-append front (e ∷ []))
      (subst (λ xs. All (Shows p xs) (places p (length (front ++ e ∷ [])) es))
        (append_assoc front (e ∷ []) es) (Shows-places p (front ++ e ∷ []) es)))
  where
    go :
        (b : Bool)
        → p e ≡ b
        → All (Shows p (front ++ e ∷ es)) (places p (length front + 1) es)
        → All (Shows p (front ++ e ∷ es)) (
            if b
            then length front ∷ places p (length front + 1) es
            else places p (length front + 1) es)
    go true h rest = ((e, get_elem?-length front e es, h), rest)
    go false h rest = rest

-- Where the buffer matches, the string in it does.
begins_with-c_string :
    (query s : Bytes) → begins_with query s ≡ true → begins_with (c_string query) s ≡ true
unfolding begins_with c_string
begins_with-c_string [] s h = refl
begins_with-c_string (p ∷ query) [] h = rw h refl
begins_with-c_string (p ∷ query) (c ∷ s) h = go (p == 0) (begins_with-c_string query s)
  where
    go :
        (b : Bool)
        → (begins_with query s ≡ true → begins_with (c_string query) s ≡ true)
        → begins_with (if b then [] else p ∷ c_string query) (c ∷ s) ≡ true
    go true rest = refl
    go false rest = ground (arith, h, rest)

contains-begins :
    (query s : Bytes) → begins_with query s ≡ true → contains (c_string query) s ≡ true
unfolding contains
contains-begins query [] h = begins_with-c_string query [] h
contains-begins query (c ∷ s) h =
    let string = begins_with-c_string query (c ∷ s) h in ground (arith, string)

abbrev pub matches : Bytes → Entry → Bool
matches query e = contains (c_string query) e.name

-- The search lists only entries whose name has the query in it.
pub search_entries-Shows :
    (query : Bytes) (entries : List Entry)
    → All (Shows (matches query) entries) (search_entries query entries)
search_entries-Shows query entries =
    subst (All (Shows (matches query) entries)) (sym (search_entries-places query entries)) (
      All-append _ (places (begins query) 0 entries) (places (inside query) 0 entries)
        (All-map _ (λ j (e, f, h). (e, f, contains-begins query e.name h))
          (Shows-places (begins query) [] entries))
        (All-map _ (λ j (e, f, h). (e, f, ground arith)) (Shows-places (inside query) [] entries)))

pub search_entries-length :
    (query : Bytes) (entries : List Entry) → length (search_entries query entries) ≤ length entries
search_entries-length query entries =
    let same = ap length (search_entries-places query entries) in
    let sum = length-append (places (begins query) 0 entries) (places (inside query) 0 entries) in
    let most = places-length (begins query) (inside query) 0 entries (λ e. ground arith) in
    omega (arith, same, sum, most)
