-- ===== src/Config/Bounds/Lines.antt =====
-- The lines of the file of src/conf.c.
use kum_de.Base.{
  ap, ℕ, zero, suc, ◌≤◌, ◌≡◌, refl, Bool, true, false, List, [], ◌∷◌, ◌++◌, Option, none, some,
  length, ltb, ◌==◌, if◌then◌else◌, arith, length-append, All, All-append, ◌<◌, length-take-le,
}
use kum_de.OutputConfig.{apply_output, parse_bool, scan_refresh}
use kum_de.Config.Bounds.{Room, Bounded, apply_input-Bounded, apply_global-Bounded}
use kum_de.Config.{
  Reals, Entry, RuntimeConfig, Section, global, input, rules, output, apply_at, blank_output,
  open_output, open_section, apply_entry, read_line, load_lines, kum_config_load,
}
use kum_de.Rules.Load.{scan_pair}
use kum_de.Text.{bytes_eq, copied, Bytes, codes, after, trim, split_at, scan_until, skip_space}

length-apply_at :
    (r : Reals) (i : ℕ) (key val : Bytes) (os : List (Bytes × Entry r))
    → length (apply_at r i key val os) ≡ length os
unfolding apply_at
length-apply_at r i key val [] = refl
length-apply_at r zero key val (o ∷ os) = refl
length-apply_at r (suc i) key val (o ∷ os) = ap suc (length-apply_at r i key val os)

Room-apply_output :
    (r : Reals) (key val : Bytes) (e : Entry r)
    → length e.transform < 16
    → length (apply_output r.Real r.atof r.positive r.one key val e).transform < 16
unfolding apply_output
Room-apply_output r key val e h =
    let short = length-take-le 15 val in
    chain (bytes_eq key (codes "mode")) (bytes_eq key (codes "pos")) (bytes_eq key (codes "scale"))
      (bytes_eq key (codes "transform")) (bytes_eq key (codes "enabled")) (omega (arith, short))
  where
    chain :
        (t0 t1 t2 t3 t4 : Bool)
        → length (copied 15 val) < 16
        → (let oc : Entry r = record e {
          scale = if r.positive e.scale then e.scale else r.one;
          enabled = true;
        } in
            let f : Entry r =
              if t0
              then (let p = scan_pair b'x' val oc.width oc.height in
                  record oc { width = p.0; height = p.1; refresh = scan_refresh val })
              else if t1
              then (let p = scan_pair b',' val oc.x oc.y in record oc { x = p.0; y = p.1 })
              else if t2
              then record oc { scale = r.atof val }
              else if t3
              then record oc { transform = copied 15 val }
              else if t4
              then record oc { enabled = parse_bool val }
              else oc in
            length f.transform < 16)
    chain true _ _ _ _ s = h
    chain false true _ _ _ s = h
    chain false false true _ _ s = h
    chain false false false true _ s = s
    chain false false false false true s = h
    chain false false false false false s = h

Room-apply_at :
    (r : Reals) (i : ℕ) (key val : Bytes) (os : List (Bytes × Entry r))
    → All (Room r) os
    → All (Room r) (apply_at r i key val os)
unfolding apply_at
Room-apply_at r i key val [] h = tt
Room-apply_at r zero key val (o ∷ os) h = ((h.0.0, Room-apply_output r key val o.1 h.0.1), h.1)
Room-apply_at r (suc i) key val (o ∷ os) h = (h.0, Room-apply_at r i key val os h.1)

length-scan_until : (n : ℕ) (s : Bytes) → length (scan_until b']' n s) ≤ n
unfolding scan_until
length-scan_until n [] = omega arith
length-scan_until zero (c ∷ s) = omega arith
length-scan_until (suc n) (c ∷ s) = let rest = length-scan_until n s in ground (arith, rest)

module _ {r : Reals} where
  with_outputs :
      (c : RuntimeConfig r) (os : List (Bytes × Entry r))
      → Bounded c
      → length os ≤ 8
      → All (Room r) os
      → Bounded (record c { output_configs = os })
  with_outputs c os b h texts = record {
    terminal = b.terminal;
    kb_layout = b.kb_layout;
    kb_variant = b.kb_variant;
    kb_model = b.kb_model;
    kb_options = b.kb_options;
    autostart = b.autostart;
    commands = b.commands;
    output_configs = h;
    output_texts = texts;
  }

  apply_entry-Bounded :
      (section : Section) (key val : Bytes) (c : RuntimeConfig r)
      → Bounded c
      → Bounded (apply_entry section key val c)
  unfolding apply_entry
  apply_entry-Bounded global key val c b = apply_global-Bounded key val c b
  apply_entry-Bounded input key val c b = apply_input-Bounded key val c b
  apply_entry-Bounded rules key val c b = b
  apply_entry-Bounded (output none) key val c b = b
  apply_entry-Bounded (output (some i)) key val c b =
      let same = length-apply_at r i key val c.output_configs in
      let few = b.output_configs in
      with_outputs c _ b (omega (arith, same, few))
        (Room-apply_at r i key val c.output_configs b.output_texts)

  open_output-Bounded :
      (rest : Bytes) (c : RuntimeConfig r) → Bounded c → Bounded (open_output rest c).1
  unfolding open_output
  open_output-Bounded rest c b = go _ refl
    where
      one_more : List (Bytes × Entry r)
      one_more = c.output_configs ++ (scan_until b']' 63 (skip_space rest), blank_output r) ∷ []

      go :
          (t : Bool)
          → t ≡ ltb (length c.output_configs) 8
          → (let p : Section × RuntimeConfig r =
                if t
                then (
                  output (some (length c.output_configs)),
                  record c {
                    output_configs =
                        c.output_configs
                        ++ (scan_until b']' 63 (skip_space rest), blank_output r) ∷ [];
                  },
                )
                else (output none, c) in
              Bounded p.1)
      go true e =
          let sum =
            length-append c.output_configs
              ((scan_until b']' 63 (skip_space rest), blank_output r) ∷ []) in
          let short = length-scan_until 63 (skip_space rest) in
          with_outputs c _ b (ground (arith, sum, e)) (
            All-append (Room r) c.output_configs
              ((scan_until b']' 63 (skip_space rest), blank_output r) ∷ []) b.output_texts
              ((omega (arith, short), omega arith), tt))
      go false e = b

  open_section-Bounded :
      (s : Bytes) (c : RuntimeConfig r) → Bounded c → Bounded (open_section s c).1
  unfolding open_section
  open_section-Bounded s c b = go _ _ (after (codes "[output ") s)
    where
      go :
          (t u : Bool) (o : Option Bytes)
          → (let p : Section × RuntimeConfig r =
                if t
                then (input, c)
                else if u
                then (rules, c)
                else elim o [ none ↦ (global, c) | some rest ↦ open_output rest c ] in
              Bounded p.1)
      go true u o = b
      go false true o = b
      go false false none = b
      go false false (some rest) = open_output-Bounded rest c b

  read_line-Bounded :
      (line : Bytes) (section : Section) (c : RuntimeConfig r)
      → Bounded c
      → Bounded (read_line line section c).1
  unfolding read_line
  read_line-Bounded line section c b = go (trim line)
    where
      entry :
          (o : Option (Bytes × Bytes))
          → Bounded
              (elim o as (λ _. Section × RuntimeConfig r) [
                | none ↦ (section, c)
                | some (key, val) ↦ (section, apply_entry section (trim key) (trim val) c)
              ]).1
      entry none = b
      entry (some (key, val)) = apply_entry-Bounded section (trim key) (trim val) c b

      pickline :
          (t u : Bool) (s : Bytes)
          → (let p : Section × RuntimeConfig r =
                if t then (section, c) else if u then open_section s c else elim (split_at b'=' s) [
                  | none ↦ (section, c)
                  | some (key, val) ↦ (section, apply_entry section (trim key) (trim val) c)
                ] in
              Bounded p.1)
      pickline true u s = b
      pickline false true s = open_section-Bounded s c b
      pickline false false s = entry (split_at b'=' s)

      go :
          (s : Bytes)
          → Bounded
              (elim s as (λ _. Section × RuntimeConfig r) [
                | [] ↦ (section, c)
                | d ∷ s ↦
                    if d == b'#'
                    then (section, c)
                    else if d == b'['
                    then open_section (d ∷ s) c
                    else elim (split_at b'=' (d ∷ s)) [
                      | none ↦ (section, c)
                      | some (key, val) ↦ (section, apply_entry section (trim key) (trim val) c)
                    ]
              ]).1
      go [] = b
      go (d ∷ s) = pickline (d == b'#') (d == b'[') (d ∷ s)

  load_lines-Bounded :
      (lines : List Bytes) (section : Section) (c : RuntimeConfig r)
      → Bounded c
      → Bounded (load_lines lines section c)
  unfolding load_lines
  load_lines-Bounded [] section c b = b
  load_lines-Bounded (line ∷ lines) section c b =
      load_lines-Bounded lines _ _ (read_line-Bounded line section c b)

  -- Whatever the lines of the file are, from a configuration whose texts leave room for their
  -- terminators and whose tables fit, the loaded configuration is such a one again: the texts of the
  -- sections, of the commands and of the outputs, at most 16 commands and at most eight outputs.
  pub kum_config_load-Bounded :
      (lines : List Bytes) (c : RuntimeConfig r) → Bounded c → Bounded (kum_config_load lines c)
  unfolding kum_config_load
  kum_config_load-Bounded lines c b = load_lines-Bounded lines global c b
