-- ===== src/KbLayout.antt =====
-- src/kblayout.c: the keyboard layouts that Super+k runs through.
pub mod Cycle
use kum_de.Base.{
  ℕ, ◌+◌, ◌%◌, List, [], ◌∷◌, none, some, map, length, get_elem?, take, ltb, ◌==◌, if◌then◌else◌,
}
use kum_de.Rules.{is_empty}
use kum_de.Server.{Floats, Server, layout_event, broadcast}
use kum_de.Text.{Bytes, tokens}

-- `while (*tok == ' ') tok++;`
unfoldable pub skip_blanks : Bytes → Bytes
skip_blanks [] = []
skip_blanks (c ∷ s) = if c == b' ' then skip_blanks s else c ∷ s

unfoldable pub parse_layouts : Bytes → List Bytes
unfolding skip_blanks
parse_layouts s = take 16 (map skip_blanks (tokens b',' [] (take 511 s)))

module _ {F : Floats} where
  -- `apply_layout` hands the keymap of one layout to every keyboard.
  unfoldable pub apply_layout : ℕ → Bytes → Server F → Server F
  apply_layout i kb_layout s = record s {
    keymap_layout = if ltb 0 (length s.layouts) then get_elem? s.layouts i else some kb_layout;
  }

  -- `kum_kb_layout_init`, at `server->cfg.kb_layout`
  unfoldable pub kum_kb_layout_init : Bytes → Server F → Server F
  kum_kb_layout_init kb_layout s = record s {
    layouts = if is_empty kb_layout then s.layouts else parse_layouts kb_layout;
    layout_current = 0;
  }

  unfoldable pub kum_kb_layout_next : Bytes → Server F → Server F
  unfolding apply_layout
  kum_kb_layout_next kb_layout s =
      let n = length s.layouts in
      if ltb n 2
      then s
      else let i = (s.layout_current + 1) % n in
        let s1 = apply_layout i kb_layout (record s { layout_current = i }) in
        elim (get_elem? s.layouts i) [ none ↦ s1 | some l ↦ broadcast (layout_event l) s1 ]
