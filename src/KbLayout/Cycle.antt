-- ===== src/KbLayout/Cycle.antt =====
-- The cycle of `kum_kb_layout_next` of src/kblayout.c.
use native.Mathlib.Nat.{mod-add-mod, mod-eq_of_lt}
use kum_de.Base.{ℕ, zero, suc, ◌+◌, ◌%◌, ◌<◌, ◌≤◌, ◌≡◌, refl, sym, ap, ◌∙◌, length, arith}
use kum_de.KbLayout.{apply_layout, kum_kb_layout_next}
use kum_de.Server.{Floats, Server}
use kum_de.Text.{Bytes}

-- `n` presses of the key.
abbrev pub presses : {F : Floats} → Bytes → ℕ → Server F → Server F
presses kb_layout zero s = s
presses kb_layout (suc n) s = kum_kb_layout_next kb_layout (presses kb_layout n s)

module _ {F : Floats} where
  kum_kb_layout_next-layout_current :
      (kb_layout : Bytes) (s : Server F)
      → 2 ≤ length s.layouts
      → (kum_kb_layout_next kb_layout s).layout_current ≡ (s.layout_current + 1) % length s.layouts
  unfolding kum_kb_layout_next apply_layout
  kum_kb_layout_next-layout_current kb_layout s h = ground arith

  kum_kb_layout_next-layouts :
      (kb_layout : Bytes) (s : Server F) → (kum_kb_layout_next kb_layout s).layouts ≡ s.layouts
  unfolding kum_kb_layout_next apply_layout
  kum_kb_layout_next-layouts kb_layout s = ground arith

  presses-layouts :
      (kb_layout : Bytes) (n : ℕ) (s : Server F) → (presses kb_layout n s).layouts ≡ s.layouts
  presses-layouts kb_layout zero s = refl
  presses-layouts kb_layout (suc n) s =
      kum_kb_layout_next-layouts kb_layout (presses kb_layout n s) ∙ presses-layouts kb_layout n s

  -- With two layouts or more, `n` presses of the key move the current layout `n` places around the
  -- list.
  pub presses-layout_current :
      (kb_layout : Bytes) (n : ℕ) (s : Server F)
      → 2 ≤ length s.layouts
      → s.layout_current < length s.layouts
      → (presses kb_layout n s).layout_current ≡ (s.layout_current + n) % length s.layouts
  presses-layout_current kb_layout zero s h l =
      sym (mod-eq_of_lt l) ∙ ap (λ k. k % length s.layouts) (omega arith)
  presses-layout_current kb_layout (suc n) s h l =
      let same = ap length (presses-layouts kb_layout n s) in
      kum_kb_layout_next-layout_current kb_layout (presses kb_layout n s) (omega (arith, same))
      ∙ ap (λ m. ((presses kb_layout n s).layout_current + 1) % m) same
      ∙ ap (λ c. (c + 1) % length s.layouts) (presses-layout_current kb_layout n s h l)
      ∙ mod-add-mod (s.layout_current + n) (length s.layouts) 1
      ∙ ap (λ k. k % length s.layouts) (omega arith)
