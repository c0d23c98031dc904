-- ===== src/Bar/Boxes.antt =====
-- The workspace buttons of kumbar/src/main.c, and the command that src/ipc.c makes of a click.
use kum_de.Base.{
  ℕ, zero, suc, ◌+◌, ◌-◌, ◌/◌, ◌<◌, ◌≤◌, ◌≡◌, refl, ap, ◌∙◌, Bool, true, false, ◌||◌, List, [], ◌∷◌,
  some, length, get_elem?, get_elem?-lt, if◌then◌else◌, arith,
}
use kum_de.Base.Int.{ℤ, pos, eqb_ℤ, ◌/ℤ◌}
use kum_de.Bar.{
  BarOutput, ws_count, padding, cell, box_loop, render_workspaces, hit_box, click_message, sent,
  ptr_button,
}
use kum_de.Ipc.{
  ok, ipc_handle_command, handle_client_readable, handle_lines, scan_string, scan_index,
  command_workspace,
}
use kum_de.Server.{Floats, Server, kum_output_focused}
use kum_de.Text.{
  Bytes, bytes_eq, after, scan_until, scan_int, skip_space, signed, digits_value, tokens,
  cons_token,
}
use kum_de.Workspace.{kum_workspace_switch}

-- Workspace `i` is drawn: it is the active one, or it holds a window.
abbrev pub is_drawn : ℤ → ℕ → Bool → Bool
is_drawn active_ws i occupied = eqb_ℤ (pos i) active_ws || occupied

-- Where the number of the `k`th workspace from `i` on starts: one step for each one drawn before it.
abbrev pub cell_start : ℤ → ℕ → ℕ → List Bool → ℕ → ℕ
cell_start active_ws i x [] k = x
cell_start active_ws i x (occupied ∷ flags) zero = x
cell_start active_ws i x (occupied ∷ flags) (suc k) =
    cell_start active_ws (i + 1) (if is_drawn active_ws i occupied then x + (cell + 6) else x) flags
      k

cell_start-le :
    (active_ws : ℤ) (i x : ℕ) (flags : List Bool) (k : ℕ) → x ≤ cell_start active_ws i x flags k
cell_start-le active_ws i x [] k = omega arith
cell_start-le active_ws i x (occupied ∷ flags) zero = omega arith
cell_start-le active_ws i x (occupied ∷ flags) (suc k) =
    let rest =
      cell_start-le active_ws (i + 1) (if is_drawn active_ws i occupied then x + (cell + 6) else x)
        flags k in
    ground (arith, rest)

box_loop-drawn :
    (active_ws : ℤ) (i x : ℕ) (f : Bool) (flags : List Bool)
    → is_drawn active_ws i f ≡ true
    → box_loop active_ws i x (f ∷ flags)
      ≡ (x - 4, x + cell + 4) ∷ box_loop active_ws (i + 1) (x + (cell + 6)) flags
unfolding box_loop
box_loop-drawn active_ws i x f flags t = ground (arith, t)

box_loop-skipped :
    (active_ws : ℤ) (i x : ℕ) (f : Bool) (flags : List Bool)
    → is_drawn active_ws i f ≡ false
    → box_loop active_ws i x (f ∷ flags) ≡ (0, 0) ∷ box_loop active_ws (i + 1) x flags
unfolding box_loop
box_loop-skipped active_ws i x f flags t = ground (arith, t)

hit_box-head :
    (p i x : ℕ) (boxes : List (ℕ × ℕ))
    → x ≤ p
    → p < x + cell + 4
    → hit_box (pos p) i ((x - 4, x + cell + 4) ∷ boxes) ≡ some i
unfolding hit_box
hit_box-head p i x boxes a b = ground arith

hit_box-tail :
    (p i x : ℕ) (boxes : List (ℕ × ℕ))
    → x + cell + 4 ≤ p
    → hit_box (pos p) i ((x - 4, x + cell + 4) ∷ boxes) ≡ hit_box (pos p) (i + 1) boxes
unfolding hit_box
hit_box-tail p i x boxes a = ground arith

hit_box-skipped :
    (p i : ℕ) (boxes : List (ℕ × ℕ))
    → hit_box (pos p) i ((0, 0) ∷ boxes) ≡ hit_box (pos p) (i + 1) boxes
unfolding hit_box
hit_box-skipped p i boxes = refl

-- A point over the number of a workspace that is drawn is a hit on that workspace.
hit_box-cell :
    (active_ws : ℤ) (i x : ℕ) (flags : List Bool) (k : ℕ) {occupied : Bool} (p : ℕ)
    → get_elem? flags k ≡ some occupied
    → is_drawn active_ws (i + k) occupied ≡ true
    → cell_start active_ws i x flags k ≤ p
    → p < cell_start active_ws i x flags k + cell + 4
    → hit_box (pos p) i (box_loop active_ws i x flags) ≡ some (i + k)
hit_box-cell active_ws i x [] k p e d a b = absurd (ground arith)
hit_box-cell active_ws i x (f ∷ flags) zero p e d a b =
    ap (hit_box (pos p) i) (box_loop-drawn active_ws i x f flags (ground (arith, e, d)))
    ∙ hit_box-head p i x _ a b
    ∙ ap some (omega arith)
hit_box-cell active_ws i x (f ∷ flags) (suc k) {occupied} p e d a b =
    go (λ y. hit_box-cell active_ws (i + 1) y flags k {occupied = occupied} p e) _ refl a b
  where
    Later : Type 0
    Later =
        (y : ℕ)
        → is_drawn active_ws (i + 1 + k) occupied ≡ true
        → cell_start active_ws (i + 1) y flags k ≤ p
        → p < cell_start active_ws (i + 1) y flags k + cell + 4
        → hit_box (pos p) (i + 1) (box_loop active_ws (i + 1) y flags) ≡ some (i + 1 + k)

    go :
        Later
        → (t : Bool) → is_drawn active_ws i f ≡ t
        → cell_start active_ws (i + 1) (if t then x + (cell + 6) else x) flags k ≤ p
        → p < cell_start active_ws (i + 1) (if t then x + (cell + 6) else x) flags k + cell + 4
        → hit_box (pos p) i (box_loop active_ws i x (f ∷ flags)) ≡ some (i + suc k)
    go rest true t a b =
        let far = cell_start-le active_ws (i + 1) (x + (cell + 6)) flags k in
        ap (hit_box (pos p) i) (box_loop-drawn active_ws i x f flags t)
        ∙ hit_box-tail p i x _ (omega (arith, far))
        ∙ rest (x + (cell + 6)) (ap (λ n. is_drawn active_ws n occupied) (omega arith) ∙ d) a b
        ∙ ap some (omega arith)
    go rest false t a b =
        ap (hit_box (pos p) i) (box_loop-skipped active_ws i x f flags t)
        ∙ hit_box-skipped p i _
        ∙ rest x (ap (λ n. is_drawn active_ws n occupied) (omega arith) ∙ d) a b
        ∙ ap some (omega arith)

pixel : (p : ℕ) → pos p /ℤ 256 ≡ pos (p / 256)
unfolding ◌/ℤ◌
pixel p = ground arith

module _ {F : Floats} where
  -- The command of a click on the button of workspace `i` makes the compositor switch its focused output to it.
  handle_client_readable-click_message :
      (i : ℕ) (s : Server F)
      → i < ws_count
      → handle_client_readable (click_message i) s
        ≡ (kum_workspace_switch (kum_output_focused s) (pos i) s, ok ∷ [])
  unfolding handle_client_readable handle_lines ipc_handle_command scan_string scan_index
      command_workspace bytes_eq after scan_until scan_int skip_space signed digits_value tokens
      cons_token
  handle_client_readable-click_message zero s l = refl
  handle_client_readable-click_message (suc zero) s l = refl
  handle_client_readable-click_message (suc (suc zero)) s l = refl
  handle_client_readable-click_message (suc (suc (suc zero))) s l = refl
  handle_client_readable-click_message (suc (suc (suc (suc zero)))) s l = refl
  handle_client_readable-click_message (suc (suc (suc (suc (suc zero))))) s l = refl
  handle_client_readable-click_message (suc (suc (suc (suc (suc (suc zero)))))) s l = refl
  handle_client_readable-click_message (suc (suc (suc (suc (suc (suc (suc zero))))))) s l = refl
  handle_client_readable-click_message (suc (suc (suc (suc (suc (suc (suc (suc zero)))))))) s l =
      refl
  handle_client_readable-click_message (suc (suc (suc (suc (suc (suc (suc (suc (suc i))))))))) s l =
      absurd (omega arith)

  -- On a bar that was drawn with what it remembers, a press over the number of a workspace that is
  -- active or holds a window sends one command, and the compositor that reads it switches its focused
  -- output to that workspace and answers that all is well.
  pub ptr_button-switch :
      (o : BarOutput) (k p : ℕ) (occupied : Bool) (s : Server F)
      → length o.occupied_ws ≡ ws_count
      → get_elem? o.occupied_ws k ≡ some occupied
      → is_drawn o.active_ws k occupied ≡ true
      → cell_start o.active_ws 0 padding o.occupied_ws k ≤ p / 256
      → p / 256 < cell_start o.active_ws 0 padding o.occupied_ws k + cell
      → (msg : Bytes) × (ptr_button (pos p) (render_workspaces o) ≡ some msg)
        × (handle_client_readable msg s
            ≡ (kum_workspace_switch (kum_output_focused s) (pos k) s, ok ∷ []))
  unfolding ptr_button render_workspaces
  ptr_button-switch o k p occupied s n e d a b =
      let hit =
        hit_box-cell o.active_ws 0 padding o.occupied_ws k {occupied = occupied} (p / 256) e
          (ap (λ n. is_drawn o.active_ws n occupied) (omega arith) ∙ d) a (omega (arith, b)) in
      (
        click_message k,
        ap (λ x. sent (hit_box x 0 (box_loop o.active_ws 0 padding o.occupied_ws))) (pixel p)
            ∙ ap sent hit
            ∙ ap (λ n. some (click_message n)) (omega arith),
        handle_client_readable-click_message k s (omega (arith, get_elem?-lt o.occupied_ws k e, n)),
      )
