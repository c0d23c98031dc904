-- ===== src/Frame.antt =====
-- What focusing, placing and shifting windows leave alone: the outputs and the workspaces.
use kum_de.Base.{
  ℕ, Bool, true, false, Option, some, ◌≡◌, refl, ◌∙◌, inl, inr, arith, Option-cases, find?,
}
use kum_de.Base.Int.{ℤ}
use kum_de.Text.{Bytes}
use kum_de.Arrange.{kum_workspace_arrange, kum_workspace_monocle_arrange}
use kum_de.Focus.{kum_ipc_broadcast_window_title, kum_focus_toplevel, focus_first_mapped, is_mapped}
use kum_de.Workspace.{workspace_translate, drop_focus_on}
use kum_de.Server.{Floats, Server, Output, Surface, window, workspace_at, output_for_workspace}

-- The keyboard is not on a window.
abbrev pub no_window : Option Surface → Bool
no_window (some (window k)) = false
no_window _ = true

-- `t` has the outputs, the workspaces and the lock of `s`, and under the lock the keyboard did not
-- get on a window.
pub record Same {F : Floats} (s t : Server F) : Type 0 where
  pub outputs : t.outputs ≡ s.outputs
  pub workspaces : t.workspaces ≡ s.workspaces
  pub locked : t.locked ≡ s.locked
  pub quiet : s.locked ≡ true → no_window s.seat_focus ≡ true → no_window t.seat_focus ≡ true

module _ {F : Floats} where
  pub Same-refl : (s : Server F) → Same s s
  Same-refl s = record { outputs = refl; workspaces = refl; locked = refl; quiet = λ l n. n }

  pub Same-trans : (s t u : Server F) → Same s t → Same t u → Same s u
  Same-trans s t u h k = record {
    outputs = k.outputs ∙ h.outputs;
    workspaces = k.workspaces ∙ h.workspaces;
    locked = k.locked ∙ h.locked;
    quiet = λ l n. k.quiet (h.locked ∙ l) (h.quiet l n);
  }

  title-Same :
      (i : ℕ) (title : Bytes) (s : Server F) → Same s (kum_ipc_broadcast_window_title i title s)
  unfolding kum_ipc_broadcast_window_title
  title-Same i title s = ground (arith, Option-cases (output_for_workspace s i))

  pub kum_focus_toplevel-Same : (k : ℕ) (s : Server F) → Same s (kum_focus_toplevel k s)
  unfolding kum_focus_toplevel
  kum_focus_toplevel-Same k s = ground arith

  pub focus_first_mapped-Same : (i : ℕ) (s : Server F) → Same s (focus_first_mapped i s)
  unfolding focus_first_mapped
  focus_first_mapped-Same i s =
      elim (Option-cases (find? (is_mapped s.toplevels) (workspace_at i s.workspaces).toplevels)) [
        | inl e ↦ rw (e, focus_first_mapped) (Same-refl s)
        | inr (k, e) ↦ rw (e, focus_first_mapped) (kum_focus_toplevel-Same k s)
      ]

  pub drop_focus_on-Same : (i : ℕ) (s : Server F) → Same s (drop_focus_on i s)
  unfolding drop_focus_on
  drop_focus_on-Same i s = ground arith

  pub kum_workspace_arrange-Same :
      (o : Output) (i : ℕ) (s : Server F) → Same s (kum_workspace_arrange o i s)
  unfolding kum_workspace_arrange kum_workspace_monocle_arrange
  kum_workspace_arrange-Same o i s = ground arith

  pub workspace_translate-Same :
      (i : ℕ) (dx dy : ℤ) (s : Server F) → Same s (workspace_translate i dx dy s)
  unfolding workspace_translate
  workspace_translate-Same i dx dy s = ground arith
