-- ===== src/Rules.antt =====
-- src/rules.c: `kum_rules_apply`. The glob match of <fnmatch.h> is a parameter: `fnmatch p s` says
-- that the text `s` matches the pattern `p`.
pub mod Load
use kum_de.Base.{
  ℕ, Bool, true, not, ◌&&◌, ◌||◌, [], ◌∷◌, none, some, find?, ltb, ◌==◌, if◌then◌else◌,
}
use kum_de.Base.Int.{ℤ, pos, negsuc, ltb_ℤ, eqb_ℤ}
use kum_de.Text.{Bytes}
use kum_de.Focus.{workspace_of}
use kum_de.Server.{Floats, Server, Rule, Toplevel, workspace_count, find_toplevel, update_toplevel}
use kum_de.Workspace.{kum_workspace_move_toplevel}

-- `!r->app_id[0]`
abbrev pub is_empty : Bytes → Bool
is_empty [] = true
is_empty (c ∷ s) = c == 0

module _ (fnmatch : Bytes → Bytes → Bool) where
  -- `ma && mt`
  unfoldable pub rule_matches : Bytes → Bytes → Rule → Bool
  rule_matches app_id title r =
      (is_empty r.app_id || fnmatch r.app_id app_id) && (is_empty r.title || fnmatch r.title title)

-- What the rule sets on the window itself, in the order of the code.
unfoldable pub apply_to : Rule → Toplevel → Toplevel
apply_to r t0 =
    let t1 : Toplevel = if r.floating then record t0 { floating = true } else t0 in
    let t2 : Toplevel =
      if ltb_ℤ (pos 0) r.w && ltb_ℤ (pos 0) r.h
      then record t1 { asked_width = r.w; asked_height = r.h }
      else t1 in
    let t3 : Toplevel =
      if not (eqb_ℤ r.x (pos 0)) || not (eqb_ℤ r.y (pos 0))
      then record t2 { node_x = r.x; node_y = r.y }
      else t2 in
    if r.fullscreen then record t3 { asked_fullscreen = true } else t3

module _ {F : Floats} where
  -- The move that a rule asks for, if its workspace is one and is another.
  unfoldable pub rule_move : Rule → ℕ → ℤ → Server F → Server F
  rule_move r k (negsuc _) s = s
  rule_move r k (pos i) s =
      if ltb i workspace_count && not (i == workspace_of s.toplevels k)
      then kum_workspace_move_toplevel k (pos i) s
      else s

  unfoldable pub apply_rule : Rule → ℕ → Server F → Server F
  unfolding rule_move apply_to
  apply_rule r k s =
      let s1 = rule_move r k r.workspace s in
      record s1 { toplevels = update_toplevel k (apply_to r) s1.toplevels }

module _ (fnmatch : Bytes → Bytes → Bool) {F : Floats} where
  -- The rules are tried in the order of the list, and the first that matches is the only one applied.
  unfoldable pub kum_rules_apply : ℕ → Server F → Server F
  kum_rules_apply k s = elim (find_toplevel k s.toplevels) [
    | none ↦ s
    | some t ↦ elim (find? (rule_matches fnmatch t.app_id t.title) s.rules) [
      | none ↦ s
      | some r ↦ apply_rule r k s
    ]
  ]
