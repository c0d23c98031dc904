-- ===== src/Bar/Initial/Shown.antt =====
-- What the bars of kumbar/src/main.c show once they are connected.
use mathlib.Core.Path.{subst}
use kum_de.Base.{
  ℕ, zero, suc, ◌≡◌, refl, sym, ap, ◌∙◌, ◌≢◌, Bool, true, List, [], ◌∷◌, Option, none, some, length,
  if◌then◌else◌, arith, All, map, any, get_elem?,
}
use mathlib.Core.Path.{subst}
use kum_de.Base.Int.{ℤ, pos}
use kum_de.Bar.{cut_lines, BarOutput, Bar, ws_count, show_workspace, kumbar_ipc_connect}
use kum_de.Bar.Messages.{show_occupancy}
use kum_de.Bar.Stream.{Fits, joined, read_all, dispatch_all, dispatch_all-read_all}
use kum_de.Ipc.Message.{ipc_send_initial_state}
use kum_de.Bar.Initial.{show_all, Sent, read_all-outputs}
use kum_de.Server.{Toplevel, Floats, Server, Output, workspace_count}
use kum_de.Text.{Bytes, bytes_eq, bytes_eq_iff}
use kum_de.Toplevel.{occupied_from}

-- What the first bar of an output of that name shows.
abbrev pub shown : Bytes → List BarOutput → Option ℤ
shown name [] = none
shown name (o ∷ os) = if bytes_eq o.name name then some o.active_ws else shown name os

abbrev pub is_named : Bytes → BarOutput → Bool
is_named name o = bytes_eq o.name name

shown-show_workspace :
    (name : Bytes) (i : ℤ) (os : List BarOutput)
    → any (is_named name) os ≡ true
    → shown name (show_workspace name i os) ≡ some i
unfolding show_workspace
shown-show_workspace name i [] h = absurd (ground arith)
shown-show_workspace name i (o ∷ os) h = ground (arith, shown-show_workspace name i os)

shown-other :
    (name other : Bytes) (i : ℤ) (os : List BarOutput)
    → name ≢ other
    → shown name (show_workspace other i os) ≡ shown name os
unfolding show_workspace
shown-other name other i [] h = refl
shown-other name other i (o ∷ os) h =
    let rest = shown-other name other i os h in
    let a = bytes_eq_iff o.name name in
    let b = bytes_eq_iff o.name other in grind (arith, rest, a, b)

named-show_workspace :
    (name other : Bytes) (i : ℤ) (os : List BarOutput)
    → any (is_named name) (show_workspace other i os) ≡ any (is_named name) os
unfolding show_workspace
named-show_workspace name other i [] = refl
named-show_workspace name other i (o ∷ os) =
    let rest = named-show_workspace name other i os in ground (arith, rest)

shown-show_all :
    (name : Bytes) (outs : List Output) (os : List BarOutput)
    → All (λ o. name ≢ o.name) outs
    → shown name (show_all outs os) ≡ shown name os
shown-show_all name [] os a = refl
shown-show_all name (o ∷ outs) os a =
    shown-show_all name outs _ a.1 ∙ shown-other name o.name (pos o.active_workspace) os a.0

-- The names of the outputs differ.
abbrev pub Apart : List Output → Type 0
Apart [] = Unit
Apart (o ∷ outs) = All (λ p. o.name ≢ p.name) outs × Apart outs

shown-outputs :
    (k : ℕ) (outs : List Output) (os : List BarOutput) {o : Output}
    → Apart outs
    → get_elem? outs k ≡ some o
    → any (is_named o.name) os ≡ true
    → shown o.name (show_all outs os) ≡ some (pos o.active_workspace)
shown-outputs k [] os a e h = absurd (ground arith)
shown-outputs zero (p ∷ outs) os {o} a e h =
    let same : p ≡ o = ground arith in
    subst
      (λ (q : Output).
        any (is_named q.name) os ≡ true
        → shown q.name (show_all (p ∷ outs) os) ≡ some (pos q.active_workspace))
      same (λ n. shown-show_all p.name outs _ a.0 ∙ shown-show_workspace p.name _ os n) h
shown-outputs (suc k) (p ∷ outs) os {o} a e h =
    shown-outputs k outs _ a.1 e (named-show_workspace o.name p.name _ os ∙ h)

-- The bars are to be drawn again.
abbrev pub dirtied : List BarOutput → List BarOutput
dirtied os = map {A = BarOutput} (λ o. record o { dirty = true }) os

pub named-dirtied :
    (name : Bytes) (os : List BarOutput) → any (is_named name) (dirtied os) ≡ any (is_named name) os
named-dirtied name [] = refl
named-dirtied name (o ∷ os) = let rest = named-dirtied name os in ground (arith, rest)

pub nine-dirtied :
    (os : List BarOutput)
    → All (λ o. length o.occupied_ws ≡ ws_count) os
    → All (λ o. length o.occupied_ws ≡ ws_count) (dirtied os)
nine-dirtied [] a = tt
nine-dirtied (o ∷ os) a = (a.0, nine-dirtied os a.1)

shown-show_occupancy :
    (name : Bytes) (flags : List Bool) (os : List BarOutput)
    → shown name (show_occupancy flags os) ≡ shown name os
shown-show_occupancy name flags [] = refl
shown-show_occupancy name flags (o ∷ os) =
    let rest = shown-show_occupancy name flags os in ground (arith, rest)

occupied-show_occupancy :
    (flags : List Bool) (os : List BarOutput)
    → All (λ o. o.occupied_ws ≡ flags) (show_occupancy flags os)
occupied-show_occupancy flags [] = tt
occupied-show_occupancy flags (o ∷ os) = (refl, occupied-show_occupancy flags os)

length-occupied_from : (ts : List Toplevel) (n i : ℕ) → length (occupied_from ts n i) ≡ n
unfolding occupied_from
length-occupied_from ts zero i = refl
length-occupied_from ts (suc n) i = ap suc (length-occupied_from ts n (suc i))

module _ {F : Floats} where
  -- The compositor's outputs have different names, each of 1 to 63 bytes without a quote or a line
  -- feed, and show one of the nine workspaces; the bars remember nine workspaces each. When a bar has
  -- connected and received what the compositor sends first, in any pieces that each find room in the
  -- buffer of 512 bytes, the bar of each output shows the active workspace of that output, and every
  -- bar shows the occupied workspaces of the compositor.
  pub dispatch_all-ipc_send_initial_state :
      (s : Server F) (bar : Bar) (k : ℕ) (o : Output) (ps : List Bytes)
      → joined ps ≡ joined (ipc_send_initial_state s)
      → Fits ps []
      → All Sent s.outputs
      → Apart s.outputs
      → All (λ b. length b.occupied_ws ≡ ws_count) bar.outputs
      → get_elem? s.outputs k ≡ some o
      → any (is_named o.name) bar.outputs ≡ true
      → (shown o.name (dispatch_all ps (kumbar_ipc_connect bar)).outputs
          ≡ some (pos o.active_workspace))
        × All
            (λ b. b.occupied_ws ≡ occupied_from s.toplevels workspace_count 0)
            (dispatch_all ps (kumbar_ipc_connect bar)).outputs
  unfolding ipc_send_initial_state kumbar_ipc_connect cut_lines
  dispatch_all-ipc_send_initial_state s bar k o ps cut fits sent apart nine e named =
      let flags = occupied_from s.toplevels workspace_count 0 in
      let whole = sym (
        read_all-outputs s.outputs flags (dirtied bar.outputs) sent
          (length-occupied_from s.toplevels workspace_count 0) (nine-dirtied bar.outputs nine)) in
      let pieces =
        dispatch_all-read_all ps (kumbar_ipc_connect bar) refl fits
        ∙ ap (λ stream. read_all stream (kumbar_ipc_connect bar)) cut in
      subst
        (λ (b : Bar).
          (shown o.name b.outputs ≡ some (pos o.active_workspace))
          × All (λ (c : BarOutput). c.occupied_ws ≡ flags) b.outputs)
        (whole ∙ sym pieces)
        (
          shown-show_occupancy o.name flags _
              ∙ shown-outputs k s.outputs (dirtied bar.outputs) apart e
                  (named-dirtied o.name bar.outputs ∙ named),
          occupied-show_occupancy flags _,
        )
