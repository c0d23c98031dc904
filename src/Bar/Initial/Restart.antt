-- ===== src/Bar/Initial/Restart.antt =====
-- What the bars of kumbar/src/main.c show when the compositor comes back.
use kum_de.Base.{
  ℕ, ◌+◌, ◌-◌, ◌≤◌, ◌≡◌, refl, sym, ◌∙◌, Bool, true, List, [], ◌∷◌, some, length, arith, All, map,
  any, get_elem?, leb,
}
use mathlib.Core.Path.{subst}
use kum_de.Base.Int.{pos}
use kum_de.Bar.{
  BarOutput, Bar, Link, Received, bytes, gone, reconnect_interval, ws_count, kumbar_ipc_connect,
  kumbar_ipc_dispatch, receive_bytes,
}
use kum_de.Bar.Initial.{Sent}
use kum_de.Bar.Initial.Shown.{
  Apart, dirtied, named-dirtied, nine-dirtied, is_named, shown, dispatch_all-ipc_send_initial_state,
}
use kum_de.Bar.Stream.{Dispatch, Fits, dispatch_all, dispatches, joined}
use kum_de.Ipc.Message.{ipc_send_initial_state}
use kum_de.Server.{Floats, Server, Output, workspace_count}
use kum_de.Text.{Bytes}
use kum_de.Toplevel.{occupied_from}

-- The dispatches that receive the pieces.
abbrev pub receiving : ℕ → List Bytes → List Dispatch
receiving time ps = map (λ p. (time, true, bytes p)) ps

-- On an open connection the dispatches have the effect of the pieces.
dispatches-receiving :
    (time : ℕ) (ps : List Bytes) (bar : Bar) (last : ℕ)
    → (dispatches
        (receiving time ps)
        record { bar = bar; connected = true; last_attempt = last }).bar
      ≡ dispatch_all ps bar
unfolding dispatches dispatch_all kumbar_ipc_dispatch
dispatches-receiving time [] bar last = refl
dispatches-receiving time (p ∷ ps) bar last =
    dispatches-receiving time ps (receive_bytes p bar) last

-- The end of the connection at the time `now`, and a dispatch that can connect again at `later`, which
-- has nothing to receive yet, whatever `recv` would answer.
abbrev pub outage : ℕ → ℕ → Bool → Received → List Bytes → List Dispatch
outage now later early received ps =
    (now, early, gone) ∷ (later, true, received) ∷ receiving later ps

reconnected :
    (now later : ℕ) (early : Bool) (received : Received) (ps : List Bytes) (l : Link)
    → l.connected ≡ true
    → now + reconnect_interval ≤ later
    → (dispatches (outage now later early received ps) l).bar
      ≡ dispatch_all ps (kumbar_ipc_connect (record l.bar { outputs = dirtied l.bar.outputs }))
unfolding dispatches kumbar_ipc_dispatch
reconnected now later early received ps l o h =
    let due : leb reconnect_interval (later - now) ≡ true = ground (arith, h) in
    rw (dispatches, kumbar_ipc_dispatch, o, due) (dispatches-receiving later ps _ later)

module _ {F : Floats} where
  -- The compositor's outputs have different names, each of 1 to 63 bytes without a quote or a line
  -- feed, and show one of the nine workspaces; the bars remember nine workspaces each. When the
  -- connection of the bar ends, whatever is in its buffer, and at least three seconds later the
  -- compositor can be reached and sends its state, in pieces that each find room in the buffer of 512
  -- bytes, the bar of each output shows the active workspace of that output again, and every bar shows
  -- the occupied workspaces of the compositor.
  pub dispatches-ipc_send_initial_state :
      (s : Server F) (l : Link) (k : ℕ) (o : Output) (ps : List Bytes) (now later : ℕ)
      (early : Bool) (received : Received)
      → l.connected ≡ true
      → now + reconnect_interval ≤ later
      → joined ps ≡ joined (ipc_send_initial_state s)
      → Fits ps []
      → All Sent s.outputs
      → Apart s.outputs
      → All (λ b. length b.occupied_ws ≡ ws_count) l.bar.outputs
      → get_elem? s.outputs k ≡ some o
      → any (is_named o.name) l.bar.outputs ≡ true
      → (shown o.name (dispatches (outage now later early received ps) l).bar.outputs
          ≡ some (pos o.active_workspace))
        × All
            (λ b. b.occupied_ws ≡ occupied_from s.toplevels workspace_count 0)
            (dispatches (outage now later early received ps) l).bar.outputs
  dispatches-ipc_send_initial_state s l k o ps now later early received up h cut fits sent apart
        nine e named =
      subst
        (λ (b : Bar).
          (shown o.name b.outputs ≡ some (pos o.active_workspace))
          × All (λ (c : BarOutput). c.occupied_ws ≡ occupied_from s.toplevels workspace_count 0)
              b.outputs)
        (sym (reconnected now later early received ps l up h))
        (dispatch_all-ipc_send_initial_state s (record l.bar { outputs = dirtied l.bar.outputs }) k
          o ps cut fits sent apart (nine-dirtied l.bar.outputs nine) e
          (named-dirtied o.name l.bar.outputs ∙ named))
