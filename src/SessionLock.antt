-- ===== src/SessionLock.antt =====
-- src/sessionlock.c: ext-session-lock-v1. A lock is known by a number, as is a lock surface.
use kum_de.Base.{ℕ, Bool, true, false, ◌||◌, [], ◌∷◌, Option, none, some, map, ◌==◌, if◌then◌else◌}
use kum_de.Server.{Floats, Server, Box, Output, Surface, lock_surface, find_output, remove_id}

abbrev pub is_some {ℓ} : {A : Type ℓ} → Option A → Bool
is_some none = false
is_some (some a) = true

abbrev pub is_lock_surface : Option Surface → ℕ → Bool
is_lock_surface (some (lock_surface j)) n = j == n
is_lock_surface _ n = false

-- What the lock's client hears.
pub data Reply : Type 0 where
  finished locked_sent : Reply

module _ {F : Floats} where
  -- `new_session_lock`, at the boxes that the layout gives the outputs.
  unfoldable pub new_session_lock : (Output → Box) → ℕ → Server F → Server F × Reply
  new_session_lock box n s = if is_some s.active_lock || s.locked then (s, finished) else (
    record s {
      active_lock = some n;
      locked = true;
      lock_rects = map box s.outputs;
      seat_focus = none;
    },
    locked_sent,
  )

  -- `active_lock_new_surface`, for surface `n` on output `k`.
  unfoldable pub active_lock_new_surface : ℕ → ℕ → Server F → Server F
  active_lock_new_surface n k s = elim (find_output k s.outputs) [
    | none ↦ s
    | some o ↦
        let s1 : Server F = record s { lock_surfaces = n ∷ s.lock_surfaces } in
        if is_lock_surface s.seat_focus n
        then s1
        else record s1 { seat_focus = some (lock_surface n) }
  ]

  -- `lock_surface_destroy`
  unfoldable pub lock_surface_destroy : ℕ → Server F → Server F
  lock_surface_destroy n s = record s { lock_surfaces = remove_id n s.lock_surfaces }

  -- `active_lock_unlock`
  unfoldable pub active_lock_unlock : Server F → Server F
  active_lock_unlock s = record s {
    locked = false;
    lock_rects = [];
    lock_surfaces = [];
    seat_focus = none;
  }

  -- `active_lock_destroy`
  unfoldable pub active_lock_destroy : Server F → Server F
  active_lock_destroy s = record s { active_lock = none }
