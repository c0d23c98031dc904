-- ===== src/LockClient.antt =====
-- kumlock/src/main.c: the client that asks for the lock and for the unlock. What PAM says of a text,
-- and what the keyboard gives for a key, are parameters; drawing is not modelled.
use mathlib.Core.Path.{subst}
use kum_de.Base.{
  ℕ, ◌+◌, ◌-◌, ◌<◌, ◌≤◌, ◌≡◌, ◌≢◌, ◌⊎◌, inl, inr, Bool, true, false, ◌&&◌, List, [], ◌∷◌, ◌++◌,
  Option, none, some, length, take, ltb, leb, All, refl, sym, ap, ◌∙◌, if◌then◌else◌, arith,
  Option-cases, length-append, length-take-le,
}
use kum_de.Text.{Bytes}

-- A pressed key: the symbols that the code tests for, else what `xkb_state_key_get_utf8` answers for
-- it: the length of its text, which may be more than the buffer has, and the bytes of the buffer.
pub data Pressed : Type 0 where
  return_key back_space escape : Pressed
  typed : (len : ℕ) (buf : Bytes) → Pressed

-- The part of `app` that the keys change. `lock` is whether `app.lock` is not NULL; `unlocks` counts
-- the requests for the unlock.
pub record Client : Type 0 where
  pub input : Bytes
  pub error : Bool
  pub lock : Bool
  pub running : Bool
  pub unlocks : ℕ

abbrev pub input_max : ℕ
input_max = 256

module _ (verify_password : Bytes → Bool) where
  -- `attempt_unlock`; a request through a NULL lock ends in `none`.
  unfoldable pub attempt_unlock : Client → Option Client
  attempt_unlock c =
      if verify_password c.input
      then (if c.lock
          then some (record c { lock = false; running = false; unlocks = c.unlocks + 1 })
          else none)
      else some (record c { error = true; input = [] })

  -- `handle_key` at a key that is pressed; a read behind the key's buffer ends in `none`.
  unfoldable pub handle_key : Pressed → Client → Option Client
  handle_key return_key c = attempt_unlock c
  handle_key back_space c =
      if ltb 0 (length c.input)
      then some (record c { input = take (length c.input - 1) c.input; error = false })
      else some c
  handle_key escape c = some (record c { input = []; error = false })
  handle_key (typed len buf) c =
      let copied = some (record c { input = c.input ++ take len buf; error = false }) in
      if ltb 0 len && ltb (length c.input + len) (input_max - 1)
      then (if leb len (length buf) then copied else none)
      else some c

  -- The keys of one session, in order.
  unfoldable pub handle_keys : List Pressed → Client → Option Client
  handle_keys [] c = some c
  handle_keys (k ∷ ks) c = elim (handle_key k c) [ none ↦ none | some d ↦ handle_keys ks d ]

  -- The text of the key fits into the buffer that it is copied from.
  abbrev pub Within : Pressed → Type 0
  Within (typed len buf) = len ≤ length buf
  Within _ = Unit

  -- The client holds the lock and has asked for nothing, and its buffer has room for the terminator.
  pub record Quiet (c : Client) : Type 0 where
    pub room : length c.input < input_max - 1
    pub lock : c.lock ≡ true
    pub unlocks : c.unlocks ≡ 0

  -- The client has asked for the unlock once, and let its lock go.
  pub record Done (c : Client) : Type 0 where
    pub room : length c.input < input_max - 1
    pub lock : c.lock ≡ false
    pub unlocks : c.unlocks ≡ 1

  handle_key-room :
      (k : Pressed) (c : Client) {d : Client}
      → length c.input < input_max - 1
      → handle_key k c ≡ some d
      → length d.input < input_max - 1
  unfolding handle_key attempt_unlock
  handle_key-room return_key c {d} h e = ground arith
  handle_key-room back_space c {d} h e =
      let short = length-take-le (length c.input - 1) c.input in ground (arith, short)
  handle_key-room escape c {d} h e = ground arith
  handle_key-room (typed len buf) c {d} h e =
      let sum = length-append c.input (take len buf) in
      let short = length-take-le len buf in ground (arith, sum, short)

  -- A key leaves the lock alone, or it is the return key at a text that PAM accepts.
  handle_key-lock :
      (k : Pressed) (c : Client) {d : Client}
      → handle_key k c ≡ some d
      → ((d.lock ≡ c.lock) × (d.unlocks ≡ c.unlocks))
        ⊎ ((k ≡ return_key)
            × (verify_password c.input ≡ true)
            × (c.lock ≡ true)
            × (d.lock ≡ false)
            × (d.unlocks ≡ c.unlocks + 1))
  unfolding handle_key attempt_unlock
  handle_key-lock return_key c {d} e = ground arith
  handle_key-lock back_space c {d} e = inl (ground arith, ground arith)
  handle_key-lock escape c {d} e = inl (ground arith, ground arith)
  handle_key-lock (typed len buf) c {d} e = inl (ground arith, ground arith)

  found : (o : Option Client) → o ≢ none → (d : Client) × (o ≡ some d)
  found none h = absurd (h refl)
  found (some d) h = (d, refl)

  handle_key-some :
      (k : Pressed) (c : Client)
      → Within k
      → c.lock ≡ true
      → (d : Client) × (handle_key k c ≡ some d)
  unfolding handle_key attempt_unlock
  handle_key-some return_key c w l = found (attempt_unlock c) (ground (arith, l))
  handle_key-some back_space c w l = found (handle_key back_space c) (ground arith)
  handle_key-some escape c w l = (_, refl)
  handle_key-some (typed len buf) c w l = found (handle_key (typed len buf) c) (ground (arith, w))

  handle_keys-cons :
      (k : Pressed) (ks : List Pressed) (c : Client) {d : Client}
      → handle_key k c ≡ some d
      → handle_keys (k ∷ ks) c ≡ handle_keys ks d
  unfolding handle_keys
  handle_keys-cons k ks c e = rw (handle_keys, e) refl

  handle_keys-Done :
      (ks : List Pressed) (c : Client) {d : Client} → Done c → handle_keys ks c ≡ some d → Done d
  unfolding handle_keys
  handle_keys-Done [] c {d} h e = let same : c ≡ d = ground arith in subst Done same h
  handle_keys-Done (k ∷ ks) c {d} h e = elim (Option-cases (handle_key k c)) [
    | inl f ↦ absurd (ground arith)
    | inr (u, f) ↦
        let rest : handle_keys ks u ≡ some d = ground arith in
        let room = handle_key-room k c h.room f in
        elim (handle_key-lock k c f) [
          | inl same ↦
              handle_keys-Done ks u
                record { room = room; lock = same.0 ∙ h.lock; unlocks = same.1 ∙ h.unlocks } rest
          | inr asked ↦ absurd (cc (asked.2, h.lock))
        ]
  ]

  -- What the keys do to a client: either it still holds the lock and has asked for nothing, or they have
  -- a return key in them, in front of which it was so, with a text in the buffer that PAM accepts; a
  -- client that has handled them all has then asked for the unlock once.
  abbrev pub Asks : List Pressed → Client → Type 0
  Asks ks c =
      ((d : Client) × (handle_keys ks c ≡ some d) × Quiet d)
      ⊎ ((front back : List Pressed) × (u : Client) × (ks ≡ front ++ return_key ∷ back)
          × (handle_keys front c ≡ some u)
          × Quiet u
          × (verify_password u.input ≡ true)
          × ((d : Client) → handle_keys ks c ≡ some d → Done d))

  -- A client that holds the lock and has asked for nothing, with room in its buffer, and keys whose
  -- texts fit into the eight bytes that they are read into: the client handles them all and has not
  -- asked for the unlock, or one of them is a return key, in front of which it had not, at a text that
  -- PAM accepts. If it then handles the keys behind that one too, it has asked once in all. In each of
  -- these states the buffer has room for its terminator.
  pub handle_keys-Asks : (ks : List Pressed) (c : Client) → All Within ks → Quiet c → Asks ks c
  unfolding handle_keys
  handle_keys-Asks [] c w q = inl (c, refl, q)
  handle_keys-Asks (k ∷ ks) c w q =
      let (u, e) = handle_key-some k c w.0 q.lock in
      let first = handle_keys-cons k ks c e in
      let room = handle_key-room k c q.room e in
      elim (handle_key-lock k c e) [
        | inl same ↦
            let kept : Quiet u = record {
              room = room;
              lock = same.0 ∙ q.lock;
              unlocks = same.1 ∙ q.unlocks;
            } in
            elim (handle_keys-Asks ks u w.1 kept) [
              | inl (d, f, r) ↦ inl (d, first ∙ f, r)
              | inr (front, back, v, parts, f, r, accepted, done) ↦ inr (
                k ∷ front,
                back,
                v,
                ap (λ xs. k ∷ xs) parts,
                handle_keys-cons k front c e ∙ f,
                r,
                accepted,
                λ d g. done d (sym first ∙ g),
              )
            ]
        | inr asked ↦
            let gone : Done u = record {
              room = room;
              lock = asked.3;
              unlocks = omega (arith, asked, q.unlocks);
            } in
            inr (
              [],
              ks,
              c,
              ap (λ x. x ∷ ks) asked.0,
              refl,
              q,
              asked.1,
              λ d g. handle_keys-Done ks u gone (sym first ∙ g),
            )
      ]

  -- Two presses of the return key before the event loop ends, at a text that PAM accepts, use the
  -- lock that the first of them has let go.
  pub handle_keys-twice :
      (c : Client)
      → verify_password c.input ≡ true
      → c.lock ≡ true
      → handle_keys (return_key ∷ return_key ∷ []) c ≡ none
  unfolding handle_keys handle_key attempt_unlock
  handle_keys-twice c v l = ground (arith)
