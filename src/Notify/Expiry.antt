-- ===== src/Notify/Expiry.antt =====
-- When kumnotify/src/main.c takes its notifications off the screen.
use mathlib.Core.List.{append_assoc}
use kum_de.Base.{
  ℕ, suc, ◌+◌, ◌≡◌, refl, sym, ap, ◌∙◌, Bool, true, false, ◌&&◌, List, [], ◌∷◌, ◌++◌, length,
  if◌then◌else◌, arith, leb, length-append, map,
}
use kum_de.Notify.{
  Notif, Board, notif_max, restack_loop, restack, update, is_active, dismiss, is_due, expire_loop,
  expire,
}

-- A notification apart from its margin, which a new stacking changes.
abbrev pub life_of : Notif → Notif
life_of n = record n { margin = 0 }

abbrev pub lives : List Notif → List Notif
lives [] = []
lives (n ∷ ns) = life_of n ∷ lives ns

-- A notification at the time `now`: what has expired is taken off the screen.
abbrev pub lived : ℕ → Notif → Notif
lived now l =
    if l.active && leb l.expire_ms now then record l { active = false; configured = false } else l

lives-restack : (ns : List Notif) → lives (restack ns) ≡ lives ns
unfolding restack restack_loop
lives-restack [] = refl
lives-restack (n ∷ ns) = go n.active (lives-restack ns)
  where
    go :
        (b : Bool)
        → lives (restack_loop ns).0 ≡ lives ns
        → (let r : List Notif × ℕ =
              if b
              then (
                record n { margin = (restack_loop ns).1 } ∷ (restack_loop ns).0,
                (restack_loop ns).1 + (n.height + 8),
              )
              else (n ∷ (restack_loop ns).0, (restack_loop ns).1) in
            lives r.0 ≡ life_of n ∷ lives ns)
    go true h = ap (λ r. life_of n ∷ r) h
    go false h = ap (λ r. life_of n ∷ r) h

-- The places behind `front`.
is_due-lives :
    (now : ℕ) (front back : List Notif) (l : Notif) (ns : List Notif)
    → lives ns ≡ front ++ l ∷ back
    → is_due now (length front) ns ≡ (l.active && leb l.expire_ms now)
unfolding is_due
is_due-lives now [] back l [] e = absurd (cc)
is_due-lives now [] back l (n ∷ ns) e = ground (arith, e)
is_due-lives now (f ∷ front) back l [] e = absurd (cc)
is_due-lives now (f ∷ front) back l (n ∷ ns) e = is_due-lives now front back l ns (ground arith)

abbrev off : Notif → Notif
off n = record n { active = false; configured = false }

abbrev stopped : Notif → Notif
stopped l = record l { active = false; configured = false }

lives-off :
    (front back : List Notif) (l : Notif) (ns : List Notif)
    → lives ns ≡ front ++ l ∷ back
    → lives (update (length front) off ns) ≡ front ++ stopped l ∷ back
unfolding update
lives-off [] back l [] e = absurd (cc)
lives-off [] back l (n ∷ ns) e =
    let head : life_of n ≡ l = ground arith in
    let tail : lives ns ≡ back = ground arith in
    ap (λ k. stopped k ∷ lives ns) head ∙ ap (λ r. stopped l ∷ r) tail
lives-off (f ∷ front) back l [] e = absurd (cc)
lives-off (f ∷ front) back l (n ∷ ns) e =
    let head : life_of n ≡ f = ground arith in
    ap (λ k. k ∷ lives (update (length front) off ns)) head
    ∙ ap (λ r. f ∷ r) (lives-off front back l ns (ground arith))

is_active-lives :
    (front back : List Notif) (l : Notif) (ns : List Notif)
    → lives ns ≡ front ++ l ∷ back
    → is_active (length front) ns ≡ l.active
unfolding is_active
is_active-lives [] back l [] e = absurd (cc)
is_active-lives [] back l (n ∷ ns) e = ground (arith, e)
is_active-lives (f ∷ front) back l [] e = absurd (cc)
is_active-lives (f ∷ front) back l (n ∷ ns) e = is_active-lives front back l ns (ground arith)

dismiss-lives :
    (front back : List Notif) (l : Notif) (ns : List Notif)
    → lives ns ≡ front ++ l ∷ back
    → l.active ≡ true
    → lives (dismiss (length front) ns) ≡ front ++ stopped l ∷ back
unfolding dismiss
dismiss-lives front back l ns e h =
    go (is_active (length front) ns) (is_active-lives front back l ns e ∙ h)
  where
    go :
        (b : Bool)
        → b ≡ true
        → lives (if b then restack (update (length front) off ns) else ns)
          ≡ front ++ stopped l ∷ back
    go true t = lives-restack (update (length front) off ns) ∙ lives-off front back l ns e
    go false t = absurd (cc)

expire_loop-lives :
    (now : ℕ) (front back : List Notif) (ns : List Notif)
    → lives ns ≡ front ++ back
    → lives (expire_loop now (length back) (length front) ns) ≡ front ++ map (lived now) back
unfolding expire_loop
expire_loop-lives now front [] ns e = e
expire_loop-lives now front (l ∷ back) ns e =
    go
      (λ m ms same.
        ap (λ i. lives (expire_loop now (length back) i ms)) (sym (length-append front (m ∷ [])))
        ∙ expire_loop-lives now (front ++ m ∷ []) back ms
            (same ∙ sym (append_assoc front (m ∷ []) back))
        ∙ append_assoc front (m ∷ []) (map (lived now) back))
      (is_due now (length front) ns) (is_due-lives now front back l ns e)
  where
    go :
        ((m : Notif) (ms : List Notif)
          → lives ms ≡ front ++ m ∷ back
          → lives (expire_loop now (length back) (length front + 1) ms)
            ≡ front ++ m ∷ map (lived now) back)
        → (b : Bool) → b ≡ (l.active && leb l.expire_ms now)
        → lives (
            if b
            then expire_loop now (length back) (length front + 1) (dismiss (length front) ns)
            else expire_loop now (length back) (length front + 1) ns)
          ≡ front ++ lived now l ∷ map (lived now) back
    go rest true t =
        rest (stopped l) (dismiss (length front) ns)
          (dismiss-lives front back l ns e (ground arith))
        ∙ ap (λ c. front ++ (if c then stopped l else l) ∷ map (lived now) back) t
    go rest false t =
        rest l ns e ∙ ap (λ c. front ++ (if c then stopped l else l) ∷ map (lived now) back) t

length-lives : (ns : List Notif) → length (lives ns) ≡ length ns
length-lives [] = refl
length-lives (n ∷ ns) = ap suc (length-lives ns)

-- With eight places, one turn of the main loop at the time `now` takes exactly those notifications off
-- the screen that have expired by then, and leaves everything of the others as it is, save the margins,
-- which the new stacking sets: each notification is gone after the first turn that is not before its
-- time.
pub expire-lives :
    (now : ℕ) (b : Board)
    → length b.notifs ≡ notif_max
    → lives (expire now b).notifs ≡ map (lived now) (lives b.notifs)
unfolding expire
expire-lives now b full =
    ap (λ n. lives (expire_loop now n 0 b.notifs)) (sym (length-lives b.notifs ∙ full))
    ∙ expire_loop-lives now [] (lives b.notifs) b.notifs refl
