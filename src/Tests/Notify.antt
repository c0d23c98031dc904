-- ===== src/Tests/Notify.antt =====
-- The notifications of a board with eight free places.
use kum_de.Base.{◌≡◌, refl, true, false, List, [], ◌∷◌, some, map}
use kum_de.Base.Int.{pos}
use kum_de.Notify.{Notif, Board, Event, received, closed, turned, handle_events, expire}
use kum_de.Notify.Expiry.{lives, lived, expire-lives}
use kum_de.Notify.Stack.{Tidy, handle_events-Tidy}
use kum_de.Text.{codes}

abbrev free : Notif
free = record {
  summary = [];
  body = [];
  app_name = [];
  urgency = pos 0;
  expire_ms = 0;
  id = 0;
  active = false;
  configured = false;
  height = 0;
  margin = 0;
}

abbrev waiting : Notif
waiting = record free { active = true; expire_ms = 5000; id = 1; height = 72; margin = 8 }

abbrev empty_board : Board
empty_board = record {
  notifs = free ∷ free ∷ free ∷ free ∷ free ∷ free ∷ free ∷ free ∷ [];
  next_id = 0;
}

empty_board-Tidy : Tidy empty_board
empty_board-Tidy = record {
  full = refl;
  stacked = (
    (λ a. absurd (cc)),
    (
      (λ a. absurd (cc)),
      (
        (λ a. absurd (cc)),
        (
          (λ a. absurd (cc)),
          (
            (λ a. absurd (cc)),
            ((λ a. absurd (cc)), ((λ a. absurd (cc)), ((λ a. absurd (cc)), tt))),
          ),
        ),
      ),
    ),
  );
}

abbrev session : List Event
session =
    received 10 (codes "NOTIFY mail|New mail|From Ana|1|2000")
    ∷ received 20 (codes "NOTIFY a|b")
    ∷ turned 3000
    ∷ closed 1
    ∷ []

handle_events-Tidy_example : (b : Board) × (handle_events session empty_board ≡ some b) × Tidy b
handle_events-Tidy_example = handle_events-Tidy session empty_board empty_board-Tidy

abbrev one_waiting : Board
one_waiting = record {
  notifs = waiting ∷ free ∷ free ∷ free ∷ free ∷ free ∷ free ∷ free ∷ [];
  next_id = 1;
}

expire-lives_example :
    lives (expire 6000 one_waiting).notifs ≡ map (lived 6000) (lives one_waiting.notifs)
expire-lives_example = expire-lives 6000 one_waiting refl
