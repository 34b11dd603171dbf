-- ===== src/Tests/Loops.antt =====
-- The condition variable and the event loop.
use contour.Prelude.{
  ℕ, ◌+◌, ◌≤◌, ◌<◌, ◌≡◌, ◌⊎◌, refl, subst, true, false, not, some, List, [], ◌∷◌, codes, text_eq,
  arith, ◌==◌, map, filter,
}
use mathlib.Core.List.{Memᴰ}
use contour.Rendezvous.{Cond, register, notify, Call, registered, notified, run, intersection}
use contour.Rendezvous.Laws.{
  wakes, send_to, notify_lem, notifications, run-last, register-delivered,
}
use contour.Handler.{Builder, op_add, Loop, on_update, receive, has_synced}
use contour.Handler.Deadline.{Waiting, still, received, Waiting-bounds}
use contour.Handler.Invariant.{
  Step, Reach, receives, here, next, IsCurrent, start, run-IsCurrent, run_progress,
}

abbrev waiting : Cond
waiting = record {
  waiters = record { ch = 1; hints = codes "a" ∷ [] } ∷ record { ch = 2; hints = [] } ∷ [];
  last = 4;
}

notify_tests :
    (notify [] waiting ≡ (record { waiters = []; last = 5 }, (1, 5) ∷ (2, 5) ∷ []))
    × ((notify (codes "b" ∷ []) waiting).1 ≡ [])
    × ((register 3 2 [] waiting).1 ≡ (3, 4) ∷ [])
unfolding notify register text_eq
notify_tests = (refl, refl, refl)

notify_example : notify (codes "a" ∷ []) waiting ≡ (
  record {
    waiters = filter (λ w. not (wakes (codes "a" ∷ []) w)) waiting.waiters;
    last = waiting.last + 1;
  },
  map (send_to (waiting.last + 1)) (filter (wakes (codes "a" ∷ [])) waiting.waiters),
)
notify_example = notify_lem (codes "a" ∷ []) waiting

abbrev calls : List Call
calls = notified (codes "b" ∷ []) ∷ registered 7 0 [] ∷ notified (codes "c" ∷ []) ∷ []

last_example : (run calls waiting).0.last ≡ waiting.last + notifications calls
last_example = run-last calls waiting

delivered_example :
    ((4 < waiting.last) × ((register 9 4 (codes "a" ∷ []) waiting).1 ≡ (9, waiting.last) ∷ []))
    ⊎ Memᴰ
        (9, waiting.last + notifications calls + 1)
        (notify (codes "a" ∷ []) (run calls (register 9 4 (codes "a" ∷ []) waiting).0).0).1
unfolding wakes intersection text_eq
delivered_example =
    register-delivered 9 4 (codes "a" ∷ []) waiting calls (codes "a" ∷ [])
      (refl, (refl, (refl, tt))) refl

-- A cache of one number, which reports whether an insertion changed it and ignores removals.
abbrev latest : Builder
latest = record {
  Obj = ℕ;
  Source = ℕ;
  Dag = ℕ;
  Status = ℕ;
  is_client_object = λ o. true;
  is_object_equal = λ o p. o == p;
  insert = λ o s. (o, not (o == s));
  remove = λ o s. (s, false);
  build = λ s. s;
  status_updates = λ d. d ∷ [];
}

abbrev busy : Loop latest
busy = record (start latest 0 100) { source = 7; outstanding = 1; deadline = some 130 }

busy_received : receive latest 20 50 110 (op_add 7 false) (start latest 0 100) ≡ busy
unfolding receive on_update
busy_received = refl

busy_reached : Reach latest 20 50 (start latest 0 100) busy
busy_reached =
    subst (Reach latest 20 50 (start latest 0 100)) busy_received
      (next here (receives 110 (op_add 7 false)))

busy-Waiting : Waiting latest 20 50 120 (start latest 0 100) busy
busy-Waiting =
    subst (Waiting latest 20 50 120 (start latest 0 100)) busy_received
      (received still 110 (op_add 7 false) (omega arith))

IsCurrent-example : IsCurrent latest 0 busy
IsCurrent-example = run-IsCurrent latest 20 50 100 0 busy busy_reached

progress_example :
    (d : ℕ) × (m : Loop latest) × (busy.deadline ≡ some d)
    × Step latest 20 50 busy m
    × (m.published ≡ some 7)
    × (m.statuses ≡ 7 ∷ [])
    × (m.outstanding ≡ 0)
unfolding has_synced
progress_example =
    run_progress latest 20 50 100 0 busy busy_reached (λ e. absurd (omega arith)) refl

deadline_example : (d : ℕ) × (busy.deadline ≡ some d) × ((d ≤ 120) ⊎ (d ≤ 100 + 50 + 20))
deadline_example =
    Waiting-bounds latest 20 50 120 (start latest 0 100) busy refl refl busy-Waiting
      (λ e. absurd (omega arith))
