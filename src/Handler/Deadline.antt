-- ===== src/Handler/Deadline.antt =====
-- How long the holdoff timer can be put off.
use contour.Prelude.{
  ℕ, ◌+◌, ◌-◌, ◌≤◌, ◌≡◌, ◌≢◌, refl, ◌⊎◌, inl, inr, Bool, none, some, if◌then◌else◌, ltb, arith,
  Bool-cases,
}
use contour.Handler.{Builder, Op, on_update, Loop, on_add, receive, poll}

module _ (b : Builder) (holdoff_delay holdoff_max_delay now : ℕ) where
  -- What happens up to the time `now` while the timer does not fire.
  pub data Waiting (l : Loop b) : Loop b → Type 0 where
    still : Waiting l l
    added : {m : Loop b} → Waiting l m → (initial : Bool) → Waiting l (on_add b initial m)
    polled : {m : Loop b} → Waiting l m → (upstream : Bool) → Waiting l (poll b upstream m)
    received :
        {m : Loop b}
        → Waiting l m
        → (time : ℕ) (op : Op b) → time ≤ now
        → Waiting l (receive b holdoff_delay holdoff_max_delay time op m)

  abbrev latest : Loop b → ℕ
  latest l = l.last_dag_rebuild + holdoff_max_delay + holdoff_delay

  -- Nothing is outstanding, or the timer is due by now or soon after the last DAG, which is still that
  -- of `l`.
  record IsDue (l m : Loop b) : Type 0 where
    last : m.last_dag_rebuild ≡ l.last_dag_rebuild
    due :
        ((m.outstanding ≡ 0) × (m.deadline ≡ none))
        ⊎ ((d : ℕ) × (m.deadline ≡ some d) × ((d ≤ now) ⊎ (d ≤ latest l)))

  receive-IsDue :
      (l m : Loop b) (time : ℕ) (op : Op b)
      → time ≤ now
      → IsDue l m
      → IsDue l (receive b holdoff_delay holdoff_max_delay time op m)
  unfolding receive
  receive-IsDue l m time op early v = elim (Bool-cases (on_update b op m.source).1) [
    | inl changed ↦ record {
      last = ground (arith, v.last);
      due = inr (
        time + (if ltb holdoff_max_delay (time - m.last_dag_rebuild) then 0 else holdoff_delay),
        ground (arith, changed),
        ground (arith, early, v.last),
      );
    }
    | inr kept ↦ record { last = ground (arith, v.last); due = ground (arith, kept, v.due) }
  ]

  Waiting-IsDue : {l m : Loop b} → Waiting l m → IsDue l l → IsDue l m
  unfolding on_add poll
  Waiting-IsDue still v = v
  Waiting-IsDue {l} (added {m} path initial) v =
      let h = Waiting-IsDue path v in
      record { last = ground (arith, h.last); due = ground (arith, h.due) }
  Waiting-IsDue {l} (polled {m} path upstream) v =
      let h = Waiting-IsDue path v in
      record { last = ground (arith, h.last); due = ground (arith, h.due) }
  Waiting-IsDue {l} (received {m} path time op early) v =
      receive-IsDue l m time op early (Waiting-IsDue path v)

  -- However many events arrive up to now after a DAG was built, and however they are spaced: if the
  -- cache reported a change among them and the timer has not fired, the timer is set for now or before,
  -- or for at most `holdoff_max_delay` and `holdoff_delay` after that DAG. So once that time has passed,
  -- no further event puts the deadline beyond the present.
  pub Waiting-bounds :
      (l m : Loop b)
      → l.outstanding ≡ 0
      → l.deadline ≡ none
      → Waiting l m
      → m.outstanding ≢ 0
      → (d : ℕ) × (m.deadline ≡ some d)
        × ((d ≤ now) ⊎ (d ≤ l.last_dag_rebuild + holdoff_max_delay + holdoff_delay))
  Waiting-bounds l m none_left off path busy =
      elim ((Waiting-IsDue path (record { last = refl; due = inl (none_left, off) })).due) [
        | inl (idle, e) ↦ absurd (busy idle)
        | inr bound ↦ bound
      ]
