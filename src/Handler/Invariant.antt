-- ===== src/Handler/Invariant.antt =====
-- What holds of the event loop between two events.
use contour.Prelude.{
  ℕ, ◌+◌, ◌≤◌, ◌≡◌, ◌≢◌, refl, sym, ◌∙◌, inl, inr, Bool, true, false, [], ◌++◌, none, Option, some,
  if◌then◌else◌, arith, Bool-cases, Option-cases,
}
use native.Mathlib.Nat.{le_refl}
use contour.Handler.{Builder, Op, on_update, Loop, on_add, has_synced, receive, fire, poll}

module _ (b : Builder) where
  -- One turn of the loop, or of an informer that hands it an object. The environment chooses; the
  -- timer fires only at its deadline.
  pub data Step (holdoff_delay holdoff_max_delay : ℕ) (l : Loop b) : Loop b → Type 0 where
    adds : (initial : Bool) → Step holdoff_delay holdoff_max_delay l (on_add b initial l)
    receives :
        (now : ℕ) (op : Op b)
        → Step holdoff_delay holdoff_max_delay l
            (receive b holdoff_delay holdoff_max_delay now op l)
    fires :
        (now d : ℕ) (upstream : Bool)
        → l.deadline ≡ some d
        → d ≤ now
        → Step holdoff_delay holdoff_max_delay l
            (fire b holdoff_delay holdoff_max_delay now upstream l)
    polls : (upstream : Bool) → Step holdoff_delay holdoff_max_delay l (poll b upstream l)

  pub data Reach (holdoff_delay holdoff_max_delay : ℕ) (l : Loop b) : Loop b → Type 0 where
    here : Reach holdoff_delay holdoff_max_delay l l
    next :
        {m n : Loop b}
        → Reach holdoff_delay holdoff_max_delay l m
        → Step holdoff_delay holdoff_max_delay m n
        → Reach holdoff_delay holdoff_max_delay l n

  -- `Since s n t`: `t` is the cache that `s` becomes by events of which `n` were reported as changes.
  pub data Since (s : b.Source) : ℕ → b.Source → Type 0 where
    nothing : Since s 0 s
    ignored :
        {n : ℕ} {t : b.Source}
        → Since s n t
        → (op : Op b) → (on_update b op t).1 ≡ false
        → Since s n (on_update b op t).0
    reported :
        {n : ℕ} {t : b.Source}
        → Since s n t
        → (op : Op b) → (on_update b op t).1 ≡ true
        → Since s (n + 1) (on_update b op t).0

  -- The cache from which the last DAG was built: the one at the start if there is no DAG yet.
  abbrev pub IsBuiltFrom : b.Source → Option b.Dag → b.Source → Type 0
  IsBuiltFrom first none s = s ≡ first
  IsBuiltFrom first (some d) s = d ≡ b.build s

  -- A timer is running exactly if a reported change is not in a DAG yet, and the last DAG was built
  -- from a cache since which just as many changes were reported as are counted.
  pub record IsCurrent (first : b.Source) (l : Loop b) : Type 0 where
    pub armed : (l.outstanding ≢ 0) → l.deadline ≢ none
    pub idle : l.outstanding ≡ 0 → l.deadline ≡ none
    pub base : b.Source
    pub built : IsBuiltFrom first l.published base
    pub since : Since base l.outstanding l.source

  module _ (holdoff_delay holdoff_max_delay : ℕ) where
    -- The parts of the new state that count for the invariant.
    receive-published :
        (now : ℕ) (op : Op b) (l : Loop b)
        → (receive b holdoff_delay holdoff_max_delay now op l).published ≡ l.published
    unfolding receive
    receive-published now op l = ground arith

    receive-source :
        (now : ℕ) (op : Op b) (l : Loop b)
        → (receive b holdoff_delay holdoff_max_delay now op l).source ≡ (on_update b op l.source).0
    unfolding receive
    receive-source now op l = ground arith

    receive-outstanding :
        (now : ℕ) (op : Op b) (l : Loop b)
        → (receive b holdoff_delay holdoff_max_delay now op l).outstanding
          ≡ (if (on_update b op l.source).1 then l.outstanding + 1 else l.outstanding)
    unfolding receive
    receive-outstanding now op l = ground arith

    receive-since :
        (base : b.Source) (now : ℕ) (op : Op b) (l : Loop b)
        → Since base l.outstanding l.source
        → let m = receive b holdoff_delay holdoff_max_delay now op l in
          Since base m.outstanding m.source
    receive-since base now op l h =
        rw (receive-outstanding now op l, receive-source now op l)
          (elim (Bool-cases (on_update b op l.source).1) [
            | inl changed ↦ rw changed (reported h op changed)
            | inr kept ↦ rw kept (ignored h op kept)
          ])

    receive-IsCurrent :
        (first : b.Source) (now : ℕ) (op : Op b) (l : Loop b)
        → IsCurrent first l
        → IsCurrent first (receive b holdoff_delay holdoff_max_delay now op l)
    unfolding receive
    receive-IsCurrent first now op l v = record {
      armed = ground (arith, v.armed);
      idle = ground (arith, v.idle);
      base = v.base;
      built = rw (receive-published now op l) v.built;
      since = receive-since v.base now op l v.since;
    }

    fire-IsCurrent :
        (first : b.Source) (now : ℕ) (upstream : Bool) (l : Loop b)
        → IsCurrent first l
        → l.outstanding ≢ 0
        → IsCurrent first (fire b holdoff_delay holdoff_max_delay now upstream l)
    unfolding fire
    fire-IsCurrent first now upstream l v busy = elim (Bool-cases (has_synced b upstream l)) [
      | inl synced ↦
          rw (synced, fire)
            (record {
              armed = λ h. absurd (h refl);
              idle = λ _. refl;
              base = l.source;
              built = refl;
              since = nothing;
            })
      | inr behind ↦
          rw (behind, fire)
            (record {
              armed = λ _ e. cc;
              idle = λ e. absurd (busy e);
              base = v.base;
              built = v.built;
              since = v.since;
            })
    ]

    on_add-IsCurrent :
        (first : b.Source) (initial : Bool) (l : Loop b)
        → IsCurrent first l
        → IsCurrent first (on_add b initial l)
    unfolding on_add
    on_add-IsCurrent first true l v = record {
      armed = v.armed;
      idle = v.idle;
      base = v.base;
      built = v.built;
      since = v.since;
    }
    on_add-IsCurrent first false l v = v

    poll-IsCurrent :
        (first : b.Source) (upstream : Bool) (l : Loop b)
        → IsCurrent first l
        → IsCurrent first (poll b upstream l)
    unfolding poll
    poll-IsCurrent first upstream l v = elim (Bool-cases (has_synced b upstream l)) [
      | inl synced ↦
          rw (synced, poll)
            (record {
              armed = v.armed;
              idle = v.idle;
              base = v.base;
              built = v.built;
              since = v.since;
            })
      | inr behind ↦ rw (behind, poll) v
    ]

    Step-IsCurrent :
        (first : b.Source) {l m : Loop b}
        → Step holdoff_delay holdoff_max_delay l m
        → IsCurrent first l
        → IsCurrent first m
    Step-IsCurrent first {l} (adds initial) v = on_add-IsCurrent first initial l v
    Step-IsCurrent first {l} (receives now op) v = receive-IsCurrent first now op l v
    Step-IsCurrent first {l} (fires now d upstream armed due) v =
        fire-IsCurrent first now upstream l v
          (λ e. let q : some d ≡ none = sym armed ∙ v.idle e in cc)
    Step-IsCurrent first {l} (polls upstream) v = poll-IsCurrent first upstream l v

    Reach-IsCurrent :
        (first : b.Source) {l m : Loop b}
        → IsCurrent first l
        → Reach holdoff_delay holdoff_max_delay l m
        → IsCurrent first m
    Reach-IsCurrent first v here = v
    Reach-IsCurrent first v (next path step) =
        Step-IsCurrent first step (Reach-IsCurrent first v path)

  -- The loop as it starts, over some cache.
  abbrev pub start : b.Source → ℕ → Loop b
  start source now = record {
    source = source;
    outstanding = 0;
    deadline = none;
    last_dag_rebuild = now;
    seq = 0;
    sequence = none;
    in_progress = 0;
    initial_dag_built = false;
    published = none;
    statuses = [];
  }

  -- However events arrive, timers fire and polls are made, and whether or not the caches are synced, no
  -- change that the cache reports is lost: a timer is running exactly while such a change is not in a
  -- DAG, and the DAG that was published last was built from a cache which became the present one by
  -- events of which exactly `outstanding` were reported as changes. Where none is outstanding, only
  -- events that the cache reported as no change came since.
  pub run-IsCurrent :
      (holdoff_delay holdoff_max_delay now : ℕ) (source : b.Source) (l : Loop b)
      → Reach holdoff_delay holdoff_max_delay (start source now) l
      → IsCurrent source l
  run-IsCurrent holdoff_delay holdoff_max_delay now source l path =
      Reach-IsCurrent holdoff_delay holdoff_max_delay source
        (record {
          armed = λ h. absurd (h refl);
          idle = λ _. refl;
          base = source;
          built = refl;
          since = nothing;
        })
        path

  synced_fire :
      (holdoff_delay holdoff_max_delay now : ℕ) (l : Loop b)
      → has_synced b true l ≡ true
      → let m = fire b holdoff_delay holdoff_max_delay now true l in
        (m.published ≡ some (b.build l.source))
        × (m.statuses ≡ l.statuses ++ b.status_updates (b.build l.source))
        × (m.outstanding ≡ 0)
  unfolding fire
  synced_fire holdoff_delay holdoff_max_delay now l synced =
      (ground arith, ground arith, ground arith)

  -- Progress: in every state that the loop reaches with events outstanding and its caches synced, a
  -- timer is running, and when it fires the DAG of the present cache is published, its status updates
  -- are sent, and nothing is outstanding.
  pub run_progress :
      (holdoff_delay holdoff_max_delay now : ℕ) (source : b.Source) (l : Loop b)
      → Reach holdoff_delay holdoff_max_delay (start source now) l
      → l.outstanding ≢ 0
      → has_synced b true l ≡ true
      → (d : ℕ) × (m : Loop b) × (l.deadline ≡ some d)
        × Step holdoff_delay holdoff_max_delay l m
        × (m.published ≡ some (b.build l.source))
        × (m.statuses ≡ l.statuses ++ b.status_updates (b.build l.source))
        × (m.outstanding ≡ 0)
  run_progress holdoff_delay holdoff_max_delay now source l path busy synced =
      elim (Option-cases l.deadline) [
        | inl stopped ↦
            absurd
              ((run-IsCurrent holdoff_delay holdoff_max_delay now source l path).armed busy stopped)
        | inr (d, armed) ↦
            let (published, sent, idle) = synced_fire holdoff_delay holdoff_max_delay d l synced in
            (
              d,
              fire b holdoff_delay holdoff_max_delay d true l,
              armed,
              fires d d true armed (le_refl d),
              published,
              sent,
              idle,
            )
      ]
