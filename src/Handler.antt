-- ===== src/Handler.antt =====
-- The event loop of internal/contour/handler.go.
pub mod Invariant
pub mod Deadline
use contour.Prelude.{
  ℕ, suc, ◌+◌, ◌-◌, Bool, true, false, ◌||◌, List, [], ◌∷◌, ◌++◌, Option, none, some, if◌then◌else◌,
  ltb, ◌==◌, ◌&&◌,
}

-- What the loop uses of `dag.Builder` and of the equality of objects (`k8s.IsObjectEqual`).
pub record Builder : Type 1 where
  pub Obj : Type 0
  pub Source : Type 0
  pub Dag : Type 0
  pub Status : Type 0
  -- Whether the value implements `client.Object`.
  pub is_client_object : Obj → Bool
  pub is_object_equal : Obj → Obj → Bool
  -- `Source.Insert`, `Source.Remove`: the new cache, and whether it changed.
  pub insert : Obj → Source → Source × Bool
  pub remove : Obj → Source → Source × Bool
  pub build : Source → Dag
  -- `latestDAG.StatusCache.GetStatusUpdates()`.
  pub status_updates : Dag → List Status

module _ (b : Builder) where
  open b use {
    Obj, Source, Dag, Status, status_updates, is_client_object, is_object_equal, insert, remove,
    build,
  }

  -- The values that arrive on the channel `update`.
  pub data Op : Type 0 where
    op_add : Obj → (is_in_initial_list : Bool) → Op
    op_update : (old_obj new_obj : Obj) → Op
    op_delete : Obj → Op
    op_bool : Bool → Op
    op_other : Op

  -- `onUpdate`.
  unfoldable pub on_update : Op → Source → Source × Bool
  on_update (op_add obj initial) s = insert obj s
  on_update (op_update old_obj new_obj) s =
      if is_client_object old_obj && is_client_object new_obj
      then (if is_object_equal old_obj new_obj
          then (s, false)
          else (let (s', removed) = remove old_obj s in
              let (s'', inserted) = insert new_obj s' in (s'', removed || inserted)))
      else (s, false)
  on_update (op_delete obj) s = remove obj s
  on_update (op_bool v) s = (s, v)
  on_update op_other s = (s, false)

  -- The loop's variables and the fields of `EventHandler` that it writes. Times are nanoseconds;
  -- `deadline` is when the running timer fires, `none` where there is none that has yet to.
  pub record Loop : Type 0 where
    pub source : Source
    pub outstanding : ℕ
    pub deadline : Option ℕ
    pub last_dag_rebuild : ℕ
    pub seq : ℕ
    -- The channel `sequence`, of capacity 1.
    pub sequence : Option ℕ
    -- Items of the initial list begun and not finished: the counter of `syncTracker`.
    pub in_progress : ℕ
    pub initial_dag_built : Bool
    -- The last DAG that the observer was given.
    pub published : Option Dag
    -- What the status updater was sent.
    pub statuses : List Status

  -- `incSequence`, with its non-blocking send.
  unfoldable pub inc_sequence : Loop → Loop
  inc_sequence l = record l {
    seq = l.seq + 1;
    sequence = elim l.sequence [ none ↦ some (l.seq + 1) | some v ↦ some v ];
  }

  -- `OnAdd` starts an item of the initial list before it sends it.
  unfoldable pub on_add : Bool → Loop → Loop
  on_add is_in_initial_list l =
      if is_in_initial_list then record l { in_progress = l.in_progress + 1 } else l

  -- `syncTracker.HasSynced`, where `upstream` is what `UpstreamHasSynced` says.
  unfoldable pub has_synced : Bool → Loop → Bool
  has_synced upstream l = upstream && l.in_progress == 0

  abbrev in_initial_list : Op → Bool
  in_initial_list (op_add obj initial) = initial
  in_initial_list _ = false

  module _ (holdoff_delay holdoff_max_delay : ℕ) where
    -- `case op := <-e.update`, at the time `now`.
    unfoldable pub receive : ℕ → Op → Loop → Loop
    unfolding inc_sequence
    receive now op l =
        let (source, changed) = on_update op l.source in
        let delay = if ltb holdoff_max_delay (now - l.last_dag_rebuild) then 0 else holdoff_delay in
        let l' =
          if changed
          then record l {
            source = source;
            outstanding = l.outstanding + 1;
            deadline = some (now + delay);
          }
          else inc_sequence (record l { source = source }) in
        if in_initial_list op then record l' { in_progress = l'.in_progress - 1 } else l'

    -- `case <-pending`, at the time `now`.
    unfoldable pub fire : ℕ → Bool → Loop → Loop
    unfolding inc_sequence has_synced
    fire now upstream l =
        if has_synced upstream l
        then inc_sequence (record l {
          outstanding = 0;
          deadline = none;
          published = some (build l.source);
          statuses = l.statuses ++ status_updates (build l.source);
          last_dag_rebuild = now;
        })
        else record l { deadline = some (now + holdoff_delay) }

  -- `case <-initialSyncPoll`.
  unfoldable pub poll : Bool → Loop → Loop
  unfolding has_synced
  poll upstream l = if has_synced upstream l then record l { initial_dag_built = true } else l
