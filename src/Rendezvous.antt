-- ===== src/Rendezvous.antt =====
-- The condition variable of internal/contour/cond.go.
pub mod Laws
use contour.Prelude.{
  ℕ, suc, ◌+◌, Bool, true, false, ◌||◌, List, [], ◌∷◌, ◌++◌, Text, text_eq, any, if◌then◌else◌, ltb,
}

-- Channels by number. A send stands for `ch <- value`, on a channel with room for it.
pub record Waiter : Type 0 where
  pub ch : ℕ
  pub hints : List Text

pub record Cond : Type 0 where
  pub waiters : List Waiter
  pub last : ℕ

-- A channel and the value that is sent on it.
abbrev pub Sends : Type 0
Sends = List (ℕ × ℕ)

unfoldable pub intersection : List Text → List Text → Bool
intersection [] right = false
intersection (l ∷ left) right = any (text_eq l) right || intersection left right

unfoldable pub register : ℕ → ℕ → List Text → Cond → Cond × Sends
register ch last hints c =
    if ltb last c.last
    then (c, (ch, c.last) ∷ [])
    else (record c { waiters = c.waiters ++ record { ch = ch; hints = hints } ∷ [] }, [])

abbrev no_hints : List Text → Bool
no_hints [] = true
no_hints (h ∷ hints) = false

-- The loop of `Notify` over the waiters that were registered: `kept` is the new list of waiters.
unfoldable pub notify_each : List Text → ℕ → List Waiter → List Waiter → Sends → List Waiter × Sends
unfolding intersection
notify_each hints last [] kept sent = (kept, sent)
notify_each hints last (w ∷ ws) kept sent =
    let woken = notify_each hints last ws kept (sent ++ (w.ch, last) ∷ []) in
    let put_back = notify_each hints last ws (kept ++ w ∷ []) sent in
    if no_hints hints then woken else if intersection hints w.hints then woken else put_back

unfoldable pub notify : List Text → Cond → Cond × Sends
unfolding notify_each
notify hints c =
    let last = c.last + 1 in
    let (kept, sent) = notify_each hints last c.waiters [] [] in
    (record { waiters = kept; last = last }, sent)

-- A history of calls, each under the lock.
pub data Call : Type 0 where
  registered : (ch last : ℕ) → List Text → Call
  notified : List Text → Call

unfoldable pub call : Call → Cond → Cond × Sends
call (registered ch last hints) c = register ch last hints c
call (notified hints) c = notify hints c

unfoldable pub run : List Call → Cond → Cond × Sends
unfolding call register notify
run [] c = (c, [])
run (k ∷ ks) c = let (c', sent) = call k c in let (c'', later) = run ks c' in (c'', sent ++ later)
