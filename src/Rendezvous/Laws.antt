-- ===== src/Rendezvous/Laws.antt =====
-- No notification is lost, none is repeated, and the count is right.
use contour.Prelude.{
  ℕ, suc, ◌+◌, ◌<◌, ◌≡◌, refl, sym, ap, ◌∙◌, ◌⊎◌, inl, inr, Bool, true, false, not, ◌||◌, List, [],
  ◌∷◌, ◌++◌, map, append_assoc, append-nil, arith, Text, if◌then◌else◌, ltb, filter, Bool-cases,
  All,
}
use mathlib.Core.List.{Memᴰ}
use contour.Rendezvous.{
  Waiter, Cond, Sends, intersection, register, no_hints, notify_each, notify, Call, registered,
  notified, call, run,
}

-- Whether a notification is for a waiter.
unfoldable pub wakes : List Text → Waiter → Bool
wakes hints w = no_hints hints || intersection hints w.hints

abbrev pub send_to : ℕ → Waiter → ℕ × ℕ
send_to last w = (w.ch, last)

notify_each-cons :
    (hints : List Text) (last : ℕ) (w : Waiter) (ws kept : List Waiter) (sent : Sends)
    → notify_each hints last (w ∷ ws) kept sent ≡ (
        if wakes hints w
        then notify_each hints last ws kept (sent ++ send_to last w ∷ [])
        else notify_each hints last ws (kept ++ w ∷ []) sent)
unfolding notify_each wakes
notify_each-cons hints last w ws kept sent = ground arith

-- The loop in one equation: it splits the waiters, in their order.
notify_each-eq :
    (hints : List Text) (last : ℕ) (ws kept : List Waiter) (sent : Sends)
    → notify_each hints last ws kept sent ≡ (
      kept ++ filter (λ w. not (wakes hints w)) ws,
      sent ++ map (send_to last) (filter (wakes hints) ws),
    )
unfolding notify_each
notify_each-eq hints last [] kept sent = cc (append-nil kept, append-nil sent)
notify_each-eq hints last (w ∷ ws) kept sent = elim (Bool-cases (wakes hints w)) [
  | inl woken ↦
      rw (notify_each-cons hints last w ws kept sent, woken)
        (cc (
          notify_each-eq hints last ws kept (sent ++ send_to last w ∷ []),
          append_assoc sent (send_to last w ∷ []) (map (send_to last) (filter (wakes hints) ws)),
        ))
  | inr other ↦
      rw (notify_each-cons hints last w ws kept sent, other)
        (cc (
          notify_each-eq hints last ws (kept ++ w ∷ []) sent,
          append_assoc kept (w ∷ []) (filter (λ v. not (wakes hints v)) ws),
        ))
]

-- A notification counts up, wakes exactly the waiters that it is for, each once and in the order in
-- which they registered, with the new count, and keeps the others in their order.
pub notify_lem :
    (hints : List Text) (c : Cond)
    → notify hints c ≡ (
      record { waiters = filter (λ w. not (wakes hints w)) c.waiters; last = c.last + 1 },
      map (send_to (c.last + 1)) (filter (wakes hints) c.waiters),
    )
unfolding notify
notify_lem hints c =
    ap
      (λ (r : List Waiter × Sends).
        let s : Cond × Sends = (record { waiters = r.0; last = c.last + 1 }, r.1) in s)
      (notify_each-eq hints (c.last + 1) c.waiters [] [])

-- Whether a call is a notification for a waiter.
abbrev pub call_wakes : Waiter → Call → Bool
call_wakes w (registered ch last hints) = false
call_wakes w (notified hints) = wakes hints w

filter-mem :
    (p : Waiter → Bool) (w : Waiter) (ws : List Waiter)
    → p w ≡ true
    → Memᴰ w ws
    → Memᴰ w (filter p ws)
filter-mem p w [] h m = elim m [ ]
filter-mem p w (v ∷ ws) h (Memᴰ.head e) = rw (ap p (sym e) ∙ h) (Memᴰ.head e)
filter-mem p w (v ∷ ws) h (Memᴰ.tail m) = elim (Bool-cases (p v)) [
  | inl kept ↦ rw kept (Memᴰ.tail (filter-mem p w ws h m))
  | inr out ↦ rw out (filter-mem p w ws h m)
]

append-mem : (w v : Waiter) (ws : List Waiter) → Memᴰ w ws → Memᴰ w (ws ++ v ∷ [])
append-mem w v [] m = elim m [ ]
append-mem w v (x ∷ ws) (Memᴰ.head e) = Memᴰ.head e
append-mem w v (x ∷ ws) (Memᴰ.tail m) = Memᴰ.tail (append-mem w v ws m)

last-mem : (w : Waiter) (ws : List Waiter) → Memᴰ w (ws ++ w ∷ [])
last-mem w [] = Memᴰ.head refl
last-mem w (x ∷ ws) = Memᴰ.tail (last-mem w ws)

map-mem :
    (last : ℕ) (w : Waiter) (ws : List Waiter)
    → Memᴰ w ws
    → Memᴰ (send_to last w) (map (send_to last) ws)
map-mem last w [] m = elim m [ ]
map-mem last w (x ∷ ws) (Memᴰ.head e) = Memᴰ.head (ap (send_to last) e)
map-mem last w (x ∷ ws) (Memᴰ.tail m) = Memᴰ.tail (map-mem last w ws m)

call-mem :
    (w : Waiter) (k : Call) (c : Cond)
    → call_wakes w k ≡ false
    → Memᴰ w c.waiters
    → Memᴰ w (call k c).0.waiters
unfolding call register
call-mem w (registered ch last hints) c h m = elim (Bool-cases (ltb last c.last)) [
  | inl stale ↦ rw stale m
  | inr fresh ↦ rw fresh (append-mem w _ c.waiters m)
]
call-mem w (notified hints) c h m =
    rw (notify_lem hints c) (filter-mem (λ v. not (wakes hints v)) w c.waiters (rw h) m)

run-mem :
    (w : Waiter) (ks : List Call) (c : Cond)
    → All (λ k. call_wakes w k ≡ false) ks
    → Memᴰ w c.waiters
    → Memᴰ w (run ks c).0.waiters
unfolding run
run-mem w [] c h m = m
run-mem w (k ∷ ks) c h m = run-mem w ks (call k c).0 h.1 (call-mem w k c h.0 m)

abbrev pub notifications : List Call → ℕ
notifications [] = 0
notifications (registered ch last hints ∷ ks) = notifications ks
notifications (notified hints ∷ ks) = suc (notifications ks)

register-last :
    (ch last : ℕ) (hints : List Text) (c : Cond) → (register ch last hints c).0.last ≡ c.last
unfolding register
register-last ch last hints c = ground arith

-- The counter counts the notifications, whatever is registered in between.
pub run-last : (ks : List Call) (c : Cond) → (run ks c).0.last ≡ c.last + notifications ks
unfolding run call
run-last [] c = omega arith
run-last (registered ch last hints ∷ ks) c =
    omega (arith, run-last ks (register ch last hints c).0, register-last ch last hints c)
run-last (notified hints ∷ ks) c = omega (arith, run-last ks (notify hints c).0)

register-mem :
    (ch last : ℕ) (hints : List Text) (c : Cond)
    → ltb last c.last ≡ false
    → Memᴰ (record { ch = ch; hints = hints }) (register ch last hints c).0.waiters
unfolding register
register-mem ch last hints c fresh =
    rw (fresh, register) (last-mem (record { ch = ch; hints = hints }) c.waiters)

-- No notification is lost: a caller that registers with the count that it last saw is answered at
-- once if there was a notification since; and if not, the first later notification that is for it,
-- however many others and whatever registrations come before, is sent on its channel, with the
-- number of notifications so far.
pub register-delivered :
    (ch last : ℕ) (hints : List Text) (c : Cond) (ks : List Call) (woken_by : List Text)
    → let w : Waiter = record { ch = ch; hints = hints } in
      let c' = (register ch last hints c).0 in
      All (λ k. call_wakes w k ≡ false) ks
      → wakes woken_by w ≡ true
      → ((last < c.last) × ((register ch last hints c).1 ≡ (ch, c.last) ∷ []))
        ⊎ Memᴰ (ch, c.last + notifications ks + 1) (notify woken_by (run ks c').0).1
unfolding register
register-delivered ch last hints c ks woken_by others wake = elim (Bool-cases (ltb last c.last)) [
  | inl stale ↦ inl (stale_answer stale)
  | inr fresh ↦ inr (waits fresh)
]
  where
    w : Waiter
    w = record { ch = ch; hints = hints }

    c' : Cond
    c' = (register ch last hints c).0

    stale_answer :
        ltb last c.last ≡ true
        → (last < c.last) × ((register ch last hints c).1 ≡ (ch, c.last) ∷ [])
    stale_answer stale = (ground arith, ground arith)

    count : (run ks c').0.last + 1 ≡ c.last + notifications ks + 1
    count = omega (arith, run-last ks c', register-last ch last hints c)

    enqueued : ltb last c.last ≡ false → Memᴰ w c'.waiters
    enqueued fresh = register-mem ch last hints c fresh

    waits :
        ltb last c.last ≡ false
        → Memᴰ (ch, c.last + notifications ks + 1) (notify woken_by (run ks c').0).1
    waits fresh =
        rw (notify_lem woken_by (run ks c').0, ← count)
          (map-mem ((run ks c').0.last + 1) w _
            (filter-mem (wakes woken_by) w _ wake (run-mem w ks c' others (enqueued fresh))))
