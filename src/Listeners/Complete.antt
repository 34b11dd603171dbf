-- ===== src/Listeners/Complete.antt =====
-- Every listener is accounted for in the result.
use contour.Prelude.{
  ◌≡◌, refl, ◌∙◌, inl, inr, Bool, true, false, ◌||◌, Option, none, some, List, [], ◌∷◌, ◌++◌,
  append_assoc, append-nil, arith, Text, text_eq, text_eq_iff, text_eq-IsEquality, any, All,
  Bool-cases, find, find-insert, if◌then◌else◌,
}
use contour.Listeners.{
  Listener, ListenerPort, ListenerCondition, ValidateListenersResult, envoy_listener_name,
  HostnameRules, check_listener, add_listener, settle, validate_from, validate_listeners,
}

abbrev pub has_port : Text → List ListenerPort → Bool
has_port n ports = any (λ (p : ListenerPort). text_eq p.name n) ports

abbrev pub name_in : Text → ValidateListenersResult → Option Text
name_in n r = find text_eq n r.listener_names

abbrev pub condition_in : Text → ValidateListenersResult → Option ListenerCondition
condition_in n r = find text_eq n r.invalid_listener_conditions

-- What the result says under the name of a listener: its Envoy listener, with an open port and no
-- condition, if it was accepted, and its condition, with no Envoy listener, if not.
abbrev pub IsRecorded : Listener → Option ListenerCondition → ValidateListenersResult → Type 0
IsRecorded l none r =
    (name_in l.name r ≡ some (envoy_listener_name l))
    × (condition_in l.name r ≡ none)
    × (has_port (envoy_listener_name l) r.ports ≡ true)
IsRecorded l (some c) r = (name_in l.name r ≡ none) × (condition_in l.name r ≡ some c)

-- The result says nothing under a name.
abbrev IsUnknown : Text → ValidateListenersResult → Type 0
IsUnknown n r = (name_in n r ≡ none) × (condition_in n r ≡ none)

abbrev pub IsOther : Listener → Listener → Type 0
IsOther l o = text_eq o.name l.name ≡ false

has_port-append :
    (n : Text) (ports more : List ListenerPort)
    → has_port n (ports ++ more) ≡ (has_port n ports || has_port n more)
has_port-append n [] more = refl
has_port-append n (p ∷ ports) more = ground (arith, has_port-append n ports more)

add_listener-name_in :
    (n : Text) (l : Listener) (r : ValidateListenersResult)
    → name_in n (add_listener l r)
      ≡ (if text_eq l.name n then some (envoy_listener_name l) else name_in n r)
unfolding add_listener
add_listener-name_in n l r = elim (Bool-cases (has_port (envoy_listener_name l) r.ports)) [
  | inl old ↦
      rw (old, add_listener)
        (find-insert text_eq text_eq-IsEquality n l.name (envoy_listener_name l) r.listener_names)
  | inr new ↦
      rw (new, add_listener)
        (find-insert text_eq text_eq-IsEquality n l.name (envoy_listener_name l) r.listener_names)
]

add_listener-conditions :
    (l : Listener) (r : ValidateListenersResult)
    → (add_listener l r).invalid_listener_conditions ≡ r.invalid_listener_conditions
unfolding add_listener
add_listener-conditions l r = elim (Bool-cases (has_port (envoy_listener_name l) r.ports)) [
  | inl old ↦ rw (old, add_listener)
  | inr new ↦ rw (new, add_listener)
]

or_last : (a b : Bool) → (a || b) ≡ true → (a || (b || false)) ≡ true
or_last a b h = ground arith

add_listener-has_port :
    (n : Text) (l : Listener) (r : ValidateListenersResult)
    → (has_port n r.ports || text_eq (envoy_listener_name l) n) ≡ true
    → has_port n (add_listener l r).ports ≡ true
unfolding add_listener
add_listener-has_port n l r h = elim (Bool-cases (has_port (envoy_listener_name l) r.ports)) [
  | inl old ↦
      rw (old, add_listener) (ground (arith, old, h, (text_eq_iff (envoy_listener_name l) n).0))
  | inr new ↦
      rw (new, add_listener)
        (has_port-append n r.ports _
          ∙ or_last (has_port n r.ports) (text_eq (envoy_listener_name l) n) h)
]

same_text : (s : Text) → text_eq s s ≡ true
same_text s = (text_eq_iff s s).1 refl

or_true : (a : Bool) → (a || true) ≡ true
or_true a = ground arith

settle-IsRecorded :
    (l : Listener) (found : Option ListenerCondition) (r : ValidateListenersResult)
    → IsUnknown l.name r
    → IsRecorded l found (settle l found r)
unfolding settle
settle-IsRecorded l none r (unnamed, fine) =
    let port = envoy_listener_name l in
    (
      add_listener-name_in l.name l r ∙ rw (same_text l.name),
      rw (add_listener-conditions l r) fine,
      add_listener-has_port port l r (rw (same_text port) (or_true (has_port port r.ports))),
    )
settle-IsRecorded l (some c) r (unnamed, fine) = (
  unnamed,
  find-insert text_eq text_eq-IsEquality l.name l.name c r.invalid_listener_conditions
      ∙ rw (same_text l.name),
)

-- A round for a listener of another name.
settle-name_in :
    (n : Text) (o : Listener) (found : Option ListenerCondition) (r : ValidateListenersResult)
    → text_eq o.name n ≡ false
    → name_in n (settle o found r) ≡ name_in n r
unfolding settle
settle-name_in n o none r other = ground (arith, other, add_listener-name_in n o r)
settle-name_in n o (some c) r other = refl

settle-condition_in :
    (n : Text) (o : Listener) (found : Option ListenerCondition) (r : ValidateListenersResult)
    → text_eq o.name n ≡ false
    → condition_in n (settle o found r) ≡ condition_in n r
unfolding settle
settle-condition_in n o none r other = rw (add_listener-conditions o r) refl
settle-condition_in n o (some c) r other =
    ground (
      arith,
      other,
      find-insert text_eq text_eq-IsEquality n o.name c r.invalid_listener_conditions,
    )

settle-has_port :
    (n : Text) (o : Listener) (found : Option ListenerCondition) (r : ValidateListenersResult)
    → has_port n r.ports ≡ true
    → has_port n (settle o found r).ports ≡ true
unfolding settle
settle-has_port n o none r h = add_listener-has_port n o r (ground (arith, h))
settle-has_port n o (some c) r h = h

settle-keeps :
    (l o : Listener) (found mine : Option ListenerCondition) (r : ValidateListenersResult)
    → IsOther l o
    → IsRecorded l mine r
    → IsRecorded l mine (settle o found r)
settle-keeps l o found none r other (named, fine, open_port) = (
  settle-name_in l.name o found r other ∙ named,
  settle-condition_in l.name o found r other ∙ fine,
  settle-has_port (envoy_listener_name l) o found r open_port,
)
settle-keeps l o found (some c) r other (unnamed, said) = (
  settle-name_in l.name o found r other ∙ unnamed,
  settle-condition_in l.name o found r other ∙ said,
)

module _ (rules : HostnameRules) where
  validate_from-keeps :
      (l : Listener) (mine : Option ListenerCondition) (seen ls : List Listener)
      (r : ValidateListenersResult)
      → All (IsOther l) ls
      → IsRecorded l mine r
      → IsRecorded l mine (validate_from rules seen ls r)
  unfolding validate_from
  validate_from-keeps l mine seen [] r others h = h
  validate_from-keeps l mine seen (o ∷ ls) r (other, others) h =
      let found = check_listener rules seen o in
      validate_from-keeps l mine (seen ++ o ∷ []) ls (settle o found r) others
        (settle-keeps l o found mine r other h)

  validate_from-IsRecorded :
      (seen before after : List Listener) (l : Listener) (r : ValidateListenersResult)
      → All (IsOther l) before
      → All (IsOther l) after
      → IsUnknown l.name r
      → IsRecorded l
          (check_listener rules (seen ++ before) l)
          (validate_from rules seen (before ++ l ∷ after) r)
  unfolding validate_from
  validate_from-IsRecorded seen [] after l r earlier later unknown =
      let found = check_listener rules seen l in
      rw (append-nil seen) (
        validate_from-keeps l found (seen ++ l ∷ []) after (settle l found r) later
          (settle-IsRecorded l found r unknown))
  validate_from-IsRecorded seen (o ∷ before) after l r (other, earlier) later (unnamed, fine) =
      let found = check_listener rules seen o in
      rw (append_assoc seen (o ∷ []) before) at (
        validate_from-IsRecorded (seen ++ o ∷ []) before after l (settle o found r) earlier later (
          settle-name_in l.name o found r other ∙ unnamed,
          settle-condition_in l.name o found r other ∙ fine,
        ))

  -- Every listener whose name no other listener has is accounted for under its name by its check
  -- against the listeners before it: if it is accepted, the name leads to its Envoy listener, for which
  -- a port is open, and has no condition, and if not, the name has the condition that the check found
  -- and leads to no Envoy listener.
  pub validate_listeners_complete :
      (before after : List Listener) (l : Listener)
      → All (IsOther l) before
      → All (IsOther l) after
      → IsRecorded l
          (check_listener rules before l)
          (validate_listeners rules (before ++ l ∷ after))
  unfolding validate_listeners
  validate_listeners_complete before after l earlier later =
      validate_from-IsRecorded [] before after l _ earlier later (refl, refl)
