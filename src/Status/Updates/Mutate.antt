-- ===== src/Status/Updates/Mutate.antt =====
-- What a proxy update does to the status of its object.
use contour.Prelude.{
  ℕ, ◌≤◌, ◌≡◌, refl, inl, inr, true, none, some, Option-cases, List, [], ◌∷◌, ◌++◌, arith, Text,
  text_eq, text_eq_iff, if◌then◌else◌, All, eq_left, eq_right, text_eq-IsEquality,
}
use contour.Status.Detailed.{DetailedCondition}
use contour.Status.Updates.{
  ProxyUpdate, HttpProxyStatus, get_condition_for, replace_condition, mutate_condition,
  mutate_conditions, set_old_fields, mutate,
}

-- The generation that the condition of a type has observed, 0 where there is no condition.
abbrev pub generation_of : Text → List DetailedCondition → ℕ
generation_of kind cs = elim (get_condition_for kind cs) [
  | none ↦ 0
  | some c ↦ c.observed_generation
]

get-snoc :
    (k : Text) (cs : List DetailedCondition) (c : DetailedCondition)
    → generation_of k cs ≤ generation_of k (cs ++ c ∷ [])
unfolding get_condition_for
get-snoc k [] c = omega arith
get-snoc k (d ∷ cs) c = ground (arith, get-snoc k cs c)

get-snoc_self :
    (k : Text) (cs : List DetailedCondition) (c : DetailedCondition)
    → get_condition_for k cs ≡ none
    → text_eq c.kind k ≡ true
    → get_condition_for k (cs ++ c ∷ []) ≡ some c
unfolding get_condition_for
get-snoc_self k [] c h e = ground arith
get-snoc_self k (d ∷ cs) c h e = ground (arith, get-snoc_self k cs c)

get-replace :
    (k kind : Text) (cond current : DetailedCondition) (cs : List DetailedCondition)
    → text_eq cond.kind kind ≡ true
    → get_condition_for kind cs ≡ some current
    → get_condition_for k (replace_condition kind cond cs)
      ≡ (if text_eq kind k then some cond else get_condition_for k cs)
unfolding get_condition_for replace_condition
get-replace k kind cond current [] same found = cc
get-replace k kind cond current (c ∷ cs) same found = ground (
  arith,
  get-replace k kind cond current cs,
  eq_left text_eq text_eq-IsEquality cond.kind kind k,
  eq_left text_eq text_eq-IsEquality c.kind kind k,
  eq_right text_eq text_eq-IsEquality c.kind kind k,
)

module _ (pu : ProxyUpdate) where
  mutate_condition-generation :
      (k kind : Text) (dc : DetailedCondition) (cs : List DetailedCondition)
      → text_eq dc.kind kind ≡ true
      → (generation_of k cs ≤ generation_of k (mutate_condition pu kind dc cs))
        × (pu.generation ≤ generation_of kind (mutate_condition pu kind dc cs))
  unfolding mutate_condition
  mutate_condition-generation k kind dc cs keyed =
      let cond : DetailedCondition = record dc {
        observed_generation = pu.generation;
        last_transition_time = pu.transition_time;
      } in
      elim (Option-cases (get_condition_for kind cs)) [
        | inl absent ↦ (
          ground (arith, absent, get-snoc k cs cond),
          ground (arith, absent, get-snoc_self kind cs cond absent keyed),
        )
        | inr (current, found) ↦
            let there : (j : Text)
                → get_condition_for j (replace_condition kind cond cs)
                  ≡ (if text_eq kind j then some cond else get_condition_for j cs) =
              λ j. get-replace j kind cond current cs keyed found in
            (
              ground
                  (arith, found, there k, (text_eq_iff kind k).0, (text_eq_iff kind kind).1 refl),
              ground (arith, found, there kind, (text_eq_iff kind kind).1 refl),
            )
      ]

  -- Each entry of the map is under its own type.
  abbrev pub IsKeyed : Text × DetailedCondition → Type 0
  IsKeyed (kind, dc) = text_eq dc.kind kind ≡ true

  mutate_conditions-generation :
      (k : Text) (es : List (Text × DetailedCondition)) (cs : List DetailedCondition)
      → All IsKeyed es
      → generation_of k cs ≤ generation_of k (mutate_conditions pu es cs)
  unfolding mutate_conditions
  mutate_conditions-generation k [] cs keyed = omega arith
  mutate_conditions-generation k ((kind, dc) ∷ es) cs (e, keyed) = omega (
    arith,
    (mutate_condition-generation k kind dc cs e).0,
    mutate_conditions-generation k es (mutate_condition pu kind dc cs) keyed,
  )

  mutate_conditions-observed :
      (es : List (Text × DetailedCondition)) (cs : List DetailedCondition)
      → All IsKeyed es
      → All (λ e. pu.generation ≤ generation_of e.0 (mutate_conditions pu es cs)) es
  unfolding mutate_conditions
  mutate_conditions-observed [] cs keyed = tt
  mutate_conditions-observed ((kind, dc) ∷ es) cs (e, keyed) = (
    omega (
      arith,
      (mutate_condition-generation kind kind dc cs e).1,
      mutate_conditions-generation kind es (mutate_condition pu kind dc cs) keyed,
    ),
    mutate_conditions-observed es (mutate_condition pu kind dc cs) keyed,
  )

  -- An update that does not panic never takes the condition of any type back to a generation that is
  -- older than what the object says, and for each type in the update the object then says of a
  -- generation no older than the update's.
  pub mutate-generation :
      (s s' : HttpProxyStatus)
      → All IsKeyed pu.conditions
      → mutate pu s ≡ some s'
      → ((k : Text) → generation_of k s.conditions ≤ generation_of k s'.conditions)
        × All (λ e. pu.generation ≤ generation_of e.0 s'.conditions) pu.conditions
  unfolding mutate set_old_fields
  mutate-generation s s' keyed e =
      let same : s'.conditions ≡ mutate_conditions pu pu.conditions s.conditions = ground arith in
      (
        λ k. rw same (mutate_conditions-generation k pu.conditions s.conditions keyed),
        rw same (mutate_conditions-observed pu.conditions s.conditions keyed),
      )
