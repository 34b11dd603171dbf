-- ===== src/Status/Updates.antt =====
-- `ProxyUpdate` of internal/status/proxystatus.go and its place in the `Cache` of
-- internal/status/cache.go, `ProxyAccessor`.
pub mod Laws
pub mod Mutate
use contour.Prelude.{
  ℕ, Bool, true, false, ◌&&◌, Option, none, some, List, [], ◌∷◌, ◌++◌, Text, codes, text_eq, ltb,
  if◌then◌else◌, find, insert, is_empty,
}
use contour.Status.Detailed.{
  ConditionStatus, is_true, is_false, unknown, unset, SubCondition, DetailedCondition, get_error,
  valid_condition_type,
}

-- `types.NamespacedName`.
pub record NamespacedName : Type 0 where
  pub namespace : Text
  pub name : Text

unfoldable pub same_name : NamespacedName → NamespacedName → Bool
same_name a b = text_eq a.namespace b.namespace && text_eq a.name b.name

-- The map `Conditions` is a list of its entries; its values are shared by pointers, so a change to a
-- condition is a change to its entry.
pub record ProxyUpdate : Type 0 where
  pub fullname : NamespacedName
  pub generation : ℕ
  pub transition_time : ℕ
  pub vhost : Text
  pub conditions : List (Text × DetailedCondition)

-- The condition that `ConditionFor` makes.
abbrev pub new_condition : Text → ℕ → DetailedCondition
new_condition cond generation = record {
  kind = cond;
  status = if text_eq cond valid_condition_type then is_true else is_false;
  observed_generation = generation;
  last_transition_time = 0;
  reason = if text_eq cond valid_condition_type then codes "Valid" else [];
  message = if text_eq cond valid_condition_type then codes "Valid HTTPProxy" else [];
  errors = [];
  warnings = [];
}

-- The condition, and the update in which it is.
unfoldable pub condition_for : Text → ProxyUpdate → DetailedCondition × ProxyUpdate
condition_for cond pu = elim (find text_eq cond pu.conditions) [
  | some dc ↦ (dc, pu)
  | none ↦ (
    new_condition cond pu.generation,
    record pu { conditions = insert text_eq cond (new_condition cond pu.generation) pu.conditions },
  )
]

-- A caller that gets the condition and writes through the pointer.
unfoldable pub on_condition :
    Text → (DetailedCondition → DetailedCondition) → ProxyUpdate → ProxyUpdate
unfolding condition_for
on_condition cond f pu =
    let (dc, pu') = condition_for cond pu in
    record pu' { conditions = insert text_eq cond (f dc) pu'.conditions }

-- `c.proxyUpdates`.
abbrev pub ProxyUpdates : Type 0
ProxyUpdates = List (NamespacedName × ProxyUpdate)

-- `ProxyAccessor`, before the commit function is called.
unfoldable pub proxy_accessor : NamespacedName → ℕ → ℕ → ProxyUpdate
proxy_accessor fullname generation now = record {
  fullname = fullname;
  generation = generation;
  transition_time = now;
  vhost = [];
  conditions = [];
}

-- The status of the "Valid" condition; `none` is a nil pointer.
abbrev pub valid_status : ProxyUpdate → Option ConditionStatus
valid_status pu = elim (find text_eq valid_condition_type pu.conditions) [
  | none ↦ none
  | some dc ↦ some dc.status
]

-- The commit function; `none` is the panic of a nil pointer.
unfoldable pub commit : ProxyUpdate → ProxyUpdates → Option ProxyUpdates
unfolding same_name
commit pu c = elim pu.conditions [
  | [] ↦ some c
  | entry ∷ entries ↦ elim (find same_name pu.fullname c) [
    | none ↦ some (insert same_name pu.fullname pu c)
    | some old ↦ elim (valid_status old) [
      | none ↦ none
      | some is_false ↦ elim (valid_status pu) [
        | none ↦ none
        | some is_true ↦ some c
        | some status ↦ some (insert same_name pu.fullname pu c)
      ]
      | some status ↦ some (insert same_name pu.fullname pu c)
    ]
  ]
]

-- `HTTPProxyStatus`.
pub record HttpProxyStatus : Type 0 where
  pub current_status : Text
  pub description : Text
  pub conditions : List DetailedCondition

-- `GetConditionFor`.
unfoldable pub get_condition_for : Text → List DetailedCondition → Option DetailedCondition
get_condition_for kind [] = none
get_condition_for kind (c ∷ conditions) =
    let rest = get_condition_for kind conditions in if text_eq c.kind kind then some c else rest

-- `cond.DeepCopyInto(currCond)`, for the first condition of the type.
unfoldable pub replace_condition :
    Text → DetailedCondition → List DetailedCondition → List DetailedCondition
replace_condition kind cond [] = []
replace_condition kind cond (c ∷ conditions) =
    let rest = replace_condition kind cond conditions in
    if text_eq c.kind kind then cond ∷ conditions else c ∷ rest

-- One round of the loop of `Mutate`, on the conditions of the object.
unfoldable pub mutate_condition :
    ProxyUpdate → Text → DetailedCondition → List DetailedCondition → List DetailedCondition
unfolding get_condition_for replace_condition
mutate_condition pu kind dc conditions =
    let cond : DetailedCondition = record dc {
      observed_generation = pu.generation;
      last_transition_time = pu.transition_time;
    } in
    elim (get_condition_for kind conditions) [
      | none ↦ conditions ++ cond ∷ []
      | some current ↦
          if ltb cond.observed_generation current.observed_generation
          then conditions
          else replace_condition kind cond conditions
    ]

-- The loop, in the order in which the map is iterated.
unfoldable pub mutate_conditions :
    ProxyUpdate → List (Text × DetailedCondition) → List DetailedCondition → List DetailedCondition
unfolding mutate_condition
mutate_conditions pu [] conditions = conditions
mutate_conditions pu ((kind, dc) ∷ rest) conditions =
    mutate_conditions pu rest (mutate_condition pu kind dc conditions)

abbrev pub orphaned_error : Text
orphaned_error = codes "Orphaned"

-- The `switch validCond.Status`.
unfoldable pub set_old_fields : DetailedCondition → HttpProxyStatus → HttpProxyStatus
set_old_fields valid s = elim valid.status [
  | is_true ↦ record s { current_status = codes "valid"; description = valid.message }
  | is_false ↦ elim (get_error orphaned_error valid) [
    | some orphan ↦ record s { current_status = codes "orphaned"; description = orphan.message }
    | none ↦ record s { current_status = codes "invalid"; description = valid.message }
  ]
  | unknown ↦ s
  | unset ↦ s
]

-- `Mutate` on the status of an HTTPProxy; `none` is the panic of a nil pointer.
unfoldable pub mutate : ProxyUpdate → HttpProxyStatus → Option HttpProxyStatus
unfolding mutate_conditions set_old_fields
mutate pu s =
    let conditions = mutate_conditions pu pu.conditions s.conditions in
    elim (get_condition_for valid_condition_type conditions) [
      | none ↦ none
      | some valid ↦ some (set_old_fields valid (record s { conditions = conditions }))
    ]
