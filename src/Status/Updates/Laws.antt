-- ===== src/Status/Updates/Laws.antt =====
-- Which verdict on an HTTPProxy the cache keeps, and what an update does to its status.
use contour.Prelude.{
  ℕ, ◌≡◌, refl, ap, subst, ◌⊎◌, inl, inr, Bool, true, false, not, ◌&&◌, and_iff, Option, none, some,
  Option-cases, Bool-cases, List, [], ◌∷◌, arith, text_eq, text_eq_iff, if◌then◌else◌, All, find,
  insert, IsEquality, find-insert, Values, insert-Values, find-Values,
}
use contour.Status.Detailed.{
  ConditionStatus, is_true, is_false, valid_condition_type, is_positive_polarity,
}
use contour.Status.Detailed.Laws.{Report, reports, any_error, reports-status}
use contour.Status.Updates.{
  NamespacedName, same_name, ProxyUpdate, on_condition, new_condition, proxy_accessor, ProxyUpdates,
  valid_status, commit,
}

pub same_name-IsEquality : IsEquality same_name
unfolding same_name
same_name-IsEquality = record {
  sound = λ a b h.
      let (p, q) = (and_iff (text_eq a.namespace b.namespace) (text_eq a.name b.name)).0 h in
      ground (arith, (text_eq_iff a.namespace b.namespace).0 p, (text_eq_iff a.name b.name).0 q);
  reflexive = λ a.
      ground
        (arith, (text_eq_iff a.namespace a.namespace).1 refl, (text_eq_iff a.name a.name).1 refl);
}

-- The "Valid" condition of the update says true or false.
abbrev pub IsSettled : ProxyUpdate → Type 0
IsSettled pu = (valid_status pu ≡ some is_true) ⊎ (valid_status pu ≡ some is_false)

-- The status that the cache holds for a proxy.
abbrev pub verdict : NamespacedName → ProxyUpdates → Option ConditionStatus
verdict name c = elim (find same_name name c) [ none ↦ none | some pu ↦ valid_status pu ]

abbrev pub is_no : Option ConditionStatus → Bool
is_no (some is_false) = true
is_no _ = false

abbrev pub is_yes : Option ConditionStatus → Bool
is_yes (some is_true) = true
is_yes _ = false

-- The cache after a commit that does not panic.
pub kept : ProxyUpdate → ProxyUpdates → ProxyUpdates
kept pu c =
    if is_no (verdict pu.fullname c) && is_yes (valid_status pu)
    then c
    else insert same_name pu.fullname pu c

pub commit-kept :
    (pu : ProxyUpdate) (c : ProxyUpdates)
    → IsSettled pu
    → Values same_name IsSettled c
    → commit pu c ≡ some (kept pu c)
unfolding commit kept
commit-kept pu c s h = elim (Option-cases (find same_name pu.fullname c)) [
  | inl absent ↦ ground (arith, absent)
  | inr (old, present) ↦
      let settled : IsSettled old = find-Values same_name IsSettled pu.fullname old c h present in
      ground (arith, present, settled)
]

pub kept-Values :
    (pu : ProxyUpdate) (c : ProxyUpdates)
    → IsSettled pu
    → Values same_name IsSettled c
    → Values same_name IsSettled (kept pu c)
unfolding kept
kept-Values pu c s h =
    elim (Bool-cases (is_no (verdict pu.fullname c) && is_yes (valid_status pu))) [
      | inl stays ↦ rw stays h
      | inr goes ↦ rw goes (insert-Values same_name IsSettled pu.fullname pu c s h)
    ]

-- One commit on the verdict of one proxy: an error stays.
verdict-kept :
    (name : NamespacedName) (pu : ProxyUpdate) (c : ProxyUpdates)
    → IsSettled pu
    → verdict name (kept pu c) ≡ (
        if same_name pu.fullname name && not (is_no (verdict name c))
        then valid_status pu
        else verdict name c)
unfolding kept
verdict-kept name pu c s = elim (Bool-cases (same_name pu.fullname name)) [
  | inl same ↦
      subst
        (λ n. verdict n (kept pu c) ≡ (
          if same_name pu.fullname n && not (is_no (verdict n c))
          then valid_status pu
          else verdict n c))
        (same_name-IsEquality.sound pu.fullname name same)
        (ground (
          arith,
          s,
          find-insert same_name same_name-IsEquality pu.fullname pu.fullname pu c,
          same_name-IsEquality.reflexive pu.fullname,
        ))
  | inr other ↦
      ground (arith, other, find-insert same_name same_name-IsEquality name pu.fullname pu c)
]

abbrev pub commits : List ProxyUpdate → ProxyUpdates → Option ProxyUpdates
commits [] c = some c
commits (pu ∷ pus) c = elim (commit pu c) [ none ↦ none | some c' ↦ commits pus c' ]

-- Whether one of the updates for the proxy says so.
abbrev pub some_update : (Option ConditionStatus → Bool) → NamespacedName → List ProxyUpdate → Bool
some_update says name [] = false
some_update says name (pu ∷ pus) =
    if same_name pu.fullname name && says (valid_status pu) then true else some_update says name pus

abbrev pub decide : Bool → Bool → Option ConditionStatus
decide error valid = if error then some is_false else if valid then some is_true else none

-- The verdict that updates give where the cache has the verdict `before`.
abbrev decide_after : Option ConditionStatus → Bool → Bool → Option ConditionStatus
decide_after before error valid =
    if error
    then some is_false
    else if is_no before
    then before
    else if valid
    then some is_true
    else before

commits-verdict_from :
    (name : NamespacedName) (pus : List ProxyUpdate) (c : ProxyUpdates)
    → All IsSettled pus
    → Values same_name IsSettled c
    → (c' : ProxyUpdates) × (commits pus c ≡ some c')
      × (verdict name c'
          ≡ decide_after
              (verdict name c)
              (some_update is_no name pus)
              (some_update is_yes name pus))
commits-verdict_from name [] c s h = (c, refl, ground arith)
commits-verdict_from name (pu ∷ pus) c (s, ss) h =
    let (c', ran, result) = commits-verdict_from name pus (kept pu c) ss (kept-Values pu c s h) in
    (
      c',
      ground (arith, commit-kept pu c s h, ran),
      ground (arith, result, verdict-kept name pu c s, s),
    )

-- However updates that are settled are committed to an empty cache, no commit panics, and the verdict
-- on each proxy does not depend on their order: it is an error if any update for the proxy says so,
-- else valid if any does, else there is none.
pub commits-verdict :
    (name : NamespacedName) (pus : List ProxyUpdate)
    → All IsSettled pus
    → (c : ProxyUpdates) × (commits pus [] ≡ some c)
      × (verdict name c ≡ decide (some_update is_no name pus) (some_update is_yes name pus))
commits-verdict name pus s = commits-verdict_from name pus [] s tt

-- An update on whose "Valid" condition errors and warnings are reported, from when it is made, says
-- false exactly where an error was reported, and true elsewhere.
pub valid_status-reports :
    (rs : List Report) (fullname : NamespacedName) (generation now : ℕ)
    → valid_status
        (on_condition valid_condition_type (reports rs) (proxy_accessor fullname generation now))
      ≡ some (if any_error rs then is_false else is_true)
unfolding on_condition proxy_accessor is_positive_polarity text_eq
valid_status-reports rs fullname generation now =
    ap some (reports-status rs (new_condition valid_condition_type generation) refl)
