-- ===== src/Proxy/Traverse/Includes.antt =====
-- The includes of a proxy are followed to their end, without a panic, if each call ends.
use contour.Prelude.{
  ℕ, ◌≡◌, refl, sym, ap, subst, ◌∙◌, inl, inr, some, Option-cases, Bool-cases, List, [], ◌∷◌, ◌++◌,
  arith, Text, codes, All, find, Values,
}
use contour.Conditions.Types.{Condition}
use contour.Status.Detailed.{DetailedCondition, valid_condition_type}
use contour.Status.Detailed.Laws.{any_error, Extends}
use contour.Status.Updates.{
  NamespacedName, same_name, ProxyUpdate, proxy_accessor, on_condition, condition_for,
}
use contour.Status.Updates.Laws.{
  same_name-IsEquality, IsSettled, kept, commit-kept, kept-Values, valid_status-reports,
}
use contour.Proxy.Source.{Externals, Backend}
use contour.Proxy.Routes.{DagRoute}
use contour.Proxy.Identical.{Seen, include_match_conditions_identical}
use contour.Proxy.Traverse.{
  Visit, Include, finished, World, HttpProxy, Traversal, Result, check_include, fail, visit_include,
  include_name, follow_include, follow_includes, bad_gateway_routes, adopt,
}
use contour.Proxy.Traverse.Rounds.{reports-IsStable}
use contour.Proxy.Traverse.Measure.{seen}

module _ (ext : Externals) (backend : Backend) where
  -- A result, by the condition from which the call started.
  pub record IsSound (before : DetailedCondition) (r : Result ext backend) : Type 0 where
    pub condition : Extends before r.condition
    pub updates : Values same_name IsSettled r.world.updates

  -- The map of proxies has each under its own name.
  abbrev pub IsKeyed : List (NamespacedName × HttpProxy ext backend) → Type 0
  IsKeyed m = All (λ e. e.0 ≡ e.1.name) m

  find-IsKeyed :
      (k : NamespacedName) (p : HttpProxy ext backend)
      (m : List (NamespacedName × HttpProxy ext backend))
      → IsKeyed m
      → find same_name k m ≡ some p
      → p.name ≡ k
  find-IsKeyed k p [] keyed e = cc
  find-IsKeyed k p ((j, q) ∷ m) keyed e = elim (Bool-cases (same_name j k)) [
    | inl same ↦
        let found : some q ≡ some p = rw same at e in
        let it : q ≡ p = cc in
        ap (λ h. h.name) (sym it) ∙ (sym keyed.0 ∙ same_name-IsEquality.sound j k same)
    | inr other ↦ find-IsKeyed k p m keyed.1 (rw other at e)
  ]

  -- An include that is reported and not followed.
  abbrev failed :
      Text → Text → List (DagRoute ext backend) → Result ext backend → Result ext backend
  failed kind reason routes acc = record acc {
    condition = fail ext backend kind reason acc.condition;
    routes = routes;
  }

  failed-IsSound :
      (before : DetailedCondition) (kind reason : Text) (routes : List (DagRoute ext backend))
      (acc : Result ext backend)
      → IsSound before acc
      → IsSound before (failed kind reason routes acc)
  failed-IsSound before kind reason routes acc good = record {
    condition =
        (reports-IsStable before).forget _
          ((reports-IsStable before).error kind reason [] acc.condition good.condition);
    updates = good.updates;
  }

  module _ (t : Traversal ext backend) where
    -- The verdict of a traversal that starts with a new condition is settled.
    ended-IsSettled :
        (fullname : NamespacedName) (generation now : ℕ) (dc : DetailedCondition)
        → Extends (condition_for valid_condition_type (proxy_accessor fullname generation now)).0 dc
        → IsSettled
            (on_condition valid_condition_type (λ _. dc) (proxy_accessor fullname generation now))
    unfolding on_condition
    ended-IsSettled fullname generation now dc (rs, e) =
        let status = valid_status-reports rs fullname generation now in
        elim (Bool-cases (any_error rs)) [
          | inl bad ↦ inr (rw e (ground (arith, status, bad)))
          | inr good ↦ inl (rw e (ground (arith, status, good)))
        ]

    -- The call on each proxy of the map that is not yet visited ends.
    abbrev pub VisitEnds : Visit ext backend t → Type 0
    VisitEnds visit =
        (conditions : List Condition) (proxy : HttpProxy ext backend) (dc : DetailedCondition)
        (w : World)
        → find same_name proxy.name t.proxies ≡ some proxy
        → Values same_name IsSettled w.updates
        → (r : Result ext backend) × (visit conditions proxy dc w ≡ finished r) × IsSound dc r

    visit_include-ends :
        (visit : Visit ext backend t) (ends : VisitEnds visit) (conditions : List Condition)
        (included : HttpProxy ext backend) (w : World)
        → find same_name included.name t.proxies ≡ some included
        → Values same_name IsSettled w.updates
        → (r : Result ext backend) × (visit_include ext backend t visit conditions included w
            ≡ finished r)
          × Values same_name IsSettled r.world.updates
    unfolding visit_include
    visit_include-ends visit ends conditions included w known settled =
        let pu : ProxyUpdate = proxy_accessor included.name included.generation t.now in
        let (r, e, good) =
          ends conditions included (condition_for valid_condition_type pu).0 w known settled in
        let pu' : ProxyUpdate = on_condition valid_condition_type (λ _. r.condition) pu in
        let settled' : IsSettled pu' =
          ended-IsSettled included.name included.generation t.now r.condition good.condition in
        (
          record r {
            world =
                adopt ext backend included.name
                  (record r.world { updates = kept pu' r.world.updates });
          },
          ground (arith, e, commit-kept pu' r.world.updates settled' good.updates),
          kept-Values pu' r.world.updates settled' good.updates,
        )

    follow_include-ends :
        (visit : Visit ext backend t) (ends : VisitEnds visit) (keyed : IsKeyed t.proxies)
        (conditions : List Condition) (proxy : HttpProxy ext backend) (include : Include)
        (before : DetailedCondition) (acc : Result ext backend) (conds : Seen)
        → IsSound before acc
        → (acc' : Result ext backend) × (conds' : Seen) × (follow_include ext backend t visit
              conditions proxy include acc conds
            ≡ finished (acc', conds'))
          × IsSound before acc'
    unfolding follow_include
    follow_include-ends visit ends keyed conditions proxy include before acc conds good =
        let name = include_name ext backend t proxy include in
        let bad_gateway =
          acc.routes ++ bad_gateway_routes ext backend t.config proxy.name include.conditions in
        let (identical, conds') = include_match_conditions_identical include.conditions conds in
        elim (Option-cases (check_include ext backend include.conditions)) [
          | inr ((kind, reason), bad) ↦ stop conds kind reason acc.routes (ground (arith, bad))
          | inl fine ↦ elim (Bool-cases identical) [
            | inl duplicate ↦
                stop conds' (codes "IncludeError") (codes "DuplicateMatchConditions") acc.routes
                  (ground (arith, fine, duplicate))
            | inr new ↦ elim (Option-cases (find same_name name t.proxies)) [
              | inl absent ↦
                  stop conds' (codes "IncludeError") (codes "IncludeNotFound") bad_gateway
                    (ground (arith, fine, new, absent))
              | inr (included, present) ↦ elim (Bool-cases included.is_root) [
                | inl root ↦
                    stop conds' (codes "IncludeError") (codes "RootIncludesRoot") bad_gateway
                      (ground (arith, fine, new, present, root))
                | inr child ↦
                    let its_name = find-IsKeyed name included t.proxies keyed present in
                    let (r, e, settled) =
                      visit_include-ends visit ends (conditions ++ include.conditions) included
                        acc.world
                        (subst (λ n. find same_name n t.proxies ≡ some included) (sym its_name)
                          present)
                        good.updates in
                    (
                      record acc { routes = acc.routes ++ r.routes; world = r.world },
                      conds',
                      ground (arith, fine, new, present, child, e),
                      record { condition = good.condition; updates = settled },
                    )
              ]
            ]
          ]
        ]
      where
        stop :
            (conds'' : Seen) (kind reason : Text) (routes : List (DagRoute ext backend))
            → follow_include ext backend t visit conditions proxy include acc conds
              ≡ finished (failed kind reason routes acc, conds'')
            → (acc' : Result ext backend) × (conds' : Seen) × (follow_include ext backend t visit
                  conditions proxy include acc conds
                ≡ finished (acc', conds'))
              × IsSound before acc'
        stop conds'' kind reason routes e = (
          failed kind reason routes acc,
          conds'',
          e,
          failed-IsSound before kind reason routes acc good,
        )

    pub follow_includes-ends :
        (visit : Visit ext backend t) (ends : VisitEnds visit) (keyed : IsKeyed t.proxies)
        (conditions : List Condition) (proxy : HttpProxy ext backend) (includes : List Include)
        (before : DetailedCondition) (acc : Result ext backend) (seen : Seen)
        → IsSound before acc
        → (acc' : Result ext backend) × (follow_includes ext backend t visit conditions proxy
              includes acc seen
            ≡ finished acc')
          × IsSound before acc'
    unfolding follow_includes
    follow_includes-ends visit ends keyed conditions proxy [] before acc seen good =
        (acc, refl, good)
    follow_includes-ends visit ends keyed conditions proxy (include ∷ includes) before acc seen
          good =
        let (acc', seen', e, good') =
          follow_include-ends visit ends keyed conditions proxy include before acc seen good in
        let (r, e', good'') =
          follow_includes-ends visit ends keyed conditions proxy includes before acc' seen' good' in
        (r, ground (arith, e, e'), good'')
