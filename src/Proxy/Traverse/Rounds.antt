-- ===== src/Proxy/Traverse/Rounds.antt =====
-- The loop over a proxy's routes: all of them are accepted, or the proxy has none.
use contour.Prelude.{
  ◌≡◌, refl, ap, ◌∙◌, ◌⊎◌, inl, inr, Option-cases, List, [], ◌∷◌, ◌++◌, Text, append_assoc,
  append-nil, Both,
}
use contour.Conditions.Types.{Condition}
use contour.Status.Detailed.{DetailedCondition}
use contour.Status.Detailed.Laws.{
  warning, Extends, Extends-refl, Extends-trans, Fails, Extends-Fails,
}
use contour.Proxy.Monad.Keeps.{IsStable, After}
use contour.Proxy.Source.{Externals, Backend}
use contour.Proxy.Routes.{RouteSpec, DagRoute, Place, route_of}
use contour.Proxy.Routes.Keeps.{route_of-Keeps}
use contour.Proxy.Routes.Laws.{IsAccepted, route_of-IsAccepted}
use contour.Proxy.Expand.{expand_prefix_matches}
use contour.Proxy.Traverse.{HttpProxy, Traversal, Result, add_routes}

pub reports-IsStable : (before : DetailedCondition) → IsStable (Extends before) (Fails before)
reports-IsStable before = record {
  forget = λ dc q. (q.0, q.1);
  error = λ kind reason message dc p. Extends-Fails before dc kind reason message p;
  warning = λ kind reason message dc p.
      Extends-trans before dc _ p (warning kind reason message ∷ [], refl);
}

module _ (ext : Externals) (backend : Backend) (t : Traversal ext backend) where
  module _ (conditions : List Condition) (proxy : HttpProxy ext backend) where
    abbrev pub place : Place
    place = record {
      root = t.root;
      proxy = proxy.name;
      conditions = conditions;
      enforce_tls = t.enforce_tls;
      default_jwt_provider = t.default_jwt_provider;
    }

    -- The routes that the loop made of the proxy's.
    abbrev pub Accepted : List (RouteSpec ext backend) → List (DagRoute ext backend) → Type 0
    Accepted = Both (IsAccepted ext backend t.config place)

    abbrev pub AllAccepted :
        List (RouteSpec ext backend) → DetailedCondition → (acc r : Result ext backend) → Type 0
    AllAccepted routes before acc r =
        (made : List (DagRoute ext backend)) × Accepted routes made
        × (r.routes ≡ expand_prefix_matches ext backend (acc.routes ++ made))
        × Extends before r.condition

    add_routes-all_or_none_from :
        (routes : List (RouteSpec ext backend)) (dynamic_headers : List (Text × Text))
        (before : DetailedCondition) (acc : Result ext backend)
        → Extends before acc.condition
        → ((add_routes ext backend t conditions proxy routes dynamic_headers acc).routes ≡ []
            × Fails before
                (add_routes ext backend t conditions proxy routes dynamic_headers acc).condition)
          ⊎ AllAccepted routes before acc
              (add_routes ext backend t conditions proxy routes dynamic_headers acc)
    unfolding add_routes
    add_routes-all_or_none_from [] dynamic_headers before acc p =
        inr ([], tt, rw (append-nil acc.routes) refl, p)
    add_routes-all_or_none_from (route ∷ routes) dynamic_headers before acc p =
        let made = route_of ext backend t.config place dynamic_headers route acc.condition in
        let reported : After (Extends before) (Fails before) made.0 made.1 =
          (route_of-Keeps (Extends before) (Fails before) (reports-IsStable before) ext backend
              t.config place dynamic_headers route).apply
            acc.condition p in
        elim (Option-cases made.1) [
          | inl dropped ↦
              inl (rw (dropped, add_routes) refl, rw (dropped, add_routes) (rw dropped at reported))
          | inr ((r, after), went_on) ↦
              let accepted : IsAccepted ext backend t.config place route r =
                route_of-IsAccepted ext backend t.config place dynamic_headers route acc.condition
                  made.0 r after (ap (λ o. (made.0, o)) went_on) in
              rw (went_on, add_routes)
                (elim (add_routes-all_or_none_from routes after before
                  (record acc { routes = acc.routes ++ r ∷ []; condition = made.0 })
                  (rw went_on at reported)) [
                    | inl failed ↦ inl failed
                    | inr (rs, all, e, q) ↦ inr (
                      r ∷ rs,
                      (accepted, all),
                      e
                          ∙ ap (expand_prefix_matches ext backend)
                              (append_assoc acc.routes (r ∷ []) rs),
                      q,
                    )
                  ])
        ]

    -- Either each route of the proxy was accepted, in the order of the proxy, and they are appended to
    -- the routes of the includes before prefixes are expanded, and nothing is lost of the condition, or
    -- an error was reported and the proxy has no route at all, not even those of its includes.
    pub add_routes-all_or_none :
        (routes : List (RouteSpec ext backend)) (dynamic_headers : List (Text × Text))
        (acc : Result ext backend)
        → ((add_routes ext backend t conditions proxy routes dynamic_headers acc).routes ≡ []
            × Fails acc.condition
                (add_routes ext backend t conditions proxy routes dynamic_headers acc).condition)
          ⊎ AllAccepted routes acc.condition acc
              (add_routes ext backend t conditions proxy routes dynamic_headers acc)
    add_routes-all_or_none routes dynamic_headers acc =
        add_routes-all_or_none_from routes dynamic_headers acc.condition acc
          (Extends-refl acc.condition)

    -- The rest of the accumulated result is left alone.
    pub add_routes-world :
        (routes : List (RouteSpec ext backend)) (dynamic_headers : List (Text × Text))
        (acc : Result ext backend)
        → (add_routes ext backend t conditions proxy routes dynamic_headers acc).world ≡ acc.world
    unfolding add_routes
    add_routes-world [] dynamic_headers acc = refl
    add_routes-world (route ∷ routes) dynamic_headers acc =
        let made = route_of ext backend t.config place dynamic_headers route acc.condition in
        elim (Option-cases made.1) [
          | inl dropped ↦ rw (dropped, add_routes) refl
          | inr ((r, after), went_on) ↦ rw (went_on, add_routes) (add_routes-world routes after _)
        ]

    pub add_routes-Extends :
        (routes : List (RouteSpec ext backend)) (dynamic_headers : List (Text × Text))
        (acc : Result ext backend)
        → Extends acc.condition
            (add_routes ext backend t conditions proxy routes dynamic_headers acc).condition
    add_routes-Extends routes dynamic_headers acc =
        elim (add_routes-all_or_none routes dynamic_headers acc) [
          | inl (none_left, failed) ↦ (failed.0, failed.1)
          | inr (made, all, e, extends) ↦ extends
        ]
