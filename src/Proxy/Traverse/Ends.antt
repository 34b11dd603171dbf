-- ===== src/Proxy/Traverse/Ends.antt =====
-- A traversal ends, panics nowhere, and keeps what was reported.
use contour.Prelude.{
  ℕ, zero, suc, ◌<◌, ◌≡◌, refl, inl, inr, some, Bool-cases, List, [], ◌∷◌, ◌++◌, arith, Text, codes,
  length, find, Values,
}
use contour.Conditions.Types.{Condition}
use contour.Status.Detailed.{DetailedCondition}
use contour.Status.Detailed.Laws.{error, Extends-refl, Extends-trans}
use contour.Status.Updates.{NamespacedName, same_name}
use contour.Status.Updates.Laws.{IsSettled}
use contour.Proxy.Source.{Externals, Backend}
use contour.Proxy.Routes.{RouteSpec}
use contour.Proxy.Traverse.{
  finished, World, HttpProxy, Traversal, Result, fail, add_routes, compute_routes,
}
use contour.Proxy.Traverse.Rounds.{add_routes-world, add_routes-Extends}
use contour.Proxy.Traverse.Measure.{seen, remaining, remaining-nil, remaining-snoc_less}
use contour.Proxy.Traverse.Includes.{IsSound, IsKeyed, VisitEnds, follow_includes-ends}

module _ (ext : Externals) (backend : Backend) (t : Traversal ext backend) where
  add_routes-IsSound :
      (conditions : List Condition) (proxy : HttpProxy ext backend)
      (routes : List (RouteSpec ext backend)) (dynamic_headers : List (Text × Text))
      (before : DetailedCondition) (acc : Result ext backend)
      → IsSound ext backend before acc
      → IsSound ext backend before
          (add_routes ext backend t conditions proxy routes dynamic_headers acc)
  add_routes-IsSound conditions proxy routes dynamic_headers before acc good = record {
    condition =
        Extends-trans before acc.condition _ good.condition
          (add_routes-Extends ext backend t conditions proxy routes dynamic_headers acc);
    updates =
        rw (add_routes-world ext backend t conditions proxy routes dynamic_headers acc)
          good.updates;
  }

  compute_routes-ends_from :
      (keyed : IsKeyed ext backend t.proxies) (fuel : ℕ) (visited : List NamespacedName)
      → remaining visited t.proxies < fuel
      → VisitEnds ext backend t (compute_routes ext backend t fuel visited)
  unfolding compute_routes
  compute_routes-ends_from keyed zero visited enough conditions proxy dc w known settled =
      ground arith
  compute_routes-ends_from keyed (suc fuel) visited enough conditions proxy dc w known settled =
      elim (Bool-cases (seen visited proxy.name)) [
        | inl cycle ↦ (
          record {
            routes = [];
            condition = fail ext backend (codes "IncludeError") (codes "IncludeCreatesCycle") dc;
            world = w;
          },
          ground (arith, cycle),
          record {
            condition = (error (codes "IncludeError") (codes "IncludeCreatesCycle") [] ∷ [], refl);
            updates = settled;
          },
        )
        | inr fresh ↦
            let fewer = remaining-snoc_less visited proxy.name proxy t.proxies known fresh in
            let enough' : remaining (visited ++ proxy.name ∷ []) t.proxies < fuel =
              omega (arith, fewer, enough) in
            let ends = compute_routes-ends_from keyed fuel (visited ++ proxy.name ∷ []) enough' in
            let (acc, e, good) =
              follow_includes-ends ext backend t
                (compute_routes ext backend t fuel (visited ++ proxy.name ∷ [])) ends keyed
                conditions proxy proxy.includes dc
                (record { routes = []; condition = dc; world = w }) []
                (record { condition = Extends-refl dc; updates = settled }) in
            (
              add_routes ext backend t conditions proxy proxy.routes
                  ((codes "CONTOUR_NAMESPACE", proxy.name.namespace) ∷ []) acc,
              ground (arith, fresh, e),
              add_routes-IsSound conditions proxy proxy.routes
                  ((codes "CONTOUR_NAMESPACE", proxy.name.namespace) ∷ []) dc acc good,
            )
      ]

  -- Where the map has each proxy under its own name, the cache is settled and the fuel exceeds the
  -- number of proxies, the traversal of a proxy of the map ends, without a panic. Its condition is
  -- the one that it started with and what was reported since, and every verdict of the cache that it
  -- leaves is true or false.
  pub compute_routes-ends :
      (keyed : IsKeyed ext backend t.proxies) (fuel : ℕ) (conditions : List Condition)
      (proxy : HttpProxy ext backend) (dc : DetailedCondition) (w : World)
      → length t.proxies < fuel
      → find same_name proxy.name t.proxies ≡ some proxy
      → Values same_name IsSettled w.updates
      → (r : Result ext backend) × (compute_routes ext backend t fuel [] conditions proxy dc w
          ≡ finished r)
        × IsSound ext backend dc r
  compute_routes-ends keyed fuel conditions proxy dc w enough known settled =
      compute_routes-ends_from keyed fuel [] (omega (arith, enough, remaining-nil t.proxies))
        conditions proxy dc w known settled
