-- ===== src/Tests/Order.antt =====
-- The sorters.
use contour.Prelude.{◌≡◌, refl, true, false, [], ◌∷◌, Text, codes, compare_list, text_eq}
use contour.Conditions.Types.{
  PathMatchCondition, prefix_match, exact_match, regex_match, string, segment, HeaderMatchCondition,
  HeaderMatchType,
}
use contour.Sorter.{Route, route_less, header_less}
use contour.Sorter.Order.{route_less-of_lt, route_less_both_ways}
use contour.Sorter.Clusters.{weighted_cluster_less, filter_chain_less}

abbrev header : Text → Text → HeaderMatchCondition
header name value = record {
  name = name;
  value = value;
  match_type = HeaderMatchType.exact;
  invert = false;
  ignore_case = false;
  treat_missing_as_empty = false;
}

abbrev plain : PathMatchCondition → Route
plain path = record { path = path; headers = []; query_params = []; priority = 0 }

abbrev short : Route
short = plain (prefix_match (codes "/a") string)

abbrev long : Route
long = plain (prefix_match (codes "/ab") string)

abbrev with_header : Route
with_header = record short { headers = header (codes "x") (codes "1") ∷ [] }

order_tests :
    (route_less long short ≡ true)
    × (route_less (plain (exact_match (codes "/"))) long ≡ true)
    × (route_less (plain (regex_match (codes "/"))) (plain (exact_match (codes "/"))) ≡ false)
    × (route_less (plain (prefix_match (codes "/a") segment)) short ≡ true)
    × (route_less with_header short ≡ true)
    × (route_less
          (record with_header { headers = header (codes ":method") (codes "GET") ∷ [] })
          with_header
        ≡ true)
    × (weighted_cluster_less
          (record { name = codes "a"; weight = 1 })
          (record { name = codes "a"; weight = 2 })
        ≡ true)
    × (filter_chain_less (codes "b" ∷ []) [] ≡ true)
unfolding route_less compare_list text_eq weighted_cluster_less filter_chain_less
order_tests = (refl, refl, refl, refl, refl, refl, refl, refl)

of_lt_example : route_less with_header short ≡ true
unfolding compare_list text_eq
of_lt_example = route_less-of_lt with_header short refl

both_ways_example :
    let a = record short {
      headers = header (codes "a") (codes "1") ∷ header (codes "d") (codes "1") ∷ [];
    } in
    let b = record short {
      headers = header (codes "b") (codes "1") ∷ header (codes "c") (codes "1") ∷ [];
    } in
    (route_less a b ≡ true) × (route_less b a ≡ true)
unfolding header_less compare_list text_eq
both_ways_example =
    route_less_both_ways short (header (codes "a") (codes "1")) (header (codes "d") (codes "1"))
      (header (codes "b") (codes "1")) (header (codes "c") (codes "1"))
      (refl, (refl, (refl, (refl, tt)))) refl refl
