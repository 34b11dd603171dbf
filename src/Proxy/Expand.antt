-- ===== src/Proxy/Expand.antt =====
-- `expandPrefixMatches` of internal/dag/httpproxy_processor.go.
use contour.Prelude.{
  ◌&&◌, ◌==◌, Option, none, some, List, [], ◌∷◌, ◌++◌, Text, codes, text_eq, is_empty,
  if◌then◌else◌, find, insert,
}
use contour.Conditions.Types.{prefix_match, exact_match, regex_match, string}
use contour.Proxy.Source.{Externals, Backend}
use contour.Proxy.Actions.{PathRewritePolicy}
use contour.Proxy.Routes.{DagRoute}

-- `strings.TrimRight(s, "/")`.
unfoldable pub trim_slashes : Text → Text
trim_slashes [] = []
trim_slashes (c ∷ s) =
    let rest = trim_slashes s in if is_empty rest && (c == b'/') then [] else c ∷ rest

module _ (ext : Externals) (backend : Backend) where
  -- A route with its prefix, or none where it has another condition.
  abbrev pub prefix_of_route : DagRoute ext backend → Option Text
  prefix_of_route r = elim r.path [
    | prefix_match prefix kind ↦ some prefix
    | exact_match s ↦ none
    | regex_match s ↦ none
  ]

  -- The key of a route's group.
  abbrev pub group_key : Text → Text
  group_key prefix = if text_eq prefix (codes "/") then prefix else trim_slashes prefix

  -- `prefixedRoutes`, in the order in which the loop behind it visits the groups.
  abbrev pub Groups : Type 0
  Groups = List (Text × List (DagRoute ext backend))

  abbrev pub or_no_routes : Option (List (DagRoute ext backend)) → List (DagRoute ext backend)
  or_no_routes none = []
  or_no_routes (some rs) = rs

  -- The first loop: the routes with no prefix, and the groups.
  unfoldable pub group_routes :
      List (DagRoute ext backend)
      → List (DagRoute ext backend)
      → Groups
      → List (DagRoute ext backend) × Groups
  group_routes [] expanded groups = (expanded, groups)
  group_routes (r ∷ rs) expanded groups = elim (prefix_of_route r) [
    | none ↦ group_routes rs (expanded ++ r ∷ []) groups
    | some prefix ↦ group_routes rs expanded (
        insert text_eq (group_key prefix)
          (or_no_routes (find text_eq (group_key prefix) groups) ++ r ∷ []) groups)
  ]

  abbrev pub slash_if_empty : Text → Text
  slash_if_empty s = if is_empty s then codes "/" else s

  -- The two routes that a route with a rewrite becomes.
  unfoldable pub split_route :
      Text → DagRoute ext backend → PathRewritePolicy → List (DagRoute ext backend)
  unfolding trim_slashes
  split_route prefix r rewrite =
      let trimmed = trim_slashes rewrite.prefix_rewrite in
      record r {
        path = prefix_match prefix string;
        path_rewrite_policy = some (record rewrite { prefix_rewrite = slash_if_empty trimmed });
      }
      ∷ record r {
        path = prefix_match (prefix ++ codes "/") string;
        path_rewrite_policy =
            some (record { prefix_rewrite = trimmed ++ codes "/"; full_path_rewrite = [] });
      }
      ∷ []

  -- What the second loop appends for a group.
  unfoldable pub expand_group : Text → List (DagRoute ext backend) → List (DagRoute ext backend)
  unfolding split_route
  expand_group prefix [] = []
  expand_group prefix (r ∷ []) = elim r.path_rewrite_policy [
    | none ↦ r ∷ []
    | some rewrite ↦ elim (prefix_of_route r) [
      | none ↦ r ∷ []
      | some routing_prefix ↦
          if text_eq routing_prefix (codes "/") then r ∷ [] else split_route prefix r rewrite
    ]
  ]
  expand_group prefix (r ∷ s ∷ rs) = r ∷ s ∷ rs

  unfoldable pub expand_groups : Groups → List (DagRoute ext backend)
  unfolding expand_group
  expand_groups [] = []
  expand_groups ((prefix, rs) ∷ groups) = expand_group prefix rs ++ expand_groups groups

  unfoldable pub expand_prefix_matches : List (DagRoute ext backend) → List (DagRoute ext backend)
  unfolding group_routes expand_groups
  expand_prefix_matches routes =
      let (expanded, groups) = group_routes routes [] [] in expanded ++ expand_groups groups
