-- ===== src/Gateway/Matches/Laws.antt =====
-- What an accepted match of a Gateway API route is.
use contour.Prelude.{
  ◌≡◌, refl, subst, ap, inl, inr, Bool, true, false, Option, none, some, Bool-cases, Sum-cases,
  List, [], ◌∷◌, ◌++◌, arith, Text, text_eq, any, map, All, Pairs, Pairs-snoc,
}
use contour.Conditions.Types.{
  PathMatchCondition, prefix_match, exact_match, regex_match, HeaderMatchCondition,
}
use contour.Conditions.Path.{starts_with_slash}
use contour.Gateway.Matches.{
  double_slash, to_upper, PathMatch, matched, NameMatch, gateway_path_match_condition,
  is_expression, add_matches, header_condition, gateway_header_match_conditions,
}

abbrev pub IsClean : Text → Type 0
IsClean path = (starts_with_slash path ≡ true) × (double_slash path ≡ false)

module _ (compiles : Text → Bool) where
  -- What is known of a path condition.
  abbrev pub IsPath : PathMatchCondition → Type 0
  IsPath (prefix_match path kind) = IsClean path
  IsPath (exact_match path) = IsClean path
  IsPath (regex_match regex) = compiles regex ≡ true

  -- The path condition of a match is a clean path, which starts with a slash and has no two slashes in a
  -- row, or an expression that compiles.
  pub gateway_path_match_condition-IsPath :
      (m : Option PathMatch) (c : PathMatchCondition)
      → gateway_path_match_condition compiles m ≡ matched c
      → IsPath c
  unfolding gateway_path_match_condition
  gateway_path_match_condition-IsPath none (prefix_match path kind) e = ground (arith, e)
  gateway_path_match_condition-IsPath none (exact_match path) e = ground (arith, e)
  gateway_path_match_condition-IsPath none (regex_match regex) e = ground (arith, e)
  gateway_path_match_condition-IsPath (some m) (prefix_match path kind) e = ground (arith, e)
  gateway_path_match_condition-IsPath (some m) (exact_match path) e = ground (arith, e)
  gateway_path_match_condition-IsPath (some m) (regex_match regex) e = ground (arith, e)

  abbrev named : HeaderMatchCondition → Text
  named c = to_upper c.name

  -- Two conditions are on different headers, whatever the case of their names.
  abbrev pub Apart : HeaderMatchCondition → HeaderMatchCondition → Type 0
  Apart a b = text_eq (to_upper a.name) (to_upper b.name) ≡ false

  unseen-All :
      (k : Text) (cs : List HeaderMatchCondition)
      → any (λ s. text_eq s k) (map named cs) ≡ false
      → All (λ c. text_eq (named c) k ≡ false) cs
  unseen-All k [] h = tt
  unseen-All k (c ∷ cs) h = (ground (arith, h), unseen-All k cs (ground (arith, h)))

  map-snoc :
      (cs : List HeaderMatchCondition) (c : HeaderMatchCondition)
      → map named (cs ++ c ∷ []) ≡ map named cs ++ named c ∷ []
  map-snoc [] c = refl
  map-snoc (d ∷ cs) c = ap (λ ks. named d ∷ ks) (map-snoc cs c)

  add_matches-Apart :
      (ms : List NameMatch) (cs result : List HeaderMatchCondition)
      → Pairs Apart cs
      → add_matches compiles to_upper (header_condition compiles) ms (map named cs) cs ≡ inr result
      → Pairs Apart result
  unfolding add_matches
  add_matches-Apart [] cs result apart e = let it : cs ≡ result = cc in subst (Pairs Apart) it apart
  add_matches-Apart (m ∷ ms) cs result apart e = elim (Sum-cases (is_expression compiles m)) [
    | inl (err, bad) ↦ ground (arith, bad, e)
    | inr (expression, good) ↦
        elim (Bool-cases (any (λ s. text_eq s (to_upper m.name)) (map named cs))) [
          | inl again ↦ add_matches-Apart ms cs result apart (rw (good, again, add_matches) at e)
          | inr new ↦
              let c = header_condition compiles m expression in
              add_matches-Apart ms (cs ++ c ∷ []) result
                (Pairs-snoc Apart cs c apart (unseen-All (to_upper m.name) cs new))
                (rw (map-snoc cs c) (rw (good, new, add_matches) at e))
        ]
  ]

  -- At most one condition is made for each header, whatever the case in which its name is written.
  pub gateway_header_match_conditions-Apart :
      (ms : List NameMatch) (result : List HeaderMatchCondition)
      → gateway_header_match_conditions compiles ms ≡ inr result
      → Pairs Apart result
  unfolding gateway_header_match_conditions
  gateway_header_match_conditions-Apart ms result e = add_matches-Apart ms [] result tt e
