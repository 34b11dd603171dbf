-- ===== src/Sorter/Clusters.antt =====
-- The `Less` methods for values with a name, for weighted clusters and for filter chains.
use contour.Prelude.{
  ℕ, ◌≡◌, ◌≢◌, refl, sym, ◌∙◌, inl, inr, Bool-cases, ap₂, Bool, true, false, List, [], ◌∷◌, Text,
  compare, Ordering, is_lt, lex, on, compare-IsComparison, lex-IsComparison, on-IsComparison,
  IsStrictWeak, IsStrictWeak-of_comparison, if◌then◌else◌, text_eq, text_eq_iff, ltb, arith,
  comparison_refl, compare_list,
}
use contour.Sorter.{compare_text}
use contour.Sorter.Keys.{compare_text-IsComparison}

-- Go's `<` on strings.
abbrev pub text_less : Text → Text → Bool
text_less a b = is_lt (compare_text a b)

-- What `httpWeightedClusterSorter` and `tcpWeightedClusterSorter` read.
pub record WeightedCluster : Type 0 where
  pub name : Text
  pub weight : ℕ

unfoldable pub weighted_cluster_less : WeightedCluster → WeightedCluster → Bool
weighted_cluster_less a b =
    if text_eq a.name b.name then ltb a.weight b.weight else text_less a.name b.name

-- `filterChainSorter.Less`, over the `ServerNames` of the two chains.
unfoldable pub filter_chain_less : List Text → List Text → Bool
filter_chain_less [] b = false
filter_chain_less (s ∷ ss) [] = true
filter_chain_less (s ∷ ss) (t ∷ ts) = text_less s t

compare_text-eq : (a b : Text) → compare_text a b ≡ Ordering.eq → a ≡ b
unfolding compare_list
compare_text-eq [] [] h = refl
compare_text-eq [] (b ∷ t) h = cc
compare_text-eq (a ∷ s) [] h = cc
compare_text-eq (a ∷ s) (b ∷ t) h = ap₂ ◌∷◌ (ground arith) (compare_text-eq s t (ground arith))

abbrev pub compare_clusters : WeightedCluster → WeightedCluster → Ordering
compare_clusters = lex (on compare_text (λ c. c.name)) (on compare (λ c. c.weight))

name_decides :
    (a b : WeightedCluster)
    → compare_text a.name b.name ≢ Ordering.eq
    → text_less a.name b.name ≡ is_lt (compare_clusters a b)
name_decides a b h = ground arith

weighted_cluster_less-eq :
    (a b : WeightedCluster) → weighted_cluster_less a b ≡ is_lt (compare_clusters a b)
unfolding weighted_cluster_less
weighted_cluster_less-eq a b = elim (Bool-cases (text_eq a.name b.name)) [
  | inl same ↦
      let e = (text_eq_iff a.name b.name).0 same in
      rw same (rw (e, comparison_refl compare_text-IsComparison b.name) (ground arith))
  | inr other ↦ rw other (name_decides a b (λ e. apart e other))
]
  where
    apart : compare_text a.name b.name ≡ Ordering.eq → text_eq a.name b.name ≡ false → ⊥
    apart e other =
        let same = (text_eq_iff a.name b.name).1 (compare_text-eq a.name b.name e) in
        let r : false ≡ true = sym other ∙ same in cc

-- Weighted clusters are sorted by name and then by weight, and this is a strict weak order.
pub weighted_cluster_less-IsStrictWeak :
    ((a b : WeightedCluster) → weighted_cluster_less a b ≡ is_lt (compare_clusters a b))
    × IsStrictWeak (λ (c : WeightedCluster). Unit {0}) weighted_cluster_less
weighted_cluster_less-IsStrictWeak = (
  weighted_cluster_less-eq,
  IsStrictWeak-of_comparison
      (lex-IsComparison
        (on-IsComparison compare_text-IsComparison (λ (c : WeightedCluster). c.name))
        (on-IsComparison compare-IsComparison (λ (c : WeightedCluster). c.weight)))
      _ weighted_cluster_less (λ a b _ _. weighted_cluster_less-eq a b),
)

-- Chains with a server name first, by their first one.
abbrev names_rank : List Text → ℕ
names_rank [] = 1
names_rank (s ∷ ss) = 0

abbrev first_name : List Text → Text
first_name [] = []
first_name (s ∷ ss) = s

filter_chain_less-eq :
    (a b : List Text)
    → filter_chain_less a b ≡ is_lt (lex (on compare names_rank) (on compare_text first_name) a b)
unfolding filter_chain_less compare_list
filter_chain_less-eq [] [] = refl
filter_chain_less-eq [] (t ∷ ts) = refl
filter_chain_less-eq (s ∷ ss) [] = refl
filter_chain_less-eq (s ∷ ss) (t ∷ ts) = refl

-- Filter chains are sorted by their first server name, those with none behind all others, and this
-- is a strict weak order.
pub filter_chain_less-IsStrictWeak :
    ((a b : List Text)
      → filter_chain_less a b
        ≡ is_lt (lex (on compare names_rank) (on compare_text first_name) a b))
    × IsStrictWeak (λ (c : List Text). Unit {0}) filter_chain_less
filter_chain_less-IsStrictWeak = (
  filter_chain_less-eq,
  IsStrictWeak-of_comparison
      (lex-IsComparison (on-IsComparison compare-IsComparison names_rank)
        (on-IsComparison compare_text-IsComparison first_name))
      _ filter_chain_less (λ a b _ _. filter_chain_less-eq a b),
)
