-- ===== src/Gateway/Hosts/Laws.antt =====
-- The hosts of a route lie within those of the listener and those that the route names.
use contour.Prelude.{
  ◌≡◌, refl, sym, ap, ◌∙◌, inl, inr, Bool, true, false, ◌&&◌, ◌||◌, ==_iff, some, Option-cases,
  Bool-cases, List, [], ◌∷◌, ◌++◌, append_assoc, arith, Text, text_eq, text_eq_iff, is_empty, any,
  All, All-imp, All-snoc,
}
use contour.Listeners.{HostnameRules, is_valid_hostname}
use contour.Gateway.Hosts.{
  trim_star, has_star, hostname_matches_wildcard_hostname, host_for, put, add_hosts, compute_hosts,
}
use contour.Gateway.Hosts.Suffix.{hostname_matches_wildcard_hostname_iff}

-- The pattern is the name, or has a wildcard and matches it.
abbrev pub covers : Text → Text → Bool
covers p x = text_eq p x || (has_star p && hostname_matches_wildcard_hostname x p)

pub starred : (q : Text) → has_star q ≡ true → q ≡ b'*' ∷ trim_star q
starred [] h = ground (arith, h)
starred (c ∷ s) h = ground (arith, h, (==_iff c b'*').0 h)

matches_trans :
    (p q x : Text)
    → has_star q ≡ true
    → hostname_matches_wildcard_hostname q p ≡ true
    → hostname_matches_wildcard_hostname x q ≡ true
    → hostname_matches_wildcard_hostname x p ≡ true
matches_trans p q x star h k =
    let (c, m, e) = (hostname_matches_wildcard_hostname_iff q p).0 h in
    let (d, n, e') = (hostname_matches_wildcard_hostname_iff x q).0 k in
    let both : b'*' ∷ trim_star q ≡ c ∷ (m ++ trim_star p) = sym (starred q star) ∙ e in
    let rest : trim_star q ≡ m ++ trim_star p = ground (arith, both) in
    (hostname_matches_wildcard_hostname_iff x p).1
      (d, n ++ m, e' ∙ (ap (λ s. d ∷ (n ++ s)) rest ∙ sym (append_assoc (d ∷ n) m (trim_star p))))

covers_refl : (p : Text) → covers p p ≡ true
covers_refl p = ground (arith, (text_eq_iff p p).1 refl)

pub covers_trans : (p q x : Text) → covers p q ≡ true → covers q x ≡ true → covers p x ≡ true
covers_trans p q x h k = ground (
  arith,
  h,
  k,
  (text_eq_iff p q).0,
  (text_eq_iff q x).0,
  (text_eq_iff p x).1,
  matches_trans p q x,
)

-- A name that a valid host name of the route puts in the set.
host_for-within :
    (others : List Text) (l r h : Text)
    → host_for others l r ≡ some h
    → ((is_empty l || covers l h) ≡ true) × (covers r h ≡ true)
unfolding host_for
host_for-within others l r h e =
    ground (arith, e, (text_eq_iff l r).0, (text_eq_iff r r).1 refl, (text_eq_iff l l).1 refl)

put-All {ℓ} : (P : Text → Type ℓ) (s : Text) (set : List Text) → All P set → P s → All P (put s set)
put-All P s set h p = elim (Bool-cases (any (λ t. text_eq t s) set)) [
  | inl there ↦ rw there h
  | inr new ↦ rw new (All-snoc P set s h p)
]

any-All :
    (f : Text → Text → Bool) (rs : List Text)
    → All (λ r. (x : Text) → f r x ≡ true → any (λ s. f s x) rs ≡ true) rs
any-All f [] = tt
any-All f (r ∷ rs) =
    (λ x h. ground (arith, h), All-imp rs (λ s h x k. ground (arith, h x k)) (any-All f rs))

abbrev pub is_none_named : List Text → Bool
is_none_named [] = true
is_none_named (r ∷ rs) = false

module _ (rules : HostnameRules) (others : List Text) (l : Text) where
  add_hosts-All {ℓ} :
      (P : Text → Type ℓ) (rs hostnames errs : List Text)
      → All
          (λ r. is_valid_hostname rules r ≡ true → (h : Text) → host_for others l r ≡ some h → P h)
          rs
      → All P hostnames
      → All P (add_hosts rules others l rs hostnames errs).0
  unfolding add_hosts
  add_hosts-All P [] hostnames errs each all = all
  add_hosts-All P (r ∷ rs) hostnames errs (first, each) all =
      elim (Bool-cases (is_valid_hostname rules r)) [
        | inr invalid ↦
            rw (invalid, add_hosts) (add_hosts-All P rs hostnames (errs ++ r ∷ []) each all)
        | inl valid ↦ elim (Option-cases (host_for others l r)) [
          | inl left_out ↦
              rw (valid, left_out, add_hosts) (add_hosts-All P rs hostnames errs each all)
          | inr (h, chosen) ↦
              rw (valid, chosen, add_hosts)
                (add_hosts-All P rs (put h hostnames) errs each
                  (put-All P h hostnames all (first valid h chosen)))
        ]
      ]

  -- What `h` matches, the listener matches, and one of the route's names that are valid.
  abbrev pub IsWithin : List Text → Text → Type 0
  IsWithin rs h =
      (x : Text)
      → covers h x ≡ true
      → ((is_empty l || covers l x) ≡ true)
        × ((is_none_named rs || any (λ r. is_valid_hostname rules r && covers r x) rs) ≡ true)

  -- Every host name in the set matches only what both the listener and one of the valid host names of
  -- the route match, where a listener or a route that names no host matches all.
  pub compute_hosts-IsWithin :
      (rs : List Text) → All (IsWithin rs) (compute_hosts rules others l rs).0
  unfolding compute_hosts
  compute_hosts-IsWithin [] = (λ x h. ground (arith, h), tt)
  compute_hosts-IsWithin (r ∷ rs) =
      add_hosts-All (IsWithin (r ∷ rs)) (r ∷ rs) [] []
        (All-imp (r ∷ rs)
          (λ s one valid h chosen x matched.
            let (listens, names) = host_for-within others l s h chosen in
            (
              ground (arith, listens, matched, covers_trans l h x),
              one x (ground (arith, valid, names, matched, covers_trans s h x)),
            ))
          (any-All (λ s x. is_valid_hostname rules s && covers s x) (r ∷ rs)))
        tt
