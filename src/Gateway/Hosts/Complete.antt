-- ===== src/Gateway/Hosts/Complete.antt =====
-- Which names are served: where no other listener is more specific, all that both sides match, unless
-- the listener's pattern is narrower than the route's.
use contour.Prelude.{
  ◌≡◌, sym, ap, ◌∙◌, ◌⊎◌, inl, inr, Bool, true, false, not, ◌&&◌, ◌||◌, some, Option-cases,
  Bool-cases, List, [], ◌∷◌, ◌++◌, arith, Text, text_eq, text_eq_iff, is_empty, any,
}
use contour.Listeners.{HostnameRules, is_valid_hostname}
use contour.Gateway.Hosts.{
  trim_star, has_star, hostname_matches_wildcard_hostname, other_listener_intersection, host_for,
  put, add_hosts, compute_hosts,
}
use contour.Gateway.Hosts.Suffix.{hostname_matches_wildcard_hostname_iff}
use contour.Gateway.Hosts.Laws.{covers, starred}

comparable :
    (a b s t : Text) → a ++ s ≡ b ++ t → ((p : Text) × (s ≡ p ++ t)) ⊎ ((p : Text) × (t ≡ p ++ s))
comparable [] b s t e = inl (b, e)
comparable (c ∷ a) [] s t e = inr (c ∷ a, sym e)
comparable (c ∷ a) (d ∷ b) s t e = comparable a b s t (ground (arith, e))

-- A pattern whose rest ends in that of another is the other or is matched by it.
within :
    (q p : Text) (m : Text)
    → has_star q ≡ true
    → has_star p ≡ true
    → trim_star q ≡ m ++ trim_star p
    → (q ≡ p) ⊎ (hostname_matches_wildcard_hostname q p ≡ true)
within q p [] star star' e = inl (starred q star ∙ (ap (λ s. b'*' ∷ s) e ∙ sym (starred p star')))
within q p (c ∷ m) star star' e = inr (
    (hostname_matches_wildcard_hostname_iff q p).1
      (b'*', c ∷ m, starred q star ∙ ap (λ s. b'*' ∷ s) e))

-- Two patterns that match one name.
nested :
    (l r x : Text)
    → has_star l ≡ true
    → has_star r ≡ true
    → hostname_matches_wildcard_hostname x l ≡ true
    → hostname_matches_wildcard_hostname x r ≡ true
    → (l ≡ r)
      ⊎ ((hostname_matches_wildcard_hostname l r ≡ true)
          ⊎ (hostname_matches_wildcard_hostname r l ≡ true))
nested l r x star star' h k =
    let (c, m, e) = (hostname_matches_wildcard_hostname_iff x l).0 h in
    let (d, n, e') = (hostname_matches_wildcard_hostname_iff x r).0 k in
    elim (comparable (c ∷ m) (d ∷ n) (trim_star l) (trim_star r) (sym e ∙ e')) [
      | inl (p, q) ↦ elim (within l r p star star' q) [
        | inl same ↦ inl same
        | inr in_r ↦ inr (inl in_r)
      ]
      | inr (p, q) ↦ elim (within r l p star' star q) [
        | inl same ↦ inl (sym same)
        | inr in_l ↦ inr (inr in_l)
      ]
    ]

-- The listener's pattern is matched by the route's.
abbrev pub is_narrower : Text → Text → Bool
is_narrower l r = has_star l && has_star r && hostname_matches_wildcard_hostname l r

host_for-serves :
    (l r x : Text)
    → is_narrower l r ≡ false
    → (is_empty l || covers l x) ≡ true
    → covers r x ≡ true
    → (h : Text) × (host_for [] l r ≡ some h) × (covers h x ≡ true)
unfolding host_for other_listener_intersection
host_for-serves l r x wide listens named = elim (Bool-cases (is_empty l)) [
  | inl all ↦ (r, ground (arith, all), named)
  | inr some_host ↦ elim (Bool-cases (text_eq l r)) [
    | inl same ↦ (r, ground (arith, some_host, same), named)
    | inr other ↦ elim (Bool-cases (has_star l)) [
      | inl star ↦ (
        r,
        ground (
          arith,
          some_host,
          star,
          other,
          wide,
          listens,
          named,
          (text_eq_iff l x).0,
          (text_eq_iff r x).0,
          (text_eq_iff l r).1,
          nested l r x,
        ),
        named,
      )
      | inr plain ↦ (
        l,
        ground (
          arith,
          some_host,
          plain,
          other,
          listens,
          named,
          (text_eq_iff l x).0,
          (text_eq_iff r x).0,
          (text_eq_iff l r).1,
        ),
        ground (arith, some_host, plain, listens),
      )
    ]
  ]
]

any-snoc :
    (f : Text → Bool) (set : List Text) (s : Text) → any f (set ++ s ∷ []) ≡ (any f set || f s)
any-snoc f [] s = ground arith
any-snoc f (t ∷ set) s = ground (arith, any-snoc f set s)

any-there :
    (f : Text → Bool) (set : List Text) (s : Text)
    → any (λ t. text_eq t s) set ≡ true
    → f s ≡ true
    → any f set ≡ true
any-there f [] s h k = ground (arith, h)
any-there f (t ∷ set) s h k = elim (Bool-cases (text_eq t s)) [
  | inl same ↦ let it : f t ≡ true = ap f ((text_eq_iff t s).0 same) ∙ k in ground (arith, it)
  | inr other ↦ ground (arith, h, other, any-there f set s (ground (arith, h, other)) k)
]

any-put :
    (f : Text → Bool) (s : Text) (set : List Text)
    → (any f set || f s) ≡ true
    → any f (put s set) ≡ true
any-put f s set h = elim (Bool-cases (any (λ t. text_eq t s) set)) [
  | inl there ↦ rw there (ground (arith, h, any-there f set s there))
  | inr new ↦ rw new (ground (arith, h, any-snoc f set s))
]

module _ (rules : HostnameRules) (l : Text) where
  any-add_hosts :
      (f : Text → Bool) (rs hostnames errs : List Text)
      → any f hostnames ≡ true
      → any f (add_hosts rules [] l rs hostnames errs).0 ≡ true
  unfolding add_hosts
  any-add_hosts f [] hostnames errs h = h
  any-add_hosts f (r ∷ rs) hostnames errs h = elim (Bool-cases (is_valid_hostname rules r)) [
    | inr invalid ↦ rw (invalid, add_hosts) (any-add_hosts f rs hostnames (errs ++ r ∷ []) h)
    | inl valid ↦ elim (Option-cases (host_for [] l r)) [
      | inl left_out ↦ rw (valid, left_out, add_hosts) (any-add_hosts f rs hostnames errs h)
      | inr (s, chosen) ↦
          rw (valid, chosen, add_hosts)
            (any-add_hosts f rs (put s hostnames) errs (any-put f s hostnames (ground (arith, h))))
    ]
  ]

  -- The route's name is valid, matches `x`, and is not wider than the listener's.
  abbrev pub names : Text → Text → Bool
  names x r = is_valid_hostname rules r && not (is_narrower l r) && covers r x

  add_hosts-serves :
      (x : Text) (rs hostnames errs : List Text)
      → (is_empty l || covers l x) ≡ true
      → any (names x) rs ≡ true
      → any (λ h. covers h x) (add_hosts rules [] l rs hostnames errs).0 ≡ true
  unfolding add_hosts
  add_hosts-serves x [] hostnames errs listens named = ground (arith, named)
  add_hosts-serves x (r ∷ rs) hostnames errs listens named =
      elim (Bool-cases (is_valid_hostname rules r)) [
        | inr invalid ↦
            rw (invalid, add_hosts)
              (add_hosts-serves x rs hostnames (errs ++ r ∷ []) listens
                (ground (arith, named, invalid)))
        | inl valid ↦ elim (Bool-cases (names x r)) [
          | inr other ↦ elim (Option-cases (host_for [] l r)) [
            | inl left_out ↦
                rw (valid, left_out, add_hosts)
                  (add_hosts-serves x rs hostnames errs listens (ground (arith, named, other)))
            | inr (s, chosen) ↦
                rw (valid, chosen, add_hosts)
                  (add_hosts-serves x rs (put s hostnames) errs listens
                    (ground (arith, named, other)))
          ]
          | inl this ↦
              let (h, chosen, it) =
                host_for-serves l r x (ground (arith, this)) listens (ground (arith, this)) in
              rw (valid, chosen, add_hosts)
                (any-add_hosts (λ s. covers s x) rs (put h hostnames) errs
                  (any-put (λ s. covers s x) h hostnames (ground (arith, it))))
        ]
      ]

  -- Where there is no other listener, each name that the listener and one of the valid host names of
  -- the route match is matched by a host name of the set, unless the listener's pattern is narrower
  -- than that of the route.
  pub compute_hosts-serves :
      (x r : Text) (rs : List Text)
      → (is_empty l || covers l x) ≡ true
      → any (names x) (r ∷ rs) ≡ true
      → any (λ h. covers h x) (compute_hosts rules [] l (r ∷ rs)).0 ≡ true
  unfolding compute_hosts
  compute_hosts-serves x r rs listens named = add_hosts-serves x (r ∷ rs) [] [] listens named
