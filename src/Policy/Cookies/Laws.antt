-- ===== src/Policy/Cookies/Laws.antt =====
-- Which cookie rewrites and prefix replacements are accepted.
use contour.Prelude.{
  ◌≡◌, refl, sym, ◌∙◌, ap, ◌↔◌, ◌⊎◌, inl, inr, Bool, true, not, ◌==◌, Option, none, some, Sum-cases,
  List, [], ◌∷◌, ◌++◌, append_assoc, append-nil, map, arith, Text, All, All-imp, Pairs,
}
use contour.Policy.Loops.{rounds, rounds_all, rounds_iff, Apart, Fresh}
use contour.Policy.Cookies.{
  CookieSpec, CookieRewritePolicy, CookieError, Cookies, secure_of, policies_set, rewrite_cookie,
  no_cookies, cookie_rewrite_policies, ReplacePrefix, check_replacement,
  prefix_replacements_are_valid,
}

abbrev pub rewrites_something : CookieSpec → Bool
rewrites_something p = not (policies_set p == 0)

abbrev pub every {ℓ} : {A : Type ℓ} → A → Bool
every x = true

abbrev pub cookie_name : CookieSpec → Text
cookie_name p = p.name

-- The policy that a rewrite gives.
abbrev pub policy_of_cookie : CookieSpec → CookieRewritePolicy
policy_of_cookie p = record {
  name = p.name;
  path = p.path_rewrite;
  domain = p.domain_rewrite;
  secure = secure_of p.secure;
  same_site = p.same_site;
}

abbrev put_cookie : Cookies → CookieSpec → Cookies
put_cookie s p = record {
  cookie_names = p.name ∷ s.cookie_names;
  valid_policies = s.valid_policies ++ policy_of_cookie p ∷ [];
}

put_cookies-valid_policies :
    (s : Cookies) (ps : List CookieSpec)
    → (rounds_all put_cookie s ps).valid_policies ≡ s.valid_policies ++ map policy_of_cookie ps
put_cookies-valid_policies s [] = sym (append-nil s.valid_policies)
put_cookies-valid_policies s (p ∷ ps) =
    put_cookies-valid_policies (put_cookie s p) ps
    ∙ append_assoc s.valid_policies (policy_of_cookie p ∷ []) (map policy_of_cookie ps)

rewrite_cookies_iff :
    (s s' : Cookies) (ps : List CookieSpec)
    → (rounds rewrite_cookie s ps ≡ inr s') ↔ (
        All (λ p. rewrites_something p ≡ true) ps
        × All (Fresh cookie_name s.cookie_names) ps
        × Pairs (Apart cookie_name every) ps
        × (rounds_all put_cookie s ps ≡ s'))
unfolding rewrite_cookie
rewrite_cookies_iff =
    rounds_iff cookie_name every rewrites_something (λ s. s.cookie_names) rewrite_cookie put_cookie
      (λ s p. refl) (λ s p some_set new. ground arith) (λ s p s' h. ground arith)

-- `cookieRewritePolicies` returns `vs` exactly when every rewrite sets an attribute, no two are for one
-- cookie, and `vs` are their policies in their order.
pub cookie_rewrite_policies_iff :
    (ps : List CookieSpec) (vs : List CookieRewritePolicy)
    → (cookie_rewrite_policies ps ≡ inr vs) ↔ (
        All (λ p. rewrites_something p ≡ true) ps
        × Pairs (Apart cookie_name every) ps
        × (map policy_of_cookie ps ≡ vs))
unfolding cookie_rewrite_policies
cookie_rewrite_policies_iff ps vs = (
  λ e. elim (Sum-cases (rounds rewrite_cookie no_cookies ps)) [
    | inl (err, failed) ↦ absurd (
        let q : ◌≡◌ {A = CookieError ⊎ List CookieRewritePolicy} (inl err) (inr vs) =
          rw (failed, cookie_rewrite_policies) at e in
        cc)
    | inr (s, ran) ↦
        let (sets, _, apart, result) = (rewrite_cookies_iff no_cookies s ps).0 ran in
        let same : ◌≡◌ {A = CookieError ⊎ List CookieRewritePolicy} (inr s.valid_policies)
            (inr vs) =
          rw (ran, cookie_rewrite_policies) at e in
        (
          sets,
          apart,
          sym (put_cookies-valid_policies no_cookies ps)
              ∙ ap (λ s. s.valid_policies) result
              ∙ cc same,
        )
  ],
  λ (sets, apart, same).
      rw
        (
          (rewrite_cookies_iff no_cookies (rounds_all put_cookie no_cookies ps) ps).1
              (sets, All-imp ps (λ p _. refl) sets, apart, refl),
          cookie_rewrite_policies,
          put_cookies-valid_policies no_cookies ps,
          same,
        )
        refl,
)

-- The three states of `secure`, unset, false and true, are told apart in the generated policy.
pub secure_of-injective : (a b : Option Bool) → secure_of a ≡ secure_of b → a ≡ b
unfolding secure_of
secure_of-injective a b h = ground arith

abbrev pub prefix_of : ReplacePrefix → Text
prefix_of r = r.prefix

check_replacements_iff :
    (seen seen' : List Text) (rs : List ReplacePrefix)
    → (rounds check_replacement seen rs ≡ inr seen') ↔ (
        All (λ r. every r ≡ true) rs
        × All (Fresh prefix_of seen) rs
        × Pairs (Apart prefix_of every) rs
        × (rounds_all (λ seen r. r.prefix ∷ seen) seen rs ≡ seen'))
unfolding check_replacement
check_replacements_iff =
    rounds_iff prefix_of every every (λ seen. seen) check_replacement (λ seen r. r.prefix ∷ seen)
      (λ s r. refl) (λ s r g new. ground arith) (λ s r s' h. ground arith)

All-every : (rs : List ReplacePrefix) → All (λ r. every r ≡ true) rs
All-every [] = tt
All-every (r ∷ rs) = (refl, All-every rs)

-- `prefixReplacementsAreValid` returns no error exactly when no prefix, the empty one included, is
-- replaced twice.
pub prefix_replacements_are_valid_iff :
    (rs : List ReplacePrefix)
    → (prefix_replacements_are_valid rs ≡ none) ↔ Pairs (Apart prefix_of every) rs
unfolding prefix_replacements_are_valid
prefix_replacements_are_valid_iff rs = (
  λ e. elim (Sum-cases (rounds check_replacement [] rs)) [
    | inl (err, failed) ↦
        absurd (let q : some err ≡ none = rw (failed, prefix_replacements_are_valid) at e in cc)
    | inr (seen, ran) ↦ ((check_replacements_iff [] seen rs).0 ran).2
  ],
  λ apart.
      let all = rounds_all (λ seen r. r.prefix ∷ seen) [] rs in
      rw
        (
          (check_replacements_iff [] all rs).1
              (All-every rs, All-imp rs (λ r _. refl) (All-every rs), apart, refl),
          prefix_replacements_are_valid,
        )
        refl,
)
