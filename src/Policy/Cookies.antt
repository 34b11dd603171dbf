-- ===== src/Policy/Cookies.antt =====
-- `cookieRewritePolicies` and `prefixReplacementsAreValid` of internal/dag/policy.go.
pub mod Laws
use contour.Prelude.{
  ℕ, ◌+◌, ◌⊎◌, inl, inr, Bool, true, false, ◌==◌, Option, none, some, List, [], ◌∷◌, ◌++◌, Text,
  is_empty, if◌then◌else◌, map,
}
use contour.Conditions.Header.{has_name}
use contour.Policy.Loops.{rounds}

-- `CookieRewritePolicy` of apis/projectcontour/v1/httpproxy.go.
pub record CookieSpec : Type 0 where
  pub name : Text
  pub path_rewrite : Option Text
  pub domain_rewrite : Option Text
  pub secure : Option Bool
  pub same_site : Option Text

-- `CookieRewritePolicy` of internal/dag/dag.go.
pub record CookieRewritePolicy : Type 0 where
  pub name : Text
  pub path : Option Text
  pub domain : Option Text
  -- 0 where unset, 1 for false, 2 for true.
  pub secure : ℕ
  pub same_site : Option Text

pub data CookieError : Type 0 where
  duplicate_cookie no_attributes : Text → CookieError

abbrev pub count_set {ℓ} : {A : Type ℓ} → Option A → ℕ
count_set none = 0
count_set (some x) = 1

unfoldable pub secure_of : Option Bool → ℕ
secure_of none = 0
secure_of (some b) = if b then 2 else 1

unfoldable pub policies_set : CookieSpec → ℕ
policies_set p =
    count_set p.path_rewrite
    + count_set p.domain_rewrite
    + count_set p.secure
    + count_set p.same_site

-- `cookieNames` and `validPolicies`.
pub record Cookies : Type 0 where
  pub cookie_names : List Text
  pub valid_policies : List CookieRewritePolicy

-- One round of the loop.
unfoldable pub rewrite_cookie : Cookies → CookieSpec → CookieError ⊎ Cookies
unfolding secure_of policies_set
rewrite_cookie s p =
    if has_name p.name s.cookie_names
    then inl (duplicate_cookie p.name)
    else if policies_set p == 0
    then inl (no_attributes p.name)
    else inr (record {
      cookie_names = p.name ∷ s.cookie_names;
      valid_policies =
          s.valid_policies
          ++ record {
            name = p.name;
            path = p.path_rewrite;
            domain = p.domain_rewrite;
            secure = secure_of p.secure;
            same_site = p.same_site;
          }
            ∷ [];
    })

abbrev pub no_cookies : Cookies
no_cookies = record { cookie_names = []; valid_policies = [] }

-- A nil slice and an empty one are the empty list.
unfoldable pub cookie_rewrite_policies : List CookieSpec → CookieError ⊎ List CookieRewritePolicy
unfolding rewrite_cookie
cookie_rewrite_policies policies = elim (rounds rewrite_cookie no_cookies policies) [
  | inl err ↦ inl err
  | inr s ↦ inr s.valid_policies
]

pub record ReplacePrefix : Type 0 where
  pub prefix : Text
  pub replacement : Text

pub data ReplacementError : Type 0 where
  duplicate_replacement : Text → ReplacementError
  ambiguous_replacement : ReplacementError

-- One round, with the keys of `prefixes`.
unfoldable pub check_replacement : List Text → ReplacePrefix → ReplacementError ⊎ List Text
check_replacement prefixes r =
    if has_name r.prefix prefixes
    then (if is_empty r.prefix
        then inl ambiguous_replacement
        else inl (duplicate_replacement r.prefix))
    else inr (r.prefix ∷ prefixes)

-- `none` is the nil error.
unfoldable pub prefix_replacements_are_valid : List ReplacePrefix → Option ReplacementError
unfolding check_replacement
prefix_replacements_are_valid replacements = elim (rounds check_replacement [] replacements) [
  | inl err ↦ some err
  | inr seen ↦ none
]
