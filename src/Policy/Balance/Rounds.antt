-- ===== src/Policy/Balance/Rounds.antt =====
-- What one round of the loop over the hash policies does.
use contour.Prelude.{
  ℕ, ◌+◌, ◌≡◌, refl, inl, inr, Bool, true, false, Option, none, some, List, [], ◌∷◌, ◌++◌, arith,
  Text, text_eq, to_lower, is_empty, if◌then◌else◌, All, Bool-cases,
}
use contour.Conditions.Header.{has_name}
use contour.Policy.Headers.{Library}
use contour.Policy.Balance.{
  RequestHashPolicy, Hashing, attr_counter, hash_query, hash_header, hash_policy,
}

-- The names of the headers that are hashed.
abbrev pub headers_of : List RequestHashPolicy → List Text
headers_of [] = []
headers_of (r ∷ rs) = elim r.header_name [ none ↦ headers_of rs | some n ↦ n ∷ headers_of rs ]

abbrev pub parameters_of : List RequestHashPolicy → List Text
parameters_of [] = []
parameters_of (r ∷ rs) = elim r.parameter_name [
  | none ↦ parameters_of rs
  | some n ↦ n ∷ parameters_of rs
]

abbrev pub source_ips : List RequestHashPolicy → ℕ
source_ips [] = 0
source_ips (r ∷ rs) = (if r.hash_source_ip then 1 else 0) + source_ips rs

abbrev pub Differ : Text → Text → Type 0
Differ a b = text_eq b a ≡ false

pub any-All :
    (n : Text) (names : List Text) → has_name n names ≡ false → All (λ m. Differ m n) names
any-All n [] h = tt
any-All n (m ∷ names) h = (ground arith, any-All n names (ground arith))

pub headers_of-snoc :
    (rs : List RequestHashPolicy) (r : RequestHashPolicy)
    → headers_of (rs ++ r ∷ []) ≡ headers_of rs ++ headers_of (r ∷ [])
headers_of-snoc [] r = refl
headers_of-snoc (s ∷ rs) r = ground (arith, headers_of-snoc rs r)

pub parameters_of-snoc :
    (rs : List RequestHashPolicy) (r : RequestHashPolicy)
    → parameters_of (rs ++ r ∷ []) ≡ parameters_of rs ++ parameters_of (r ∷ [])
parameters_of-snoc [] r = refl
parameters_of-snoc (s ∷ rs) r = ground (arith, parameters_of-snoc rs r)

pub source_ips-snoc :
    (rs : List RequestHashPolicy) (r : RequestHashPolicy)
    → source_ips (rs ++ r ∷ []) ≡ source_ips rs + source_ips (r ∷ [])
source_ips-snoc [] r = omega arith
source_ips-snoc (s ∷ rs) r = omega (arith, source_ips-snoc rs r)

abbrev pub count_name : Option Text → ℕ
count_name none = 0
count_name (some n) = 1

-- One attribute is hashed.
abbrev pub IsSingle : RequestHashPolicy → Type 0
IsSingle r =
    (if r.hash_source_ip then 1 else 0) + count_name r.header_name + count_name r.parameter_name ≡ 1

abbrev pub is_nil {ℓ} : {A : Type ℓ} → List A → Bool
is_nil [] = true
is_nil (x ∷ xs) = false

abbrev pub plain : Bool → RequestHashPolicy
plain terminal = record {
  terminal = terminal;
  hash_source_ip = false;
  header_name = none;
  parameter_name = none;
  cookie_hash_options = none;
}

module _ (lib : Library) where
  open lib use {is_http_header_name}

  -- What a round can do: warn, or append a policy for the address, a header or a parameter.
  pub data Round (s : Hashing) : Hashing → Type 0 where
    ignored : Round s (record s { warnings = s.warnings + 1 })
    address :
        (terminal : Bool)
        → s.hash_source_ip_set ≡ false
        → Round s (record s {
          hash_source_ip_set = true;
          rhps = s.rhps ++ record (plain terminal) { hash_source_ip = true } ∷ [];
        })
    header :
        (terminal : Bool) (n : Text)
        → is_http_header_name n ≡ true
        → has_name n s.header_hash_policies ≡ false
        → Round s (record s {
          header_hash_policies = s.header_hash_policies ++ n ∷ [];
          rhps = s.rhps ++ record (plain terminal) { header_name = some n } ∷ [];
        })
    parameter :
        (terminal : Bool) (n : Text)
        → is_empty n ≡ false
        → has_name n s.query_parameter_hash_policies ≡ false
        → Round s (record s {
          query_parameter_hash_policies = s.query_parameter_hash_policies ++ n ∷ [];
          rhps = s.rhps ++ record (plain terminal) { parameter_name = some n } ∷ [];
        })

  round-header :
      (s : Hashing) (terminal : Bool) (name : Text)
      → Round s (hash_header lib s (plain terminal) (some name) none)
  unfolding hash_header
  round-header s terminal name =
      let n = lib.canonical_header_key name in
      elim (Bool-cases (is_http_header_name n)) [
        | inr bad ↦ rw bad ignored
        | inl good ↦ elim (Bool-cases (has_name n s.header_hash_policies)) [
          | inl seen ↦ rw (good, seen) ignored
          | inr new ↦ rw (good, new) (header terminal n good new)
        ]
      ]

  round-parameter :
      (s : Hashing) (terminal : Bool) (name : Text)
      → Round s (hash_query s (plain terminal) (some name))
  unfolding hash_query
  round-parameter s terminal name =
      let n = to_lower name in
      elim (Bool-cases (is_empty n)) [
        | inl bad ↦ rw bad ignored
        | inr good ↦ elim (Bool-cases (has_name n s.query_parameter_hash_policies)) [
          | inl seen ↦ rw (good, seen) ignored
          | inr new ↦ rw (good, new) (parameter terminal n good new)
        ]
      ]

  pub round :
      (s : Hashing) (terminal ip : Bool) (name query : Option Text)
      → Round s (
          hash_policy lib s (record {
            terminal = terminal;
            hash_source_ip = ip;
            header_hash_options = name;
            query_parameter_hash_options = query;
          }))
  unfolding hash_policy attr_counter hash_header hash_query
  round s terminal false none none = ignored
  round s terminal false (some name) none = round-header s terminal name
  round s terminal false none (some query) = round-parameter s terminal query
  round s terminal false (some name) (some query) = ignored
  round s terminal true none none = from_flag s.hash_source_ip_set refl
    where
      from_flag :
          (set : Bool)
          → s.hash_source_ip_set ≡ set
          → Round s (
              if set then record s { warnings = s.warnings + 1 } else record s {
                hash_source_ip_set = true;
                rhps = s.rhps ++ record (plain terminal) { hash_source_ip = true } ∷ [];
              })
      from_flag true e = ignored
      from_flag false e = address terminal e
  round s terminal true (some name) none = ignored
  round s terminal true none (some query) = ignored
  round s terminal true (some name) (some query) = ignored
