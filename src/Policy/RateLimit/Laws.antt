-- ===== src/Policy/RateLimit/Laws.antt =====
-- What accepted rate limits look like.
use contour.Prelude.{
  ◌+◌, ◌%◌, ◌^◌, ◌≤◌, ◌<◌, ◌≡◌, ◌≢◌, refl, sym, ◌∙◌, ◌↔◌, ◌⊎◌, inl, inr, false, Option, some,
  Sum-cases, List, [], ◌∷◌, ◌++◌, append_assoc, append-nil, map, arith, flatten, All,
}
use contour.Policy.Loops.{rounds, rounds_all, rounds-Good_iff}
use contour.Policy.Headers.{Library}
use contour.Policy.RateLimit.{
  LocalSpec, LocalRateLimitPolicy, EntrySpec, DescriptorEntry, RateLimitError,
  local_rate_limit_policy, entries_of, fields_set, add_entry, add_descriptor,
  global_rate_limit_policy,
}

local_rate_limit_policy-fields :
    (lib : Library) (spec : LocalSpec) (r : LocalRateLimitPolicy)
    → local_rate_limit_policy lib (some spec) ≡ inr (some r)
    → (spec.requests ≢ 0)
      × (r.tokens_per_fill ≡ spec.requests)
      × (r.max_tokens ≡ (spec.requests + spec.burst) % 2 ^ 32)
unfolding local_rate_limit_policy
local_rate_limit_policy-fields lib spec r e = ground arith

-- Where `localRateLimitPolicy` returns a policy for uint32 values, the bucket is refilled with at least
-- one token, and it has room for what it is refilled with exactly when the sum of requests and burst
-- does not overflow.
pub local_rate_limit_policy-tokens :
    (lib : Library) (spec : LocalSpec) (r : LocalRateLimitPolicy)
    → local_rate_limit_policy lib (some spec) ≡ inr (some r)
    → spec.requests < 2 ^ 32
    → spec.burst < 2 ^ 32
    → (1 ≤ r.tokens_per_fill)
      × ((r.tokens_per_fill ≤ r.max_tokens) ↔ (spec.requests + spec.burst < 2 ^ 32))
local_rate_limit_policy-tokens lib spec r e small small' =
    let (some_requests, fill, room) = local_rate_limit_policy-fields lib spec r e in
    (omega arith, (λ h. omega arith, λ h. omega arith))

abbrev pub ExactlyOne : EntrySpec → Type 0
ExactlyOne e = fields_set e ≡ 1

abbrev entries_onto : List DescriptorEntry → EntrySpec → List DescriptorEntry
entries_onto entries e = entries ++ entries_of e

-- The entries of one descriptor, with no check.
abbrev pub descriptor_of : List EntrySpec → List DescriptorEntry
descriptor_of d = flatten (map entries_of d)

entries_onto-all :
    (entries : List DescriptorEntry) (d : List EntrySpec)
    → rounds_all entries_onto entries d ≡ entries ++ descriptor_of d
entries_onto-all entries [] = sym (append-nil entries)
entries_onto-all entries (e ∷ d) =
    entries_onto-all (entries ++ entries_of e) d
    ∙ append_assoc entries (entries_of e) (descriptor_of d)

add_entries_iff :
    (entries entries' : List DescriptorEntry) (d : List EntrySpec)
    → (rounds add_entry entries d ≡ inr entries')
      ↔ (All ExactlyOne d × (rounds_all entries_onto entries d ≡ entries'))
unfolding add_entry
add_entries_iff =
    rounds-Good_iff ExactlyOne add_entry entries_onto (λ s e one. ground arith)
      (λ s e s' h. ground arith)

abbrev descriptors_onto : List (List DescriptorEntry) → List EntrySpec → List (List DescriptorEntry)
descriptors_onto ds d = ds ++ descriptor_of d ∷ []

descriptors_onto-all :
    (ds : List (List DescriptorEntry)) (specs : List (List EntrySpec))
    → rounds_all descriptors_onto ds specs ≡ ds ++ map descriptor_of specs
descriptors_onto-all ds [] = sym (append-nil ds)
descriptors_onto-all ds (d ∷ specs) =
    descriptors_onto-all (ds ++ descriptor_of d ∷ []) specs
    ∙ append_assoc ds (descriptor_of d ∷ []) (map descriptor_of specs)

add_descriptor-inr :
    (ds : List (List DescriptorEntry)) (d : List EntrySpec)
    → All ExactlyOne d
    → add_descriptor ds d ≡ inr (descriptors_onto ds d)
unfolding add_descriptor
add_descriptor-inr ds d one =
    rw ((add_entries_iff [] (descriptor_of d) d).1 (one, entries_onto-all [] d), add_descriptor)
      refl

add_descriptor-ExactlyOne :
    (ds : List (List DescriptorEntry)) (d : List EntrySpec) (ds' : List (List DescriptorEntry))
    → add_descriptor ds d ≡ inr ds'
    → All ExactlyOne d
unfolding add_descriptor
add_descriptor-ExactlyOne ds d ds' h = elim (Sum-cases (rounds add_entry [] d)) [
  | inl (err, failed) ↦ absurd (
      let q : ◌≡◌ {A = RateLimitError ⊎ List (List DescriptorEntry)} (inl err) (inr ds') =
        rw (failed, add_descriptor) at h in
      cc)
  | inr (entries, added) ↦ ((add_entries_iff [] entries d).0 added).0
]

pub global_rate_limit_policy-descriptor_of :
    (specs : List (List EntrySpec)) (g : List (List DescriptorEntry))
    → (global_rate_limit_policy (some (record { disabled = false; descriptors = specs }))
        ≡ inr (some g))
      ↔ (All (All ExactlyOne) specs × (map descriptor_of specs ≡ g))
unfolding global_rate_limit_policy
global_rate_limit_policy-descriptor_of specs g = (
  λ e. elim (Sum-cases (rounds add_descriptor [] specs)) [
    | inl (err, failed) ↦ absurd (
        let q : ◌≡◌ {A = RateLimitError ⊎ Option (List (List DescriptorEntry))} (inl err)
            (inr (some g)) =
          rw (failed, global_rate_limit_policy) at e in
        cc)
    | inr (ds, added) ↦
        let (one, built) = (loop ds).0 added in
        let same : ◌≡◌ {A = RateLimitError ⊎ Option (List (List DescriptorEntry))} (inr (some ds))
            (inr (some g)) =
          rw (added, global_rate_limit_policy) at e in
        (one, sym (descriptors_onto-all [] specs) ∙ built ∙ cc same)
  ],
  λ (one, built).
      rw ((loop g).1 (one, descriptors_onto-all [] specs ∙ built), global_rate_limit_policy) refl,
)
  where
    loop :
        (ds : List (List DescriptorEntry))
        → (rounds add_descriptor [] specs ≡ inr ds)
          ↔ (All (All ExactlyOne) specs × (rounds_all descriptors_onto [] specs ≡ ds))
    loop ds =
        rounds-Good_iff (All ExactlyOne) add_descriptor descriptors_onto add_descriptor-inr
          add_descriptor-ExactlyOne [] ds specs
