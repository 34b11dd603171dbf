-- ===== src/Policy/RateLimit/Entries.antt =====
-- The entries of global rate limits, read off the declarations.
use contour.Prelude.{
  ◌≡◌, refl, ◌↔◌, inl, inr, true, false, none, some, List, [], ◌∷◌, map, arith, All, Both,
  Option-cases,
}
use contour.Conditions.Header.{header_match_conditions}
use contour.Policy.RateLimit.{
  ValueMatch, EntrySpec, DescriptorEntry, generic_key_entry, header_match_entry,
  header_value_match_entry, remote_address_entry, entries_of, fields_set, global_rate_limit_policy,
}
use contour.Policy.RateLimit.Laws.{
  ExactlyOne, descriptor_of, global_rate_limit_policy-descriptor_of,
}

-- A declared entry gives an entry of the DAG: it sets the field of that kind and no other, and the
-- entry has the field's values.
abbrev pub Gives : EntrySpec → DescriptorEntry → Type 0
Gives e (generic_key_entry key value) =
    (e.generic_key ≡ some (key, value))
    × (e.request_header ≡ none)
    × (e.request_header_value_match ≡ none)
    × (e.remote_address ≡ false)
Gives e (header_match_entry header_name key) =
    (e.generic_key ≡ none)
    × (e.request_header ≡ some (header_name, key))
    × (e.request_header_value_match ≡ none)
    × (e.remote_address ≡ false)
Gives e (header_value_match_entry headers expect_match value) =
    (e.generic_key ≡ none)
    × (e.request_header ≡ none)
    × ((m : ValueMatch) × (e.request_header_value_match ≡ some m)
        × (header_match_conditions m.headers ≡ headers)
        × (m.expect_match ≡ expect_match)
        × (m.value ≡ value))
    × (e.remote_address ≡ false)
Gives e remote_address_entry =
    (e.generic_key ≡ none)
    × (e.request_header ≡ none)
    × (e.request_header_value_match ≡ none)
    × (e.remote_address ≡ true)

entries_of-Gives :
    (e : EntrySpec) → ExactlyOne e → (x : DescriptorEntry) × Gives e x × (entries_of e ≡ x ∷ [])
unfolding entries_of fields_set
entries_of-Gives e one = elim (Option-cases e.generic_key) [
  | inr ((key, value), g) ↦
      (generic_key_entry key value, (g, ground arith, ground arith, ground arith), ground arith)
  | inl g ↦ elim (Option-cases e.request_header) [
    | inr ((name, key), h) ↦
        (header_match_entry name key, (g, h, ground arith, ground arith), ground arith)
    | inl h ↦ elim (Option-cases e.request_header_value_match) [
      | inr (m, v) ↦ (
        header_value_match_entry (header_match_conditions m.headers) m.expect_match m.value,
        (g, h, (m, v, refl, refl, refl), ground arith),
        ground arith,
      )
      | inl v ↦ (remote_address_entry, (g, h, v, ground arith), ground arith)
    ]
  ]
]

Gives-ExactlyOne :
    (e : EntrySpec) (x : DescriptorEntry) → Gives e x → ExactlyOne e × (entries_of e ≡ x ∷ [])
unfolding entries_of fields_set
Gives-ExactlyOne e (generic_key_entry key value) (g, h, v, r) = (rw (g, h, v, r), rw (g, h, v, r))
Gives-ExactlyOne e (header_match_entry name key) (g, h, v, r) = (rw (g, h, v, r), rw (g, h, v, r))
Gives-ExactlyOne e (header_value_match_entry hs em value) (g, h, (m, v, a, b, c), r) =
    (rw (g, h, v, r), rw (g, h, v, r, a, b, c))
Gives-ExactlyOne e remote_address_entry (g, h, v, r) = (rw (g, h, v, r), rw (g, h, v, r))

Both-descriptor_of : (d : List EntrySpec) → All ExactlyOne d → Both Gives d (descriptor_of d)
Both-descriptor_of [] one = tt
Both-descriptor_of (e ∷ d) (one, ones) =
    let (x, given, made) = entries_of-Gives e one in rw made (given, Both-descriptor_of d ones)

Both-Gives-ExactlyOne :
    (d : List EntrySpec) (xs : List DescriptorEntry)
    → Both Gives d xs
    → All ExactlyOne d × (descriptor_of d ≡ xs)
Both-Gives-ExactlyOne [] [] b = (tt, refl)
Both-Gives-ExactlyOne [] (x ∷ xs) b = absurd b
Both-Gives-ExactlyOne (e ∷ d) [] b = absurd b
Both-Gives-ExactlyOne (e ∷ d) (x ∷ xs) (given, b) =
    let (one, made) = Gives-ExactlyOne e x given in
    let (ones, rest) = Both-Gives-ExactlyOne d xs b in ((one, ones), rw (made, rest))

Both-map-descriptor_of :
    (specs : List (List EntrySpec))
    → All (All ExactlyOne) specs
    → Both (Both Gives) specs (map descriptor_of specs)
Both-map-descriptor_of [] one = tt
Both-map-descriptor_of (d ∷ specs) (one, ones) =
    (Both-descriptor_of d one, Both-map-descriptor_of specs ones)

Both-Both-ExactlyOne :
    (specs : List (List EntrySpec)) (g : List (List DescriptorEntry))
    → Both (Both Gives) specs g
    → All (All ExactlyOne) specs × (map descriptor_of specs ≡ g)
Both-Both-ExactlyOne [] [] b = (tt, refl)
Both-Both-ExactlyOne [] (x ∷ g) b = absurd b
Both-Both-ExactlyOne (d ∷ specs) [] b = absurd b
Both-Both-ExactlyOne (d ∷ specs) (xs ∷ g) (given, b) =
    let (one, made) = Both-Gives-ExactlyOne d xs given in
    let (ones, rest) = Both-Both-ExactlyOne specs g b in ((one, ones), rw (made, rest))

-- `globalRateLimitPolicy` returns the descriptors `g` for a policy that is not disabled exactly when
-- `g` has one descriptor for each that is declared, in the same order, and each of them one entry for
-- each that is declared, in the same order, where the declaration sets the one field of the entry's
-- kind with the entry's values (a header match with the conditions made of its headers) and no other
-- field.
pub global_rate_limit_policy_iff :
    (specs : List (List EntrySpec)) (g : List (List DescriptorEntry))
    → (global_rate_limit_policy (some (record { disabled = false; descriptors = specs }))
        ≡ inr (some g))
      ↔ Both (Both Gives) specs g
global_rate_limit_policy_iff specs g =
    let (read, back) = global_rate_limit_policy-descriptor_of specs g in
    (
      λ e. let (one, made) = read e in rw made at (Both-map-descriptor_of specs one),
      λ b. back (Both-Both-ExactlyOne specs g b),
    )
