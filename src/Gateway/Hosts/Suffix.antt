-- ===== src/Gateway/Hosts/Suffix.antt =====
-- Which names a pattern with a wildcard matches.
use contour.Prelude.{
  ℕ, suc, ◌≡◌, refl, ap, ◌↔◌, inl, inr, true, false, some, Option-cases, Bool-cases, [], ◌∷◌, ◌++◌,
  arith, Text, text_eq, text_eq_iff, length, length-append,
}
use contour.Gateway.Hosts.{trim_star, cut_suffix, hostname_matches_wildcard_hostname}

cut_suffix_sound : (s suffix m : Text) → cut_suffix s suffix ≡ some m → s ≡ m ++ suffix
unfolding cut_suffix
cut_suffix_sound [] suffix m e = ground (arith, (text_eq_iff [] suffix).0, e)
cut_suffix_sound (c ∷ s) suffix m e = elim (Bool-cases (text_eq (c ∷ s) suffix)) [
  | inl same ↦ ground (arith, (text_eq_iff (c ∷ s) suffix).0 same, same, e)
  | inr different ↦ elim (Option-cases (cut_suffix s suffix)) [
    | inl absent ↦ ground (arith, different, absent, e)
    | inr (n, found) ↦ ground (arith, different, found, e, cut_suffix_sound s suffix n found)
  ]
]

longer-differs : (c : ℕ) (m p : Text) → text_eq (c ∷ m ++ p) p ≡ false
longer-differs c m p = elim (Bool-cases (text_eq (c ∷ m ++ p) p)) [
  | inr different ↦ different
  | inl same ↦
      let lengths : suc (length (m ++ p)) ≡ length p =
        ap length ((text_eq_iff (c ∷ m ++ p) p).0 same) in
      ground (arith, lengths, length-append m p)
]

cut_suffix-append : (m p : Text) → cut_suffix (m ++ p) p ≡ some m
unfolding cut_suffix
cut_suffix-append [] [] = ground (arith, (text_eq_iff [] []).1 refl)
cut_suffix-append [] (d ∷ p) = ground (arith, (text_eq_iff (d ∷ p) (d ∷ p)).1 refl)
cut_suffix-append (c ∷ m) p = ground (arith, cut_suffix-append m p, longer-differs c m p)

-- A name is matched exactly where it is something followed by the pattern without its wildcard.
pub hostname_matches_wildcard_hostname_iff :
    (h w : Text)
    → (hostname_matches_wildcard_hostname h w ≡ true)
      ↔ ((c : ℕ) × (m : Text) × (h ≡ (c ∷ m) ++ trim_star w))
unfolding hostname_matches_wildcard_hostname
hostname_matches_wildcard_hostname_iff h w = (
  λ e. elim (Option-cases (cut_suffix h (trim_star w))) [
    | inl absent ↦ ground (arith, absent, e)
    | inr ([], found) ↦ ground (arith, found, e)
    | inr (c ∷ m, found) ↦ (c, m, cut_suffix_sound h (trim_star w) (c ∷ m) found)
  ],
  λ (c, m, e). rw e (ground (arith, cut_suffix-append (c ∷ m) (trim_star w))),
)
