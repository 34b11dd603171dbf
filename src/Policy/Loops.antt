-- ===== src/Policy/Loops.antt =====
-- Go loops with early returns that remember the keys they have seen.
use contour.Prelude.{
  Sum-cases, ◌≡◌, sym, ◌∙◌, ◌↔◌, ◌⊎◌, inl, inr, Bool, true, false, ◌&&◌, List, [], ◌∷◌, arith, Text,
  text_eq, if◌then◌else◌, All, Pairs,
}
use contour.Conditions.Header.{has_name}

module _ {ℓ κ μ} {A : Type ℓ} {S : Type κ} {E : Type μ} where
  -- `for _, x := range xs { ... }` whose rounds change `s` or return an error.
  abbrev pub rounds : (S → A → E ⊎ S) → S → List A → E ⊎ S
  rounds step s [] = inr s
  rounds step s (x ∷ xs) = elim (step s x) [ inl err ↦ inl err | inr s' ↦ rounds step s' xs ]

module _ {ℓ κ} {A : Type ℓ} {S : Type κ} where
  -- The same loop where no round fails.
  abbrev pub rounds_all : (S → A → S) → S → List A → S
  rounds_all next s [] = s
  rounds_all next s (x ∷ xs) = rounds_all next (next s x) xs

module _ {ℓ} {A : Type ℓ} (key : A → Text) where
  -- The key of the later item is not that of the earlier one, where the earlier one is remembered.
  abbrev pub Apart : (A → Bool) → A → A → Type 0
  Apart kept earlier later = (kept earlier && text_eq (key later) (key earlier)) ≡ false

  abbrev pub Fresh : List Text → A → Type 0
  Fresh seen x = has_name (key x) seen ≡ false

  -- Remembering one key asks of each later item that it is apart from it.
  All-Fresh-cons :
      (kept : A → Bool) (seen : List Text) (x : A) (xs : List A)
      → All (Fresh (if kept x then key x ∷ seen else seen)) xs
        ↔ (All (Fresh seen) xs × All (Apart kept x) xs)
  All-Fresh-cons kept seen x [] = (λ _. (tt, tt), λ _. tt)
  All-Fresh-cons kept seen x (y ∷ ys) =
      let ih = All-Fresh-cons kept seen x ys in
      (
        λ h. ((ground arith, (ih.0 h.1).0), (ground arith, (ih.0 h.1).1)),
        λ h. (ground arith, ih.1 (h.0.1, h.1.1)),
      )

-- A loop that accepts `x` where it is good and its key is not among those seen, and remembers the key
-- where `kept` says so.
module _ {ℓ κ μ} {A : Type ℓ} {S : Type κ} {E : Type μ} (key : A → Text)
    (kept good : A → Bool) where
  module _ (seen : S → List Text) (step : S → A → E ⊎ S) (next : S → A → S) where
    module _
        (remembers : (s : S) (x : A)
          → seen (next s x) ≡ (if kept x then key x ∷ seen s else seen s))
        (passes : (s : S) (x : A)
          → good x ≡ true
          → has_name (key x) (seen s) ≡ false
          → step s x ≡ inr (next s x))
        (refuses : (s : S) (x : A) (s' : S)
          → step s x ≡ inr s'
          → (good x ≡ true) × (has_name (key x) (seen s) ≡ false)) where
      rounds-cons :
          (s s' : S) (x : A) (xs : List A)
          → (rounds step s (x ∷ xs) ≡ inr s')
            ↔ ((good x ≡ true) × (Fresh key (seen s) x) × (rounds step (next s x) xs ≡ inr s'))
      rounds-cons s s' x xs = elim (Sum-cases (step s x)) [
        | inl (err, stopped) ↦ (
          λ e.
              absurd (let q : ◌≡◌ {A = E ⊎ S} (inl err) (inr s') = rw (stopped, rounds) at e in cc),
          λ h. absurd (
              let q : ◌≡◌ {A = E ⊎ S} (inl err) (inr (next s x)) =
                sym stopped ∙ passes s x h.0 h.1 in
              cc),
        )
        | inr (t, went_on) ↦
            let (g, f) = refuses s x t went_on in
            let same : t ≡ next s x = cc (sym went_on ∙ passes s x g f) in
            (λ e. (g, f, rw (went_on, rounds, same) at e), λ h. rw (went_on, rounds, same) h.2)
      ]

      pub rounds_iff :
          (s s' : S) (xs : List A)
          → (rounds step s xs ≡ inr s') ↔ (
              All (λ x. good x ≡ true) xs
              × All (Fresh key (seen s)) xs
              × Pairs (Apart key kept) xs
              × (rounds_all next s xs ≡ s'))
      rounds_iff s s' [] = (λ e. (tt, tt, tt, cc), λ h. cc (h.3))
      rounds_iff s s' (x ∷ xs) =
          let step' = rounds-cons s s' x xs in
          let ih = rounds_iff (next s x) s' xs in
          let split = All-Fresh-cons key kept (seen s) x xs in
          (
            λ e.
                let (g, f, rest) = step'.0 e in
                let (gs, fs, ps, r) = ih.0 rest in
                let (fs', ap) = split.0 (rw (remembers s x) at fs) in
                ((g, gs), (f, fs'), (ap, ps), r),
            λ ((g, gs), (f, fs), (ap, ps), r).
                step'.1 (g, f, ih.1 (gs, rw (remembers s x) (split.1 (fs, ap)), ps, r)),
          )

-- A loop that accepts `x` where it is good, whatever came before.
module _ {ℓ κ μ ν} {A : Type ℓ} {S : Type κ} {E : Type μ} (Good : A → Type ν) where
  module _ (step : S → A → E ⊎ S) (next : S → A → S) where
    module _ (passes : (s : S) (x : A) → Good x → step s x ≡ inr (next s x))
        (refuses : (s : S) (x : A) (s' : S) → step s x ≡ inr s' → Good x) where
      pub rounds-Good_iff :
          (s s' : S) (xs : List A)
          → (rounds step s xs ≡ inr s') ↔ (All Good xs × (rounds_all next s xs ≡ s'))
      rounds-Good_iff s s' [] = (λ e. (tt, cc), λ h. cc (h.1))
      rounds-Good_iff s s' (x ∷ xs) =
          let ih = rounds-Good_iff (next s x) s' xs in
          elim (Sum-cases (step s x)) [
            | inl (err, stopped) ↦ (
              λ e.
                  absurd
                    (let q : ◌≡◌ {A = E ⊎ S} (inl err) (inr s') = rw (stopped, rounds) at e in cc),
              λ h. absurd (
                  let q : ◌≡◌ {A = E ⊎ S} (inl err) (inr (next s x)) =
                    sym stopped ∙ passes s x h.0.0 in
                  cc),
            )
            | inr (t, went_on) ↦
                let g = refuses s x t went_on in
                let same : t ≡ next s x = cc (sym went_on ∙ passes s x g) in
                (
                  λ e. let h = ih.0 (rw (went_on, rounds, same) at e) in ((g, h.0), h.1),
                  λ h. rw (went_on, rounds, same) (ih.1 (h.0.1, h.1)),
                )
          ]
