-- ===== src/Dedup/Members.antt =====
-- What the loop keeps where the elements are their own ids, and the test need not be equality.
use xdp_firewall.Prelude.{
  ◌≡◌, ◌⊎◌, inl, inr, Bool, true, not, List, [], ◌∷◌, All, Any, Bool-cases, retain,
}
use xdp_firewall.Dedup.{contains_key, unique_from}

module _ {ℓ} {A : Type ℓ} (eq : A → A → Bool) where
  abbrev pub own : A → A
  own a = a

  pub unique_from-members-All :
      (P : A → Type 0) (seen xs : List A) → All P xs → All P (unique_from eq own seen xs).1
  unfolding unique_from
  unique_from-members-All P seen [] h = tt
  unique_from-members-All P seen (x ∷ xs) h = elim (Bool-cases (contains_key eq seen x)) [
    | inl old ↦ rw old (unique_from-members-All P seen xs h.1)
    | inr new ↦ rw new (h.0, unique_from-members-All P (x ∷ seen) xs h.1)
  ]

  module _ (Hits : A → Type 0) where
    -- The entries are elements of the list.
    pub unique_from-Any : (seen xs : List A) → Any Hits (unique_from eq own seen xs).1 → Any Hits xs
    unfolding unique_from
    unique_from-Any seen [] h = h
    unique_from-Any seen (x ∷ xs) h = elim (Bool-cases (contains_key eq seen x)) [
      | inl old ↦ inr (unique_from-Any seen xs (rw old at h))
      | inr new ↦
          let found : Any Hits (x ∷ (unique_from eq own (x ∷ seen) xs).1) = rw new at h in
          elim found [ inl p ↦ inl p | inr later ↦ inr (unique_from-Any (x ∷ seen) xs later) ]
    ]

    -- The ids are those seen before and those of elements.
    pub ids-Any :
        (seen xs : List A) → Any Hits (unique_from eq own seen xs).0 → Any Hits seen ⊎ Any Hits xs
    unfolding unique_from
    ids-Any seen [] h = inl h
    ids-Any seen (x ∷ xs) h = elim (Bool-cases (contains_key eq seen x)) [
      | inl old ↦ elim (ids-Any seen xs (rw old at h)) [ inl p ↦ inl p | inr p ↦ inr (inr p) ]
      | inr new ↦
          let found : Any Hits (unique_from eq own (x ∷ seen) xs).0 = rw new at h in
          elim (ids-Any (x ∷ seen) xs found) [
            | inl p ↦ elim p [ inl q ↦ inr (inl q) | inr q ↦ inl q ]
            | inr p ↦ inr (inr p)
          ]
    ]

    module _ (respects : (a b : A) → eq a b ≡ true → Hits b → Hits a) where
      pub contained-Any :
          (seen : List A) (x : A) → contains_key eq seen x ≡ true → Hits x → Any Hits seen
      contained-Any [] x h p = absurd (cc)
      contained-Any (y ∷ seen) x h p = elim (Bool-cases (eq y x)) [
        | inl same ↦ inl (respects y x same p)
        | inr other ↦ inr (contained-Any seen x (rw other at h) p)
      ]

      -- What the list hits is hit by an id seen before or by an entry.
      pub Any-unique_from :
          (seen xs : List A) → Any Hits xs → Any Hits seen ⊎ Any Hits (unique_from eq own seen xs).1
      unfolding unique_from
      Any-unique_from seen [] h = absurd h
      Any-unique_from seen (x ∷ xs) h = elim (Bool-cases (contains_key eq seen x)) [
        | inl old ↦ rw old (elim h [
          | inl p ↦ inl (contained-Any seen x old p)
          | inr later ↦ Any-unique_from seen xs later
        ])
        | inr new ↦ rw new (elim h [
          | inl p ↦ inr (inl p)
          | inr later ↦ elim (Any-unique_from (x ∷ seen) xs later) [
            | inl q ↦ elim q [ inl r ↦ inr (inl r) | inr r ↦ inl r ]
            | inr q ↦ inr (inr q)
          ]
        ])
      ]

      -- What a list hits is hit by an element that is not in `seen`, or by `seen`.
      pub Any-retain_new :
          (seen xs : List A)
          → Any Hits xs
          → Any Hits seen ⊎ Any Hits (retain (λ x. not (contains_key eq seen x)) xs)
      unfolding retain
      Any-retain_new seen [] h = absurd h
      Any-retain_new seen (x ∷ xs) h = elim (Bool-cases (contains_key eq seen x)) [
        | inl old ↦ rw old (elim h [
          | inl p ↦ inl (contained-Any seen x old p)
          | inr later ↦ Any-retain_new seen xs later
        ])
        | inr new ↦ rw new (elim h [
          | inl p ↦ inr (inl p)
          | inr later ↦ elim (Any-retain_new seen xs later) [ inl q ↦ inl q | inr q ↦ inr (inr q) ]
        ])
      ]

pub retain-Any {ℓ} :
    {A : Type ℓ} (Hits : A → Type 0) (test : A → Bool) (xs : List A)
    → Any Hits (retain test xs)
    → Any Hits xs
unfolding retain
retain-Any Hits test [] h = h
retain-Any Hits test (x ∷ xs) h = elim (Bool-cases (test x)) [
  | inl keep ↦
      let found : Any Hits (x ∷ retain test xs) = rw keep at h in
      elim found [ inl p ↦ inl p | inr later ↦ inr (retain-Any Hits test xs later) ]
  | inr drop ↦ inr (retain-Any Hits test xs (rw drop at h))
]
