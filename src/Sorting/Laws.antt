-- ===== src/Sorting/Laws.antt =====
-- The sorted list holds the elements of the list, and no element stands behind a greater one.
use xdp_firewall.Prelude.{
  ◌≡◌, inl, inr, Bool, false, true, List, [], ◌∷◌, All, Any, All-imp, Bool-cases,
}
use xdp_firewall.Sorting.{insert_sorted, sort_by}

module _ {ℓ} {A : Type ℓ} (lt : A → A → Bool) where
  insert-All :
      (P : A → Type 0) (x : A) (ys : List A) → P x → All P ys → All P (insert_sorted lt x ys)
  unfolding insert_sorted
  insert-All P x [] p h = (p, tt)
  insert-All P x (y ∷ ys) p h = elim (Bool-cases (lt y x)) [
    | inl before ↦ rw before (h.0, insert-All P x ys p h.1)
    | inr after ↦ rw after (p, h)
  ]

  pub sort_by-All : (P : A → Type 0) (xs : List A) → All P xs → All P (sort_by lt xs)
  unfolding sort_by
  sort_by-All P [] h = tt
  sort_by-All P (x ∷ xs) h = insert-All P x (sort_by lt xs) h.0 (sort_by-All P xs h.1)

  insert-head : (P : A → Type 0) (x : A) (ys : List A) → P x → Any P (insert_sorted lt x ys)
  unfolding insert_sorted
  insert-head P x [] p = inl p
  insert-head P x (y ∷ ys) p = elim (Bool-cases (lt y x)) [
    | inl before ↦ rw before (inr (insert-head P x ys p))
    | inr after ↦ rw after (inl p)
  ]

  insert-tail : (P : A → Type 0) (x : A) (ys : List A) → Any P ys → Any P (insert_sorted lt x ys)
  unfolding insert_sorted
  insert-tail P x [] h = absurd h
  insert-tail P x (y ∷ ys) h = elim (Bool-cases (lt y x)) [
    | inl before ↦ rw before (elim h [ inl p ↦ inl p | inr later ↦ inr (insert-tail P x ys later) ])
    | inr after ↦ rw after (inr h)
  ]

  pub sort_by-Any : (P : A → Type 0) (xs : List A) → Any P xs → Any P (sort_by lt xs)
  unfolding sort_by
  sort_by-Any P [] h = absurd h
  sort_by-Any P (x ∷ xs) (inl p) = insert-head P x (sort_by lt xs) p
  sort_by-Any P (x ∷ xs) (inr h) = insert-tail P x (sort_by lt xs) (sort_by-Any P xs h)

  -- No element stands behind one that it is less than.
  abbrev pub IsSorted : List A → Type 0
  IsSorted [] = Unit
  IsSorted (x ∷ xs) = All (λ y. lt y x ≡ false) xs × IsSorted xs

  module _ (asymmetric : (a b : A) → lt a b ≡ true → lt b a ≡ false)
      (not_less_trans : (a b c : A) → lt a b ≡ false → lt b c ≡ false → lt a c ≡ false) where
    insert-IsSorted : (x : A) (ys : List A) → IsSorted ys → IsSorted (insert_sorted lt x ys)
    unfolding insert_sorted
    insert-IsSorted x [] h = (tt, tt)
    insert-IsSorted x (y ∷ ys) h = elim (Bool-cases (lt y x)) [
      | inl before ↦ rw before (
        insert-All (λ z. lt z y ≡ false) x ys (asymmetric y x before) h.0,
        insert-IsSorted x ys h.1,
      )
      | inr after ↦ rw after (
        (
          after,
          All-imp (λ z. lt z y ≡ false) (λ z. lt z x ≡ false) ys
              (λ z p. not_less_trans z y x p after) h.0,
        ),
        h,
      )
    ]

    pub sort_by-IsSorted : (xs : List A) → IsSorted (sort_by lt xs)
    unfolding sort_by
    sort_by-IsSorted [] = tt
    sort_by-IsSorted (x ∷ xs) = insert-IsSorted x (sort_by lt xs) (sort_by-IsSorted xs)
