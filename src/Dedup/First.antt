-- ===== src/Dedup/First.antt =====
-- What the loop keeps: the first entry of each id, and the ids of all.
use xdp_firewall.Prelude.{
  ◌≤◌, ◌≡◌, refl, ap, subst, ◌↔◌, inl, inr, Bool, false, true, ◌||◌, Option, none, some, List, [],
  ◌∷◌, if◌then◌else◌, arith, All, Bool-cases, length,
}
use xdp_firewall.Dedup.{contains_key, unique_from, unique, find_key}

abbrev pub is_found {ℓ} : {A : Type ℓ} → Option A → Bool
is_found none = false
is_found (some a) = true

module _ {ℓ κ} {A : Type ℓ} {K : Type κ} (eq : K → K → Bool) (key : A → K)
    (eq_iff : (a b : K) → (eq a b ≡ true) ↔ (a ≡ b)) where
  eq_refl : (a : K) → eq a a ≡ true
  eq_refl a = (eq_iff a a).1 refl

  -- An id that is in the set stays found by any id that equals it.
  seen_same :
      (seen : List K) (a b : K) → eq a b ≡ true → contains_key eq seen a ≡ contains_key eq seen b
  seen_same seen a b h = ap (contains_key eq seen) ((eq_iff a b).0 h)

  -- The entry that the loop keeps for an id is the first with that id, if the id is new.
  find-unique_from :
      (k : K) (seen : List K) (xs : List A)
      → find_key eq key k (unique_from eq key seen xs).1
        ≡ (if contains_key eq seen k then none else find_key eq key k xs)
  unfolding unique_from
  find-unique_from k seen [] = ground arith
  find-unique_from k seen (x ∷ xs) = elim (Bool-cases (contains_key eq seen (key x))) [
    | inl old ↦ ground (arith, old, find-unique_from k seen xs, seen_same seen (key x) k)
    | inr new ↦ ground (arith, new, find-unique_from k (key x ∷ seen) xs, seen_same seen (key x) k)
  ]

  pub find-unique :
      (k : K) (xs : List A) → find_key eq key k (unique eq key xs).1 ≡ find_key eq key k xs
  unfolding unique
  find-unique k xs = find-unique_from k [] xs

  ids-unique_from :
      (k : K) (seen : List K) (xs : List A)
      → contains_key eq (unique_from eq key seen xs).0 k
        ≡ (contains_key eq seen k || is_found (find_key eq key k xs))
  unfolding unique_from
  ids-unique_from k seen [] = ground arith
  ids-unique_from k seen (x ∷ xs) = elim (Bool-cases (contains_key eq seen (key x))) [
    | inl old ↦ ground (arith, old, ids-unique_from k seen xs, seen_same seen (key x) k)
    | inr new ↦ ground (arith, new, ids-unique_from k (key x ∷ seen) xs, seen_same seen (key x) k)
  ]

  -- The ids are those of the entries.
  pub ids-unique :
      (k : K) (xs : List A)
      → contains_key eq (unique eq key xs).0 k ≡ is_found (find_key eq key k xs)
  unfolding unique
  ids-unique k xs = ids-unique_from k [] xs

  unique_from-All :
      (P : A → Type 0) (seen : List K) (xs : List A)
      → All P xs
      → All P (unique_from eq key seen xs).1
  unfolding unique_from
  unique_from-All P seen [] h = tt
  unique_from-All P seen (x ∷ xs) h = elim (Bool-cases (contains_key eq seen (key x))) [
    | inl old ↦ rw old (unique_from-All P seen xs h.1)
    | inr new ↦ rw new (h.0, unique_from-All P (key x ∷ seen) xs h.1)
  ]

  pub unique-All : (P : A → Type 0) (xs : List A) → All P xs → All P (unique eq key xs).1
  unfolding unique
  unique-All P xs h = unique_from-All P [] xs h

  length-unique_from :
      (seen : List K) (xs : List A) → length (unique_from eq key seen xs).1 ≤ length xs
  unfolding unique_from
  length-unique_from seen [] = omega arith
  length-unique_from seen (x ∷ xs) =
      ground (arith, length-unique_from seen xs, length-unique_from (key x ∷ seen) xs)

  pub length-unique : (xs : List A) → length (unique eq key xs).1 ≤ length xs
  unfolding unique
  length-unique xs = length-unique_from [] xs

module _ {ℓ κ} {A : Type ℓ} {K : Type κ} (eq : K → K → Bool) (key : A → K) where
  -- No two entries have the same id.
  abbrev pub IsDistinct : List A → Type 0
  IsDistinct [] = Unit
  IsDistinct (x ∷ xs) = (is_found (find_key eq key (key x) xs) ≡ false) × IsDistinct xs

module _ {ℓ κ} {A : Type ℓ} {K : Type κ} (eq : K → K → Bool) (key : A → K)
    (eq_iff : (a b : K) → (eq a b ≡ true) ↔ (a ≡ b)) where
  unique_from-IsDistinct :
      (seen : List K) (xs : List A) → IsDistinct eq key (unique_from eq key seen xs).1
  unfolding unique_from
  unique_from-IsDistinct seen [] = tt
  unique_from-IsDistinct seen (x ∷ xs) = elim (Bool-cases (contains_key eq seen (key x))) [
    | inl old ↦ rw old (unique_from-IsDistinct seen xs)
    | inr new ↦ rw new (
      let self = (eq_iff (key x) (key x)).1 refl in
          rw (find-unique_from eq key eq_iff (key x) (key x ∷ seen) xs, self),
      unique_from-IsDistinct (key x ∷ seen) xs,
    )
  ]

  pub unique-IsDistinct : (xs : List A) → IsDistinct eq key (unique eq key xs).1
  unfolding unique
  unique-IsDistinct xs = unique_from-IsDistinct [] xs

  -- An entry that is found has what all entries have, and the id.
  pub find_key-All :
      (P : A → Type 0) (k : K) (xs : List A) (e : A)
      → All P xs
      → find_key eq key k xs ≡ some e
      → P e × (key e ≡ k)
  find_key-All P k [] e h f = absurd (cc)
  find_key-All P k (x ∷ xs) e h f = elim (Bool-cases (eq (key x) k)) [
    | inl same ↦
        let it : x ≡ e = some-injective (rw same at f) in
        subst (λ e. P e × (key e ≡ k)) it (h.0, (eq_iff (key x) k).0 same)
    | inr other ↦ find_key-All P k xs e h.1 (rw other at f)
  ]
    where
      some-injective : {a b : A} → some a ≡ some b → a ≡ b
      some-injective h = cc
