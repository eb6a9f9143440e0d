-- ===== src/Compaction/Coverage.antt =====
-- What the compaction loop keeps: nothing that the list covered is lost, and nothing is added,
-- whenever the test `covers` is a strict order on the elements.
use xdp_firewall.Prelude.{
  ℕ, zero, suc, ◌+◌, ◌≤◌, ◌<◌, ◌≡◌, refl, inl, inr, Bool, false, true, List, [], ◌∷◌, some, arith,
  sym, subst, if◌then◌else◌, length, get_elem?, All, Any, All-get_elem?, Any-position, Bool-cases,
}
use xdp_firewall.Compaction.{covered_by_other, compact_from, compact}

-- `covers` is a strict order on the elements that are `Good`, and what covers an element hits all
-- that the element hits.
pub record Covering {ℓ} {A : Type ℓ} (covers : A → A → Bool) (Good Hits : A → Type 0) : Type ℓ where
  pub irreflexive : (x : A) → covers x x ≡ false
  pub transitive :
      (x y z : A)
      → Good x
      → Good y
      → Good z
      → covers z y ≡ true
      → covers y x ≡ true
      → covers z x ≡ true
  pub monotone : (x y : A) → Good x → Good y → covers y x ≡ true → Hits x → Hits y

module _ {ℓ} {A : Type ℓ} (Hits : A → Type 0) where
  -- Facts on one round of the loop, which keeps `x` unless the test `b` holds.
  round-Any :
      (b : Bool) (x : A) (rest : List A)
      → Any Hits (if b then rest else x ∷ rest)
      → Any Hits (x ∷ rest)
  round-Any true x rest h = inr h
  round-Any false x rest h = h

  round_tail :
      (b : Bool) (x : A) (rest : List A) → Any Hits rest → Any Hits (if b then rest else x ∷ rest)
  round_tail true x rest h = h
  round_tail false x rest h = inr h

  round_head :
      (b : Bool) (x : A) (rest : List A)
      → b ≡ false
      → Hits x
      → Any Hits (if b then rest else x ∷ rest)
  round_head true x rest e p = absurd (cc)
  round_head false x rest e p = inl p

  round-All :
      (b : Bool) (x : A) (rest : List A)
      → All Hits (x ∷ rest)
      → All Hits (if b then rest else x ∷ rest)
  round-All true x rest h = h.1
  round-All false x rest h = h

module _ {ℓ} {A : Type ℓ} (covers : A → A → Bool) where
  -- Of what the test reports there is an element.
  covered-position :
      (index : ℕ) (x : A) (other : ℕ) (ys : List A)
      → covered_by_other covers index x other ys ≡ true
      → (j : ℕ) × (y : A) × (get_elem? ys j ≡ some y) × (covers y x ≡ true)
  unfolding covered_by_other
  covered-position index x other [] h = absurd (cc)
  covered-position index x other (y ∷ ys) h = elim (Bool-cases (covers y x)) [
    | inl covered ↦ (0, y, refl, covered)
    | inr not_covers ↦
        let (j, z, e, c) = covered-position index x (suc other) ys (ground arith) in
        (suc j, z, e, c)
  ]

  compact_from-Any :
      (Hits : A → Type 0) (all : List A) (index : ℕ) (xs : List A)
      → Any Hits (compact_from covers all index xs)
      → Any Hits xs
  unfolding compact_from
  compact_from-Any Hits all index [] h = h
  compact_from-Any Hits all index (x ∷ xs) h =
      elim (round-Any Hits (covered_by_other covers index x 0 all) x _ h) [
        | inl hit ↦ inl hit
        | inr later ↦ inr (compact_from-Any Hits all (suc index) xs later)
      ]

  -- The compacted list hits nothing that the list did not hit.
  pub compact-Any : (Hits : A → Type 0) (xs : List A) → Any Hits (compact covers xs) → Any Hits xs
  unfolding compact
  compact-Any Hits xs h = compact_from-Any Hits xs 0 xs h

  compact_from-All :
      (P : A → Type 0) (all : List A) (index : ℕ) (xs : List A)
      → All P xs
      → All P (compact_from covers all index xs)
  unfolding compact_from
  compact_from-All P all index [] h = tt
  compact_from-All P all index (x ∷ xs) h =
      round-All P (covered_by_other covers index x 0 all) x _
        (h.0, compact_from-All P all (suc index) xs h.1)

  pub compact-All : (P : A → Type 0) (xs : List A) → All P xs → All P (compact covers xs)
  unfolding compact
  compact-All P xs h = compact_from-All P xs 0 xs h

  -- Two elements that cover each other are both dropped.
  pub compact-pair :
      (c d : A) → covers d c ≡ true → covers c d ≡ true → compact covers (c ∷ d ∷ []) ≡ []
  unfolding compact compact_from covered_by_other
  compact-pair c d first second = rw (first, second)

  length-compact_from :
      (all : List A) (index : ℕ) (xs : List A)
      → length (compact_from covers all index xs) ≤ length xs
  unfolding compact_from
  length-compact_from all index [] = omega arith
  length-compact_from all index (x ∷ xs) = ground (arith, length-compact_from all (suc index) xs)

  pub length-compact : (xs : List A) → length (compact covers xs) ≤ length xs
  unfolding compact
  length-compact xs = length-compact_from xs 0 xs

  -- An element that no other covers stays.
  kept-Any :
      (Hits : A → Type 0) (all : List A) (index i : ℕ) (x : A) (xs : List A)
      → get_elem? xs i ≡ some x
      → covered_by_other covers (index + i) x 0 all ≡ false
      → Hits x
      → Any Hits (compact_from covers all index xs)
  unfolding compact_from
  kept-Any Hits all index i x [] e c p = absurd (cc)
  kept-Any Hits all index zero x (y ∷ xs) e c p =
      let same : y ≡ x = cc in
      let here : index + 0 ≡ index = omega arith in
      round_head Hits (covered_by_other covers index y 0 all) y _ (rw same (rw here at c))
        (subst Hits (sym same) p)
  kept-Any Hits all index (suc i) x (y ∷ xs) e c p =
      let next : index + suc i ≡ suc index + i = omega arith in
      round_tail Hits _ y _ (kept-Any Hits all (suc index) i x xs e (rw next at c) p)

  -- How many elements cover `x`.
  rank : A → List A → ℕ
  rank x [] = 0
  rank x (y ∷ ys) = (if covers y x then 1 else 0) + rank x ys

  module _ (Good Hits : A → Type 0) (order : Covering covers Good Hits) where
    rank-le :
        (x y : A) (ys : List A)
        → Good x
        → Good y
        → All Good ys
        → covers y x ≡ true
        → rank y ys ≤ rank x ys
    unfolding rank
    rank-le x y [] gx gy g c = omega arith
    rank-le x y (z ∷ zs) gx gy g c =
        ground (arith, order.transitive x y z gx gy g.0, rank-le x y zs gx gy g.1 c)

    -- What covers `x` and stands in the list is covered by fewer elements.
    rank-lt :
        (x y : A) (ys : List A) (j : ℕ)
        → Good x
        → Good y
        → All Good ys
        → covers y x ≡ true
        → get_elem? ys j ≡ some y
        → rank y ys < rank x ys
    unfolding rank
    rank-lt x y [] j gx gy g c e = absurd (cc)
    rank-lt x y (z ∷ zs) zero gx gy g c e =
        let same : z ≡ y = cc in
        rw same (ground (arith, order.irreflexive y, rank-le x y zs gx gy g.1 c))
    rank-lt x y (z ∷ zs) (suc j) gx gy g c e =
        ground (arith, order.transitive x y z gx gy g.0, rank-lt x y zs j gx gy g.1 c e)

    survivor :
        (fuel : ℕ) (all : List A) (i : ℕ) (x : A)
        → All Good all
        → get_elem? all i ≡ some x
        → rank x all < fuel
        → Hits x
        → Any Hits (compact covers all)
    unfolding compact
    survivor zero all i x g e r p = absurd (omega arith)
    survivor (suc fuel) all i x g e r p =
        let gx = All-get_elem? Good all i g e in
        elim (Bool-cases (covered_by_other covers (0 + i) x 0 all)) [
          | inr kept ↦ kept-Any Hits all 0 i x all e kept p
          | inl dropped ↦
              let (j, y, at, c) = covered-position (0 + i) x 0 all dropped in
              let gy = All-get_elem? Good all j g at in
              survivor fuel all j y g at (omega (arith, rank-lt x y all j gx gy g c at))
                (order.monotone x y gx gy c p)
        ]

    -- The compacted list hits what the list hit.
    pub Any-compact : (xs : List A) → All Good xs → Any Hits xs → Any Hits (compact covers xs)
    Any-compact xs g h =
        let (i, x, at, p) = Any-position Hits xs h in
        survivor (suc (rank x xs)) xs i x g at (omega arith) p
