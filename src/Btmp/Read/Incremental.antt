-- ===== src/Btmp/Read/Incremental.antt =====
-- The attempts that read_from finds, in bytes and in the bytes behind them.
use xdp_firewall.Prelude.{
  ℕ, zero, suc, ◌+◌, ◌-◌, ◌*◌, ◌/◌, ◌≤◌, ◌≡◌, refl, ap, ◌∙◌, Option, none, some, List, [], ◌∷◌,
  ◌++◌, arith, take, drop, length, length-append,
}
use xdp_firewall.Prelude.Slices.{
  length-drop, drop-append, take-append_of_le, drop-drop, take-take, drop-take,
}
use xdp_firewall.Prelude.Int.{ℤ}
use xdp_firewall.Btmp.Record.{FailedAttempt, parse_record}
use xdp_firewall.Btmp.Read.{chunks_exact, filter_map, read_from}

chunks_exact-take : (q : ℕ) (xs : List ℕ) → chunks_exact q (take (q * 384) xs) ≡ chunks_exact q xs
chunks_exact-take zero xs = refl
chunks_exact-take (suc q) xs =
    let size : suc q * 384 ≡ 384 + q * 384 = omega arith in
    rw (
      size,
      take-take 384 (384 + q * 384) xs (omega arith),
      drop-take 384 (q * 384) xs,
      chunks_exact-take q (drop 384 xs),
    )

chunks_exact-append :
    (p q : ℕ) (xs ys : List ℕ)
    → q * 384 ≤ length xs
    → chunks_exact (q + p) (xs ++ ys)
      ≡ chunks_exact q xs ++ chunks_exact p (drop (q * 384) xs ++ ys)
chunks_exact-append p zero xs ys h = let e : 0 + p ≡ p = omega arith in rw e
chunks_exact-append p (suc q) xs ys h =
    let sum : suc q + p ≡ suc (q + p) = omega arith in
    let size : suc q * 384 ≡ 384 + q * 384 = omega arith in
    let ih = chunks_exact-append p q (drop 384 xs) ys (omega (arith, length-drop 384 xs)) in
    rw (
      sum,
      size,
      take-append_of_le 384 xs ys (omega arith),
      drop-append 384 xs ys (omega arith),
      ih,
      drop-drop (q * 384) 384 xs,
    )

filter_map-append {ℓ κ} :
    {A : Type ℓ} {B : Type κ} (f : A → Option B) (xs ys : List A)
    → filter_map f (xs ++ ys) ≡ filter_map f xs ++ filter_map f ys
filter_map-append f [] ys = refl
filter_map-append f (x ∷ xs) ys =
    elim (f x)
      as (λ o.
        elim o [ none ↦ filter_map f (xs ++ ys) | some y ↦ y ∷ filter_map f (xs ++ ys) ]
        ≡ elim o [ none ↦ filter_map f xs | some y ↦ y ∷ filter_map f xs ] ++ filter_map f ys) [
          | none ↦ filter_map-append f xs ys
          | some y ↦ ap (λ l. y ∷ l) (filter_map-append f xs ys)
        ]

module _ {DateTime : Type 0} (from_timestamp : ℤ → ℕ → Option DateTime) where
  -- the attempts of the whole records at the start of some bytes
  abbrev pub attempts_of : List ℕ → List (FailedAttempt DateTime)
  attempts_of xs = filter_map (parse_record from_timestamp) (chunks_exact (length xs / 384) xs)

  pub attempts_of-append :
      (q : ℕ) (xs ys : List ℕ)
      → q ≡ length xs / 384
      → attempts_of (xs ++ ys) ≡ attempts_of xs ++ attempts_of (drop (q * 384) xs ++ ys)
  attempts_of-append q xs ys h =
      let left = drop (q * 384) xs in
      let size : length (left ++ ys) ≡ length xs - q * 384 + length ys =
        omega (arith, length-append {0} left ys, length-drop {0} (q * 384) xs) in
      let count : length (xs ++ ys) / 384 ≡ q + length (left ++ ys) / 384 =
        omega (arith, length-append {0} xs ys) in
      ap (filter_map (parse_record from_timestamp)) (
        ap (λ n. chunks_exact n (xs ++ ys)) count
        ∙ chunks_exact-append (length (left ++ ys) / 384) q xs ys (omega arith))
      ∙ filter_map-append (parse_record from_timestamp) (chunks_exact q xs)
          (chunks_exact (length (left ++ ys) / 384) (left ++ ys))
      ∙ ap
          (λ n.
            filter_map (parse_record from_timestamp) (chunks_exact n xs)
            ++ attempts_of (left ++ ys))
          h

  pub read_from-eq :
      (inode start : ℕ) (xs : List ℕ)
      → read_from from_timestamp inode start xs
        ≡ (attempts_of xs, record { inode = inode; offset = start + length xs / 384 * 384 })
  unfolding read_from
  read_from-eq inode start xs = rw (chunks_exact-take (length xs / 384) xs)
