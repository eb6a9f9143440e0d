-- ===== src/Btmp/Api/Chunks.antt =====
-- The chunks of a batch.
use xdp_firewall.Prelude.{
  ℕ, zero, suc, ◌+◌, ◌-◌, ◌*◌, ◌/◌, ◌≤◌, ◌<◌, ◌≡◌, refl, ap, ◌∙◌, List, [], ◌∷◌, ◌++◌, arith, take,
  drop, length, All,
}
use xdp_firewall.Prelude.Slices.{length-drop, append-take-drop}
use xdp_firewall.Btmp.Api.{chunks_of, chunks}

abbrev pub concat {ℓ} : {A : Type ℓ} → List (List A) → List A
concat [] = []
concat (xs ∷ xss) = xs ++ concat xss

module _ {ℓ} {A : Type ℓ} where
  chunks_of-concat : (n : ℕ) (xs : List A) → length xs ≤ n * 500 → concat (chunks_of n xs) ≡ xs
  chunks_of-concat zero [] h = refl
  chunks_of-concat zero (x ∷ xs) h = absurd (omega arith)
  chunks_of-concat (suc n) xs h =
      ap (λ l. take 500 xs ++ l)
        (chunks_of-concat n (drop 500 xs) (omega (arith, length-drop {ℓ} 500 xs)))
      ∙ append-take-drop 500 xs

  -- The chunks of a list are the list, cut.
  pub concat-chunks : (xs : List A) → concat (chunks xs) ≡ xs
  concat-chunks xs = chunks_of-concat ((length xs + 499) / 500) xs (omega arith)

  take-size :
      (n : ℕ) (xs : List A)
      → 0 < length xs
      → 0 < n
      → (0 < length (take n xs)) × (length (take n xs) ≤ n)
  take-size zero xs h k = absurd (omega arith)
  take-size (suc n) [] h k = absurd (omega arith)
  take-size (suc zero) (x ∷ xs) h k = (omega arith, omega arith)
  take-size (suc (suc n)) (x ∷ []) h k = (omega arith, omega arith)
  take-size (suc (suc n)) (x ∷ y ∷ xs) h k =
      let ih = take-size (suc n) (y ∷ xs) (omega arith) (omega arith) in
      (omega arith, omega (arith, ih.1))

  chunks_of-sizes :
      (n : ℕ) (xs : List A)
      → (n - 1) * 500 < length xs
      → All (λ chunk. (0 < length chunk) × (length chunk ≤ 500)) (chunks_of n xs)
  chunks_of-sizes zero xs h = tt
  chunks_of-sizes (suc zero) xs h = (take-size 500 xs (omega arith) (omega arith), tt)
  chunks_of-sizes (suc (suc n)) xs h = (
    take-size 500 xs (omega arith) (omega arith),
    chunks_of-sizes (suc n) (drop 500 xs) (omega (arith, length-drop {ℓ} 500 xs)),
  )

  -- No chunk is empty or over the limit.
  pub chunks-sizes :
      (xs : List A) → All (λ chunk. (0 < length chunk) × (length chunk ≤ 500)) (chunks xs)
  chunks-sizes [] = tt
  chunks-sizes (x ∷ xs) = chunks_of-sizes ((length (x ∷ xs) + 499) / 500) (x ∷ xs) (omega arith)
