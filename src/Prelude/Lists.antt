-- ===== src/Prelude/Lists.antt =====
-- Lists measured and indexed by native numbers, under the library's names, and predicates on lists
-- by recursion.
use Prim.Native.Nat.{ℕ, zero, suc, ◌+◌}
use mathlib.Core.Path.{◌≡◌, refl, ap, subst}
use mathlib.Core.Logic.{◌⊎◌, inl, inr}
use mathlib.Core.List.{List, [], ◌∷◌, ◌++◌, map}
use mathlib.Core.Option.{Option, none, some}
use mathlib.Core.Bool.{Bool, true}
use xdp_firewall.Prelude.Tests.{if◌then◌else◌, Bool-cases}
use native.Mathlib.Omega.{arith}

module _ {ℓ} {A : Type ℓ} where
  abbrev pub length : List A → ℕ
  length [] = 0
  length (x ∷ xs) = suc (length xs)

  abbrev pub get_elem? : List A → ℕ → Option A
  get_elem? [] i = none
  get_elem? (x ∷ xs) zero = some x
  get_elem? (x ∷ xs) (suc i) = get_elem? xs i

  abbrev pub replicate : ℕ → A → List A
  replicate zero a = []
  replicate (suc n) a = a ∷ replicate n a

  abbrev pub take : ℕ → List A → List A
  take zero xs = []
  take (suc n) [] = []
  take (suc n) (x ∷ xs) = x ∷ take n xs

  abbrev pub drop : ℕ → List A → List A
  drop zero xs = xs
  drop (suc n) [] = []
  drop (suc n) (x ∷ xs) = drop n xs

  pub length-append : (xs ys : List A) → length (xs ++ ys) ≡ length xs + length ys
  length-append [] ys = omega arith
  length-append (x ∷ xs) ys = omega (arith, length-append xs ys)

  pub take-append : (xs ys : List A) → take (length xs) (xs ++ ys) ≡ xs
  take-append [] ys = refl
  take-append (x ∷ xs) ys = ap (λ l. x ∷ l) (take-append xs ys)

module _ {ℓ} {A : Type ℓ} (P : A → Type 0) where
  -- Every element has the property.
  abbrev pub All : List A → Type 0
  All [] = Unit
  All (x ∷ xs) = P x × All xs

  -- Some element has the property; the proof says which.
  abbrev pub Any : List A → Type 0
  Any [] = ⊥
  Any (x ∷ xs) = P x ⊎ Any xs

  pub All-get_elem? : (xs : List A) (i : ℕ) {x : A} → All xs → get_elem? xs i ≡ some x → P x
  All-get_elem? [] i h e = absurd (cc)
  All-get_elem? (y ∷ xs) zero h e = subst P (cc) h.0
  All-get_elem? (y ∷ xs) (suc i) h e = All-get_elem? xs i h.1 e

  pub Any-get_elem? : (xs : List A) (i : ℕ) {x : A} → get_elem? xs i ≡ some x → P x → Any xs
  Any-get_elem? [] i e p = absurd (cc)
  Any-get_elem? (y ∷ xs) zero e p = inl (subst P (cc) p)
  Any-get_elem? (y ∷ xs) (suc i) e p = inr (Any-get_elem? xs i e p)

  pub Any-position : (xs : List A) → Any xs → (i : ℕ) × (x : A) × (get_elem? xs i ≡ some x) × P x
  Any-position [] h = absurd h
  Any-position (x ∷ xs) (inl p) = (0, x, refl, p)
  Any-position (x ∷ xs) (inr h) = let (i, y, e, p) = Any-position xs h in (suc i, y, e, p)

pub All-map {ℓ κ} :
    {A : Type ℓ} {B : Type κ} (P : B → Type 0) (f : A → B) (xs : List A)
    → ((x : A) → P (f x))
    → All P (map f xs)
All-map P f [] h = tt
All-map P f (x ∷ xs) h = (h x, All-map P f xs h)

pub All-imp {ℓ} :
    {A : Type ℓ} (P Q : A → Type 0) (xs : List A) → ((x : A) → P x → Q x) → All P xs → All Q xs
All-imp P Q [] f h = tt
All-imp P Q (x ∷ xs) f h = (f x h.0, All-imp P Q xs f h.1)

-- `retain`: the elements for which a loop body does not return early
unfoldable pub retain {ℓ} : {A : Type ℓ} → (A → Bool) → List A → List A
retain test [] = []
retain test (x ∷ xs) = let rest = retain test xs in if test x then x ∷ rest else rest

pub retain-All {ℓ} :
    {A : Type ℓ} (P : A → Type 0) (test : A → Bool) (xs : List A)
    → All P xs
    → All (λ x. P x × (test x ≡ true)) (retain test xs)
unfolding retain
retain-All P test [] h = tt
retain-All P test (x ∷ xs) h = elim (Bool-cases (test x)) [
  | inl keep ↦ rw keep ((h.0, keep), retain-All P test xs h.1)
  | inr drop ↦ rw drop (retain-All P test xs h.1)
]

pub All-append {ℓ} :
    {A : Type ℓ} (P : A → Type 0) (xs ys : List A) → All P xs → All P ys → All P (xs ++ ys)
All-append P [] ys h k = k
All-append P (x ∷ xs) ys h k = (h.0, All-append P xs ys h.1 k)

pub All-map_imp {ℓ κ} :
    {A : Type ℓ} {B : Type κ} (P : A → Type 0) (Q : B → Type 0) (f : A → B) (xs : List A)
    → ((x : A) → P x → Q (f x))
    → All P xs
    → All Q (map f xs)
All-map_imp P Q f [] g h = tt
All-map_imp P Q f (x ∷ xs) g h = (g x h.0, All-map_imp P Q f xs g h.1)

-- Every element is related to some element, where the relation is reflexive.
pub All-Any_self {ℓ} :
    {A : Type ℓ} (R : A → A → Type 0)
    → ((x : A) → R x x)
    → (xs : List A) → All (λ x. Any (λ y. R y x) xs) xs
All-Any_self R r [] = tt
All-Any_self R r (x ∷ xs) = (
  inl (r x),
  All-imp (λ z. Any (λ y. R y z) xs) (λ z. Any (λ y. R y z) (x ∷ xs)) xs (λ z h. inr h)
      (All-Any_self R r xs),
)

pub Any-append_left {ℓ} :
    {A : Type ℓ} (P : A → Type 0) (xs ys : List A) → Any P xs → Any P (xs ++ ys)
Any-append_left P [] ys h = absurd h
Any-append_left P (x ∷ xs) ys (inl p) = inl p
Any-append_left P (x ∷ xs) ys (inr h) = inr (Any-append_left P xs ys h)

pub Any-append_right {ℓ} :
    {A : Type ℓ} (P : A → Type 0) (xs ys : List A) → Any P ys → Any P (xs ++ ys)
Any-append_right P [] ys h = h
Any-append_right P (x ∷ xs) ys h = inr (Any-append_right P xs ys h)

pub Any-map {ℓ κ} :
    {A : Type ℓ} {B : Type κ} (P : A → Type 0) (Q : B → Type 0) (f : A → B) (xs : List A)
    → ((x : A) → P x → Q (f x))
    → Any P xs
    → Any Q (map f xs)
Any-map P Q f [] g h = absurd h
Any-map P Q f (x ∷ xs) g (inl p) = inl (g x p)
Any-map P Q f (x ∷ xs) g (inr h) = inr (Any-map P Q f xs g h)
