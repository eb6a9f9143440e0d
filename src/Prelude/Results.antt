-- ===== src/Prelude/Results.antt =====
-- `anyhow::Result`: a value, or an error. The errors of the modelled code are one data type.
use mathlib.Core.Path.{◌≡◌, refl, subst}
use xdp_firewall.Prelude.Lists.{All}
use mathlib.Core.Option.{Option, none, some}
use mathlib.Core.List.{List, [], ◌∷◌}
use Prim.Native.Nat.{ℕ}
use Prim.Native.String.{String}

-- One constructor for each kind of failure; the texts of the messages are left out, the names that
-- they mention are kept.
pub data Error : Type 0 where
  -- a dynamic defense value is absent or zero while its part is enabled
  not_positive : String → Error
  not_set : String → Error
  -- an ICMP entry with a port
  icmp_port : String → Error
  unsupported_action : Error
  unsupported_protocol : Error
  invalid_cidr : String → Error
  invalid_country : Error
  -- a number outside the range of its target type
  out_of_range : String → Error
  capacity : String → ℕ → ℕ → Error
  capacity_overflow : String → Error
  expiration_overflow : Error
  -- a call of a library or of the kernel failed
  foreign : String → Error
  -- a request that asks for nothing, or for too much
  bad_request : String → Error
  not_found : String → Error
  -- an error behind a number of items that were submitted before it
  submitted_before : ℕ → Error → Error
  -- the model's own: a loop was cut off (theorems show where it is not)
  out_of_fuel : Error

pub data Result {ℓ} (A : Type ℓ) : Type ℓ where
  err : Error → Result A
  ok : A → Result A

-- the operator `?` before the rest of a function
infixl 5 ◌>>◌ ◌>>=◌
abbrev pub ◌>>=◌ {ℓ κ} :
    {From : Type ℓ} {To : Type κ} → Result From → (From → Result To) → Result To
err failure >>= rest = err failure
ok value >>= rest = rest value

-- a check before the rest
abbrev pub ◌>>◌ {ℓ} : {To : Type ℓ} → Result (Unit {0}) → Result To → Result To
check >> rest = check >>= (λ passed. rest)

pub ok-injective {ℓ} : {A : Type ℓ} {a b : A} → ok a ≡ ok b → a ≡ b
ok-injective h = cc

pub err_not_ok {ℓ} : {A : Type ℓ} {e : Error} {a : A} → err e ≡ ok a → ⊥
err_not_ok h = cc

-- Inversion of a successful bind.
pub >>=-eq-ok {ℓ κ} :
    {From : Type ℓ} {To : Type κ} (first : Result From) (rest : From → Result To) {result : To}
    → (first >>= rest) ≡ ok result
    → (value : From) × (first ≡ ok value) × (rest value ≡ ok result)
>>=-eq-ok (err failure) rest h = absurd (cc)
>>=-eq-ok (ok value) rest h = (value, refl, h)

-- `iter().map(f).collect::<Result<Vec<_>>>()`: the first error stops it.
module _ {ℓ κ} {A : Type ℓ} {B : Type κ} where
  abbrev pub collect_map : (A → Result B) → List A → Result (List B)
  collect_map f [] = ok []
  collect_map f (x ∷ xs) = do y ← f x; ys ← collect_map f xs; ok (y ∷ ys)

  -- Every element of a collected list is a value of `f`.
  pub collect_map-All :
      (P : B → Type 0) (f : A → Result B) (xs : List A) {ys : List B}
      → ((x : A) (y : B) → f x ≡ ok y → P y)
      → collect_map f xs ≡ ok ys
      → All P ys
  collect_map-All P f [] {ys} h e = subst (All P) {x = []} (cc) tt
  collect_map-All P f (x ∷ xs) {ys} h e =
      let (y, ey, k) = >>=-eq-ok (f x) (λ y. collect_map f xs >>= λ ys. ok (y ∷ ys)) e in
      let (zs, ez, l) = >>=-eq-ok (collect_map f xs) (λ ys. ok (y ∷ ys)) k in
      subst (All P) {x = y ∷ zs} (cc) (h x y ey, collect_map-All P f xs h ez)

-- `Option::transpose` after `map(f)`.
abbrev pub transpose_map {ℓ κ} :
    {A : Type ℓ} {B : Type κ} → (A → Result B) → Option A → Result (Option B)
transpose_map f none = ok none
transpose_map f (some a) = do b ← f a; ok (some b)

-- Inversion of a check and two values.
pub check_two-eq-ok {ℓ κ μ} :
    {A : Type ℓ} {B : Type κ} {C : Type μ} (v : Result (Unit {0})) (a : Result A) (b : Result B)
    (make : A → B → C) {c : C}
    → (v >> (a >>= λ x. b >>= λ y. ok (make x y))) ≡ ok c
    → (x : A) × (y : B) × (v ≡ ok tt) × (a ≡ ok x) × (b ≡ ok y) × (make x y ≡ c)
check_two-eq-ok (ok u) (ok x) (ok y) make h = (x, y, refl, refl, refl, cc)
check_two-eq-ok (ok u) (ok x) (err e) make h = absurd (cc)
check_two-eq-ok (ok u) (err e) b make h = absurd (cc)
check_two-eq-ok (err e) a b make h = absurd (cc)
