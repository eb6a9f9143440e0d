-- ===== src/Net/Prefix.antt =====
-- Facts about addresses that agree on their first bits.
use native.Mathlib.Nat.{div-div-eq-div-mul, div-add-mod', pow-suc, mul_assoc}
use xdp_firewall.Prelude.{
  ℕ, zero, suc, ◌+◌, ◌-◌, ◌*◌, ◌/◌, ◌%◌, ◌^◌, ◌≤◌, ◌≡◌, refl, sym, ap, ◌∙◌, true, arith,
}
use xdp_firewall.Net.{IpAddr, v4, v6, is_ipv4, addr_eq, SamePrefix, IsNetwork}

pub addr_eq→eq : (a b : IpAddr) → addr_eq a b ≡ true → a ≡ b
addr_eq→eq (v4 a) (v4 b) h = ground arith
addr_eq→eq (v4 a) (v6 b) h = ground arith
addr_eq→eq (v6 a) (v4 b) h = ground arith
addr_eq→eq (v6 a) (v6 b) h = ground arith

pub addr_eq_refl : (a : IpAddr) → addr_eq a a ≡ true
addr_eq_refl (v4 a) = ground arith
addr_eq_refl (v6 a) = ground arith

pub SamePrefix-refl : (p : ℕ) (a : IpAddr) → SamePrefix p a a
SamePrefix-refl p (v4 a) = refl
SamePrefix-refl p (v6 a) = refl

pub SamePrefix-symm : (p : ℕ) (a b : IpAddr) → SamePrefix p a b → SamePrefix p b a
SamePrefix-symm p (v4 a) (v4 b) h = sym h
SamePrefix-symm p (v6 a) (v6 b) h = sym h
SamePrefix-symm p (v4 a) (v6 b) h = h
SamePrefix-symm p (v6 a) (v4 b) h = h

pub SamePrefix-trans :
    (p : ℕ) (a b c : IpAddr) → SamePrefix p a b → SamePrefix p b c → SamePrefix p a c
SamePrefix-trans p (v4 a) (v4 b) (v4 c) h k = h ∙ k
SamePrefix-trans p (v4 a) (v4 b) (v6 c) h k = k
SamePrefix-trans p (v4 a) (v6 b) c h k = absurd h
SamePrefix-trans p (v6 a) (v6 b) (v6 c) h k = h ∙ k
SamePrefix-trans p (v6 a) (v6 b) (v4 c) h k = k
SamePrefix-trans p (v6 a) (v4 b) c h k = absurd h

-- Agreement is of one family.
pub SamePrefix-is_ipv4 : (p : ℕ) (a b : IpAddr) → SamePrefix p a b → is_ipv4 a ≡ is_ipv4 b
SamePrefix-is_ipv4 p (v4 a) (v4 b) h = refl
SamePrefix-is_ipv4 p (v6 a) (v6 b) h = refl
SamePrefix-is_ipv4 p (v4 a) (v6 b) h = absurd h
SamePrefix-is_ipv4 p (v6 a) (v4 b) h = absurd h

pow-add : (m n : ℕ) → 2 ^ (m + n) ≡ 2 ^ m * 2 ^ n
pow-add m zero = let e : m + 0 ≡ m = omega arith in rw e (omega arith)
pow-add m (suc n) =
    let e : m + suc n ≡ suc (m + n) = omega arith in
    rw (e, pow-suc) (rw (pow-add m n) (rw mul_assoc (ap (λ t. 2 ^ m * t) (sym (pow-suc 2 n)))))

-- Equal quotients stay equal when more bits are dropped.
shift_more : (a b i j : ℕ) → j ≤ i → a / 2 ^ j ≡ b / 2 ^ j → a / 2 ^ i ≡ b / 2 ^ i
shift_more a b i j h e =
    let split : i ≡ j + (i - j) = omega arith in
    rw split (
      rw (pow-add j (i - j), ← div-div-eq-div-mul, ← div-div-eq-div-mul)
        (ap (λ t. t / 2 ^ (i - j)) e))

-- Addresses that agree on more bits agree on fewer.
pub SamePrefix-weaken : (p q : ℕ) (a b : IpAddr) → p ≤ q → SamePrefix q a b → SamePrefix p a b
SamePrefix-weaken p q (v4 a) (v4 b) h e = shift_more a b (32 - p) (32 - q) (omega arith) e
SamePrefix-weaken p q (v6 a) (v6 b) h e = shift_more a b (128 - p) (128 - q) (omega arith) e
SamePrefix-weaken p q (v4 a) (v6 b) h e = e
SamePrefix-weaken p q (v6 a) (v4 b) h e = e

same_multiple : (a b m : ℕ) → a / m ≡ b / m → a % m ≡ 0 → b % m ≡ 0 → a ≡ b
same_multiple a b m q ra rb = omega (arith, div-add-mod' a m, div-add-mod' b m, ap (λ t. t * m) q)

-- A network's address is determined by its first bits.
pub IsNetwork-eq : (p : ℕ) (a b : IpAddr) → IsNetwork a p → IsNetwork b p → SamePrefix p a b → a ≡ b
IsNetwork-eq p (v4 a) (v4 b) na nb h =
    ap v4 (same_multiple a b (2 ^ (32 - p)) h na.host_zero nb.host_zero)
IsNetwork-eq p (v6 a) (v6 b) na nb h =
    ap v6 (same_multiple a b (2 ^ (128 - p)) h na.host_zero nb.host_zero)
IsNetwork-eq p (v4 a) (v6 b) na nb h = absurd h
IsNetwork-eq p (v6 a) (v4 b) na nb h = absurd h
