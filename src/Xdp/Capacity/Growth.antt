-- ===== src/Xdp/Capacity/Growth.antt =====
-- The growth of map capacities: when it succeeds, how far it goes, and that a grown map is accepted
-- and not grown again.
use native.Mathlib.Nat.{pow-le-pow_right, pow-suc}
use xdp_firewall.Prelude.{
  ℕ, zero, suc, ◌*◌, ◌^◌, ◌+◌, ◌≤◌, ◌<◌, ◌≡◌, ◌↔◌, ◌⊎◌, inl, inr, max, Option, none, some, leb, ok,
  ◌>>=◌, String, arith, Bool-cases, >>=-eq-ok, leb→le, not_leb→lt, le→leb, ap,
}
use xdp_firewall.Xdp.Capacity.{
  u32_max, power_from, grow, or_overflow, checked_mul, checked_next_power_of_two, u32_try_from,
  expanded_capacity,
}

-- What `power_from` finds is a power of two, at least `n`, and no smaller than needed.
record IsPower (e n r : ℕ) : Type 0 where
  exponent : ℕ
  above : e ≤ exponent
  power : r ≡ 2 ^ exponent
  enough : n ≤ r
  least : (r ≡ 2 ^ e) ⊎ (r < 2 * n)

power_from-IsPower : (rounds e n : ℕ) {r : ℕ} → power_from rounds e n ≡ some r → IsPower e n r
unfolding power_from
power_from-IsPower zero e n h = absurd (cc)
power_from-IsPower (suc rounds) e n {r} h = elim (Bool-cases (leb n (2 ^ e))) [
  | inl fits ↦
      let found : r ≡ 2 ^ e = ground arith in
      record {
        exponent = e;
        above = omega arith;
        power = found;
        enough = omega (arith, leb→le n (2 ^ e) fits);
        least = inl found;
      }
  | inr small ↦
      let p = power_from-IsPower rounds (suc e) n {r = r} (ground arith) in
      record {
        exponent = p.exponent;
        above = omega (arith, p.above);
        power = p.power;
        enough = p.enough;
        least = inr (elim p.least [
          | inl first ↦ omega (arith, first, pow-suc 2 e, not_leb→lt n (2 ^ e) small)
          | inr tight ↦ tight
        ]);
      }
]

-- A power that is large enough is found, up to the last exponent that is tried.
power_from-some :
    (rounds e n k : ℕ)
    → e ≤ k
    → k < e + rounds
    → n ≤ 2 ^ k
    → (r : ℕ) × (power_from rounds e n ≡ some r) × (r ≤ 2 ^ k)
unfolding power_from
power_from-some zero e n k le lt h = absurd (omega arith)
power_from-some (suc rounds) e n k le lt h = elim (Bool-cases (leb n (2 ^ e))) [
  | inl fits ↦ (2 ^ e, rw fits, pow-le-pow_right (omega arith) le)
  | inr small ↦
      let later : suc e ≤ k = elim (Bool-cases (leb k e)) [
        | inl same ↦
            let eq : k ≡ e = omega (arith, leb→le k e same) in
            absurd (omega (arith, not_leb→lt n (2 ^ e) small, ap (λ (t : ℕ). 2 ^ t) eq))
        | inr more ↦ omega (arith, not_leb→lt k e more)
      ] in
      let (r, found, bound) = power_from-some rounds (suc e) n k later (omega arith) h in
      (r, rw small found, bound)
]

-- A capacity that must grow: what `grow` returns.
pub record IsGrown (current required r : ℕ) : Type 0 where
  pub exponent : ℕ
  pub power : r ≡ 2 ^ exponent
  pub doubled : 2 * current ≤ r
  pub enough : required ≤ r
  pub fits : r ≤ u32_max
  pub tight : r < 2 * max (max (current * 2) required) 1

or_overflow-eq-ok : (map : String) (o : Option ℕ) {r : ℕ} → or_overflow map o ≡ ok r → o ≡ some r
unfolding or_overflow
or_overflow-eq-ok map none h = absurd (cc)
or_overflow-eq-ok map (some n) h = cc

grow-IsGrown :
    (map : String) (current required : ℕ) {r : ℕ}
    → grow map current required ≡ ok r
    → IsGrown current required r
unfolding grow
grow-IsGrown map current required {r} h =
    let (d, ed, k) =
      >>=-eq-ok (or_overflow map (checked_mul current 2))
        (λ d.
          or_overflow map (checked_next_power_of_two (max (max d required) 1)) >>= u32_try_from map)
        h in
    let (p, ep, l) =
      >>=-eq-ok (or_overflow map (checked_next_power_of_two (max (max d required) 1)))
        (u32_try_from map) k in
    let double : d ≡ current * 2 = ground (arith, or_overflow-eq-ok map _ ed) in
    let q = power_from-IsPower 64 0 (max (max d required) 1) (or_overflow-eq-ok map _ ep) in
    let same : p ≡ r = ground arith in
    record {
      exponent = q.exponent;
      power = omega (arith, q.power, same);
      doubled = omega (arith, q.enough);
      enough = omega (arith, q.enough);
      fits = ground arith;
      tight = omega (arith, q.least, same, double);
    }

-- What `expanded_capacity` returns: the current capacity if it is enough, else a grown one.
pub expanded-cases :
    (map : String) (current required : ℕ) {r : ℕ}
    → expanded_capacity map current required ≡ ok r
    → ((required ≤ current) × (r ≡ current)) ⊎ ((current < required) × IsGrown current required r)
unfolding expanded_capacity
expanded-cases map current required {r} h = elim (Bool-cases (leb required current)) [
  | inl enough ↦ inl (ground arith, ground arith)
  | inr short ↦ inr (ground arith, grow-IsGrown map current required {r = r} (ground arith))
]

-- A capacity that is expanded is enough, never smaller than before, and a u32.
pub expanded_bounds :
    (map : String) (current required : ℕ) (r : ℕ)
    → current ≤ u32_max
    → expanded_capacity map current required ≡ ok r
    → (required ≤ r) × (current ≤ r) × (r ≤ u32_max)
expanded_bounds map current required r c h = elim (expanded-cases map current required h) [
  | inl (enough, same) ↦ (omega arith, omega arith, omega arith)
  | inr (short, g) ↦ (g.enough, omega (arith, g.doubled), g.fits)
]

grow-succeeds :
    (map : String) (current required : ℕ)
    → current ≤ 2 ^ 30
    → required ≤ 2 ^ 31
    → (r : ℕ) × (grow map current required ≡ ok r)
unfolding grow or_overflow
grow-succeeds map current required c q =
    let (r, found, bound) =
      power_from-some 64 0 (max (max (current * 2) required) 1) 31 (omega arith) (omega arith)
        (omega arith) in
    (r, ground (arith, found, bound))

pow_small : (k : ℕ) → 2 ^ k ≤ u32_max → k ≤ 31
pow_small k h = elim (Bool-cases (leb k 31)) [
  | inl small ↦ leb→le k 31 small
  | inr large ↦ absurd (
      omega
        (arith, pow-le-pow_right {n = 2} (omega arith) {i = 32} {j = k} (not_leb→lt k 31 large)))
]

grown-half : (current required r : ℕ) → IsGrown current required r → r ≤ 2 ^ 31
grown-half current required r g =
    let k = pow_small g.exponent (rw (← g.power) g.fits) in
    omega (arith, g.power, pow-le-pow_right {n = 2} (omega arith) k)

-- A map can be expanded to the required entries exactly when it has them already, or when the
-- requirement is at most 2^31 entries and the current capacity at most 2^30: capacities double and
-- are rounded to a power of two, and 2^32 is no u32.
pub expanded_capacity_iff :
    (map : String) (current required : ℕ)
    → ((r : ℕ) × (expanded_capacity map current required ≡ ok r))
      ↔ ((required ≤ current) ⊎ ((required ≤ 2 ^ 31) × (current ≤ 2 ^ 30)))
unfolding expanded_capacity
expanded_capacity_iff map current required = (
  (λ p. elim (expanded-cases map current required {r = p.0} (unfold expanded_capacity in p.1)) [
    | inl (enough, same) ↦ inl enough
    | inr (short, g) ↦ inr (
      omega (arith, g.enough, grown-half current required p.0 g),
      omega (arith, g.doubled, grown-half current required p.0 g),
    )
  ]),
  (λ h. elim (Bool-cases (leb required current)) [
    | inl enough ↦ (current, rw enough)
    | inr short ↦
        let bounds : (required ≤ 2 ^ 31) × (current ≤ 2 ^ 30) = elim h [
          | inl enough ↦ absurd (omega (arith, not_leb→lt required current short))
          | inr b ↦ b
        ] in
        let (r, e) = grow-succeeds map current required bounds.1 bounds.0 in (r, rw short e)
  ]),
)

-- An expanded capacity is not expanded again.
pub expanded_stable :
    (map : String) (current required : ℕ) {r : ℕ}
    → required ≤ r
    → expanded_capacity map r required ≡ ok r
unfolding expanded_capacity
expanded_stable map current required h = rw (le→leb required _ h)
