-- ===== src/Xdp/Encoding/Keys.antt =====
-- The keys of the maps keep what they encode: an address is read back from its bytes, and two
-- entries have one id only if they are for the same network, protocol and port.
use native.Mathlib.Nat.{
  div-add-mod', mul-add-mod_self_left, mod-eq_of_lt, mod-lt, mul-le-mul_right, one-le-pow, pow-suc,
  mod-one,
}
use xdp_firewall.Prelude.{
  ℕ, zero, suc, ◌+◌, ◌*◌, ◌/◌, ◌%◌, ◌^◌, ◌≤◌, ◌<◌, ◌≡◌, refl, sym, ap, subst, ◌∙◌, ◌↔◌, ◌⊎◌, inl,
  inr, true, List, [], ◌∷◌, arith,
}
use xdp_firewall.Net.{IpAddr, v4, v6, IsAddr}
use xdp_firewall.Policy.Model.{L4Protocol}
use xdp_firewall.Xdp.Encoding.{
  octets, number, addr_bytes, map_addr, family_of, proto_code, to_be, rule_key, rule_key_id, RuleId,
  rule_id_eq, geo_id_eq, GeoId, CustomRateId, custom_rate_id_eq, bytes_eq, geo_key, geo_key_id,
  temp_ban_key, temp_ban_key_id, lpm_prefix_len,
}

byte_le : (n : ℕ) → n % 256 ≤ 255
byte_le n = omega arith

-- A byte in front of the remainder.
byte_step : (n m : ℕ) → 0 < m → (n / m % 256) * m + n % m ≡ n % (m * 256)
byte_step n m pos =
    let r = (n / m % 256) * m + n % m in
    let q = n / m / 256 in
    let whole : (m * 256) * q + r ≡ n =
      omega (arith, ap (λ t. t * m) (div-add-mod' (n / m) 256), div-add-mod' n m) in
    let small : r < m * 256 = omega (arith, mod-lt n pos, mul-le-mul_right m (byte_le (n / m))) in
    sym (mod-eq_of_lt small)
    ∙ sym (mul-add-mod_self_left (m * 256) q r)
    ∙ ap (λ t. t % (m * 256)) whole

number-octets : (k acc n : ℕ) → number acc (octets k n) ≡ acc * 256 ^ k + n % 256 ^ k
number-octets zero acc n = omega (arith, mod-one n)
number-octets (suc k) acc n =
    number-octets k (acc * 256 + n / 256 ^ k % 256) n
    ∙ rw pow-suc (omega (arith, byte_step n (256 ^ k) (one-le-pow k 256 (omega arith))))

-- An address that fits its family is read back from the bytes of a key.
pub map_addr-addr_bytes : (a : IpAddr) → IsAddr a → map_addr (family_of a) (addr_bytes a) ≡ a
unfolding map_addr addr_bytes
map_addr-addr_bytes (v4 a) h = ap v4 (number-octets 4 0 a ∙ omega arith)
map_addr-addr_bytes (v6 a) h = ap v6 (number-octets 16 0 a ∙ omega arith)

to_be_injective : (p q : ℕ) → p < 65536 → q < 65536 → to_be p ≡ to_be q → p ≡ q
to_be_injective p q hp hq h = omega arith

proto_code_injective : (a b : L4Protocol) → proto_code a ≡ proto_code b → a ≡ b
proto_code_injective a b h = ground arith

addr_of_key :
    (a b : IpAddr)
    → IsAddr a
    → IsAddr b
    → family_of a ≡ family_of b
    → addr_bytes a ≡ addr_bytes b
    → a ≡ b
addr_of_key a b ha hb f e =
    sym (map_addr-addr_bytes a ha)
    ∙ ap (λ t. map_addr t (addr_bytes a)) f
    ∙ ap (map_addr (family_of b)) e
    ∙ map_addr-addr_bytes b hb

id-injective :
    (a b : IpAddr) (p q : ℕ) (s t : L4Protocol) (m n : ℕ)
    → IsAddr a
    → IsAddr b
    → m < 65536
    → n < 65536
    → ◌≡◌ {A = RuleId}
        (lpm_prefix_len p, family_of a, proto_code s, to_be m, addr_bytes a)
        (lpm_prefix_len q, family_of b, proto_code t, to_be n, addr_bytes b)
    → (a ≡ b) × (p ≡ q) × (s ≡ t) × (m ≡ n)
id-injective a b p q s t m n ha hb hm hn h =
    let prefix = ap (λ (k : RuleId). k.0) h in
    let family = ap (λ (k : RuleId). k.1) h in
    let proto = ap (λ (k : RuleId). k.2) h in
    let dport = ap (λ (k : RuleId). k.3) h in
    let addr = ap (λ (k : RuleId). k.4) h in
    (
      addr_of_key a b ha hb family addr,
      omega arith,
      proto_code_injective s t proto,
      to_be_injective m n hm hn dport,
    )

-- Two rules have one id in the rule map, and two temporary bans one in theirs, only if they have the
-- same address, prefix length, protocol and port. The addresses fit their families, and the ports u16.
pub rule_key_id-injective :
    (a b : IpAddr) (p q : ℕ) (s t : L4Protocol) (m n : ℕ)
    → IsAddr a
    → IsAddr b
    → m < 65536
    → n < 65536
    → (rule_key_id (rule_key a p s m) ≡ rule_key_id (rule_key b q t n))
      ⊎ (temp_ban_key_id (temp_ban_key a p s m) ≡ temp_ban_key_id (temp_ban_key b q t n))
    → (a ≡ b) × (p ≡ q) × (s ≡ t) × (m ≡ n)
rule_key_id-injective a b p q s t m n ha hb hm hn (inl h) =
    id-injective a b p q s t m n ha hb hm hn h
rule_key_id-injective a b p q s t m n ha hb hm hn (inr h) =
    id-injective a b p q s t m n ha hb hm hn h

pub geo_key_id-injective :
    (a b : IpAddr) (p q : ℕ)
    → IsAddr a
    → IsAddr b
    → geo_key_id (geo_key a p) ≡ geo_key_id (geo_key b q)
    → (a ≡ b) × (p ≡ q)
geo_key_id-injective a b p q ha hb h =
    let prefix = ap (λ (k : GeoId). k.0) h in
    let family = ap (λ (k : GeoId). k.1) h in
    let addr = ap (λ (k : GeoId). k.2) h in (addr_of_key a b ha hb family addr, omega arith)

bytes_eq→eq : (s t : List ℕ) → bytes_eq s t ≡ true → s ≡ t
bytes_eq→eq [] [] h = refl
bytes_eq→eq [] (b ∷ t) h = ground arith
bytes_eq→eq (a ∷ s) [] h = ground arith
bytes_eq→eq (a ∷ s) (b ∷ t) h = ground (arith, bytes_eq→eq s t)

bytes_eq_refl : (s : List ℕ) → bytes_eq s s ≡ true
bytes_eq_refl [] = refl
bytes_eq_refl (a ∷ s) = ground (arith, bytes_eq_refl s)

rule_id_eq_refl : (a : RuleId) → rule_id_eq a a ≡ true
unfolding rule_id_eq
rule_id_eq_refl a = ground (arith, bytes_eq_refl a.4)

geo_id_eq_refl : (a : GeoId) → geo_id_eq a a ≡ true
unfolding geo_id_eq
geo_id_eq_refl a = ground (arith, bytes_eq_refl a.2)

custom_rate_id_eq_refl : (a : CustomRateId) → custom_rate_id_eq a a ≡ true
unfolding custom_rate_id_eq
custom_rate_id_eq_refl a = ground arith

pub rule_id_eq_iff : (a b : RuleId) → (rule_id_eq a b ≡ true) ↔ (a ≡ b)
unfolding rule_id_eq
rule_id_eq_iff a b = (
  (λ h. ground (arith, bytes_eq→eq a.4 b.4)),
  (λ e. subst (λ c. rule_id_eq a c ≡ true) e (rule_id_eq_refl a)),
)

pub geo_id_eq_iff : (a b : GeoId) → (geo_id_eq a b ≡ true) ↔ (a ≡ b)
unfolding geo_id_eq
geo_id_eq_iff a b = (
  (λ h. ground (arith, bytes_eq→eq a.2 b.2)),
  (λ e. subst (λ c. geo_id_eq a c ≡ true) e (geo_id_eq_refl a)),
)

pub custom_rate_id_eq_iff : (a b : CustomRateId) → (custom_rate_id_eq a b ≡ true) ↔ (a ≡ b)
unfolding custom_rate_id_eq
custom_rate_id_eq_iff a b = (
  (λ h. ground arith),
  (λ e. subst (λ c. custom_rate_id_eq a c ≡ true) e (custom_rate_id_eq_refl a)),
)
