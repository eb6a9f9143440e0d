-- ===== src/Net.antt =====
-- Addresses (std::net::IpAddr) and the interface of the crates that the program calls for networks
-- and times: ipnet::IpNet and chrono::NaiveDateTime. Neither crate is part of the repository, so
-- their operations are parameters, with the documented behaviour that the proofs use as laws.
pub mod Prefix
pub mod Example
pub mod Parse
pub mod Display
use xdp_firewall.Prelude.{
  ℕ, suc, ◌-◌, ◌/◌, ◌%◌, ◌^◌, ◌≤◌, ◌<◌, ◌≡◌, ◌⊎◌, ◌↔◌, Bool, false, true, Option, none, some,
  String, ◌==◌,
}
use xdp_firewall.Prelude.Int.{ℤ, pos}

-- The number is the address as std's `to_bits` gives it.
pub data IpAddr : Type 0 where
  v4 : ℕ → IpAddr
  v6 : ℕ → IpAddr

abbrev pub is_ipv4 : IpAddr → Bool
is_ipv4 (v4 a) = true
is_ipv4 (v6 a) = false

abbrev pub addr_eq : IpAddr → IpAddr → Bool
addr_eq (v4 a) (v4 b) = a == b
addr_eq (v6 a) (v6 b) = a == b
addr_eq _ _ = false

abbrev pub bits : IpAddr → ℕ
bits (v4 a) = a
bits (v6 a) = a

-- The number of bits of an address.
abbrev pub width : IpAddr → ℕ
width (v4 a) = 32
width (v6 a) = 128

-- The number fits its family.
abbrev pub IsAddr : IpAddr → Type 0
IsAddr a = bits a < 2 ^ width a

-- Two addresses of one family that agree on their first `p` bits.
abbrev pub SamePrefix : ℕ → IpAddr → IpAddr → Type 0
SamePrefix p (v4 a) (v4 b) = a / 2 ^ (32 - p) ≡ b / 2 ^ (32 - p)
SamePrefix p (v6 a) (v6 b) = a / 2 ^ (128 - p) ≡ b / 2 ^ (128 - p)
SamePrefix p _ _ = ⊥

-- The bits of `a` behind the first `p` are zero, and `p` is a prefix length of its family.
pub record IsNetwork (a : IpAddr) (p : ℕ) : Type 0 where
  pub fits : p ≤ width a
  pub host_zero : bits a % 2 ^ (width a - p) ≡ 0

-- ipnet::IpNet
pub record Ipnet : Type 1 where
  pub IpNet : Type 0
  -- IpNet::new(addr, prefix).ok()
  pub new : IpAddr → ℕ → Option IpNet
  -- whether the value is the variant IpNet::V4
  pub is_v4 : IpNet → Bool
  pub addr : IpNet → IpAddr
  pub prefix_len : IpNet → ℕ
  pub network : IpNet → IpAddr
  pub trunc : IpNet → IpNet
  pub contains : IpNet → IpAddr → Bool
  -- `==`
  pub net_eq : IpNet → IpNet → Bool
  -- str::parse::<IpNet>().ok()
  pub parse : String → Option IpNet

module _ (lib : Ipnet) where
  open lib use {IpNet, new, is_v4, addr, prefix_len, network, trunc, contains, net_eq}

  pub record IpnetLaws : Type 0 where
    -- `new` refuses only a prefix length beyond the family's bits
    pub new_some : (a : IpAddr) (p : ℕ) → p ≤ width a → (n : IpNet) × (new a p ≡ some n)
    pub new_addr : (a : IpAddr) (p : ℕ) (n : IpNet) → new a p ≡ some n → addr n ≡ a
    pub new_prefix_len : (a : IpAddr) (p : ℕ) (n : IpNet) → new a p ≡ some n → prefix_len n ≡ p
    pub prefix_len_fits : (n : IpNet) → prefix_len n ≤ width (addr n)
    pub is_v4_addr : (n : IpNet) → is_v4 n ≡ is_ipv4 (addr n)
    -- `network` clears the host bits
    pub network-SamePrefix : (n : IpNet) → SamePrefix (prefix_len n) (addr n) (network n)
    pub network-IsNetwork : (n : IpNet) → IsNetwork (network n) (prefix_len n)
    pub trunc_addr : (n : IpNet) → addr (trunc n) ≡ network n
    pub trunc_prefix_len : (n : IpNet) → prefix_len (trunc n) ≡ prefix_len n
    -- `contains` compares the network bits
    pub contains_iff :
        (n : IpNet) (ip : IpAddr) → (contains n ip ≡ true) ↔ SamePrefix (prefix_len n) (addr n) ip
    -- `==` compares the address and the prefix length
    pub net_eq_iff :
        (m n : IpNet) → (net_eq m n ≡ true) ↔ ((addr m ≡ addr n) × (prefix_len m ≡ prefix_len n))

-- chrono::NaiveDateTime
pub record Chrono : Type 1 where
  pub DateTime : Type 0
  -- `<`; the other comparisons are read off it, the order being total
  pub lt : DateTime → DateTime → Bool
  -- a.signed_duration_since(b).num_nanoseconds(), `none` outside the range of i64
  pub nanoseconds_since : DateTime → DateTime → Option ℤ

module _ (lib : Chrono) where
  open lib use {DateTime, lt, nanoseconds_since}

  pub record ChronoLaws : Type 0 where
    pub irreflexive : (a : DateTime) → lt a a ≡ false
    pub transitive : (a b c : DateTime) → lt a b ≡ true → lt b c ≡ true → lt a c ≡ true
    pub total : (a b c : DateTime) → lt a c ≡ true → (lt a b ≡ true) ⊎ (lt b c ≡ true)
    -- the duration is positive exactly when the first time is later
    pub positive_iff :
        (a b : DateTime) (d : ℤ)
        → nanoseconds_since a b ≡ some d
        → (lt b a ≡ true) ↔ ((n : ℕ) × (d ≡ pos (suc n)))
    pub in_i64 : (a b : DateTime) (n : ℕ) → nanoseconds_since a b ≡ some (pos n) → n < 2 ^ 63
