-- ===== src/Policy/Rows/Stored.antt =====
-- The dynamic defense on its way into the database and back:
-- src/control_plane/api/dynamic_defense/model.rs, read again by parse_dynamic_defense.
use xdp_firewall.Prelude.{
  ℕ, ◌^◌, ◌<◌, ◌≡◌, refl, Option, none, some, arith, String, Result, ok, ◌>>=◌,
}
use xdp_firewall.Prelude.Int.{ℤ, pos}
use xdp_firewall.Policy.Model.{DynamicDefensePolicy}
use xdp_firewall.Policy.Rows.{
  optional_u32_to_i32, optional_i32_to_u32, DynamicDefenseRow, parse_dynamic_defense,
}

-- The columns that are set in the ActiveModel; after an error the caller drops it.
unfoldable pub set_dynamic_defense_fields : DynamicDefensePolicy → Result DynamicDefenseRow
set_dynamic_defense_fields policy = do
  ip_pps ← optional_u32_to_i32 "ip_packets_per_second" policy.ip_packets_per_second
  ip_burst ← optional_u32_to_i32 "ip_burst" policy.ip_burst
  flood_pps ← optional_u32_to_i32 "flood_packets_per_second" policy.flood_packets_per_second
  flood_burst ← optional_u32_to_i32 "flood_burst" policy.flood_burst
  flood_block ← optional_u32_to_i32 "flood_block_seconds" policy.flood_block_seconds
  ok (record {
    enabled = policy.enabled;
    ip_rate_limit_enabled = policy.ip_rate_limit_enabled;
    ip_packets_per_second = ip_pps;
    ip_burst = ip_burst;
    flood_enabled = policy.flood_enabled;
    flood_packets_per_second = flood_pps;
    flood_burst = flood_burst;
    flood_block_seconds = flood_block;
  })

unfoldable pub dynamic_defense_policy_from_model : DynamicDefenseRow → Result DynamicDefensePolicy
dynamic_defense_policy_from_model row = do
  ip_pps ← optional_i32_to_u32 "ip_packets_per_second" row.ip_packets_per_second
  ip_burst ← optional_i32_to_u32 "ip_burst" row.ip_burst
  flood_pps ← optional_i32_to_u32 "flood_packets_per_second" row.flood_packets_per_second
  flood_burst ← optional_i32_to_u32 "flood_burst" row.flood_burst
  flood_block ← optional_i32_to_u32 "flood_block_seconds" row.flood_block_seconds
  ok (record {
    enabled = row.enabled;
    ip_rate_limit_enabled = row.ip_rate_limit_enabled;
    ip_packets_per_second = ip_pps;
    ip_burst = ip_burst;
    flood_enabled = row.flood_enabled;
    flood_packets_per_second = flood_pps;
    flood_burst = flood_burst;
    flood_block_seconds = flood_block;
  })

-- A value that fits a column of type i32.
abbrev pub Fits : Option ℕ → Type 0
Fits none = Unit {0}
Fits (some n) = n < 2 ^ 31

-- What a column of type i32 holds for a value that fits it.
abbrev pub column : Option ℕ → Option ℤ
column none = none
column (some n) = some (pos n)

stored :
    (label : String) (value : Option ℕ)
    → Fits value
    → optional_u32_to_i32 label value ≡ ok (column value)
stored label none h = refl
stored label (some n) h = ground arith

read_back :
    (label : String) (value : Option ℕ) → optional_i32_to_u32 label (column value) ≡ ok value
read_back label none = refl
read_back label (some n) = refl

-- All values of a dynamic defense fit their columns.
pub record IsStorable (policy : DynamicDefensePolicy) : Type 0 where
  pub ip_packets_per_second : Fits policy.ip_packets_per_second
  pub ip_burst : Fits policy.ip_burst
  pub flood_packets_per_second : Fits policy.flood_packets_per_second
  pub flood_burst : Fits policy.flood_burst
  pub flood_block_seconds : Fits policy.flood_block_seconds

-- A dynamic defense whose values are below 2 ^ 31 is stored without an error, and from its row both
-- the snapshot of the policy and the API read the same dynamic defense.
pub dynamic_defense_roundtrip :
    (policy : DynamicDefensePolicy)
    → IsStorable policy
    → (row : DynamicDefenseRow) × (set_dynamic_defense_fields policy ≡ ok row)
      × (parse_dynamic_defense row ≡ ok policy)
      × (dynamic_defense_policy_from_model row ≡ ok policy)
unfolding set_dynamic_defense_fields dynamic_defense_policy_from_model parse_dynamic_defense
dynamic_defense_roundtrip policy s = (
  record {
    enabled = policy.enabled;
    ip_rate_limit_enabled = policy.ip_rate_limit_enabled;
    ip_packets_per_second = column policy.ip_packets_per_second;
    ip_burst = column policy.ip_burst;
    flood_enabled = policy.flood_enabled;
    flood_packets_per_second = column policy.flood_packets_per_second;
    flood_burst = column policy.flood_burst;
    flood_block_seconds = column policy.flood_block_seconds;
  },
  simp (
    stored "ip_packets_per_second" policy.ip_packets_per_second s.ip_packets_per_second,
    stored "ip_burst" policy.ip_burst s.ip_burst,
    stored "flood_packets_per_second" policy.flood_packets_per_second s.flood_packets_per_second,
    stored "flood_burst" policy.flood_burst s.flood_burst,
    stored "flood_block_seconds" policy.flood_block_seconds s.flood_block_seconds,
  ),
  simp (read_back),
  simp (read_back),
)
