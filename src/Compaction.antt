-- ===== src/Compaction.antt =====
-- The compaction loop that three functions of the program share: compact_trusted_prefixes and
-- compact_temp_bans of src/data_plane/xdp/local/compaction.rs, compact_covered_cidrs of
-- src/control_plane/xds/runtime_cidrs/compaction.rs. They differ in the test `covers`.
pub mod Coverage
use xdp_firewall.Prelude.{
  ℕ, suc, Bool, false, true, not, ◌&&◌, ◌||◌, List, [], ◌∷◌, ◌==◌, if◌then◌else◌,
}

module _ {ℓ} {A : Type ℓ} (covers : A → A → Bool) where
  -- `iter().enumerate().any(|(other_index, other)| other_index != index && covers(*other, *x))`,
  -- from the position `other_index` on
  pub covered_by_other : ℕ → A → ℕ → List A → Bool
  covered_by_other index x other_index [] = false
  covered_by_other index x other_index (other ∷ rest) =
      not (other_index == index) && covers other x
      || covered_by_other index x (suc other_index) rest

  -- the loop over the elements from the position `index` on, over the whole list `all`
  pub compact_from : List A → ℕ → List A → List A
  unfolding covered_by_other
  compact_from all index [] = []
  compact_from all index (x ∷ xs) =
      let rest = compact_from all (suc index) xs in
      if covered_by_other index x 0 all then rest else x ∷ rest

  unfoldable pub compact : List A → List A
  unfolding compact_from
  compact xs = compact_from xs 0 xs
