-- ===== src/Dedup.antt =====
-- The loop that the program writes again and again over a HashSet of ids:
--   if ids.insert(id(x)) { pending.push(x) }
-- The set is a list of its members, tested with the equality of the ids.
pub mod First
pub mod Members
use xdp_firewall.Prelude.{Bool, false, true, ◌||◌, Option, none, some, List, [], ◌∷◌, if◌then◌else◌}

module _ {κ} {K : Type κ} (eq : K → K → Bool) where
  -- HashSet::contains
  abbrev pub contains_key : List K → K → Bool
  contains_key [] k = false
  contains_key (id ∷ ids) k = eq id k || contains_key ids k

module _ {ℓ κ} {A : Type ℓ} {K : Type κ} (eq : K → K → Bool) (key : A → K) where
  -- The ids and the entries that the loop leaves, from the ids `seen`.
  unfoldable pub unique_from : List K → List A → List K × List A
  unique_from seen [] = (seen, [])
  unique_from seen (x ∷ xs) =
      let skip = unique_from seen xs in
      let rest = unique_from (key x ∷ seen) xs in
      if contains_key eq seen (key x) then skip else (rest.0, x ∷ rest.1)

  unfoldable pub unique : List A → List K × List A
  unfolding unique_from
  unique xs = unique_from [] xs

  -- The first entry with the id `k`.
  abbrev pub find_key : K → List A → Option A
  find_key k [] = none
  find_key k (x ∷ xs) = if eq (key x) k then some x else find_key k xs
