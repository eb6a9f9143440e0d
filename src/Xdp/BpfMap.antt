-- ===== src/Xdp/BpfMap.antt =====
-- The maps of the aya library that the manager writes (src/data_plane/xdp/linux.rs), as an interface,
-- and the two loops over them: the writes of src/data_plane/xdp/linux/apply/write.rs and the
-- removals of src/data_plane/xdp/linux/apply/cleanup.rs.
pub mod Sync
pub mod Outcome
pub mod Keeps
pub mod Example
use xdp_firewall.Prelude.{
  ◌≡◌, ◌≢◌, Bool, Option, none, some, List, [], ◌∷◌, if◌then◌else◌, All, Any, Error, Result, ok,
  err,
}
use xdp_firewall.Exec.{Exec, pure, lift, ◌>>=◌, ◌>>◌}

-- LpmTrie and HashMap of aya, with the calls that the manager makes; `get` is the lookup of a key.
pub record BpfMap (K V : Type 0) : Type 1 where
  pub Map : Type 0
  pub get : Map → K → Option V
  pub insert : K → V → Exec Map (Unit {0})
  pub remove : K → Exec Map (Unit {0})
  -- `keys().collect()`
  pub keys : Map → Result (List K)

-- What the kernel documents of a map, for keys that it tells apart: an LPM trie compares the bits of
-- a key up to the prefix length, so that its canonical keys have no bits behind it.
pub record BpfMapLaws {K V : Type 0} (lib : BpfMap K V) (IsCanonical : K → Type 0) : Type 1 where
  -- all keys of the map are canonical
  pub Clean : lib.Map → Type 0
  pub insert_get :
      (k : K) (v : V) (m m' : lib.Map)
      → IsCanonical k
      → lib.insert k v m ≡ (ok tt, m')
      → lib.get m' k ≡ some v
  pub insert_other :
      (k k' : K) (v : V) (m m' : lib.Map)
      → IsCanonical k
      → IsCanonical k'
      → k ≢ k'
      → lib.insert k v m ≡ (ok tt, m')
      → lib.get m' k' ≡ lib.get m k'
  pub insert_clean :
      (k : K) (v : V) (m m' : lib.Map)
      → IsCanonical k
      → Clean m
      → lib.insert k v m ≡ (ok tt, m')
      → Clean m'
  -- a call that fails changes nothing
  pub insert_failed :
      (k : K) (v : V) (m m' : lib.Map) (e : Error) → lib.insert k v m ≡ (err e, m') → m' ≡ m
  pub remove_failed : (k : K) (m m' : lib.Map) (e : Error) → lib.remove k m ≡ (err e, m') → m' ≡ m
  pub remove_get :
      (k : K) (m m' : lib.Map) → IsCanonical k → lib.remove k m ≡ (ok tt, m') → lib.get m' k ≡ none
  pub remove_other :
      (k k' : K) (m m' : lib.Map)
      → IsCanonical k
      → IsCanonical k'
      → k ≢ k'
      → lib.remove k m ≡ (ok tt, m')
      → lib.get m' k' ≡ lib.get m k'
  pub keys_canonical :
      (m : lib.Map) (ks : List K) → Clean m → lib.keys m ≡ ok ks → All IsCanonical ks
  pub keys_complete :
      (m : lib.Map) (ks : List K) (k : K) (v : V)
      → IsCanonical k
      → lib.keys m ≡ ok ks
      → lib.get m k ≡ some v
      → Any (λ x. x ≡ k) ks

-- `for x in xs { f(x)?; }`
unfoldable pub for_each : {S A : Type 0} → (A → Exec S (Unit {0})) → List A → Exec S (Unit {0})
for_each f [] = pure tt
for_each f (x ∷ xs) = f x >> for_each f xs

module _ {K V : Type 0} (lib : BpfMap K V) where
  abbrev pub remove_unless : (K → Bool) → K → Exec lib.Map (Unit {0})
  remove_unless keep key = if keep key then pure tt else lib.remove key

  -- the body of each `remove_stale_*_keys`; `keep` is the test of `pending_ids`
  unfoldable pub remove_stale : (K → Bool) → Exec lib.Map (Unit {0})
  unfolding for_each
  remove_stale keep m = (lift (lib.keys m) >>= λ keys. for_each (remove_unless keep) keys) m
