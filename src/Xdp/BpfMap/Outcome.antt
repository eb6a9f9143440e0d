-- ===== src/Xdp/BpfMap/Outcome.antt =====
-- What a map holds behind both loops, from one list of pending entries.
use xdp_firewall.Prelude.{
  ◌≡◌, sym, ap, ◌∙◌, ◌↔◌, Bool, true, Option, none, some, List, if◌then◌else◌, All, ok,
}
use xdp_firewall.Exec.{Exec}
use xdp_firewall.Dedup.{contains_key, find_key, unique}
use xdp_firewall.Dedup.First.{is_found, unique-IsDistinct, unique-All, ids-unique, find-unique}
use xdp_firewall.Xdp.BpfMap.{BpfMap, BpfMapLaws, for_each, remove_stale}
use xdp_firewall.Xdp.BpfMap.Sync.{
  held, value_of, kept_written, held-value, Writes, get-puts, puts-Clean, get-remove_stale,
}

module _ {K V I : Type 0} (lib : BpfMap K V) (IsCanonical : K → Type 0)
    (laws : BpfMapLaws lib IsCanonical) (id : K → I) (eq : I → I → Bool)
    (eq_iff : (a b : I) → (eq a b ≡ true) ↔ (a ≡ b))
    (id_injective : (a b : K) → id a ≡ id b → a ≡ b) where
  module _ {E : Type 0} (key : E → K) (put : E → Exec lib.Map (Unit {0}))
      (after : E → Option V → Option V)
      (writes : Writes lib IsCanonical laws id eq eq_iff id_injective key put after) where
    -- Behind the writes of a pending list and the removal of what is not pending, the map holds the
    -- pending entries and no others.
    pub get-sync :
        (es : List E) (m m1 m2 : lib.Map) (k : K)
        → laws.Clean m
        → All (λ e. IsCanonical (key e)) es
        → IsCanonical k
        → for_each put (unique eq (λ e. id (key e)) es).1 m ≡ (ok tt, m1)
        → remove_stale lib (λ k. contains_key eq (unique eq (λ e. id (key e)) es).0 (id k)) m1
          ≡ (ok tt, m2)
        → lib.get m2 k
          ≡ held after
              (find_key eq (λ e. id (key e)) (id k) (unique eq (λ e. id (key e)) es).1)
              (lib.get m k)
    get-sync es m m1 m2 k clean ces ck puts removes =
        let by_id : E → I = λ e. id (key e) in
        let cps = unique-All eq by_id eq_iff (λ e. IsCanonical (key e)) es ces in
        let wrote =
          get-puts lib IsCanonical laws id eq eq_iff id_injective key put after writes
            (unique eq by_id es).1 m m1 k cps (unique-IsDistinct eq by_id eq_iff es) ck puts in
        let left =
          get-remove_stale lib IsCanonical laws id eq eq_iff id_injective
            (λ k. contains_key eq (unique eq by_id es).0 (id k)) m1 m2 k
            (puts-Clean lib IsCanonical laws id eq eq_iff id_injective key put after writes
              (unique eq by_id es).1 m m1 cps clean puts)
            ck removes in
        let test : contains_key eq (unique eq by_id es).0 (id k)
            ≡ is_found (find_key eq by_id (id k) (unique eq by_id es).1) =
          ids-unique eq by_id eq_iff (id k) es
          ∙ ap is_found (sym (find-unique eq by_id eq_iff (id k) es)) in
        left
        ∙ (λ i. if test i then wrote i else none)
        ∙ kept_written after (find_key eq by_id (id k) (unique eq by_id es).1) (lib.get m k)

  -- The writes that insert a value of each entry.
  pub insert-Writes :
      {E : Type 0} (key : E → K) (value : E → V)
      → Writes lib IsCanonical laws id eq eq_iff id_injective key
          (λ e. lib.insert (key e) (value e))
          (λ e old. some (value e))
  insert-Writes key value = record {
    here = λ e m m' c h. laws.insert_get (key e) (value e) m m' c h;
    elsewhere = λ e k m m' c ck n h. laws.insert_other (key e) k (value e) m m' c ck n h;
    clean = λ e m m' c cl h. laws.insert_clean (key e) (value e) m m' c cl h;
  }

  -- The same for the loop that inserts a value of each entry.
  pub get-sync_insert :
      {E : Type 0} (key : E → K) (value : E → V) (es : List E) (m m1 m2 : lib.Map) (k : K)
      → laws.Clean m
      → All (λ e. IsCanonical (key e)) es
      → IsCanonical k
      → for_each (λ e. lib.insert (key e) (value e)) (unique eq (λ e. id (key e)) es).1 m
        ≡ (ok tt, m1)
      → remove_stale lib (λ k. contains_key eq (unique eq (λ e. id (key e)) es).0 (id k)) m1
        ≡ (ok tt, m2)
      → lib.get m2 k
        ≡ value_of value (find_key eq (λ e. id (key e)) (id k) (unique eq (λ e. id (key e)) es).1)
  get-sync_insert key value es m m1 m2 k clean ces ck puts removes =
      get-sync key (λ e. lib.insert (key e) (value e)) (λ e old. some (value e))
        (insert-Writes key value) es m m1 m2 k clean ces ck puts removes
      ∙ held-value value (find_key eq (λ e. id (key e)) (id k) (unique eq (λ e. id (key e)) es).1)
          (lib.get m k)
