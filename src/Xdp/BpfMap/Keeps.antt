-- ===== src/Xdp/BpfMap/Keeps.antt =====
-- A key that is there and is wanted stays through both loops, whether they fail or not.
use xdp_firewall.Prelude.{
  ◌≡◌, refl, sym, ap, subst, ◌∙◌, ◌↔◌, inl, inr, Bool, false, true, List, [], ◌∷◌, All, Bool-cases,
  absurd_true, Result, ok, err,
}
use xdp_firewall.Exec.{lift, ◌>>=◌, Leads, bind-Leads}
use xdp_firewall.Dedup.First.{is_found}
use xdp_firewall.Xdp.BpfMap.{BpfMap, BpfMapLaws, for_each, remove_unless, remove_stale}

module _ {K V I : Type 0} (lib : BpfMap K V) (IsCanonical : K → Type 0)
    (laws : BpfMapLaws lib IsCanonical) (id : K → I) (eq : I → I → Bool)
    (eq_iff : (a b : I) → (eq a b ≡ true) ↔ (a ≡ b))
    (id_injective : (a b : K) → id a ≡ id b → a ≡ b) (k : K) (ck : IsCanonical k) where
  -- The key has an entry.
  abbrev pub Present : lib.Map → Type 0
  Present m = is_found (lib.get m k) ≡ true

  abbrev pub CleanPresent : lib.Map → Type 0
  CleanPresent m = laws.Clean m × Present m

  insert_result :
      (key : K) (v : V) (m m' : lib.Map) (r : Result (Unit {0}))
      → IsCanonical key
      → CleanPresent m
      → lib.insert key v m ≡ (r, m')
      → CleanPresent m'
  insert_result key v m m' (err e) c p h =
      subst CleanPresent (sym (laws.insert_failed key v m m' e h)) p
  insert_result key v m m' (ok u) c p h = (
    laws.insert_clean key v m m' c p.0 h,
    elim (Bool-cases (eq (id key) (id k))) [
      | inl same ↦
          let got = laws.insert_get key v m m' c h in
          subst (λ x. is_found (lib.get m' x) ≡ true)
            (id_injective key k ((eq_iff (id key) (id k)).0 same)) (rw got)
      | inr other ↦
          let kept =
            laws.insert_other key k v m m' c ck
              (λ e. absurd_true ((eq_iff (id key) (id k)).1 (ap id e)) other) h in
          rw kept (p.1)
    ],
  )

  insert-Leads :
      (key : K) (v : V) → IsCanonical key → Leads CleanPresent CleanPresent (lib.insert key v)
  insert-Leads key v c m p =
      insert_result key v m (lib.insert key v m).1 (lib.insert key v m).0 c p refl

  module _ {E : Type 0} (key : E → K) (value : E → V) where
    pub inserts-Leads :
        (es : List E)
        → All (λ e. IsCanonical (key e)) es
        → Leads CleanPresent CleanPresent (for_each (λ e. lib.insert (key e) (value e)) es)
    unfolding for_each
    inserts-Leads [] c = λ m p. p
    inserts-Leads (e ∷ es) c =
        bind-Leads CleanPresent CleanPresent CleanPresent (λ s q. q) (lib.insert (key e) (value e))
          (λ _. for_each (λ e. lib.insert (key e) (value e)) es)
          (insert-Leads (key e) (value e) c.0) (λ _. inserts-Leads es c.1)

  module _ (keep : K → Bool) (wanted : keep k ≡ true) where
    remove_result :
        (x : K) (m m' : lib.Map) (r : Result (Unit {0}))
        → IsCanonical x
        → keep x ≡ false
        → Present m
        → lib.remove x m ≡ (r, m')
        → Present m'
    remove_result x m m' (err e) c stale p h = subst Present (sym (laws.remove_failed x m m' e h)) p
    remove_result x m m' (ok u) c stale p h =
        let kept =
          laws.remove_other x k m m' c ck (λ e. absurd_true wanted (ap keep (sym e) ∙ stale)) h in
        rw kept p

    remove_unless-Leads : (x : K) → IsCanonical x → Leads Present Present (remove_unless lib keep x)
    remove_unless-Leads x c m p = elim (Bool-cases (keep x)) [
      | inl kept ↦ rw kept p
      | inr stale ↦
          rw stale (remove_result x m (lib.remove x m).1 (lib.remove x m).0 c stale p refl)
    ]

    removes-Leads :
        (ks : List K)
        → All IsCanonical ks
        → Leads Present Present (for_each (remove_unless lib keep) ks)
    unfolding for_each
    removes-Leads [] c = λ m p. p
    removes-Leads (x ∷ ks) c =
        bind-Leads Present Present Present (λ s q. q) (remove_unless lib keep x)
          (λ _. for_each (remove_unless lib keep) ks) (remove_unless-Leads x c.0)
          (λ _. removes-Leads ks c.1)

    listed-Leads :
        (r : Result (List K)) (m : lib.Map)
        → lib.keys m ≡ r
        → CleanPresent m
        → Present ((lift r >>= λ keys. for_each (remove_unless lib keep) keys) m).1
    listed-Leads (err e) m h p = p.1
    listed-Leads (ok ks) m h p = removes-Leads ks (laws.keys_canonical m ks p.0 h) m p.1

    pub remove_stale-Leads : Leads CleanPresent Present (remove_stale lib keep)
    unfolding remove_stale
    remove_stale-Leads m p = listed-Leads (lib.keys m) m refl p
