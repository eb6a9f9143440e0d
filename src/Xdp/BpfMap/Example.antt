-- ===== src/Xdp/BpfMap/Example.antt =====
-- A concrete map at which the laws hold: an association list that holds at most 64 entries.
use xdp_firewall.Prelude.{
  ◌≡◌, ◌≢◌, refl, sym, ap, subst, ◌∙◌, ◌↔◌, inl, inr, Bool, false, true, Option, none, some, List,
  [], ◌∷◌, if◌then◌else◌, arith, All, Any, Bool-cases, Error, ok, err, length, ltb, foreign,
  ok-injective,
}
use xdp_firewall.Xdp.BpfMap.{BpfMap, BpfMapLaws}

ok_not_err : {A : Type 0} {a : A} {e : Error} → ok a ≡ err e → ⊥
ok_not_err h = cc

module _ {K V : Type 0} (eq : K → K → Bool) where
  abbrev pub look_up : List (K × V) → K → Option V
  look_up [] k = none
  look_up (e ∷ es) k = if eq e.0 k then some e.1 else look_up es k

  abbrev pub without : List (K × V) → K → List (K × V)
  without [] k = []
  without (e ∷ es) k = if eq e.0 k then without es k else e ∷ without es k

  abbrev pub keys_of : List (K × V) → List K
  keys_of [] = []
  keys_of (e ∷ es) = e.0 ∷ keys_of es

  abbrev pub assoc : BpfMap K V
  assoc = record {
    Map = List (K × V);
    get = look_up;
    insert = λ k v m.
        if ltb (length m) 64 then (ok tt, (k, v) ∷ m) else (err (foreign "map is full"), m);
    remove = λ k m. (ok tt, without m k);
    keys = λ m. ok (keys_of m);
  }

module _ {K : Type 0} (eq : K → K → Bool) (eq_iff : (a b : K) → (eq a b ≡ true) ↔ (a ≡ b)) where
  eq_no : (a b : K) → a ≢ b → eq a b ≡ false
  eq_no a b n = elim (Bool-cases (eq a b)) [ inl e ↦ absurd (n ((eq_iff a b).0 e)) | inr e ↦ e ]

module _ {K V : Type 0} (eq : K → K → Bool) (eq_iff : (a b : K) → (eq a b ≡ true) ↔ (a ≡ b)) where
  insert-state :
      (k : K) (v : V) (m m' : List (K × V))
      → (assoc eq).insert k v m ≡ (ok tt, m')
      → m' ≡ (k, v) ∷ m
  insert-state k v m m' h = elim (Bool-cases (ltb (length m) 64)) [
    | inl room ↦ sym (ap (λ p. p.1) (rw room at h))
    | inr full ↦ absurd (err_not_ok (ap (λ p. p.0) (rw full at h)))
  ]
    where
      err_not_ok : {A : Type 0} {e : _} {a : A} → err e ≡ ok a → ⊥
      err_not_ok p = cc

  insert-unchanged :
      (k : K) (v : V) (m m' : List (K × V)) (e : Error)
      → (assoc eq).insert k v m ≡ (err e, m')
      → m' ≡ m
  insert-unchanged k v m m' e h = elim (Bool-cases (ltb (length m) 64)) [
    | inl room ↦ absurd (ok_not_err (ap (λ p. p.0) (rw room at h)))
    | inr full ↦ sym (ap (λ p. p.1) (rw full at h))
  ]

  look_up-without : (m : List (K × V)) (k : K) → look_up eq (without eq m k) k ≡ none
  look_up-without [] k = refl
  look_up-without (e ∷ es) k = ground (arith, look_up-without es k)

  look_up-without_other :
      (m : List (K × V)) (k k' : K) → k ≢ k' → look_up eq (without eq m k) k' ≡ look_up eq m k'
  look_up-without_other [] k k' n = refl
  look_up-without_other (e ∷ es) k k' n = elim (Bool-cases (eq e.0 k)) [
    | inl same ↦
        let different = eq_no eq eq_iff e.0 k' (λ p. n (sym ((eq_iff e.0 k).0 same) ∙ p)) in
        ground (arith, same, different, look_up-without_other es k k' n)
    | inr other ↦ ground (arith, other, look_up-without_other es k k' n)
  ]

  look_up-listed :
      (m : List (K × V)) (k : K) (v : V) → look_up eq m k ≡ some v → Any (λ x. x ≡ k) (keys_of eq m)
  look_up-listed [] k v h = absurd (cc)
  look_up-listed (e ∷ es) k v h = elim (Bool-cases (eq e.0 k)) [
    | inl same ↦ inl ((eq_iff e.0 k).0 same)
    | inr other ↦ inr (look_up-listed es k v (rw other at h))
  ]

  All-without :
      (P : K → Type 0) (m : List (K × V)) (k : K)
      → All P (keys_of eq m)
      → All P (keys_of eq (without eq m k))
  All-without P [] k h = tt
  All-without P (e ∷ es) k h = elim (Bool-cases (eq e.0 k)) [
    | inl same ↦ rw same (All-without P es k h.1)
    | inr other ↦ rw other (h.0, All-without P es k h.1)
  ]

  pub assoc-laws : (IsCanonical : K → Type 0) → BpfMapLaws (assoc {V = V} eq) IsCanonical
  assoc-laws IsCanonical = record {
    Clean = λ m. All IsCanonical (keys_of eq m);
    insert_get = λ k v m m' c h.
        let e = insert-state k v m m' h in let self = (eq_iff k k).1 refl in rw (e, self);
    insert_other = λ k k' v m m' c c' n h.
        let e = insert-state k v m m' h in let other = eq_no eq eq_iff k k' n in rw (e, other);
    insert_clean = λ k v m m' c cl h.
        subst (λ m. All IsCanonical (keys_of eq m)) (sym (insert-state k v m m' h)) (c, cl);
    insert_failed = λ k v m m' e h. insert-unchanged k v m m' e h;
    remove_failed = λ k m m' e h. absurd (ok_not_err (ap (λ p. p.0) h));
    remove_get =
        λ k m m' c h. subst (λ m. look_up eq m k ≡ none) (ap (λ p. p.1) h) (look_up-without m k);
    remove_other = λ k k' m m' c c' n h.
        subst (λ x. look_up eq x k' ≡ look_up eq m k') (ap (λ p. p.1) h)
          (look_up-without_other m k k' n);
    keys_canonical = λ m ks cl h. subst (All IsCanonical) (ok-injective h) cl;
    keys_complete =
        λ m ks k v c h g. subst (Any (λ x. x ≡ k)) (ok-injective h) (look_up-listed m k v g);
  }

module _ {K : Type 0} (V : Type 0) (eq : K → K → Bool)
    (eq_iff : (a b : K) → (eq a b ≡ true) ↔ (a ≡ b)) where
  pub empty-Clean : (IsCanonical : K → Type 0) → (assoc-laws {V = V} eq eq_iff IsCanonical).Clean []
  unfolding assoc-laws
  empty-Clean IsCanonical = tt

  pub single-Clean :
      (IsCanonical : K → Type 0) (k : K) (v : V)
      → IsCanonical k
      → (assoc-laws {V = V} eq eq_iff IsCanonical).Clean ((k, v) ∷ [])
  unfolding assoc-laws
  single-Clean IsCanonical k v c = (c, tt)
