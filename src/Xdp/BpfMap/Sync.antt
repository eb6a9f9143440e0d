-- ===== src/Xdp/BpfMap/Sync.antt =====
-- What a map holds behind the loop of writes and the loop of removals.
use xdp_firewall.Prelude.{
  ◌≡◌, ◌≢◌, refl, sym, ap, subst, ◌∙◌, ◌↔◌, inl, inr, Bool, false, true, Option, none, some, List,
  [], ◌∷◌, map, if◌then◌else◌, arith, All, Any, Bool-cases, absurd_true, ok,
}
use xdp_firewall.Exec.{Exec, pure, bind-ok, lift-bind-ok}
use xdp_firewall.Dedup.{contains_key, find_key}
use xdp_firewall.Dedup.First.{is_found, IsDistinct}
use xdp_firewall.Xdp.BpfMap.{BpfMap, BpfMapLaws, for_each, remove_unless, remove_stale}

-- What a write leaves under a key: nothing is written for `none`.
abbrev pub written : {E V : Type 0} → (E → Option V → Option V) → Option E → Option V → Option V
written after none old = old
written after (some e) old = after e old

-- What a write and the removal of the other keys leave.
abbrev pub held : {E V : Type 0} → (E → Option V → Option V) → Option E → Option V → Option V
held after none old = none
held after (some e) old = after e old

-- What a map holds for an entry that is found or not.
abbrev pub value_of : {E V : Type 0} → (E → V) → Option E → Option V
value_of f none = none
value_of f (some e) = some (f e)

pub held-value :
    {E V : Type 0} (f : E → V) (o : Option E) (old : Option V)
    → held (λ e _. some (f e)) o old ≡ value_of f o
held-value f none old = refl
held-value f (some e) old = refl

pub kept_written :
    {E V : Type 0} (after : E → Option V → Option V) (o : Option E) (old : Option V)
    → (if is_found o then written after o old else none) ≡ held after o old
kept_written after none old = refl
kept_written after (some e) old = refl

not_found : {E : Type 0} (o : Option E) → is_found o ≡ false → o ≡ none
not_found none h = refl
not_found (some e) h = absurd (cc)

either : {A : Type 0} (b : Bool) (a : A) → (if b then a else a) ≡ a
either true a = refl
either false a = refl

module _ {K V I : Type 0} (lib : BpfMap K V) (IsCanonical : K → Type 0)
    (laws : BpfMapLaws lib IsCanonical) (id : K → I) (eq : I → I → Bool)
    (eq_iff : (a b : I) → (eq a b ≡ true) ↔ (a ≡ b))
    (id_injective : (a b : K) → id a ≡ id b → a ≡ b) where
  same_key : (a b : K) → eq (id a) (id b) ≡ true → a ≡ b
  same_key a b h = id_injective a b ((eq_iff (id a) (id b)).0 h)

  other_key : (a b : K) → eq (id a) (id b) ≡ false → a ≢ b
  other_key a b h p = absurd_true ((eq_iff (id a) (id b)).1 (ap id p)) h

  same_state : (m m' : lib.Map) (k : K) → pure tt m ≡ (ok tt, m') → lib.get m' k ≡ lib.get m k
  same_state m m' k h = ap (λ p. lib.get p.1 k) (sym h)

  module _ {E : Type 0} (key : E → K) (put : E → Exec lib.Map (Unit {0}))
      (after : E → Option V → Option V) where
    -- What one write does to the map.
    pub record Writes : Type 0 where
      pub here :
          (e : E) (m m' : lib.Map)
          → IsCanonical (key e)
          → put e m ≡ (ok tt, m')
          → lib.get m' (key e) ≡ after e (lib.get m (key e))
      pub elsewhere :
          (e : E) (k : K) (m m' : lib.Map)
          → IsCanonical (key e)
          → IsCanonical k
          → key e ≢ k
          → put e m ≡ (ok tt, m')
          → lib.get m' k ≡ lib.get m k
      pub clean :
          (e : E) (m m' : lib.Map)
          → IsCanonical (key e)
          → laws.Clean m
          → put e m ≡ (ok tt, m')
          → laws.Clean m'

    module _ (writes : Writes) where
      pub get-puts :
          (es : List E) (m m' : lib.Map) (k : K)
          → All (λ e. IsCanonical (key e)) es
          → IsDistinct eq (λ e. id (key e)) es
          → IsCanonical k
          → for_each put es m ≡ (ok tt, m')
          → lib.get m' k ≡ written after (find_key eq (λ e. id (key e)) (id k) es) (lib.get m k)
      unfolding for_each
      get-puts [] m m' k c d ck h = same_state m m' k h
      get-puts (e ∷ es) m m' k c d ck h =
          let (u, m1, step, rest) = bind-ok (put e) (λ _. for_each put es) m h in
          let later = get-puts es m1 m' k c.1 d.1 ck rest in
          elim (Bool-cases (eq (id (key e)) (id k))) [
            | inl same ↦
                let first = get-puts es m1 m' (key e) c.1 d.1 c.0 rest in
                let gone = not_found (find_key eq (λ e. id (key e)) (id (key e)) es) d.0 in
                rw same (
                  subst (λ x. lib.get m' x ≡ after e (lib.get m x)) (same_key (key e) k same)
                    (rw gone at first ∙ writes.here e m m1 c.0 step))
            | inr other ↦ rw other (
                later
                ∙ ap (written after (find_key eq (λ e. id (key e)) (id k) es))
                    (writes.elsewhere e k m m1 c.0 ck (other_key (key e) k other) step))
          ]

      pub puts-Clean :
          (es : List E) (m m' : lib.Map)
          → All (λ e. IsCanonical (key e)) es
          → laws.Clean m
          → for_each put es m ≡ (ok tt, m')
          → laws.Clean m'
      unfolding for_each
      puts-Clean [] m m' c h e = subst (λ p. laws.Clean p.1) e h
      puts-Clean (x ∷ es) m m' c h e =
          let (u, m1, step, rest) = bind-ok (put x) (λ _. for_each put es) m e in
          puts-Clean es m1 m' c.1 (writes.clean x m m1 c.0 h step) rest

  module _ (keep : K → Bool) where
    get-remove_unless :
        (x : K) (m m1 : lib.Map) (k : K)
        → IsCanonical x
        → IsCanonical k
        → remove_unless lib keep x m ≡ (ok tt, m1)
        → lib.get m1 k
          ≡ (if keep x then lib.get m k else (if eq (id x) (id k) then none else lib.get m k))
    get-remove_unless x m m1 k cx ck h = elim (Bool-cases (keep x)) [
      | inl kept ↦ rw kept (same_state m m1 k (rw kept at h))
      | inr stale ↦
          let removal = rw stale at h in
          elim (Bool-cases (eq (id x) (id k))) [
            | inl same ↦
                rw (stale, same)
                  (subst (λ k. lib.get m1 k ≡ none) (same_key x k same)
                    (laws.remove_get x m m1 cx removal))
            | inr other ↦
                rw (stale, other) (laws.remove_other x k m m1 cx ck (other_key x k other) removal)
          ]
    ]

    get-removes :
        (ks : List K) (m m' : lib.Map) (k : K)
        → All IsCanonical ks
        → IsCanonical k
        → for_each (remove_unless lib keep) ks m ≡ (ok tt, m')
        → lib.get m' k ≡ (
            if keep k
            then lib.get m k
            else (if contains_key eq (map id ks) (id k) then none else lib.get m k))
    unfolding for_each
    get-removes [] m m' k c ck h = same_state m m' k h ∙ sym (either (keep k) (lib.get m k))
    get-removes (x ∷ ks) m m' k c ck h =
        let (u, m1, step, rest) =
          bind-ok (remove_unless lib keep x) (λ _. for_each (remove_unless lib keep) ks) m h in
        let later = get-removes ks m1 m' k c.1 ck rest in
        let one = get-remove_unless x m m1 k c.0 ck step in
        elim (Bool-cases (eq (id x) (id k))) [
          | inl same ↦
              let together : keep x ≡ keep k = ap keep (same_key x k same) in
              ground (arith, later, one, same, together)
          | inr other ↦ ground (arith, later, one, other)
        ]

    listed : (ks : List K) (k : K) → Any (λ x. x ≡ k) ks → contains_key eq (map id ks) (id k) ≡ true
    listed [] k h = absurd h
    listed (x ∷ ks) k (inl p) = let here = (eq_iff (id x) (id k)).1 (ap id p) in rw here
    listed (x ∷ ks) k (inr h) = ground (arith, listed ks k h)

    -- A key that is not listed is not there.
    unlisted :
        (ks : List K) (m : lib.Map) (k : K) (o : Option V)
        → IsCanonical k
        → lib.keys m ≡ ok ks
        → contains_key eq (map id ks) (id k) ≡ false
        → lib.get m k ≡ o
        → o ≡ none
    unlisted ks m k none ck listing c h = refl
    unlisted ks m k (some v) ck listing c h =
        absurd_true (listed ks k (laws.keys_complete m ks k v ck listing h)) c

    gone_or_absent :
        (ks : List K) (m : lib.Map) (k : K)
        → IsCanonical k
        → lib.keys m ≡ ok ks
        → (if contains_key eq (map id ks) (id k) then none else lib.get m k) ≡ none
    gone_or_absent ks m k ck listing = elim (Bool-cases (contains_key eq (map id ks) (id k))) [
      | inl there ↦ rw there
      | inr missing ↦ rw missing (unlisted ks m k (lib.get m k) ck listing missing refl)
    ]

    pub get-remove_stale :
        (m m' : lib.Map) (k : K)
        → laws.Clean m
        → IsCanonical k
        → remove_stale lib keep m ≡ (ok tt, m')
        → lib.get m' k ≡ (if keep k then lib.get m k else none)
    unfolding remove_stale
    get-remove_stale m m' k clean ck h =
        let (ks, listing, rest) =
          lift-bind-ok (lib.keys m) (λ keys. for_each (remove_unless lib keep) keys) m h in
        let all = get-removes ks m m' k (laws.keys_canonical m ks clean listing) ck rest in
        elim (Bool-cases (keep k)) [
          | inl kept ↦ rw kept at all ∙ rw kept
          | inr stale ↦ (rw stale at all ∙ gone_or_absent ks m k ck listing) ∙ sym (rw stale)
        ]
