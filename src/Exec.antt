-- ===== src/Exec.antt =====
-- Methods on `&mut self` that may fail with `?`: what was written before an error stays written, so
-- the state comes back beside the error too.
use xdp_firewall.Prelude.{◌≡◌, refl, ap, Result, ok, err}

abbrev pub Exec : Type 0 → Type 0 → Type 0
Exec S A = S → Result A × S

module _ {S A B : Type 0} where
  abbrev pub continue : Result A → (A → Exec S B) → Exec S B
  continue (ok a) f s = f a s
  continue (err e) f s = (err e, s)

  -- one call, and the rest of the method on the state that the call leaves
  infixl 5 ◌>>◌ ◌>>=◌
  abbrev pub ◌>>=◌ : Exec S A → (A → Exec S B) → Exec S B
  call >>= rest = λ state. continue (call state).0 rest (call state).1

  abbrev pub ◌>>◌ : Exec S A → Exec S B → Exec S B
  call >> rest = call >>= (λ ignored. rest)

module _ {S A : Type 0} where
  abbrev pub pure : A → Exec S A
  pure a s = (ok a, s)

  -- a fallible call that does not change the state
  abbrev pub lift : Result A → Exec S A
  lift r s = (r, s)

module _ {S M A : Type 0} (get : S → M) (set : M → S → S) where
  -- a method of the part `get`
  abbrev pub on : Exec M A → Exec S A
  on m s = let (r, x) = m (get s) in (r, set x s)

continue-ok :
    {S A B : Type 0} (r : Result A) (f : A → Exec S B) (s : S) {b : B} {t : S}
    → continue r f s ≡ (ok b, t)
    → (a : A) × (r ≡ ok a) × (f a s ≡ (ok b, t))
continue-ok (ok a) f s h = (a, refl, h)
continue-ok (err e) f s h = absurd (ok_not_err (ap (λ p. p.0) h))
  where
    ok_not_err : {X : Type 0} {x : X} → err e ≡ ok x → ⊥
    ok_not_err p = cc

-- Inversion of a successful sequence whose first part works on `get`.
pub on-bind-ok :
    {S M A B : Type 0} (get : S → M) (set : M → S → S) (m : Exec M A) (f : A → Exec S B) (s : S)
    {b : B} {t : S}
    → (on get set m >>= f) s ≡ (ok b, t)
    → (a : A) × (x : M) × (m (get s) ≡ (ok a, x)) × (f a (set x s) ≡ (ok b, t))
on-bind-ok get set m f s h =
    let (a, e, rest) = continue-ok (m (get s)).0 f (set (m (get s)).1 s) h in
    (a, (m (get s)).1, (λ i. (e i, (m (get s)).1)), rest)

pub lift-bind-ok :
    {S A B : Type 0} (r : Result A) (f : A → Exec S B) (s : S) {b : B} {t : S}
    → (lift r >>= f) s ≡ (ok b, t)
    → (a : A) × (r ≡ ok a) × (f a s ≡ (ok b, t))
lift-bind-ok r f s h = continue-ok r f s h

pub bind-ok :
    {S A B : Type 0} (m : Exec S A) (f : A → Exec S B) (s : S) {b : B} {t : S}
    → (m >>= f) s ≡ (ok b, t)
    → (a : A) × (x : S) × (m s ≡ (ok a, x)) × (f a x ≡ (ok b, t))
bind-ok m f s h =
    let (a, e, rest) = continue-ok (m s).0 f (m s).1 h in (a, (m s).1, (λ i. (e i, (m s).1)), rest)

-- From states with `P` the call leaves states with `Q`, whether it fails or not.
abbrev pub Leads : {S A : Type 0} → (S → Type 0) → (S → Type 0) → Exec S A → Type 0
Leads {S} P Q call = (s : S) → P s → Q (call s).1

module _ {S A B : Type 0} (P Q R : S → Type 0) (weaken : (s : S) → Q s → R s) where
  continue-Leads :
      (r : Result A) (rest : A → Exec S B)
      → ((a : A) → Leads Q R (rest a))
      → (s : S) → Q s
      → R (continue r rest s).1
  continue-Leads (ok a) rest h s q = h a s q
  continue-Leads (err e) rest h s q = weaken s q

  -- A sequence leads on if its parts do, where an error may stop it in between.
  pub bind-Leads :
      (call : Exec S A) (rest : A → Exec S B)
      → Leads P Q call
      → ((a : A) → Leads Q R (rest a))
      → Leads P R (call >>= rest)
  bind-Leads call rest h k s p = continue-Leads (call s).0 rest k (call s).1 (h s p)
