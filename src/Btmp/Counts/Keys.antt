-- ===== src/Btmp/Counts/Keys.antt =====
-- The entries of the counts under push_back.
use mathlib.Core.List.{append-nil}
use xdp_firewall.Prelude.{
  ◌≡◌, refl, sym, ap, ◌∙◌, inl, inr, Bool, true, false, List, [], ◌∷◌, ◌++◌, arith, if◌then◌else◌,
  retain, All, Bool-cases,
}
use xdp_firewall.Net.{IpAddr, v4, v6, addr_eq}
use xdp_firewall.Net.Prefix.{addr_eq→eq}
use xdp_firewall.Btmp.Counts.{Counts, push_back}

pub addr_eq_symm_false : (a b : IpAddr) → addr_eq a b ≡ false → addr_eq b a ≡ false
addr_eq_symm_false (v4 a) (v4 b) h = ground arith
addr_eq_symm_false (v4 a) (v6 b) h = refl
addr_eq_symm_false (v6 a) (v4 b) h = refl
addr_eq_symm_false (v6 a) (v6 b) h = ground arith

module _ {ℓ} {A : Type ℓ} (test : A → Bool) where
  pub retain-append : (xs ys : List A) → retain test (xs ++ ys) ≡ retain test xs ++ retain test ys
  unfolding retain
  retain-append [] ys = refl
  retain-append (x ∷ xs) ys = elim (Bool-cases (test x)) [
    | inl keep ↦ rw keep (ap (λ l. x ∷ l) (retain-append xs ys))
    | inr drop ↦ rw drop (retain-append xs ys)
  ]

  pub retain-retain :
      (weaker : A → Bool) (xs : List A)
      → ((x : A) → test x ≡ true → weaker x ≡ true)
      → retain test (retain weaker xs) ≡ retain test xs
  unfolding retain
  retain-retain weaker [] h = refl
  retain-retain weaker (x ∷ xs) h = elim (Bool-cases (test x)) [
    | inl keep ↦ rw (h x keep, keep) (ap (λ l. x ∷ l) (retain-retain weaker xs h))
    | inr drop ↦ elim (Bool-cases (weaker x)) [
      | inl kept ↦ rw (kept, drop) (retain-retain weaker xs h)
      | inr dropped ↦ rw (dropped, drop) (retain-retain weaker xs h)
    ]
  ]

module _ {DateTime : Type 0} where
  -- The times under an address.
  abbrev pub times_of : IpAddr → Counts DateTime → List DateTime
  times_of ip [] = []
  times_of ip ((key, times) ∷ counts) = if addr_eq key ip then times else times_of ip counts

  -- The address is no key.
  abbrev pub Fresh : IpAddr → Counts DateTime → Type 0
  Fresh ip counts = All (λ (entry : IpAddr × List DateTime). addr_eq entry.0 ip ≡ false) counts

  -- No two entries have one key.
  abbrev pub IsMap : Counts DateTime → Type 0
  IsMap [] = Unit {0}
  IsMap ((key, times) ∷ counts) = Fresh key counts × IsMap counts

  pub times_of-Fresh :
      (ip : IpAddr) (counts : Counts DateTime) → Fresh ip counts → times_of ip counts ≡ []
  times_of-Fresh ip [] h = refl
  times_of-Fresh ip ((key, times) ∷ counts) h = rw (h.0) (times_of-Fresh ip counts h.1)

  pub Fresh-push_back :
      (j ip : IpAddr) (time : DateTime) (counts : Counts DateTime)
      → addr_eq ip j ≡ false
      → Fresh j counts
      → Fresh j (push_back ip time counts)
  unfolding push_back
  Fresh-push_back j ip time [] h k = (h, tt)
  Fresh-push_back j ip time ((key, times) ∷ counts) h k = elim (Bool-cases (addr_eq key ip)) [
    | inl found ↦ rw found (k.0, k.1)
    | inr other ↦ rw other (k.0, Fresh-push_back j ip time counts h k.1)
  ]

  pub push_back-IsMap :
      (ip : IpAddr) (time : DateTime) (counts : Counts DateTime)
      → IsMap counts
      → IsMap (push_back ip time counts)
  unfolding push_back
  push_back-IsMap ip time [] h = (tt, tt)
  push_back-IsMap ip time ((key, times) ∷ counts) h = elim (Bool-cases (addr_eq key ip)) [
    | inl found ↦ rw found (h.0, h.1)
    | inr other ↦ rw other (
      Fresh-push_back key ip time counts (addr_eq_symm_false key ip other) h.0,
      push_back-IsMap ip time counts h.1,
    )
  ]

  pub times_of-push_back :
      (j ip : IpAddr) (time : DateTime) (counts : Counts DateTime)
      → times_of j (push_back ip time counts)
        ≡ times_of j counts ++ (if addr_eq ip j then time ∷ [] else [])
  unfolding push_back
  times_of-push_back j ip time [] = ground arith
  times_of-push_back j ip time ((key, times) ∷ counts) = elim (Bool-cases (addr_eq key ip)) [
    | inl found ↦ rw found (elim (Bool-cases (addr_eq key j)) [
      | inl here ↦ rw (here, ap (λ k. addr_eq k j) (sym (addr_eq→eq key ip found)) ∙ here) refl
      | inr away ↦
          rw (away, ap (λ k. addr_eq k j) (sym (addr_eq→eq key ip found)) ∙ away)
            (sym (append-nil _))
    ])
    | inr other ↦ rw other (elim (Bool-cases (addr_eq key j)) [
      | inl here ↦
          rw (here, ap (addr_eq ip) (sym (addr_eq→eq key j here)) ∙ addr_eq_symm_false key ip other)
            (sym (append-nil _))
      | inr away ↦ rw away (times_of-push_back j ip time counts)
    ])
  ]
