-- ===== src/Btmp/Counts/Merge.antt =====
-- What the counts hold after the two loops of merge_attempts.
use mathlib.Core.List.{append_assoc, append-nil}
use xdp_firewall.Prelude.{
  ◌≡◌, refl, sym, ap, subst, ◌∙◌, inl, inr, Bool, true, false, List, [], ◌∷◌, ◌++◌, arith,
  if◌then◌else◌, retain, Bool-cases,
}
use xdp_firewall.Net.{IpAddr, addr_eq, Chrono}
use xdp_firewall.Net.Prefix.{addr_eq→eq}
use xdp_firewall.Btmp.Record.{FailedAttempt}
use xdp_firewall.Btmp.Counts.{
  Counts, push_back, keep_entry, since, push_attempts, retain_since, merge_attempts,
}
use xdp_firewall.Btmp.Counts.Keys.{
  retain-append, retain-retain, times_of, Fresh, IsMap, times_of-Fresh, push_back-IsMap,
  times_of-push_back,
}

-- The times of the attempts from an address, in order.
abbrev pub failures_of :
    {DateTime : Type 0} → IpAddr → List (FailedAttempt DateTime) → List DateTime
failures_of ip [] = []
failures_of ip (a ∷ attempts) =
    (if addr_eq a.ip ip then a.time ∷ [] else []) ++ failures_of ip attempts

pub failures_of-append :
    {DateTime : Type 0} (ip : IpAddr) (xs ys : List (FailedAttempt DateTime))
    → failures_of ip (xs ++ ys) ≡ failures_of ip xs ++ failures_of ip ys
failures_of-append ip [] ys = refl
failures_of-append ip (a ∷ xs) ys = rw (failures_of-append ip xs ys) (
    sym (
      append_assoc (if addr_eq a.ip ip then a.time ∷ [] else []) (failures_of ip xs)
        (failures_of ip ys)))

module _ {DateTime : Type 0} where
  Fresh-keep_entry :
      (ip key : IpAddr) (times : List DateTime) (counts : Counts DateTime)
      → addr_eq key ip ≡ false
      → Fresh ip counts
      → Fresh ip (keep_entry key times counts)
  Fresh-keep_entry ip key [] counts h k = k
  Fresh-keep_entry ip key (t ∷ ts) counts h k = (h, k)

  keep_entry-IsMap :
      (key : IpAddr) (times : List DateTime) (counts : Counts DateTime)
      → Fresh key counts
      → IsMap counts
      → IsMap (keep_entry key times counts)
  keep_entry-IsMap key [] counts h k = k
  keep_entry-IsMap key (t ∷ ts) counts h k = (h, k)

  times_of-keep_entry_here :
      (ip key : IpAddr) (times : List DateTime) (counts : Counts DateTime)
      → addr_eq key ip ≡ true
      → times_of ip counts ≡ []
      → times_of ip (keep_entry key times counts) ≡ times
  times_of-keep_entry_here ip key [] counts h k = k
  times_of-keep_entry_here ip key (t ∷ ts) counts h k = rw h

  times_of-keep_entry_away :
      (ip key : IpAddr) (times : List DateTime) (counts : Counts DateTime)
      → addr_eq key ip ≡ false
      → times_of ip (keep_entry key times counts) ≡ times_of ip counts
  times_of-keep_entry_away ip key [] counts h = refl
  times_of-keep_entry_away ip key (t ∷ ts) counts h = rw h

  retain_nil : (test : DateTime → Bool) → retain test [] ≡ []
  unfolding retain
  retain_nil test = refl

module _ (clock : Chrono) where
  open clock use {DateTime, lt}

  push_attempts-IsMap :
      (cutoff : DateTime) (counts : Counts DateTime) (attempts : List (FailedAttempt DateTime))
      → IsMap counts
      → IsMap (push_attempts clock cutoff counts attempts)
  unfolding push_attempts
  push_attempts-IsMap cutoff counts [] h = h
  push_attempts-IsMap cutoff counts (a ∷ attempts) h =
      elim (Bool-cases (since clock cutoff a.time)) [
        | inl recent ↦ rw recent (
            push_attempts-IsMap cutoff (push_back a.ip a.time counts) attempts
              (push_back-IsMap a.ip a.time counts h))
        | inr old ↦ rw old (push_attempts-IsMap cutoff counts attempts h)
      ]

  retain-single :
      (cutoff time : DateTime) (b : Bool)
      → retain (since clock cutoff) (if b then time ∷ [] else [])
        ≡ (if since clock cutoff time then (if b then time ∷ [] else []) else [])
  unfolding retain
  retain-single cutoff time b = ground arith

  times_of-push_attempts :
      (ip : IpAddr) (cutoff : DateTime) (counts : Counts DateTime)
      (attempts : List (FailedAttempt DateTime))
      → times_of ip (push_attempts clock cutoff counts attempts)
        ≡ times_of ip counts ++ retain (since clock cutoff) (failures_of ip attempts)
  unfolding push_attempts
  times_of-push_attempts ip cutoff counts [] = sym (
      ap (λ l. times_of ip counts ++ l) (retain_nil (since clock cutoff))
      ∙ append-nil (times_of ip counts))
  times_of-push_attempts ip cutoff counts (a ∷ attempts) =
      elim (Bool-cases (since clock cutoff a.time)) [
        | inl recent ↦
            rw
              (
                recent,
                retain-append (since clock cutoff) (if addr_eq a.ip ip then a.time ∷ [] else [])
                    (failures_of ip attempts),
                retain-single cutoff a.time (addr_eq a.ip ip),
                recent,
              )
              (times_of-push_attempts ip cutoff (push_back a.ip a.time counts) attempts
                ∙ ap (λ l. l ++ retain (since clock cutoff) (failures_of ip attempts))
                    (times_of-push_back ip a.ip a.time counts)
                ∙ append_assoc (times_of ip counts) (if addr_eq a.ip ip then a.time ∷ [] else [])
                    (retain (since clock cutoff) (failures_of ip attempts)))
        | inr old ↦
            rw
              (
                old,
                retain-append (since clock cutoff) (if addr_eq a.ip ip then a.time ∷ [] else [])
                    (failures_of ip attempts),
                retain-single cutoff a.time (addr_eq a.ip ip),
                old,
              )
              (times_of-push_attempts ip cutoff counts attempts)
      ]

  Fresh-retain_since :
      (ip : IpAddr) (cutoff : DateTime) (counts : Counts DateTime)
      → Fresh ip counts
      → Fresh ip (retain_since clock cutoff counts)
  unfolding retain_since
  Fresh-retain_since ip cutoff [] h = tt
  Fresh-retain_since ip cutoff ((key, times) ∷ counts) h =
      Fresh-keep_entry ip key (retain (since clock cutoff) times) (retain_since clock cutoff counts)
        h.0 (Fresh-retain_since ip cutoff counts h.1)

  retain_since-IsMap :
      (cutoff : DateTime) (counts : Counts DateTime)
      → IsMap counts
      → IsMap (retain_since clock cutoff counts)
  unfolding retain_since
  retain_since-IsMap cutoff [] h = tt
  retain_since-IsMap cutoff ((key, times) ∷ counts) h =
      keep_entry-IsMap key (retain (since clock cutoff) times) (retain_since clock cutoff counts)
        (Fresh-retain_since key cutoff counts h.0) (retain_since-IsMap cutoff counts h.1)

  times_of-retain_since :
      (ip : IpAddr) (cutoff : DateTime) (counts : Counts DateTime)
      → IsMap counts
      → times_of ip (retain_since clock cutoff counts)
        ≡ retain (since clock cutoff) (times_of ip counts)
  unfolding retain_since
  times_of-retain_since ip cutoff [] h = sym (retain_nil (since clock cutoff))
  times_of-retain_since ip cutoff ((key, times) ∷ counts) h = elim (Bool-cases (addr_eq key ip)) [
    | inl here ↦ rw here (
        times_of-keep_entry_here ip key (retain (since clock cutoff) times)
          (retain_since clock cutoff counts) here
          (times_of-Fresh ip (retain_since clock cutoff counts) (
            subst (λ k. Fresh k (retain_since clock cutoff counts)) (addr_eq→eq key ip here)
              (Fresh-retain_since key cutoff counts h.0))))
    | inr away ↦ rw away (
        times_of-keep_entry_away ip key (retain (since clock cutoff) times)
          (retain_since clock cutoff counts) away
        ∙ times_of-retain_since ip cutoff counts h.1)
  ]

  pub merge_attempts-IsMap :
      (counts : Counts DateTime) (attempts : List (FailedAttempt DateTime)) (cutoff : DateTime)
      → IsMap counts
      → IsMap (merge_attempts clock counts attempts cutoff)
  unfolding merge_attempts
  merge_attempts-IsMap counts attempts cutoff h =
      retain_since-IsMap cutoff (push_attempts clock cutoff counts attempts)
        (push_attempts-IsMap cutoff counts attempts h)

  -- The merged list of an address is the recent part of its old list and of its new failures.
  pub times_of-merge_attempts :
      (ip : IpAddr) (counts : Counts DateTime) (attempts : List (FailedAttempt DateTime))
      (cutoff : DateTime)
      → IsMap counts
      → times_of ip (merge_attempts clock counts attempts cutoff)
        ≡ retain (since clock cutoff) (times_of ip counts ++ failures_of ip attempts)
  unfolding merge_attempts
  times_of-merge_attempts ip counts attempts cutoff h =
      let recent = since clock cutoff in
      times_of-retain_since ip cutoff (push_attempts clock cutoff counts attempts)
        (push_attempts-IsMap cutoff counts attempts h)
      ∙ ap (retain recent) (times_of-push_attempts ip cutoff counts attempts)
      ∙ retain-append recent (times_of ip counts) (retain recent (failures_of ip attempts))
      ∙ ap (λ l. retain recent (times_of ip counts) ++ l)
          (retain-retain recent recent (failures_of ip attempts) (λ t k. k))
      ∙ sym (retain-append recent (times_of ip counts) (failures_of ip attempts))
