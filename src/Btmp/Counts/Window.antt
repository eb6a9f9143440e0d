-- ===== src/Btmp/Counts/Window.antt =====
-- What the counts hold after any number of rounds of merge_attempts.
use mathlib.Core.List.{append_assoc, append-nil}
use xdp_firewall.Prelude.{
  ◌≡◌, refl, sym, ap, ◌∙◌, inl, inr, true, false, List, [], ◌∷◌, ◌++◌, arith, retain, Bool-cases,
  absurd_true,
}
use xdp_firewall.Net.{IpAddr, Chrono, ChronoLaws}
use xdp_firewall.Btmp.Record.{FailedAttempt}
use xdp_firewall.Btmp.Counts.{Counts, since, merge_attempts}
use xdp_firewall.Btmp.Counts.Keys.{retain-append, retain-retain, times_of, IsMap}
use xdp_firewall.Btmp.Counts.Merge.{
  failures_of, failures_of-append, merge_attempts-IsMap, times_of-merge_attempts,
}

module _ (clock : Chrono) where
  open clock use {DateTime, lt}

  -- The attempts of a round, and its cutoff.
  abbrev pub Round : Type 0
  Round = List (FailedAttempt DateTime) × DateTime

  abbrev pub merge_rounds : Counts DateTime → List Round → Counts DateTime
  merge_rounds counts [] = counts
  merge_rounds counts ((attempts, cutoff) ∷ rounds) =
      merge_rounds (merge_attempts clock counts attempts cutoff) rounds

  abbrev pub all_attempts : List Round → List (FailedAttempt DateTime)
  all_attempts [] = []
  all_attempts ((attempts, cutoff) ∷ rounds) = attempts ++ all_attempts rounds

  abbrev pub last_cutoff : DateTime → List Round → DateTime
  last_cutoff cutoff [] = cutoff
  last_cutoff cutoff ((attempts, next) ∷ rounds) = last_cutoff next rounds

  -- No cutoff is before the one of the round before.
  abbrev pub IsForward : DateTime → List Round → Type 0
  IsForward cutoff [] = Unit {0}
  IsForward cutoff ((attempts, next) ∷ rounds) = (lt next cutoff ≡ false) × IsForward next rounds

  module _ (laws : ChronoLaws clock) where
    since_weaken :
        (cutoff next time : DateTime)
        → lt next cutoff ≡ false
        → since clock next time ≡ true
        → since clock cutoff time ≡ true
    since_weaken cutoff next time h k = elim (Bool-cases (lt time cutoff)) [
      | inr recent ↦ rw recent refl
      | inl before ↦ elim (laws.total time next cutoff before) [
        | inl early ↦ absurd_true early (ground (arith))
        | inr back ↦ absurd_true back h
      ]
    ]

    one_more :
        (ip : IpAddr) (counts : Counts DateTime) (attempts : List (FailedAttempt DateTime))
        (next cutoff : DateTime) (history : List (FailedAttempt DateTime))
        → IsMap counts
        → times_of ip counts ≡ retain (since clock cutoff) (failures_of ip history)
        → lt next cutoff ≡ false
        → times_of ip (merge_attempts clock counts attempts next)
          ≡ retain (since clock next) (failures_of ip (history ++ attempts))
    one_more ip counts attempts next cutoff history m h f =
        let recent = since clock next in
        times_of-merge_attempts clock ip counts attempts next m
        ∙ ap (λ l. retain recent (l ++ failures_of ip attempts)) h
        ∙ retain-append recent (retain (since clock cutoff) (failures_of ip history))
            (failures_of ip attempts)
        ∙ ap (λ l. l ++ retain recent (failures_of ip attempts))
            (retain-retain recent (since clock cutoff) (failures_of ip history)
              (λ t k. since_weaken cutoff next t f k))
        ∙ sym (retain-append recent (failures_of ip history) (failures_of ip attempts))
        ∙ ap (retain recent) (sym (failures_of-append ip history attempts))

    merge_more :
        (ip : IpAddr) (rounds : List Round) (counts : Counts DateTime) (cutoff : DateTime)
        (history : List (FailedAttempt DateTime))
        → IsMap counts
        → times_of ip counts ≡ retain (since clock cutoff) (failures_of ip history)
        → IsForward cutoff rounds
        → IsMap (merge_rounds counts rounds)
          × (times_of ip (merge_rounds counts rounds)
              ≡ retain
                  (since clock (last_cutoff cutoff rounds))
                  (failures_of ip (history ++ all_attempts rounds)))
    merge_more ip [] counts cutoff history m h f =
        (m, h ∙ ap (λ l. retain (since clock cutoff) (failures_of ip l)) (sym (append-nil history)))
    merge_more ip ((attempts, next) ∷ rounds) counts cutoff history m h f =
        let counts' = merge_attempts clock counts attempts next in
        let ih =
          merge_more ip rounds counts' next (history ++ attempts)
            (merge_attempts-IsMap clock counts attempts next m)
            (one_more ip counts attempts next cutoff history m h f.0) f.1 in
        (
          ih.0,
          ih.1
              ∙ ap (λ l. retain (since clock (last_cutoff next rounds)) (failures_of ip l))
                  (append_assoc history attempts (all_attempts rounds)),
        )

    -- However many rounds were merged, as long as the cutoff never moves back: no address has two
    -- entries, and the list of an address holds exactly the times of all failures from it that are not
    -- before the last cutoff, each once and in order.
    pub merge_rounds_window :
        (ip : IpAddr) (first : Round) (rounds : List Round)
        → IsForward first.1 rounds
        → IsMap (merge_rounds [] (first ∷ rounds))
          × (times_of ip (merge_rounds [] (first ∷ rounds))
              ≡ retain
                  (since clock (last_cutoff first.1 rounds))
                  (failures_of ip (all_attempts (first ∷ rounds))))
    merge_rounds_window ip (attempts, cutoff) rounds f =
        merge_more ip rounds (merge_attempts clock [] attempts cutoff) cutoff attempts
          (merge_attempts-IsMap clock [] attempts cutoff tt)
          (times_of-merge_attempts clock ip [] attempts cutoff tt) f
