-- ===== src/Btmp/Monitor/Candidates.antt =====
-- Which addresses of the counts are candidates for a ban.
use xdp_firewall.Prelude.{
  ℕ, suc, ◌+◌, ◌≤◌, ◌≡◌, ◌≢◌, refl, ap, ◌∙◌, inl, inr, ◌⊎◌, ◌↔◌, false, List, [], ◌∷◌, ◌++◌, arith,
  ltb, length, length-append, All, Any, All-append, All-imp, All-Any_self, Any-append_left,
  Any-append_right, not_ltb→le, not_le_of_ltb, Bool-cases, absurd_true,
}
use xdp_firewall.Text.{Text, text_eq}
use xdp_firewall.Text.Laws.{text_eq→eq, text_eq_refl}
use xdp_firewall.Net.{IpAddr, SamePrefix, Ipnet, IpnetLaws}
use xdp_firewall.Dedup.{contains_key}
use xdp_firewall.Btmp.Config.{Config}
use xdp_firewall.Btmp.Counts.{Counts}
use xdp_firewall.Btmp.Monitor.{RunSummary, Candidate, ip_cidr, is_trusted, consider, consider_all}

unlisted_iff :
    (existing : List Text) (cidr : Text)
    → (contains_key text_eq existing cidr ≡ false) ↔ All (λ c. c ≢ cidr) existing
unlisted_iff [] cidr = ((λ h. tt), (λ h. refl))
unlisted_iff (c ∷ existing) cidr = elim (Bool-cases (text_eq c cidr)) [
  | inl same ↦ rw same ((λ h. cc), (λ h. absurd (h.0 (text_eq→eq c cidr same))))
  | inr other ↦ rw other (
    (λ h. (
      (λ e. absurd_true (ap (λ x. text_eq x cidr) e ∙ text_eq_refl cidr) other),
      (unlisted_iff existing cidr).0 h,
    )),
    (λ h. (unlisted_iff existing cidr).1 h.1),
  )
]

module _ (net : Ipnet) (laws : IpnetLaws net) where
  open net use {IpNet, contains, addr, prefix_len}

  -- The address is in no trusted network.
  abbrev pub Untrusted : IpAddr → List IpNet → Type 0
  Untrusted ip cidrs = All (λ cidr. ¬ SamePrefix (prefix_len cidr) (addr cidr) ip) cidrs

  is_trusted_iff :
      (ip : IpAddr) (cidrs : List IpNet) → (is_trusted net ip cidrs ≡ false) ↔ Untrusted ip cidrs
  is_trusted_iff ip [] = ((λ h. tt), (λ h. refl))
  is_trusted_iff ip (cidr ∷ cidrs) = elim (Bool-cases (contains cidr ip)) [
    | inl inside ↦ rw inside ((λ h. cc), (λ h. absurd (h.0 ((laws.contains_iff cidr ip).0 inside))))
    | inr outside ↦ rw outside (
      (λ h. (
        (λ e. absurd_true ((laws.contains_iff cidr ip).1 e) outside),
        (is_trusted_iff ip cidrs).0 h,
      )),
      (λ h. (is_trusted_iff ip cidrs).1 h.1),
    )
  ]

  module _ (config : Config IpNet) (existing : List Text) where
    -- The address failed often enough, is not trusted, and is not among the bans that were listed.
    pub record IsBannable (ip : IpAddr) (count : ℕ) : Type 0 where
      pub enough : config.ban.threshold ≤ count
      pub untrusted : Untrusted ip config.monitor.trusted_cidrs
      pub unlisted : All (λ c. c ≢ ip_cidr ip) existing

    -- The number of addresses that a summary and its candidates account for.
    abbrev pub tally : RunSummary × List Candidate → ℕ
    tally (summary, candidates) =
        summary.below_threshold
        + summary.skipped_trusted
        + summary.skipped_already_banned
        + length candidates

    module _ {DateTime : Type 0} where
      -- A candidate that the counts justify.
      abbrev pub Justified : Counts DateTime → Candidate → Type 0
      Justified counts (ip, count) =
          IsBannable ip count
          × Any (λ (entry : IpAddr × List DateTime). (entry.0 ≡ ip) × (length entry.1 ≡ count))
              counts

      abbrev Considered : IpAddr → List DateTime → List Candidate → List Candidate → Type 0
      Considered ip times before after =
          (IsBannable ip (length times) × (after ≡ before ++ (ip, length times) ∷ []))
          ⊎ ((¬ IsBannable ip (length times)) × (after ≡ before))

      consider_lem :
          (ip : IpAddr) (times : List DateTime) (found : RunSummary × List Candidate)
          → Considered ip times found.1 (consider net config existing ip times found).1
            × (tally (consider net config existing ip times found) ≡ suc (tally found))
      unfolding consider
      consider_lem ip times (summary, candidates) =
          elim (Bool-cases (ltb (length times) config.ban.threshold)) [
            | inl few ↦ rw few (
              inr ((λ b. not_le_of_ltb (length times) config.ban.threshold few b.enough), refl),
              omega arith,
            )
            | inr many ↦
                rw many (elim (Bool-cases (is_trusted net ip config.monitor.trusted_cidrs)) [
                  | inl trusted ↦ rw trusted (
                    inr (
                      (λ b.
                          absurd_true trusted
                            ((is_trusted_iff ip config.monitor.trusted_cidrs).1 b.untrusted)),
                      refl,
                    ),
                    omega arith,
                  )
                  | inr untrusted ↦
                      rw untrusted (elim (Bool-cases (contains_key text_eq existing (ip_cidr ip))) [
                        | inl listed ↦ rw listed (
                          inr (
                            (λ b.
                                absurd_true listed
                                  ((unlisted_iff existing (ip_cidr ip)).1 b.unlisted)),
                            refl,
                          ),
                          omega arith,
                        )
                        | inr unlisted ↦ rw unlisted (
                          inl (
                            record {
                              enough = not_ltb→le (length times) config.ban.threshold many;
                              untrusted =
                                  (is_trusted_iff ip config.monitor.trusted_cidrs).0 untrusted;
                              unlisted = (unlisted_iff existing (ip_cidr ip)).0 unlisted;
                            },
                            refl,
                          ),
                          omega (arith, length-append {0} candidates ((ip, length times) ∷ [])),
                        )
                      ])
                ])
          ]

      consider_all-tally :
          (counts : Counts DateTime) (found : RunSummary × List Candidate)
          → tally (consider_all net config existing counts found) ≡ tally found + length counts
      unfolding consider_all
      consider_all-tally [] found = omega arith
      consider_all-tally ((ip, times) ∷ counts) found = omega (
        arith,
        consider_all-tally counts (consider net config existing ip times found),
        (consider_lem ip times found).1,
      )

      module _ (Q : Candidate → Type 0) where
        considered_all_lem :
            (ip : IpAddr) (times : List DateTime) (before after : List Candidate)
            → Considered ip times before after
            → (IsBannable ip (length times) → Q (ip, length times))
            → All Q before
            → All Q after
        considered_all_lem ip times before after (inl (b, e)) q h =
            rw e (All-append Q before ((ip, length times) ∷ []) h (q b, tt))
        considered_all_lem ip times before after (inr (n, e)) q h = rw e h

        consider_all-All :
            (counts : Counts DateTime) (found : RunSummary × List Candidate)
            → All
                (λ (entry : IpAddr × List DateTime).
                  IsBannable entry.0 (length entry.1) → Q (entry.0, length entry.1))
                counts
            → All Q found.1
            → All Q (consider_all net config existing counts found).1
        unfolding consider_all
        consider_all-All [] found q h = h
        consider_all-All ((ip, times) ∷ counts) found q h =
            consider_all-All counts (consider net config existing ip times found) q.1 (
              considered_all_lem ip times found.1 (consider net config existing ip times found).1
                (consider_lem ip times found).0 q.0 h)

        considered_any_lem :
            (ip : IpAddr) (times : List DateTime) (before after : List Candidate)
            → Considered ip times before after
            → Any Q before
            → Any Q after
        considered_any_lem ip times before after (inl (b, e)) h =
            rw e (Any-append_left Q before ((ip, length times) ∷ []) h)
        considered_any_lem ip times before after (inr (n, e)) h = rw e h

        consider_all-Any :
            (counts : Counts DateTime) (found : RunSummary × List Candidate)
            → Any Q found.1
            → Any Q (consider_all net config existing counts found).1
        unfolding consider_all
        consider_all-Any [] found h = h
        consider_all-Any ((ip, times) ∷ counts) found h =
            consider_all-Any counts (consider net config existing ip times found) (
              considered_any_lem ip times found.1 (consider net config existing ip times found).1
                (consider_lem ip times found).0 h)

      verdict-bannable :
          (ip : IpAddr) (times : List DateTime) (before after : List Candidate)
          → Considered ip times before after
          → IsBannable ip (length times)
          → Any (λ c. c ≡ (ip, length times)) after
      verdict-bannable ip times before after (inl (b, e)) h = rw e (
          Any-append_right (λ c. c ≡ (ip, length times)) before ((ip, length times) ∷ [])
            (inl refl))
      verdict-bannable ip times before after (inr (n, e)) h = absurd (n h)

      consider_all_complete :
          (counts : Counts DateTime) (found : RunSummary × List Candidate)
          → All
              (λ (entry : IpAddr × List DateTime).
                IsBannable entry.0 (length entry.1)
                → Any
                    (λ c. c ≡ (entry.0, length entry.1))
                    (consider_all net config existing counts found).1)
              counts
      unfolding consider_all
      consider_all_complete [] found = tt
      consider_all_complete ((ip, times) ∷ counts) found = (
        (λ b.
            consider_all-Any (λ c. c ≡ (ip, length times)) counts
              (consider net config existing ip times found)
              (verdict-bannable ip times found.1 (consider net config existing ip times found).1
                (consider_lem ip times found).0 b)),
        consider_all_complete counts (consider net config existing ip times found),
      )

      -- The loop over the counts collects exactly the addresses that may be banned: each candidate is
      -- an address of the counts, with the number of its failures, that failed often enough, is not
      -- trusted and is not banned yet; each such address is a candidate; and every address counts once,
      -- as a candidate or in one of the three other numbers of the summary.
      pub consider_all_exact :
          (counts : Counts DateTime) (summary : RunSummary)
          → All (Justified counts) (consider_all net config existing counts (summary, [])).1
            × All
                (λ (entry : IpAddr × List DateTime).
                  IsBannable entry.0 (length entry.1)
                  → Any
                      (λ c. c ≡ (entry.0, length entry.1))
                      (consider_all net config existing counts (summary, [])).1)
                counts
            × (tally (consider_all net config existing counts (summary, []))
                ≡ tally (summary, []) + length counts)
      consider_all_exact counts summary = (
        consider_all-All (Justified counts) counts (summary, [])
            (All-imp
              (λ (entry : IpAddr × List DateTime).
                Any
                  (λ (e : IpAddr × List DateTime). (e.0 ≡ entry.0) × (length e.1 ≡ length entry.1))
                  counts)
              (λ (entry : IpAddr × List DateTime).
                IsBannable entry.0 (length entry.1) → Justified counts (entry.0, length entry.1))
              counts (λ entry a b. (b, a))
              (All-Any_self
                (λ (e : IpAddr × List DateTime) (entry : IpAddr × List DateTime).
                  (e.0 ≡ entry.0) × (length e.1 ≡ length entry.1))
                (λ e. (refl, refl)) counts))
            tt,
        consider_all_complete counts (summary, []),
        consider_all-tally counts (summary, []),
      )
