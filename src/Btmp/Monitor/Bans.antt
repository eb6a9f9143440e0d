-- ===== src/Btmp/Monitor/Bans.antt =====
-- The bans that a round submits against the list of those that stand.
use mathlib.Core.List.{append-nil}
use xdp_firewall.Prelude.{
  ℕ, ◌≡◌, refl, sym, ap, subst, ◌∙◌, Bool, true, false, Option, List, [], ◌∷◌, ◌++◌, map, length,
  All, Any, ltb, if◌then◌else◌, All-imp, All-map_imp, Any-map, Result, ok, err, err_not_ok,
  ok-injective,
}
use xdp_firewall.Prelude.Int.{ℤ}
use xdp_firewall.Exec.{continue, pure}
use xdp_firewall.Sorting.{sort_by}
use xdp_firewall.Sorting.Laws.{sort_by-All, sort_by-Any}
use xdp_firewall.Text.{Text, text_eq}
use xdp_firewall.Net.{IpAddr, Ipnet, IpnetLaws, Chrono}
use xdp_firewall.Dedup.{contains_key}
use xdp_firewall.Btmp.Config.{Config}
use xdp_firewall.Btmp.Counts.{Counts}
use xdp_firewall.Btmp.Api.{CreateTempBanItem, HttpRequest, Http, create_temp_bans_batch}
use xdp_firewall.Btmp.Monitor.{
  RunSummary, Candidate, Monitor, ip_cidr, is_trusted, consider, consider_all, item_of,
  more_failures, client, first_summary, submit, ban_round,
}
use xdp_firewall.Btmp.Monitor.Items.{IsBanOf, item_of-IsBanOf}
use xdp_firewall.Btmp.Monitor.Candidates.{IsBannable, Justified, consider_all_exact}
use xdp_firewall.Btmp.Monitor.Posts.{posted, create_temp_bans_batch-Submits}

All-prefix {ℓ} : {A : Type ℓ} (P : A → Type 0) (xs ys : List A) → All P (xs ++ ys) → All P xs
All-prefix P [] ys h = tt
All-prefix P (x ∷ xs) ys h = (h.0, All-prefix P xs ys h.1)

module _ (net : Ipnet) (laws : IpnetLaws net) (clock : Chrono)
    (from_timestamp : ℤ → ℕ → Option clock.DateTime) (http : Http) (config : Config net.IpNet) where
  open clock use {DateTime}

  -- An item for a candidate that the counts justify against the bans that were listed.
  abbrev pub ItemFor : List Text → Counts DateTime → CreateTempBanItem → Type 0
  ItemFor existing counts item =
      (c : Candidate) × Justified net laws config existing counts c × IsBanOf config.ban c.0 item

  -- Each address that may be banned has an item.
  abbrev pub Covers : List Text → Counts DateTime → List CreateTempBanItem → Type 0
  Covers existing counts items =
      All
        (λ (entry : IpAddr × List DateTime).
          IsBannable net laws config existing entry.0 (length entry.1)
          → Any (IsBanOf config.ban entry.0) items)
        counts

  abbrev items_of : List Candidate → List CreateTempBanItem
  items_of candidates = map (item_of net config) (sort_by more_failures candidates)

  items_of-ItemFor :
      (existing : List Text) (counts : Counts DateTime) (candidates : List Candidate)
      → All (Justified net laws config existing counts) candidates
      → All (ItemFor existing counts) (items_of candidates)
  items_of-ItemFor existing counts candidates h =
      All-map_imp (Justified net laws config existing counts) (ItemFor existing counts)
        (item_of net config) (sort_by more_failures candidates)
        (λ c j. (c, j, item_of-IsBanOf net config c))
        (sort_by-All more_failures (Justified net laws config existing counts) candidates h)

  items_of-Any :
      (c : Candidate) (candidates : List Candidate)
      → Any (λ x. x ≡ c) candidates
      → Any (IsBanOf config.ban c.0) (items_of candidates)
  items_of-Any c candidates h =
      Any-map (λ x. x ≡ c) (IsBanOf config.ban c.0) (item_of net config)
        (sort_by more_failures candidates)
        (λ x e.
          subst (λ y. IsBanOf config.ban y.0 (item_of net config x)) e
            (item_of-IsBanOf net config x))
        (sort_by-Any more_failures (λ x. x ≡ c) candidates h)

  -- What a call that ends a round sends.
  pub record Bans (existing : List Text) (before : Monitor DateTime)
      (outcome : Result RunSummary × Monitor DateTime) : Type 0 where
    pub new : List HttpRequest
    pub sent : outcome.1.requests ≡ before.requests ++ new
    pub justified : All (ItemFor existing before.counts) (posted new)
    pub complete :
        (summary : RunSummary)
        → outcome.0 ≡ ok summary
        → Covers existing before.counts (posted new) × (summary.banned ≡ length (posted new))

  items_of-nil : items_of [] ≡ []
  unfolding sort_by
  items_of-nil = refl

  -- The result of a batch as that of the round.
  abbrev finish : RunSummary → Result ℕ → Monitor DateTime → Result RunSummary × Monitor DateTime
  finish summary r m = continue r (λ n. pure (record summary { banned = n })) m

  finish_requests :
      (summary : RunSummary) (r : Result ℕ) (m : Monitor DateTime)
      → (finish summary r m).1.requests ≡ m.requests
  finish_requests summary (err e) m = refl
  finish_requests summary (ok n) m = refl

  finish_ok :
      (summary : RunSummary) (r : Result ℕ) (m : Monitor DateTime) (t : RunSummary)
      → (finish summary r m).0 ≡ ok t
      → (n : ℕ) × (r ≡ ok n) × (t.banned ≡ n)
  finish_ok summary (err e) m t h = absurd (err_not_ok h)
  finish_ok summary (ok n) m t h =
      (n, refl, ap (λ (u : RunSummary). u.banned) (sym (ok-injective h)))

  submit-Bans :
      (existing : List Text) (summary : RunSummary) (candidates : List Candidate)
      (m : Monitor DateTime)
      → summary.banned ≡ 0
      → All (ItemFor existing m.counts) (items_of candidates)
      → Covers existing m.counts (items_of candidates)
      → Bans existing m (submit net clock from_timestamp http config false summary candidates m)
  unfolding submit
  submit-Bans existing summary [] m z h c = record {
    new = [];
    sent = sym (append-nil m.requests);
    justified = tt;
    complete = λ s e. (
      subst (Covers existing m.counts) items_of-nil c,
      ap (λ (t : RunSummary). t.banned) (sym (ok-injective e)) ∙ z,
    );
  }
  submit-Bans existing summary (x ∷ xs) m z h c =
      let items = items_of (x ∷ xs) in
      let s =
        create_temp_bans_batch-Submits http (client net clock from_timestamp http config) items
          m.requests in
      let outcome =
        create_temp_bans_batch http (client net clock from_timestamp http config) items
          m.requests in
      record {
        new = s.new;
        sent = finish_requests summary outcome.0 (record m { requests = outcome.1 }) ∙ s.sent;
        justified =
            All-prefix (ItemFor existing m.counts) (posted s.new) s.rest
              (subst (All (ItemFor existing m.counts)) (sym s.part) h);
        complete = λ t e.
            let (n, accepted, banned) =
              finish_ok summary outcome.0 (record m { requests = outcome.1 }) t e in
            let (none_left, all) = s.whole n accepted in
            let everything : items ≡ posted s.new =
              sym s.part ∙ ap (λ l. posted s.new ++ l) none_left ∙ append-nil (posted s.new) in
            (subst (Covers existing m.counts) everything c, banned ∙ all ∙ ap length everything);
      }

  if_banned :
      (n : ℕ) (b : Bool) (x y : RunSummary × List Candidate)
      → x.0.banned ≡ n
      → y.0.banned ≡ n
      → (if b then x else y).0.banned ≡ n
  if_banned n true x y h k = h
  if_banned n false x y h k = k

  consider-banned :
      (existing : List Text) (ip : IpAddr) (times : List DateTime)
      (found : RunSummary × List Candidate)
      → (consider net config existing ip times found).0.banned ≡ found.0.banned
  unfolding consider
  consider-banned existing ip times (summary, candidates) =
      if_banned summary.banned (ltb (length times) config.ban.threshold) _ _ refl (
        if_banned summary.banned (is_trusted net ip config.monitor.trusted_cidrs) _ _ refl
          (if_banned summary.banned (contains_key text_eq existing (ip_cidr ip)) _ _ refl refl))

  consider_all-banned :
      (existing : List Text) (counts : Counts DateTime) (found : RunSummary × List Candidate)
      → (consider_all net config existing counts found).0.banned ≡ found.0.banned
  unfolding consider_all
  consider_all-banned existing [] found = refl
  consider_all-banned existing ((ip, times) ∷ counts) found =
      consider_all-banned existing counts (consider net config existing ip times found)
      ∙ consider-banned existing ip times found

  pub ban_round-Bans :
      (parsed : ℕ) (existing : List Text) (m : Monitor DateTime)
      → Bans existing m (ban_round net clock from_timestamp http config false parsed existing m)
  unfolding ban_round
  ban_round-Bans parsed existing m =
      let first = first_summary net clock from_timestamp http config parsed m.counts in
      let found = consider_all net config existing m.counts (first, []) in
      let (justified, complete, tally) =
        consider_all_exact net laws config existing m.counts first in
      submit-Bans existing found.0 found.1 m (consider_all-banned existing m.counts (first, []))
        (items_of-ItemFor existing m.counts found.1 justified)
        (All-imp
          (λ (entry : IpAddr × List DateTime).
            IsBannable net laws config existing entry.0 (length entry.1)
            → Any (λ c. c ≡ (entry.0, length entry.1)) found.1)
          (λ (entry : IpAddr × List DateTime).
            IsBannable net laws config existing entry.0 (length entry.1)
            → Any (IsBanOf config.ban entry.0) (items_of found.1))
          m.counts (λ entry f b. items_of-Any (entry.0, length entry.1) found.1 (f b)) complete)
