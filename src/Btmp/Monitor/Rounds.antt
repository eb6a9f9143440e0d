-- ===== src/Btmp/Monitor/Rounds.antt =====
-- The bans that a round of the daemon submits.
use mathlib.Core.List.{append_assoc, append-nil}
use xdp_firewall.Prelude.{
  ℕ, ◌≡◌, refl, sym, ap, subst, ◌∙◌, true, false, Option, some, List, [], ◌∷◌, ◌++◌, length, All,
  All-imp, Result, ok, err, err_not_ok,
}
use xdp_firewall.Prelude.Int.{ℤ}
use xdp_firewall.Exec.{continue}
use xdp_firewall.Text.{Text}
use xdp_firewall.Net.{Ipnet, IpnetLaws, Chrono}
use xdp_firewall.Btmp.Record.{FailedAttempt}
use xdp_firewall.Btmp.Read.{BtmpFile, read_attempts}
use xdp_firewall.Btmp.Config.{Config}
use xdp_firewall.Btmp.Counts.{Counts, merge_attempts}
use xdp_firewall.Btmp.Api.{CreateTempBanItem, HttpRequest, Http, list_temp_ban_cidrs}
use xdp_firewall.Btmp.Monitor.{
  RunSummary, Candidate, Monitor, consider_all, client, store_read, collect_attempts, merge,
  first_summary, existing_cidrs, submit, ban_round, judge, run_once,
}
use xdp_firewall.Btmp.Monitor.Keeps.{ban_round-Holds}
use xdp_firewall.Btmp.Monitor.Posts.{posted, posted-append, list_temp_ban_cidrs_gets}
use xdp_firewall.Btmp.Monitor.Bans.{ItemFor as ItemFor_in, Covers as Covers_in, ban_round-Bans}

module _ (net : Ipnet) (laws : IpnetLaws net) (clock : Chrono)
    (from_timestamp : ℤ → ℕ → Option clock.DateTime) (http : Http) (config : Config net.IpNet) where
  open clock use {DateTime}

  abbrev pub ItemFor : List Text → Counts DateTime → CreateTempBanItem → Type 0
  ItemFor existing counts item =
      ItemFor_in net laws clock from_timestamp http config existing counts item

  abbrev pub Covers : List Text → Counts DateTime → List CreateTempBanItem → Type 0
  Covers existing counts items =
      Covers_in net laws clock from_timestamp http config existing counts items

  -- The bans that the API listed when a round began.
  abbrev pub Listed : List HttpRequest → List Text → Type 0
  Listed requests existing =
      (list_temp_ban_cidrs http (client net clock from_timestamp http config) requests).0
      ≡ ok existing

  -- What a round sends.
  pub record RoundBans (before : Monitor DateTime) (outcome : Result RunSummary × Monitor DateTime)
      : Type 0 where
    pub new : List HttpRequest
    pub sent : outcome.1.requests ≡ before.requests ++ new
    pub justified :
        All
          (λ item.
            (existing : List Text) × Listed before.requests existing
            × ItemFor existing outcome.1.counts item)
          (posted new)
    pub complete :
        (summary : RunSummary)
        → outcome.0 ≡ ok summary
        → (existing : List Text) × Listed before.requests existing
          × Covers existing outcome.1.counts (posted new)
          × (summary.banned ≡ length (posted new))

  -- behind the listing
  listed_round :
      (parsed : ℕ) (before m : Monitor DateTime) (gets : List HttpRequest) (r : Result (List Text))
      → (list_temp_ban_cidrs http (client net clock from_timestamp http config) before.requests).0
        ≡ r
      → m.requests ≡ before.requests ++ gets
      → posted gets ≡ []
      → RoundBans before
          (continue r (ban_round net clock from_timestamp http config false parsed) m)
  listed_round parsed before m gets (err e) h k p = record {
    new = gets;
    sent = k;
    justified = rw p tt;
    complete = λ summary q. absurd (err_not_ok q);
  }
  listed_round parsed before m gets (ok existing) h k p =
      let bans = ban_round-Bans net laws clock from_timestamp http config parsed existing m in
      let held =
        ban_round-Holds net clock from_timestamp http config m.cursor m.counts false parsed existing
          m (refl, refl) in
      let same : posted (gets ++ bans.new) ≡ posted bans.new =
        posted-append gets bans.new ∙ ap (λ l. l ++ posted bans.new) p in
      record {
        new = gets ++ bans.new;
        sent = bans.sent ∙ ap (λ l. l ++ bans.new) k ∙ append_assoc before.requests gets bans.new;
        justified =
            subst
              (λ c.
                All (λ item. (e : List Text) × Listed before.requests e × ItemFor e c item)
                  (posted (gets ++ bans.new)))
              (sym held.1)
              (subst
                (All (λ item. (e : List Text) × Listed before.requests e × ItemFor e m.counts item))
                (sym same)
                (All-imp (ItemFor existing m.counts)
                  (λ item. (e : List Text) × Listed before.requests e × ItemFor e m.counts item)
                  (posted bans.new) (λ item i. (existing, h, i)) bans.justified));
        complete = λ summary q.
            let (covers, banned) = bans.complete summary q in
            (
              existing,
              h,
              subst (λ c. Covers existing c (posted (gets ++ bans.new))) (sym held.1)
                  (subst (Covers existing m.counts) (sym same) covers),
              banned ∙ ap length (sym same),
            );
      }

  judge_posts :
      (cutoff : DateTime) (attempts : List (FailedAttempt DateTime)) (m : Monitor DateTime)
      → RoundBans m (judge net clock from_timestamp http config cutoff false attempts m)
  unfolding judge merge existing_cidrs
  judge_posts cutoff attempts m =
      let listing =
        list_temp_ban_cidrs http (client net clock from_timestamp http config) m.requests in
      let (gets, sent, none_posted) =
        list_temp_ban_cidrs_gets http (client net clock from_timestamp http config) m.requests in
      listed_round (length attempts) m
        (record m { counts = merge_attempts clock m.counts attempts cutoff; requests = listing.1 })
        gets listing.0 refl sent none_posted

  -- What a round that is no dry run submits, whatever the server answers: every item bans one address
  -- of the counts that reached the threshold, is in no trusted network, and is not among the bans that
  -- the API listed in this round, so that nothing is submitted where the listing fails; and if the
  -- round succeeds, every such address has its item, and the summary gives the number of the items
  -- submitted. The CIDR of the item is that of the address alone (/32 or /128), the protocol and the
  -- duration are those of the configuration, and so is the port, except that `any` has none.
  pub run_once_bans :
      (file : Option BtmpFile) (cutoff : DateTime) (m : Monitor DateTime)
      → RoundBans m (run_once net clock from_timestamp http config file cutoff false m)
  unfolding run_once collect_attempts
  run_once_bans file cutoff m =
      elim (read_attempts from_timestamp file m.cursor)
        as (λ r. RoundBans m (
          continue (store_read net clock from_timestamp http config r m).0
            (judge net clock from_timestamp http config cutoff false)
            (store_read net clock from_timestamp http config r m).1)) [
              | err e ↦ record {
                new = [];
                sent = sym (append-nil m.requests);
                justified = tt;
                complete = λ summary q. absurd (err_not_ok q);
              }
              | ok (attempts, cursor) ↦
                  let j = judge_posts cutoff attempts (record m { cursor = some cursor }) in
                  record {
                    new = j.new;
                    sent = j.sent;
                    justified = j.justified;
                    complete = j.complete;
                  }
            ]

  submit_dry :
      (summary : RunSummary) (candidates : List Candidate) (m : Monitor DateTime)
      → (submit net clock from_timestamp http config true summary candidates m).1.requests
        ≡ m.requests
  unfolding submit
  submit_dry summary [] m = refl
  submit_dry summary (c ∷ cs) m = refl

  judge_dry :
      (cutoff : DateTime) (attempts : List (FailedAttempt DateTime)) (m : Monitor DateTime)
      → (judge net clock from_timestamp http config cutoff true attempts m).1.requests ≡ m.requests
  unfolding judge merge existing_cidrs ban_round
  judge_dry cutoff attempts m =
      submit_dry
        (consider_all net config [] (merge_attempts clock m.counts attempts cutoff) (
          first_summary net clock from_timestamp http config (length attempts)
              (merge_attempts clock m.counts attempts cutoff),
          [],
        )).0
        (consider_all net config [] (merge_attempts clock m.counts attempts cutoff) (
          first_summary net clock from_timestamp http config (length attempts)
              (merge_attempts clock m.counts attempts cutoff),
          [],
        )).1
        (record m { counts = merge_attempts clock m.counts attempts cutoff })

  -- A dry run sends no request at all, whatever the file holds.
  pub run_once_dry :
      (file : Option BtmpFile) (cutoff : DateTime) (m : Monitor DateTime)
      → (run_once net clock from_timestamp http config file cutoff true m).1.requests ≡ m.requests
  unfolding run_once collect_attempts
  run_once_dry file cutoff m =
      elim (read_attempts from_timestamp file m.cursor)
        as (λ r.
          (continue (store_read net clock from_timestamp http config r m).0
            (judge net clock from_timestamp http config cutoff true)
            (store_read net clock from_timestamp http config r m).1).1.requests
          ≡ m.requests) [
            | err e ↦ refl
            | ok (attempts, cursor) ↦ judge_dry cutoff attempts (record m { cursor = some cursor })
          ]
