-- ===== src/Btmp/Monitor/Keeps.antt =====
-- What a round keeps of the file, whatever the server does.
use xdp_firewall.Prelude.{
  ℕ, ◌≡◌, refl, Bool, true, false, Option, some, List, [], ◌∷◌, map, length, Result, ok, err,
}
use xdp_firewall.Prelude.Int.{ℤ}
use xdp_firewall.Exec.{Leads, bind-Leads, continue, pure}
use xdp_firewall.Sorting.{sort_by}
use xdp_firewall.Text.{Text}
use xdp_firewall.Net.{Ipnet, Chrono}
use xdp_firewall.Btmp.Record.{FailedAttempt}
use xdp_firewall.Btmp.Read.{ReadCursor, BtmpFile, read_attempts}
use xdp_firewall.Btmp.Config.{Config}
use xdp_firewall.Btmp.Counts.{Counts, merge_attempts}
use xdp_firewall.Btmp.Api.{Http, create_temp_bans_batch}
use xdp_firewall.Btmp.Monitor.{
  RunSummary, Candidate, Monitor, store_read, collect_attempts, merge, existing_cidrs, submit,
  ban_round, run_once, judge, api, client, item_of, more_failures, consider_all, first_summary,
}

module _ (net : Ipnet) (clock : Chrono) (from_timestamp : ℤ → ℕ → Option clock.DateTime)
    (http : Http) (config : Config net.IpNet) where
  open clock use {DateTime}

  -- The cursor and the counts.
  abbrev pub Holds : Option ReadCursor → Counts DateTime → Monitor DateTime → Type 0
  Holds cursor counts m = (m.cursor ≡ cursor) × (m.counts ≡ counts)

  -- What a round that read `r` leaves of them.
  abbrev pub HoldsRead :
      Result (List (FailedAttempt DateTime) × ReadCursor)
      → DateTime
      → Monitor DateTime
      → Monitor DateTime
      → Type 0
  HoldsRead (err e) cutoff before after = Holds before.cursor before.counts after
  HoldsRead (ok (attempts, cursor)) cutoff before after =
      Holds (some cursor) (merge_attempts clock before.counts attempts cutoff) after

  module _ (cursor : Option ReadCursor) (counts : Counts DateTime) where
    existing_cidrs-Holds :
        (dry_run : Bool)
        → Leads
            (Holds cursor counts)
            (Holds cursor counts)
            (existing_cidrs net clock from_timestamp http config dry_run)
    unfolding existing_cidrs
    existing_cidrs-Holds true m h = h
    existing_cidrs-Holds false m h = h

    submit-Holds :
        (dry_run : Bool) (summary : RunSummary) (candidates : List Candidate)
        → Leads
            (Holds cursor counts)
            (Holds cursor counts)
            (submit net clock from_timestamp http config dry_run summary candidates)
    unfolding submit
    submit-Holds dry_run summary [] m h = h
    submit-Holds true summary (c ∷ cs) m h = h
    submit-Holds false summary (c ∷ cs) m h =
        bind-Leads (Holds cursor counts) (Holds cursor counts) (Holds cursor counts) (λ s q. q)
          (api net clock from_timestamp http config (
            create_temp_bans_batch http (client net clock from_timestamp http config)
              (map (item_of net config) (sort_by more_failures (c ∷ cs)))))
          (λ n. pure (record summary { banned = n })) (λ s q. q) (λ n s q. q) m h

    pub ban_round-Holds :
        (dry_run : Bool) (parsed : ℕ) (existing : List Text)
        → Leads
            (Holds cursor counts)
            (Holds cursor counts)
            (ban_round net clock from_timestamp http config dry_run parsed existing)
    unfolding ban_round
    ban_round-Holds dry_run parsed existing m h =
        let found =
          consider_all net config existing m.counts
            (first_summary net clock from_timestamp http config parsed m.counts, []) in
        submit-Holds dry_run found.0 found.1 m h

  judge-Holds :
      (cutoff : DateTime) (dry_run : Bool) (attempts : List (FailedAttempt DateTime))
      (m : Monitor DateTime)
      → Holds m.cursor
          (merge_attempts clock m.counts attempts cutoff)
          (judge net clock from_timestamp http config cutoff dry_run attempts m).1
  unfolding judge merge
  judge-Holds cutoff dry_run attempts m =
      let counts = merge_attempts clock m.counts attempts cutoff in
      let held = Holds m.cursor counts in
      bind-Leads held held held (λ s q. q)
        (existing_cidrs net clock from_timestamp http config dry_run)
        (ban_round net clock from_timestamp http config dry_run (length attempts))
        (existing_cidrs-Holds m.cursor counts dry_run)
        (λ existing. ban_round-Holds m.cursor counts dry_run (length attempts) existing)
        (record m { counts = counts }) (refl, refl)

  -- A round leaves the cursor and the counts as the read of the file and the merge make them, whether
  -- it is a dry run or not, and whether listing or submitting the bans fails or not; where the read
  -- fails they stay as they were. So no failure is lost or counted twice by an error of the API.
  pub run_once_keeps_read :
      (file : Option BtmpFile) (cutoff : DateTime) (dry_run : Bool) (m : Monitor DateTime)
      → HoldsRead
          (read_attempts from_timestamp file m.cursor)
          cutoff
          m
          (run_once net clock from_timestamp http config file cutoff dry_run m).1
  unfolding run_once collect_attempts
  run_once_keeps_read file cutoff dry_run m =
      elim (read_attempts from_timestamp file m.cursor)
        as (λ r.
          HoldsRead r cutoff m
            (continue (store_read net clock from_timestamp http config r m).0
              (judge net clock from_timestamp http config cutoff dry_run)
              (store_read net clock from_timestamp http config r m).1).1) [
                | err e ↦ (refl, refl)
                | ok (attempts, cursor) ↦
                    judge-Holds cutoff dry_run attempts (record m { cursor = some cursor })
              ]
