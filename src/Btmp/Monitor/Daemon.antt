-- ===== src/Btmp/Monitor/Daemon.antt =====
-- The counts after the rounds of the daemon.
use xdp_firewall.Prelude.{
  ℕ, ◌≡◌, refl, sym, ap, subst, ◌∙◌, Bool, false, Option, none, some, List, [], ◌∷◌, ◌++◌, drop,
  retain, ok,
}
use xdp_firewall.Prelude.Int.{ℤ}
use xdp_firewall.Net.{IpAddr, Ipnet, Chrono, ChronoLaws}
use xdp_firewall.Btmp.Record.{FailedAttempt}
use xdp_firewall.Btmp.Read.{ReadCursor, BtmpFile, start_of, read_from, read_attempts}
use xdp_firewall.Btmp.Read.Rounds.{Growth, grown, file_of, read_rounds, rounds_read_everything}
use xdp_firewall.Btmp.Config.{Config}
use xdp_firewall.Btmp.Counts.{since, merge_attempts}
use xdp_firewall.Btmp.Counts.Keys.{times_of, IsMap}
use xdp_firewall.Btmp.Counts.Merge.{failures_of}
use xdp_firewall.Btmp.Counts.Window.{
  Round, merge_rounds, all_attempts, last_cutoff, IsForward, merge_rounds_window,
}
use xdp_firewall.Btmp.Api.{Http}
use xdp_firewall.Btmp.Monitor.{Monitor, run_once, run_daemon}
use xdp_firewall.Btmp.Monitor.Keeps.{Holds, run_once_keeps_read}

module _ (net : Ipnet) (clock : Chrono) (from_timestamp : ℤ → ℕ → Option clock.DateTime)
    (http : Http) (config : Config net.IpNet) (inode : ℕ) where
  open clock use {DateTime, lt}

  -- How the file grows before a round, and the cutoff of the round.
  abbrev pub Tick : Type 0
  Tick = Growth × DateTime

  -- The files that the rounds find.
  abbrev pub files : List ℕ → List Tick → List (Option BtmpFile × DateTime)
  files content [] = []
  files content (((early, late), cutoff) ∷ ticks) =
      (some (file_of inode content (early, late)), cutoff)
      ∷ files ((content ++ early) ++ late) ticks

  abbrev pub growths : List Tick → List Growth
  growths [] = []
  growths ((g, cutoff) ∷ ticks) = g ∷ growths ticks

  -- No cutoff is before the one of the round before, and the last one.
  abbrev pub GoesForward : DateTime → List Tick → Type 0
  GoesForward cutoff [] = Unit {0}
  GoesForward cutoff ((g, next) ∷ ticks) = (lt next cutoff ≡ false) × GoesForward next ticks

  abbrev pub final_cutoff : DateTime → List Tick → DateTime
  final_cutoff cutoff [] = cutoff
  final_cutoff cutoff ((g, next) ∷ ticks) = final_cutoff next ticks

  abbrev step : List ℕ → Option ReadCursor → Growth → List (FailedAttempt DateTime) × ReadCursor
  step content cursor g =
      let file = file_of inode content g in
      read_from from_timestamp inode (start_of cursor file) (drop (start_of cursor file) file.bytes)

  -- The attempts and the cutoffs of the rounds.
  abbrev merged : List ℕ → Option ReadCursor → List Tick → List (Round clock)
  merged content cursor [] = []
  merged content cursor ((g, cutoff) ∷ ticks) =
      ((step content cursor g).0, cutoff)
      ∷ merged ((content ++ g.0) ++ g.1) (some (step content cursor g).1) ticks

  read_step :
      (content : List ℕ) (cursor : Option ReadCursor) (g : Growth)
      → read_attempts from_timestamp (some (file_of inode content g)) cursor
        ≡ ok (step content cursor g)
  unfolding read_attempts
  read_step content cursor g = refl

  all_attempts-merged :
      (content : List ℕ) (cursor : Option ReadCursor) (ticks : List Tick)
      → all_attempts clock (merged content cursor ticks)
        ≡ (read_rounds from_timestamp inode content cursor (growths ticks)).0
  unfolding read_rounds read_attempts
  all_attempts-merged content cursor [] = refl
  all_attempts-merged content cursor ((g, cutoff) ∷ ticks) =
      ap (λ l. (step content cursor g).0 ++ l)
        (all_attempts-merged ((content ++ g.0) ++ g.1) (some (step content cursor g).1) ticks)

  last_cutoff-merged :
      (content : List ℕ) (cursor : Option ReadCursor) (cutoff : DateTime) (ticks : List Tick)
      → last_cutoff clock cutoff (merged content cursor ticks) ≡ final_cutoff cutoff ticks
  last_cutoff-merged content cursor cutoff [] = refl
  last_cutoff-merged content cursor cutoff ((g, next) ∷ ticks) =
      last_cutoff-merged ((content ++ g.0) ++ g.1) (some (step content cursor g).1) next ticks

  merged-IsForward :
      (content : List ℕ) (cursor : Option ReadCursor) (cutoff : DateTime) (ticks : List Tick)
      → GoesForward cutoff ticks
      → IsForward clock cutoff (merged content cursor ticks)
  merged-IsForward content cursor cutoff [] h = tt
  merged-IsForward content cursor cutoff ((g, next) ∷ ticks) h = (
    h.0,
    merged-IsForward ((content ++ g.0) ++ g.1) (some (step content cursor g).1) next ticks h.1,
  )

  counts-run_daemon :
      (dry_run : Bool) (content : List ℕ) (ticks : List Tick) (m : Monitor DateTime)
      → (run_daemon net clock from_timestamp http config dry_run (files content ticks) m).counts
        ≡ merge_rounds clock m.counts (merged content m.cursor ticks)
  unfolding run_daemon read_attempts
  counts-run_daemon dry_run content [] m = refl
  counts-run_daemon dry_run content ((g, cutoff) ∷ ticks) m =
      let file = file_of inode content g in
      let after = (run_once net clock from_timestamp http config (some file) cutoff dry_run m).1 in
      let held : Holds net clock from_timestamp http config (some (step content m.cursor g).1)
          (merge_attempts clock m.counts (step content m.cursor g).0 cutoff) after =
        run_once_keeps_read net clock from_timestamp http config (some file) cutoff dry_run m in
      counts-run_daemon dry_run ((content ++ g.0) ++ g.1) ticks after
      ∙ ap (λ c. merge_rounds clock after.counts (merged ((content ++ g.0) ++ g.1) c ticks)) held.0
      ∙ ap
          (λ c.
            merge_rounds clock c
              (merged ((content ++ g.0) ++ g.1) (some (step content m.cursor g).1) ticks))
          held.1

  -- The daemon, started with no cursor and no counts, whatever the server answers it: however the btmp
  -- file grows, as long as it is not rotated and the cutoffs never move back, the list of an address
  -- holds after any number of rounds exactly the times of its failures, by the records of the whole
  -- file, that are not before the last cutoff, each once and in order.
  pub run_daemon_counts :
      ChronoLaws clock
      → (dry_run : Bool) (g : Growth) (cutoff : DateTime) (ticks : List Tick) (m : Monitor DateTime)
        (ip : IpAddr)
      → m.cursor ≡ none
      → m.counts ≡ []
      → GoesForward cutoff ticks
      → (attempts : List (FailedAttempt DateTime)) × (next : ReadCursor) × (read_attempts
            from_timestamp
            (some (file_of inode [] (grown [] (g ∷ growths ticks), [])))
            none
          ≡ ok (attempts, next))
        × IsMap
            (run_daemon net clock from_timestamp http config dry_run
              (files [] ((g, cutoff) ∷ ticks))
              m).counts
        × (times_of ip
              (run_daemon net clock from_timestamp http config dry_run
                (files [] ((g, cutoff) ∷ ticks))
                m).counts
            ≡ retain (since clock (final_cutoff cutoff ticks)) (failures_of ip attempts))
  run_daemon_counts laws dry_run g cutoff ticks m ip no_cursor no_counts forward =
      let rounds = merged [] none ((g, cutoff) ∷ ticks) in
      let reached : (run_daemon net clock from_timestamp http config dry_run
            (files [] ((g, cutoff) ∷ ticks)) m).counts
          ≡ merge_rounds clock [] rounds =
        counts-run_daemon dry_run [] ((g, cutoff) ∷ ticks) m
        ∙ ap (λ c. merge_rounds clock c (merged [] m.cursor ((g, cutoff) ∷ ticks))) no_counts
        ∙ ap (λ c. merge_rounds clock [] (merged [] c ((g, cutoff) ∷ ticks))) no_cursor in
      let (is_map, times) =
        merge_rounds_window clock laws ip ((step [] none g).0, cutoff)
          (merged ([] ++ g.0 ++ g.1) (some (step [] none g).1) ticks)
          (merged-IsForward ([] ++ g.0 ++ g.1) (some (step [] none g).1) cutoff ticks forward) in
      let (next, read, last) = rounds_read_everything from_timestamp inode g (growths ticks) in
      (
        (read_rounds from_timestamp inode [] none (g ∷ growths ticks)).0,
        next,
        read,
        subst IsMap (sym reached) is_map,
        ap (times_of ip) reached
            ∙ times
            ∙ ap (λ c. retain (since clock c) (failures_of ip (all_attempts clock rounds)))
                (last_cutoff-merged ([] ++ g.0 ++ g.1) (some (step [] none g).1) cutoff ticks)
            ∙ ap (λ l. retain (since clock (final_cutoff cutoff ticks)) (failures_of ip l))
                (all_attempts-merged [] none ((g, cutoff) ∷ ticks)),
      )
