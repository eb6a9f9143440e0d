-- ===== src/Intelligence/Lock/Race.antt =====
-- Where the lock row does not exist yet, two processes can come to hold the lock together.
use xdp_firewall.Prelude.{
  ℕ, suc, ◌+◌, ◌<◌, ◌≡◌, refl, ap, ◌∙◌, true, false, none, some, if◌then◌else◌, arith, ==_refl,
}
use xdp_firewall.Intelligence.Lock.{
  Owner, LockRow, idle, running, threat_refresh_lock_is_busy, ensure_threat_refresh_lock_row,
  mark_threat_refresh_lock_running,
}
use xdp_firewall.Intelligence.Lock.System.{
  away, begun, ensured, loaded, holding, System, update, owner_of, after_mark, begin, ensure, load,
  mark, Reach, here, next,
}
use xdp_firewall.Intelligence.Lock.Invariant.{lease}

-- No row, and no process under way, at some time.
abbrev pub empty_at : ℕ → System
empty_at clock = record { row = none; clock = clock; phase = λ i. away }

row_of : ℕ → LockRow
row_of time = record { fingerprint = idle; last_checked_at = time; updated_at = time }

marked :
    (row : LockRow) (now : ℕ) (owner : Owner)
    → mark_threat_refresh_lock_running row row.last_checked_at now owner
      ≡ (true, record row { fingerprint = running owner; last_checked_at = now })
unfolding mark_threat_refresh_lock_running
marked row now owner =
    ap
      (λ b.
        if b
        then (true, record row { fingerprint = running owner; last_checked_at = now })
        else (false, row))
      (==_refl row.last_checked_at)

-- The process that inserts the row marks it with the time that it inserted; so a second process that
-- loaded the row before can mark it too. From every state in which the row does not exist and no
-- process is under way, a state can be reached in which the processes 0 and 1 both hold the lock, both
-- within their leases.
pub missing_row_races :
    (clock : ℕ)
    → (t : System) × (a : ℕ) × (b : ℕ) × Reach (empty_at clock) t
      × (t.phase 0 ≡ holding a)
      × (t.phase 1 ≡ holding b)
      × (t.clock < a + lease)
      × (t.clock < b + lease)
unfolding threat_refresh_lock_is_busy ensure_threat_refresh_lock_row
    mark_threat_refresh_lock_running row_of
missing_row_races clock =
    let row = row_of clock in
    let s1 : System = record {
      row = none;
      clock = suc clock;
      phase = update (λ i. away) 0 (begun clock);
    } in
    let s2 : System = record s1 {
      clock = suc (suc clock);
      phase = update s1.phase 1 (begun (suc clock));
    } in
    let s3 : System = record s2 { row = some row; phase = update s2.phase 0 (ensured clock) } in
    let s4 : System = record s3 { phase = update s3.phase 1 (ensured (suc clock)) } in
    let s5 : System = record s4 { phase = update s4.phase 0 (loaded clock clock) } in
    let s6 : System = record s5 { phase = update s5.phase 1 (loaded (suc clock) clock) } in
    let first = mark_threat_refresh_lock_running row clock clock (owner_of 0 clock) in
    let s7 : System = record s6 {
      row = some first.1;
      phase = update s6.phase 0 (after_mark first.0 clock);
    } in
    let second =
      mark_threat_refresh_lock_running first.1 clock (suc clock) (owner_of 1 (suc clock)) in
    let s8 : System = record s7 {
      row = some second.1;
      phase = update s7.phase 1 (after_mark second.0 (suc clock));
    } in
    let r1 : Reach (empty_at clock) s1 = next here (begin 0 refl) in
    let r2 : Reach (empty_at clock) s2 = next r1 (begin 1 refl) in
    let r3 : Reach (empty_at clock) s3 = next r2 (ensure 0 clock refl) in
    let r4 : Reach (empty_at clock) s4 = next r3 (ensure 1 (suc clock) refl) in
    let r5 : Reach (empty_at clock) s5 = next r4 (load 0 clock row refl refl) in
    let r6 : Reach (empty_at clock) s6 = next r5 (load 1 (suc clock) row refl refl) in
    let r7 : Reach (empty_at clock) s7 = next r6 (mark 0 clock clock row refl refl) in
    let r8 : Reach (empty_at clock) s8 = next r7 (mark 1 (suc clock) clock first.1 refl refl) in
    let held : first.1 ≡ record row { fingerprint = running (owner_of 0 clock) } =
      ap (λ m. m.1) (marked row clock (owner_of 0 clock)) in
    let first_holds : after_mark first.0 clock ≡ holding clock =
      ap (λ m. after_mark m.0 clock) (marked row clock (owner_of 0 clock)) in
    let second_holds : after_mark second.0 (suc clock) ≡ holding (suc clock) =
      ap
        (λ r.
          after_mark
            (mark_threat_refresh_lock_running r clock (suc clock) (owner_of 1 (suc clock))).0
            (suc clock))
        held
      ∙ ap (λ m. after_mark m.0 (suc clock))
          (marked (record row { fingerprint = running (owner_of 0 clock) }) (suc clock)
            (owner_of 1 (suc clock))) in
    (s8, clock, suc clock, r8, first_holds, second_holds, omega arith, omega arith)
