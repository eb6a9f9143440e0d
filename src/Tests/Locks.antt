-- ===== src/Tests/Locks.antt =====
-- The refresh lock, with two processes.
use xdp_firewall.Prelude.{ℕ, ◌+◌, ◌*◌, ◌<◌, ◌≡◌, refl, some, arith, true, false}
use xdp_firewall.Intelligence.Lock.{
  LockRow, idle, running, threat_refresh_lock_is_busy, ensure_threat_refresh_lock_row,
  mark_threat_refresh_lock_running, release_threat_refresh_lock, nanos, lease_is_fresh,
}
use xdp_firewall.Intelligence.Lock.System.{
  away, begun, ensured, loaded, holding, System, update, owner_of, begin, ensure, load, mark, Reach,
  here, next,
}
use xdp_firewall.Intelligence.Lock.Invariant.{lease}
use xdp_firewall.Intelligence.Lock.Exclusive.{IsQuiet, lock_exclusive}
use xdp_firewall.Intelligence.Lock.Available.{AloneReach, lock_available}
use xdp_firewall.Intelligence.Lock.Race.{empty_at, missing_row_races}

abbrev idle_row : LockRow
idle_row = record { fingerprint = idle; last_checked_at = 10; updated_at = 10 }

abbrev quiet : System
quiet = record { row = some idle_row; clock = 100; phase = λ i. away }

quiet-IsQuiet : IsQuiet quiet
quiet-IsQuiet = record { row = idle_row; is_row = refl; past = omega arith; all_away = λ i. refl }

-- process 3 takes the lock
abbrev started : System
started = record quiet { clock = 101; phase = update (λ i. away) 3 (begun 100) }

abbrev with_row : System
with_row = record started { phase = update started.phase 3 (ensured 100) }

abbrev with_view : System
with_view = record with_row { phase = update with_row.phase 3 (loaded 100 10) }

abbrev taken : System
taken = record with_view {
  row = some (record idle_row { fingerprint = running (owner_of 3 100); last_checked_at = 100 });
  phase = update with_view.phase 3 (holding 100);
}

quiet-started : Reach quiet started
quiet-started = next here (begin 3 refl)

quiet-with_row : Reach quiet with_row
unfolding ensure_threat_refresh_lock_row
quiet-with_row = next quiet-started (ensure 3 100 refl)

quiet-with_view : Reach quiet with_view
unfolding threat_refresh_lock_is_busy
quiet-with_view = next quiet-with_row (load 3 100 idle_row refl refl)

quiet-taken : Reach quiet taken
unfolding mark_threat_refresh_lock_running
quiet-taken = next quiet-with_view (mark 3 100 10 idle_row refl refl)

abbrev winner : ℕ
winner = 3

lock_exclusive_example : winner ≡ winner
lock_exclusive_example =
    lock_exclusive quiet taken winner winner 100 100 quiet-IsQuiet quiet-taken refl refl
      (omega arith) (omega arith)

lock_available_example : (u : System) × (now : ℕ) × AloneReach 4 taken u × (u.phase 4 ≡ holding now)
lock_available_example = lock_available quiet taken 4 quiet-IsQuiet quiet-taken refl

missing_row_races_example :
    (t : System) × (a : ℕ) × (b : ℕ) × Reach (empty_at 50) t
    × (t.phase 0 ≡ holding a)
    × (t.phase 1 ≡ holding b)
    × (t.clock < a + lease)
    × (t.clock < b + lease)
missing_row_races_example = missing_row_races 50

busy_row : LockRow
busy_row = record { fingerprint = running (owner_of 1 5); last_checked_at = 5; updated_at = 0 }

busy_until_stale : threat_refresh_lock_is_busy busy_row (899 * nanos + 4) ≡ true
unfolding threat_refresh_lock_is_busy lease_is_fresh busy_row
busy_until_stale = refl

free_when_stale : threat_refresh_lock_is_busy busy_row (900 * nanos + 5) ≡ false
unfolding threat_refresh_lock_is_busy lease_is_fresh busy_row
free_when_stale = refl

release_other : release_threat_refresh_lock busy_row (owner_of 2 5) 7 ≡ busy_row
unfolding release_threat_refresh_lock busy_row
release_other = refl
