-- ===== src/Intelligence/Lock/System.antt =====
-- The processes that use the lock, as a step relation: each statement on the database is one step, and
-- the steps of several processes interleave in any order. The clock gives no time twice.
use xdp_firewall.Prelude.{ℕ, suc, ◌+◌, ◌≡◌, Bool, true, false, Option, some, ◌==◌, if◌then◌else◌}
use xdp_firewall.Intelligence.Lock.{
  Owner, LockRow, threat_refresh_lock_is_busy, ensure_threat_refresh_lock_row,
  mark_threat_refresh_lock_running, release_threat_refresh_lock,
}

-- Where a process is in try_acquire, with what it read before: the time, then the time of the row.
pub data Phase : Type 0 where
  away : Phase
  begun : ℕ → Phase
  ensured : ℕ → Phase
  loaded : ℕ → ℕ → Phase
  holding : ℕ → Phase
  -- the lock is dropped; the time of the attempt, and the time that the release will write
  releasing : ℕ → ℕ → Phase

pub record System : Type 0 where
  pub row : Option LockRow
  pub clock : ℕ
  pub phase : ℕ → Phase

abbrev pub update : (ℕ → Phase) → ℕ → Phase → ℕ → Phase
update f i p j = if i == j then p else f j

abbrev pub owner_of : ℕ → ℕ → Owner
owner_of process time = record { process = process; time = time }

-- what a process goes on with after the test of the row
abbrev pub after_test : Bool → ℕ → LockRow → Phase
after_test true now row = away
after_test false now row = loaded now row.last_checked_at

-- after the update
abbrev pub after_mark : Bool → ℕ → Phase
after_mark true now = holding now
after_mark false now = away

pub data Step (s : System) : System → Type 0 where
  -- time passes
  tick : (n : ℕ) → Step s (record s { clock = s.clock + n })
  -- try_acquire reads the time
  begin :
      (i : ℕ)
      → s.phase i ≡ away
      → Step s (record s { clock = suc s.clock; phase = update s.phase i (begun s.clock) })
  ensure :
      (i now : ℕ)
      → s.phase i ≡ begun now
      → Step s (record s {
        row = some (ensure_threat_refresh_lock_row s.row now);
        phase = update s.phase i (ensured now);
      })
  load :
      (i now : ℕ) (row : LockRow)
      → s.phase i ≡ ensured now
      → s.row ≡ some row
      → Step s (record s {
        phase = update s.phase i (after_test (threat_refresh_lock_is_busy row now) now row);
      })
  mark :
      (i now seen : ℕ) (row : LockRow)
      → s.phase i ≡ loaded now seen
      → s.row ≡ some row
      → Step s (record s {
        row = some (mark_threat_refresh_lock_running row seen now (owner_of i now)).1;
        phase =
            update s.phase i
              (after_mark (mark_threat_refresh_lock_running row seen now (owner_of i now)).0 now);
      })
  -- the task of drop reads the time
  drop :
      (i now : ℕ)
      → s.phase i ≡ holding now
      → Step s (record s { clock = suc s.clock; phase = update s.phase i (releasing now s.clock) })
  release :
      (i now time : ℕ) (row : LockRow)
      → s.phase i ≡ releasing now time
      → s.row ≡ some row
      → Step s (record s {
        row = some (release_threat_refresh_lock row (owner_of i now) time);
        phase = update s.phase i away;
      })
  -- a process ends without its release
  crash : (i : ℕ) → Step s (record s { phase = update s.phase i away })

pub data Reach (s : System) : System → Type 0 where
  here : Reach s s
  next : {t u : System} → Reach s t → Step t u → Reach s u
