-- ===== src/Intelligence/Lock.antt =====
-- src/intelligence/refresh_lock.rs and src/intelligence/threat/lock.rs: the lock in the database under
-- which one process refreshes the threat lists. Times are numbers of nanoseconds. An owner is the
-- number of its process and the time of its attempt, which `lock_owner` prints as one text.
pub mod System
pub mod Invariant
pub mod Preserved
pub mod Updates
pub mod Exclusive
pub mod Available
pub mod Race
use xdp_firewall.Prelude.{
  ℕ, ◌+◌, ◌-◌, ◌*◌, ◌/◌, ◌^◌, ◌&&◌, Bool, true, false, Option, none, some, ltb, ◌==◌, if◌then◌else◌,
  max,
}

pub record Owner : Type 0 where
  pub process : ℕ
  pub time : ℕ

abbrev pub owner_eq : Owner → Owner → Bool
owner_eq a b = a.process == b.process && a.time == b.time

-- the fingerprint: `idle`, or `running:` with the owner
pub data Fingerprint : Type 0 where
  idle : Fingerprint
  running : Owner → Fingerprint

pub record LockRow : Type 0 where
  pub fingerprint : Fingerprint
  pub last_checked_at : ℕ
  pub updated_at : ℕ

abbrev pub refresh_lock_stale_seconds : ℕ
refresh_lock_stale_seconds = 900

abbrev pub nanos : ℕ
nanos = 1000000000

-- `(now - lease_updated_at).num_seconds() < stale_seconds`; a negative duration is below every one
unfoldable pub lease_is_fresh : ℕ → ℕ → ℕ → ℕ → Bool
lease_is_fresh last_checked_at updated_at now stale_seconds =
    let lease_updated_at = max last_checked_at updated_at in
    if ltb now lease_updated_at then true else ltb ((now - lease_updated_at) / nanos) stale_seconds

abbrev pub is_running : Fingerprint → Bool
is_running idle = false
is_running (running owner) = true

unfoldable pub threat_refresh_lock_is_busy : LockRow → ℕ → Bool
unfolding lease_is_fresh
threat_refresh_lock_is_busy existing now =
    is_running existing.fingerprint
    && lease_is_fresh existing.last_checked_at existing.updated_at now refresh_lock_stale_seconds

-- An insert that leaves an existing row as it is.
unfoldable pub ensure_threat_refresh_lock_row : Option LockRow → ℕ → LockRow
ensure_threat_refresh_lock_row (some row) now = row
ensure_threat_refresh_lock_row none now = record {
  fingerprint = idle;
  last_checked_at = now;
  updated_at = now;
}

-- An update of the row, filtered by the time that was loaded; whether a row was affected, and the row.
unfoldable pub mark_threat_refresh_lock_running : LockRow → ℕ → ℕ → Owner → Bool × LockRow
mark_threat_refresh_lock_running row existing_last_checked_at now owner =
    if row.last_checked_at == existing_last_checked_at
    then (true, record row { fingerprint = running owner; last_checked_at = now })
    else (false, row)

abbrev pub is_owned_by : Owner → Fingerprint → Bool
is_owned_by owner idle = false
is_owned_by owner (running other) = owner_eq other owner

-- An update of the row, filtered by the owner.
unfoldable pub release_threat_refresh_lock : LockRow → Owner → ℕ → LockRow
release_threat_refresh_lock row owner now =
    if is_owned_by owner row.fingerprint
    then record row { fingerprint = idle; last_checked_at = now }
    else row
