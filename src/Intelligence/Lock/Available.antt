-- ===== src/Intelligence/Lock/Available.antt =====
-- The lock can always be had again.
use xdp_firewall.Prelude.{
  ℕ, suc, ◌+◌, ◌-◌, ◌/◌, ◌≤◌, ◌≡◌, refl, ap, ◌∙◌, Bool, true, false, ◌&&◌, Option, some, arith, ltb,
  ==_refl, if◌then◌else◌, max,
}
use xdp_firewall.Intelligence.Lock.{
  LockRow, is_running, nanos, refresh_lock_stale_seconds, lease_is_fresh,
  threat_refresh_lock_is_busy, ensure_threat_refresh_lock_row, mark_threat_refresh_lock_running,
}
use xdp_firewall.Intelligence.Lock.System.{
  Phase, away, begun, ensured, loaded, holding, System, update, owner_of, after_test, after_mark,
  tick, begin, ensure, load, mark, drop, release, crash, Step, Reach,
}
use xdp_firewall.Intelligence.Lock.Invariant.{lease}
use xdp_firewall.Intelligence.Lock.Exclusive.{IsQuiet, IsQuiet-Inv, Reach-Inv}

-- A step that leaves the other processes alone: time passes, or the process `i` does something other
-- than to crash.
abbrev IsOwn : ℕ → {s t : System} → Step s t → Type 0
IsOwn i (tick time) = Unit
IsOwn i (begin j at) = j ≡ i
IsOwn i (ensure j now at) = j ≡ i
IsOwn i (load j now row at there) = j ≡ i
IsOwn i (mark j now seen row at there) = j ≡ i
IsOwn i (drop j now at) = j ≡ i
IsOwn i (release j now time row at there) = j ≡ i
IsOwn i (crash j) = ⊥

-- What the process `i` can bring about by its own steps, with the others at rest.
pub data AloneReach (i : ℕ) (s : System) : System → Type 0 where
  here : AloneReach i s s
  next : {t u : System} → AloneReach i s t → (step : Step t u) → IsOwn i step → AloneReach i s u

expired-max :
    (last now : ℕ)
    → last + lease ≤ now
    → (if ltb now last then true else ltb ((now - last) / nanos) refresh_lock_stale_seconds) ≡ false
expired-max last now h = ground arith

expired :
    (last updated now : ℕ)
    → last + updated + lease ≤ now
    → lease_is_fresh last updated now refresh_lock_stale_seconds ≡ false
unfolding lease_is_fresh
expired last updated now h = expired-max (max last updated) now (omega arith)

and_false : (b : Bool) → (b && false) ≡ false
and_false true = refl
and_false false = refl

pub not_busy :
    (row : LockRow) (now : ℕ)
    → row.last_checked_at + row.updated_at + lease ≤ now
    → threat_refresh_lock_is_busy row now ≡ false
unfolding threat_refresh_lock_is_busy
not_busy row now h =
    ap (λ b. is_running row.fingerprint && b) (expired row.last_checked_at row.updated_at now h)
    ∙ and_false (is_running row.fingerprint)

update_self : (f : ℕ → Phase) (i : ℕ) (p : Phase) → update f i p i ≡ p
update_self f i p = rw (==_refl i)

marked :
    (row : LockRow) (now i : ℕ)
    → (mark_threat_refresh_lock_running row row.last_checked_at now (owner_of i now)).0 ≡ true
unfolding mark_threat_refresh_lock_running
marked row now i = rw (==_refl row.last_checked_at)

ensured_row :
    (o : Option LockRow) (row : LockRow) (now : ℕ)
    → o ≡ some row
    → some (ensure_threat_refresh_lock_row o now) ≡ some row
unfolding ensure_threat_refresh_lock_row
ensured_row o row now e = rw e

acquire :
    (s : System) (row : LockRow) (i : ℕ)
    → s.row ≡ some row
    → s.phase i ≡ away
    → (u : System) × AloneReach i s u
      × (u.phase i ≡ holding (s.clock + (row.last_checked_at + row.updated_at + lease)))
acquire s row i is_row is_away =
    let wait : ℕ = row.last_checked_at + row.updated_at + lease in
    let now : ℕ = s.clock + wait in
    let free = not_busy row now (omega arith) in
    let s1 : System = record s { clock = now } in
    let s2 : System = record s1 { clock = suc now; phase = update s.phase i (begun now) } in
    let s3 : System = record s2 {
      row = some (ensure_threat_refresh_lock_row s.row now);
      phase = update s2.phase i (ensured now);
    } in
    let there : s3.row ≡ some row = ensured_row s.row row now is_row in
    let s4 : System = record s3 {
      phase = update s3.phase i (after_test (threat_refresh_lock_is_busy row now) now row);
    } in
    let in_s4 : s4.phase i ≡ loaded now row.last_checked_at =
      update_self s3.phase i (after_test (threat_refresh_lock_is_busy row now) now row)
      ∙ ap (λ b. after_test b now row) free in
    let u : System = record s4 {
      row = some (mark_threat_refresh_lock_running row row.last_checked_at now (owner_of i now)).1;
      phase = update s4.phase i (
          after_mark
            (mark_threat_refresh_lock_running row row.last_checked_at now (owner_of i now)).0 now);
    } in
    let r1 : AloneReach i s s1 = next here (tick wait) tt in
    let r2 : AloneReach i s s2 = next r1 (begin i is_away) refl in
    let r3 : AloneReach i s s3 = next r2 (ensure i now (update_self s.phase i (begun now))) refl in
    let r4 : AloneReach i s s4 =
      next r3 (load i now row (update_self s2.phase i (ensured now)) there) refl in
    let r5 : AloneReach i s u = next r4 (mark i now row.last_checked_at row in_s4 there) refl in
    (
      u,
      r5,
      update_self s4.phase i (
            after_mark
              (mark_threat_refresh_lock_running row row.last_checked_at now (owner_of i now)).0 now)
          ∙ ap (λ b. after_mark b now) (marked row now i),
    )

-- The lock is never lost: from every state that the processes can reach from a quiet one, crashes of
-- holders included, there is a sequence of steps that ends with the lock held by a given process that
-- is not under way, and in which nothing happens but that time passes and that this process acts.
pub lock_available :
    (s t : System) (i : ℕ)
    → IsQuiet s
    → Reach s t
    → t.phase i ≡ away
    → (u : System) × (now : ℕ) × AloneReach i t u × (u.phase i ≡ holding now)
lock_available s t i q r is_away =
    let (row, e, inv) = Reach-Inv (IsQuiet-Inv s q) r in
    let (u, reach, holds) = acquire t row i e is_away in
    (u, t.clock + (row.last_checked_at + row.updated_at + lease), reach, holds)
