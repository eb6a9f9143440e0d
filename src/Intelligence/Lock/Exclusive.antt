-- ===== src/Intelligence/Lock/Exclusive.antt =====
-- One holder at a time, while the leases last.
use xdp_firewall.Prelude.{ℕ, ◌+◌, ◌<◌, ◌≡◌, refl, sym, subst, ◌∙◌, some}
use xdp_firewall.Intelligence.Lock.{Owner, running, LockRow, ensure_threat_refresh_lock_row}
use xdp_firewall.Intelligence.Lock.System.{
  away, begun, ensured, holding, releasing, System, update, owner_of, Step, tick, begin, ensure,
  load, mark, drop, release, crash, Reach, here, next,
}
use xdp_firewall.Intelligence.Lock.Invariant.{lease, Holds, Inv, Inv-away, leaves}
use xdp_firewall.Intelligence.Lock.Preserved.{tick-Inv, fresh, ensure-Inv}
use xdp_firewall.Intelligence.Lock.Updates.{load-Inv, mark-Inv, release-Inv}

-- The row exists, and the invariant holds.
abbrev pub InvOf : System → Type 0
InvOf s = (row : LockRow) × (s.row ≡ some row) × Inv row s.clock s.phase

some-injective {ℓ} : {A : Type ℓ} {a b : A} → some a ≡ some b → a ≡ b
some-injective h = cc

-- A row that was loaded is the row.
with_row : (s : System) (row : LockRow) → InvOf s → s.row ≡ some row → Inv row s.clock s.phase
with_row s row (r, e, inv) h = subst (λ x. Inv x s.clock s.phase) (some-injective (sym e ∙ h)) inv

same_process : (a b : Owner) → running a ≡ running b → a.process ≡ b.process
same_process a b h = cc

Step-Inv : {s t : System} → Step s t → InvOf s → InvOf t
Step-Inv {s} (tick n) (r, e, inv) = (r, e, tick-Inv r s.clock n s.phase inv)
Step-Inv {s} (begin i h) (r, e, inv) =
    (r, e, fresh r s.clock i s.phase (begun s.clock) inv (λ t w. w) (λ t v. v) (λ t v. v))
Step-Inv {s} (ensure i now h) (r, e, inv) = (
  _,
  refl,
  subst (λ o. Inv (ensure_threat_refresh_lock_row o now) s.clock (update s.phase i (ensured now)))
      (sym e) (ensure-Inv r s.clock i now s.phase inv h),
)
Step-Inv {s} (load i now row h k) inv =
    (row, k, load-Inv row s.clock i now s.phase (with_row s row inv k) h)
Step-Inv {s} (mark i now seen row h k) inv =
    (_, refl, mark-Inv row s.clock i now seen s.phase (with_row s row inv k) h)
Step-Inv {s} (drop i now h) (r, e, inv) =
    (r, e, fresh r s.clock i s.phase (releasing now s.clock) inv (λ t w. w) (λ t v. v) (λ t v. v))
Step-Inv {s} (release i now time row h k) inv =
    (_, refl, release-Inv row s.clock i now time s.phase (with_row s row inv k) h)
Step-Inv {s} (crash i) (r, e, inv) = (r, e, leaves r s.clock s.phase i inv)

pub Reach-Inv : {s t : System} → InvOf s → Reach s t → InvOf t
Reach-Inv inv here = inv
Reach-Inv inv (next r st) = Step-Inv st (Reach-Inv inv r)

-- The lock row is there, with an earlier time than the clock's, and no process is in try_acquire or
-- holds the lock.
pub record IsQuiet (s : System) : Type 0 where
  pub row : LockRow
  pub is_row : s.row ≡ some row
  pub past : row.last_checked_at < s.clock
  pub all_away : (i : ℕ) → s.phase i ≡ away

pub IsQuiet-Inv : (s : System) → IsQuiet s → InvOf s
IsQuiet-Inv s q = (q.row, q.is_row, Inv-away q.row s.clock s.phase q.past q.all_away)

-- From a state in which the lock row exists and no process is under way, whatever the processes do
-- and however their statements interleave, crashes included: two processes that hold the lock, both
-- within their leases of 900 seconds, are one process.
pub lock_exclusive :
    (s t : System) (i j : ℕ) (a b : ℕ)
    → IsQuiet s
    → Reach s t
    → t.phase i ≡ holding a
    → t.phase j ≡ holding b
    → t.clock < a + lease
    → t.clock < b + lease
    → i ≡ j
lock_exclusive s t i j a b q r hi hj la lb =
    let (row, e, inv) = Reach-Inv (IsQuiet-Inv s q) r in
    let mine = (inv.single i).held a (subst (λ p. Holds p a) (sym hi) refl) la in
    let yours = (inv.single j).held b (subst (λ p. Holds p b) (sym hj) refl) lb in
    same_process (owner_of i a) (owner_of j b) (sym mine.0 ∙ yours.0)
