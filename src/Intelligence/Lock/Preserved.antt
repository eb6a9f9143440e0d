-- ===== src/Intelligence/Lock/Preserved.antt =====
-- The steps that leave the row as it is keep the invariant.
use xdp_firewall.Prelude.{
  ℕ, suc, ◌+◌, ◌-◌, ◌/◌, ◌<◌, ◌≡◌, refl, sym, subst, inl, inr, true, some, arith, ltb,
  if◌then◌else◌, Bool-cases, max,
}
use xdp_firewall.Intelligence.Lock.{
  Owner, running, LockRow, refresh_lock_stale_seconds, nanos, lease_is_fresh,
  threat_refresh_lock_is_busy, ensure_threat_refresh_lock_row,
}
use xdp_firewall.Intelligence.Lock.System.{Phase, begun, ensured, update}
use xdp_firewall.Intelligence.Lock.Invariant.{
  lease, Writes, Saw, Holds, Pair, Inv, Pair-later, Single-later, moved,
}

pub tick-Inv :
    (row : LockRow) (clock n : ℕ) (phase : ℕ → Phase)
    → Inv row clock phase
    → Inv row (clock + n) phase
tick-Inv row clock n phase inv = record {
  row_past = omega (arith, inv.row_past);
  single = λ i. Single-later row clock (clock + n) i (phase i) (omega arith) (inv.single i);
  pair = λ i j. Pair-later clock (clock + n) i (phase i) j (phase j) (omega arith) (inv.pair i j);
}

-- A process with a new time of the clock, that it may write later and that holds nothing.
pub fresh :
    (row : LockRow) (clock i : ℕ) (phase : ℕ → Phase) (p : Phase)
    → Inv row clock phase
    → ((t : ℕ) → Writes p t → clock ≡ t)
    → ((t : ℕ) → ¬ Saw p t)
    → ((t : ℕ) → ¬ Holds p t)
    → Inv row (suc clock) (update phase i p)
fresh row clock i phase p inv writes saw holds =
    moved row row clock (suc clock) phase i p inv (omega arith) (omega (arith, inv.row_past))
      (record {
        writes_past = λ t w. omega (arith, writes t w);
        saw_past = λ t w. absurd (saw t w);
        holds_past = λ t w. absurd (holds t w);
        writes_new = λ t w e. absurd (omega (arith, writes t w, inv.row_past));
        held = λ t w lt. absurd (holds t w);
      })
      (λ j _. Single-later row clock (suc clock) j (phase j) (omega arith) (inv.single j))
      (record {
        writes_unseen = λ t w. saw t;
        writes_own = λ t w v. refl;
        writes_unheld = λ t w. holds t;
        held_unseen = λ t w. absurd (holds t w);
      })
      (λ j _. record {
        writes_unseen = λ t w v. absurd (omega (arith, writes t w, (inv.single j).saw_past t v));
        writes_own = λ t w v. absurd (omega (arith, writes t w, (inv.single j).writes_past t v));
        writes_unheld = λ t w v. absurd (omega (arith, writes t w, (inv.single j).holds_past t v));
        held_unseen = λ t w. absurd (holds t w);
      })
      (λ j _. record {
        writes_unseen = λ t w. saw t;
        writes_own = λ t w v. absurd (omega (arith, writes t v, (inv.single j).writes_past t w));
        writes_unheld = λ t w. holds t;
        held_unseen = λ t w lt. saw t;
      })

-- A process that goes on with the times that it had.
pub same_times :
    (row : LockRow) (clock i : ℕ) (phase : ℕ → Phase) (p : Phase)
    → Inv row clock phase
    → ((t : ℕ) → Writes p t → Writes (phase i) t)
    → ((t : ℕ) → Saw p t → Saw (phase i) t)
    → ((t : ℕ) → Holds p t → Holds (phase i) t)
    → Inv row clock (update phase i p)
same_times row clock i phase p inv writes saw holds =
    moved row row clock clock phase i p inv (omega arith) inv.row_past
      (record {
        writes_past = λ t w. (inv.single i).writes_past t (writes t w);
        saw_past = λ t w. (inv.single i).saw_past t (saw t w);
        holds_past = λ t w. (inv.single i).holds_past t (holds t w);
        writes_new = λ t w. (inv.single i).writes_new t (writes t w);
        held = λ t w. (inv.single i).held t (holds t w);
      })
      (λ j _. inv.single j) (pair_with i p writes saw holds)
      (λ j _. record {
        writes_unseen = λ t w. (inv.pair i j).writes_unseen t (writes t w);
        writes_own = λ t w. (inv.pair i j).writes_own t (writes t w);
        writes_unheld = λ t w. (inv.pair i j).writes_unheld t (writes t w);
        held_unseen = λ t w. (inv.pair i j).held_unseen t (holds t w);
      })
      (λ j _. record {
        writes_unseen = λ t w v. (inv.pair j i).writes_unseen t w (saw t v);
        writes_own = λ t w v. (inv.pair j i).writes_own t w (writes t v);
        writes_unheld = λ t w v. (inv.pair j i).writes_unheld t w (holds t v);
        held_unseen = λ t w lt v. (inv.pair j i).held_unseen t w lt (saw t v);
      })
  where
    pair_with :
        (i : ℕ) (p : Phase)
        → ((t : ℕ) → Writes p t → Writes (phase i) t)
        → ((t : ℕ) → Saw p t → Saw (phase i) t)
        → ((t : ℕ) → Holds p t → Holds (phase i) t)
        → Pair clock i p i p
    pair_with i p writes saw holds = record {
      writes_unseen = λ t w v. (inv.pair i i).writes_unseen t (writes t w) (saw t v);
      writes_own = λ t w v. refl;
      writes_unheld = λ t w v. (inv.pair i i).writes_unheld t (writes t w) (holds t v);
      held_unseen = λ t w lt v. (inv.pair i i).held_unseen t (holds t w) lt (saw t v);
    }

pub ensure-Inv :
    (row : LockRow) (clock i now : ℕ) (phase : ℕ → Phase)
    → Inv row clock phase
    → phase i ≡ begun now
    → Inv (ensure_threat_refresh_lock_row (some row) now) clock (update phase i (ensured now))
unfolding ensure_threat_refresh_lock_row
ensure-Inv row clock i now phase inv e =
    same_times row clock i phase (ensured now) inv (λ t w. subst (λ p. Writes p t) (sym e) w)
      (λ t w. absurd w) (λ t w. absurd w)

lease_fresh-max :
    (last now : ℕ)
    → now < last + lease
    → (if ltb now last then true else ltb ((now - last) / nanos) refresh_lock_stale_seconds) ≡ true
lease_fresh-max last now h = elim (Bool-cases (ltb now last)) [
  | inl early ↦ rw early refl
  | inr late ↦ rw late (ground arith)
]

lease_runs :
    (last updated now : ℕ)
    → now < last + lease
    → lease_is_fresh last updated now refresh_lock_stale_seconds ≡ true
unfolding lease_is_fresh
lease_runs last updated now h = lease_fresh-max (max last updated) now (omega arith)

-- A row that a holder with a running lease is in is busy for everyone.
pub held_is_busy :
    (row : LockRow) (now clock t : ℕ) (owner : Owner)
    → row.fingerprint ≡ running owner
    → row.last_checked_at ≡ t
    → now < clock
    → clock < t + lease
    → threat_refresh_lock_is_busy row now ≡ true
unfolding threat_refresh_lock_is_busy
held_is_busy row now clock t owner e k h lt =
    rw e (lease_runs row.last_checked_at row.updated_at now (omega arith))
