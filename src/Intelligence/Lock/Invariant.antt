-- ===== src/Intelligence/Lock/Invariant.antt =====
-- The invariant of the system, and what each change of one process needs to keep it.
use xdp_firewall.Prelude.{
  ℕ, ◌+◌, ◌*◌, ◌≤◌, ◌<◌, ◌≡◌, ◌≢◌, sym, ap, subst, ◌∙◌, inl, inr, arith, ◌==◌, absurd_true,
  Bool-cases, ==→eq, ==_refl,
}
use xdp_firewall.Intelligence.Lock.{running, LockRow, refresh_lock_stale_seconds, nanos}
use xdp_firewall.Intelligence.Lock.System.{
  Phase, away, begun, ensured, loaded, holding, releasing, update, owner_of,
}

abbrev pub lease : ℕ
lease = refresh_lock_stale_seconds * nanos

-- a time that a process may still write into the row
abbrev pub Writes : Phase → ℕ → Type 0
Writes (begun now) t = now ≡ t
Writes (ensured now) t = now ≡ t
Writes (loaded now seen) t = now ≡ t
Writes (releasing now time) t = time ≡ t
Writes _ t = ⊥

-- the time that a process loaded from the row
abbrev pub Saw : Phase → ℕ → Type 0
Saw (loaded now seen) t = seen ≡ t
Saw _ t = ⊥

abbrev pub Holds : Phase → ℕ → Type 0
Holds (holding now) t = now ≡ t
Holds _ t = ⊥

-- One process, in a system with the row `row`.
pub record Single (row : LockRow) (clock i : ℕ) (p : Phase) : Type 0 where
  pub writes_past : (t : ℕ) → Writes p t → t < clock
  pub saw_past : (t : ℕ) → Saw p t → t < clock
  pub holds_past : (t : ℕ) → Holds p t → t < clock
  -- a time that may be written is not in the row yet
  pub writes_new : (t : ℕ) → Writes p t → row.last_checked_at ≢ t
  -- a holder whose lease runs is in the row
  pub held :
      (t : ℕ)
      → Holds p t
      → clock < t + lease
      → (row.fingerprint ≡ running (owner_of i t)) × (row.last_checked_at ≡ t)

-- Two processes.
pub record Pair (clock i : ℕ) (p : Phase) (j : ℕ) (q : Phase) : Type 0 where
  pub writes_unseen : (t : ℕ) → Writes p t → ¬ Saw q t
  pub writes_own : (t : ℕ) → Writes p t → Writes q t → i ≡ j
  pub writes_unheld : (t : ℕ) → Writes p t → ¬ Holds q t
  pub held_unseen : (t : ℕ) → Holds p t → clock < t + lease → ¬ Saw q t

pub record Inv (row : LockRow) (clock : ℕ) (phase : ℕ → Phase) : Type 0 where
  pub row_past : row.last_checked_at < clock
  pub single : (i : ℕ) → Single row clock i (phase i)
  pub pair : (i j : ℕ) → Pair clock i (phase i) j (phase j)

updated :
    (Q : ℕ → Phase → Type 0) (f : ℕ → Phase) (i : ℕ) (p : Phase)
    → Q i p
    → ((j : ℕ) → i ≢ j → Q j (f j))
    → (j : ℕ) → Q j (update f i p j)
updated Q f i p self others j = elim (Bool-cases (i == j)) [
  | inl same ↦ rw same (subst (λ k. Q k p) (==→eq i j same) self)
  | inr other ↦ rw other (others j (λ e. absurd_true (ap (λ k. i == k) (sym e) ∙ ==_refl i) other))
]

pub Pair-later :
    (clock clock' i : ℕ) (p : Phase) (j : ℕ) (q : Phase)
    → clock ≤ clock'
    → Pair clock i p j q
    → Pair clock' i p j q
Pair-later clock clock' i p j q le h = record {
  writes_unseen = h.writes_unseen;
  writes_own = h.writes_own;
  writes_unheld = h.writes_unheld;
  held_unseen = λ t hold lt. h.held_unseen t hold (omega arith);
}

-- One process goes from its phase to `p`, the row and the clock with it.
pub moved :
    (row row' : LockRow) (clock clock' : ℕ) (phase : ℕ → Phase) (i : ℕ) (p : Phase)
    → Inv row clock phase
    → clock ≤ clock'
    → row'.last_checked_at < clock'
    → Single row' clock' i p
    → ((j : ℕ) → i ≢ j → Single row' clock' j (phase j))
    → Pair clock' i p i p
    → ((j : ℕ) → i ≢ j → Pair clock' i p j (phase j))
    → ((j : ℕ) → i ≢ j → Pair clock' j (phase j) i p)
    → Inv row' clock' (update phase i p)
moved row row' clock clock' phase i p inv le past self others twice to from = record {
  row_past = past;
  single = updated (Single row' clock') phase i p self others;
  pair =
      updated (λ k q. (j : ℕ) → Pair clock' k q j (update phase i p j)) phase i p
        (updated (λ j q. Pair clock' i p j q) phase i p twice to)
        (λ k other.
          updated (λ j q. Pair clock' k (phase k) j q) phase i p (from k other)
            (λ j _. Pair-later clock clock' k (phase k) j (phase j) le (inv.pair k j)));
}

pub Single-later :
    (row : LockRow) (clock clock' i : ℕ) (p : Phase)
    → clock ≤ clock'
    → Single row clock i p
    → Single row clock' i p
Single-later row clock clock' i p le h = record {
  writes_past = λ t w. omega (arith, h.writes_past t w);
  saw_past = λ t w. omega (arith, h.saw_past t w);
  holds_past = λ t w. omega (arith, h.holds_past t w);
  writes_new = h.writes_new;
  held = λ t hold lt. h.held t hold (omega arith);
}

-- A process that ends its attempt.
pub leaves :
    (row : LockRow) (clock : ℕ) (phase : ℕ → Phase) (i : ℕ)
    → Inv row clock phase
    → Inv row clock (update phase i away)
leaves row clock phase i inv =
    moved row row clock clock phase i away inv (omega arith) inv.row_past
      (record {
        writes_past = λ t w. absurd w;
        saw_past = λ t w. absurd w;
        holds_past = λ t w. absurd w;
        writes_new = λ t w. absurd w;
        held = λ t w lt. absurd w;
      })
      (λ j _. inv.single j)
      (record {
        writes_unseen = λ t w. absurd w;
        writes_own = λ t w. absurd w;
        writes_unheld = λ t w. absurd w;
        held_unseen = λ t w. absurd w;
      })
      (λ j _. record {
        writes_unseen = λ t w. absurd w;
        writes_own = λ t w. absurd w;
        writes_unheld = λ t w. absurd w;
        held_unseen = λ t w. absurd w;
      })
      (λ j _. record {
        writes_unseen = λ t w v. v;
        writes_own = λ t w v. absurd v;
        writes_unheld = λ t w v. v;
        held_unseen = λ t w lt v. v;
      })

-- The invariant where no process is under way.
pub Inv-away :
    (row : LockRow) (clock : ℕ) (phase : ℕ → Phase)
    → row.last_checked_at < clock
    → ((i : ℕ) → phase i ≡ away)
    → Inv row clock phase
Inv-away row clock phase past all_away = record {
  row_past = past;
  single = λ i. record {
    writes_past = λ t w. absurd (subst (λ p. Writes p t) (all_away i) w);
    saw_past = λ t w. absurd (subst (λ p. Saw p t) (all_away i) w);
    holds_past = λ t w. absurd (subst (λ p. Holds p t) (all_away i) w);
    writes_new = λ t w. absurd (subst (λ p. Writes p t) (all_away i) w);
    held = λ t w. absurd (subst (λ p. Holds p t) (all_away i) w);
  };
  pair = λ i j. record {
    writes_unseen = λ t w. absurd (subst (λ p. Writes p t) (all_away i) w);
    writes_own = λ t w. absurd (subst (λ p. Writes p t) (all_away i) w);
    writes_unheld = λ t w. absurd (subst (λ p. Writes p t) (all_away i) w);
    held_unseen = λ t w. absurd (subst (λ p. Holds p t) (all_away i) w);
  };
}
