-- ===== src/Intelligence/Lock/Updates.antt =====
-- Loading the row, marking it and releasing it keep the invariant.
use xdp_firewall.Prelude.{
  ℕ, ◌≡◌, refl, sym, ap, subst, ◌∙◌, inl, inr, true, arith, ◌==◌, absurd_true, &&-eq_true,
  Bool-cases, ==→eq,
}
use xdp_firewall.Intelligence.Lock.{
  Owner, Fingerprint, idle, running, LockRow, threat_refresh_lock_is_busy,
  mark_threat_refresh_lock_running, release_threat_refresh_lock, is_owned_by,
}
use xdp_firewall.Intelligence.Lock.System.{
  Phase, away, ensured, loaded, holding, releasing, update, owner_of, after_test, after_mark,
}
use xdp_firewall.Intelligence.Lock.Invariant.{Writes, Saw, Inv, moved, leaves}
use xdp_firewall.Intelligence.Lock.Preserved.{held_is_busy}

-- Loading, where the row is not busy.
pub load-Inv :
    (row : LockRow) (clock i now : ℕ) (phase : ℕ → Phase)
    → Inv row clock phase
    → phase i ≡ ensured now
    → Inv row clock (update phase i (after_test (threat_refresh_lock_is_busy row now) now row))
load-Inv row clock i now phase inv e = elim (Bool-cases (threat_refresh_lock_is_busy row now)) [
  | inl busy ↦ rw busy (leaves row clock phase i inv)
  | inr free ↦ rw free (
      let mine : (t : ℕ) → now ≡ t → Writes (phase i) t =
        λ t w. subst (λ p. Writes p t) (sym e) w in
      moved row row clock clock phase i (loaded now row.last_checked_at) inv (omega arith)
        inv.row_past
        (record {
          writes_past = λ t w. (inv.single i).writes_past t (mine t w);
          saw_past = λ t v. omega (arith, inv.row_past);
          holds_past = λ t w. absurd w;
          writes_new = λ t w. (inv.single i).writes_new t (mine t w);
          held = λ t w. absurd w;
        })
        (λ j _. inv.single j)
        (record {
          writes_unseen = λ t w v. (inv.single i).writes_new t (mine t w) v;
          writes_own = λ t w v. refl;
          writes_unheld = λ t w v. v;
          held_unseen = λ t w. absurd w;
        })
        (λ j _. record {
          writes_unseen = λ t w. (inv.pair i j).writes_unseen t (mine t w);
          writes_own = λ t w. (inv.pair i j).writes_own t (mine t w);
          writes_unheld = λ t w. (inv.pair i j).writes_unheld t (mine t w);
          held_unseen = λ t w. absurd w;
        })
        (λ j _. record {
          writes_unseen = λ t w v. (inv.single j).writes_new t w v;
          writes_own = λ t w v. (inv.pair j i).writes_own t w (mine t v);
          writes_unheld = λ t w v. v;
          held_unseen = λ t w lt v.
              let (owned, time) = (inv.single j).held t w lt in
              absurd_true
                (held_is_busy row now clock t (owner_of j t) owned time
                  ((inv.single i).writes_past now (mine now refl)) lt)
                free;
        }))
]

pub mark-Inv :
    (row : LockRow) (clock i now seen : ℕ) (phase : ℕ → Phase)
    → Inv row clock phase
    → phase i ≡ loaded now seen
    → Inv (mark_threat_refresh_lock_running row seen now (owner_of i now)).1 clock (
        update phase i
          (after_mark (mark_threat_refresh_lock_running row seen now (owner_of i now)).0 now))
unfolding mark_threat_refresh_lock_running
mark-Inv row clock i now seen phase inv e = elim (Bool-cases (row.last_checked_at == seen)) [
  | inr changed ↦ rw changed (leaves row clock phase i inv)
  | inl same ↦ rw same (
      let mine : (t : ℕ) → now ≡ t → Writes (phase i) t =
        λ t w. subst (λ p. Writes p t) (sym e) w in
      let saw : Saw (phase i) row.last_checked_at =
        subst (λ p. Saw p row.last_checked_at) (sym e)
          (sym (==→eq row.last_checked_at seen same)) in
      moved row (record row { fingerprint = running (owner_of i now); last_checked_at = now }) clock
        clock phase i (holding now) inv (omega arith)
        ((inv.single i).writes_past now (mine now refl))
        (record {
          writes_past = λ t w. absurd w;
          saw_past = λ t w. absurd w;
          holds_past = λ t w. (inv.single i).writes_past t (mine t w);
          writes_new = λ t w. absurd w;
          held = λ t w lt. (ap (λ x. running (owner_of i x)) w, w);
        })
        (λ j other. record {
          writes_past = (inv.single j).writes_past;
          saw_past = (inv.single j).saw_past;
          holds_past = (inv.single j).holds_past;
          writes_new = λ t w v. other ((inv.pair i j).writes_own t (mine t v) w);
          held = λ t w lt. absurd (
              (inv.pair j i).held_unseen t w lt
                (subst (Saw (phase i)) ((inv.single j).held t w lt).1 saw));
        })
        (record {
          writes_unseen = λ t w. absurd w;
          writes_own = λ t w. absurd w;
          writes_unheld = λ t w. absurd w;
          held_unseen = λ t w lt v. v;
        })
        (λ j other. record {
          writes_unseen = λ t w. absurd w;
          writes_own = λ t w. absurd w;
          writes_unheld = λ t w. absurd w;
          held_unseen = λ t w lt. (inv.pair i j).writes_unseen t (mine t w);
        })
        (λ j other. record {
          writes_unseen = λ t w v. v;
          writes_own = λ t w v. absurd v;
          writes_unheld = λ t w v. other ((inv.pair i j).writes_own t (mine t v) w);
          held_unseen = λ t w lt v. v;
        }))
]

owned_process :
    (a b : Owner) (f : Fingerprint) → is_owned_by a f ≡ true → f ≡ running b → b.process ≡ a.process
owned_process a b f h e =
    ==→eq b.process a.process
      (&&-eq_true (b.process == a.process) (b.time == a.time) (ap (is_owned_by a) (sym e) ∙ h)).0

pub release-Inv :
    (row : LockRow) (clock i now time : ℕ) (phase : ℕ → Phase)
    → Inv row clock phase
    → phase i ≡ releasing now time
    → Inv (release_threat_refresh_lock row (owner_of i now) time) clock (update phase i away)
unfolding release_threat_refresh_lock
release-Inv row clock i now time phase inv e =
    elim (Bool-cases (is_owned_by (owner_of i now) row.fingerprint)) [
      | inr foreign ↦ rw foreign (leaves row clock phase i inv)
      | inl owned ↦ rw owned (
          let mine : (t : ℕ) → time ≡ t → Writes (phase i) t =
            λ t w. subst (λ p. Writes p t) (sym e) w in
          moved row (record row { fingerprint = idle; last_checked_at = time }) clock clock phase i
            away inv (omega arith) ((inv.single i).writes_past time (mine time refl))
            (record {
              writes_past = λ t w. absurd w;
              saw_past = λ t w. absurd w;
              holds_past = λ t w. absurd w;
              writes_new = λ t w. absurd w;
              held = λ t w. absurd w;
            })
            (λ j other. record {
              writes_past = (inv.single j).writes_past;
              saw_past = (inv.single j).saw_past;
              holds_past = (inv.single j).holds_past;
              writes_new = λ t w v. other ((inv.pair i j).writes_own t (mine t v) w);
              held = λ t w lt. absurd (
                  other (
                    sym (
                      owned_process (owner_of i now) (owner_of j t) row.fingerprint owned
                        ((inv.single j).held t w lt).0)));
            })
            (record {
              writes_unseen = λ t w. absurd w;
              writes_own = λ t w. absurd w;
              writes_unheld = λ t w. absurd w;
              held_unseen = λ t w. absurd w;
            })
            (λ j other. record {
              writes_unseen = λ t w. absurd w;
              writes_own = λ t w. absurd w;
              writes_unheld = λ t w. absurd w;
              held_unseen = λ t w. absurd w;
            })
            (λ j other. record {
              writes_unseen = λ t w v. v;
              writes_own = λ t w v. absurd v;
              writes_unheld = λ t w v. v;
              held_unseen = λ t w lt v. v;
            }))
    ]
