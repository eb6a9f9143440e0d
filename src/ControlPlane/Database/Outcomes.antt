-- ===== src/ControlPlane/Database/Outcomes.antt =====
-- What statements and transactions leave, by their results.
use xdp_firewall.Prelude.{
  ℕ, suc, ◌≡◌, refl, sym, ap, ◌∙◌, inl, inr, Bool, Bool-cases, true, false, Option, some, List, [],
  ◌∷◌, if◌then◌else◌, Result, ok, err, Error, ok-injective, err_not_ok,
}
use xdp_firewall.Prelude.Int.{ℤ}
use xdp_firewall.Exec.{Exec, continue, pure, ◌>>=◌, ◌>>◌, Leads, bind-ok}
use xdp_firewall.Text.{Text, text_eq}
use xdp_firewall.Text.Laws.{text_eq_refl}
use xdp_firewall.ControlPlane.Database.Leads.{statement-Leads}
use xdp_firewall.ControlPlane.Database.{
  Tables, Database, statement, restore, transaction, next_policy_version_in_transaction,
  find_version, set_version, next_of,
}

pub find-set_version :
    (name : Text) (version : ℤ) (rows : List (Text × ℤ))
    → find_version name (set_version name version rows) ≡ some version
unfolding find_version set_version
find-set_version name version [] = rw (text_eq_refl name) refl
find-set_version name version ((other, old) ∷ rows) = elim (Bool-cases (text_eq other name)) [
  | inl same ↦ rw (same, same) refl
  | inr differ ↦ rw (differ, differ) (find-set_version name version rows)
]

module _ {DateTime : Type 0} (fails : ℕ → Bool) where
  statement_if :
      {A : Type 0} (failed : Bool) (d : Database DateTime) (ran : A × Tables DateTime) (e : Error)
      {a : A} {after : Database DateTime}
      → ◌≡◌ {A = Result A × Database DateTime}
          (if failed
            then (err e, record d { statements = suc d.statements })
            else (ok ran.0, record d { tables = ran.1; statements = suc d.statements }))
          (ok a, after)
      → (a ≡ ran.0) × (after.tables ≡ ran.1)
  statement_if true d ran e h = absurd (err_not_ok (ap (λ p. p.0) h))
  statement_if false d ran e h =
      (ok-injective (sym (ap (λ p. p.0) h)), sym (ap (λ p. p.1.tables) h))

  pub statement-ok :
      {A : Type 0} (run : Tables DateTime → A × Tables DateTime) (d : Database DateTime) {a : A}
      {after : Database DateTime}
      → statement fails run d ≡ (ok a, after)
      → (a ≡ (run d.tables).0) × (after.tables ≡ (run d.tables).1)
  unfolding statement
  statement-ok run d h = statement_if (fails d.statements) d (run d.tables) _ h

  -- an error leaves the tables `T`
  abbrev pub RollsBack : {A : Type 0} → Tables DateTime → Result A × Database DateTime → Type 0
  RollsBack tables (err e, d) = d.tables ≡ tables
  RollsBack tables (ok a, d) = Unit {0}

  pub continue-RollsBack :
      {A B : Type 0} (tables : Tables DateTime) (rest : A → Exec (Database DateTime) B)
      → ((a : A) (d : Database DateTime) → d.tables ≡ tables → RollsBack tables (rest a d))
      → (r : Result A) (d : Database DateTime) → d.tables ≡ tables
      → RollsBack tables (continue r rest d)
  continue-RollsBack tables rest k (ok a) d p = k a d p
  continue-RollsBack tables rest k (err e) d p = p

  pub then-RollsBack :
      {A B : Type 0} (tables : Tables DateTime) (call : Exec (Database DateTime) A)
      (rest : A → Exec (Database DateTime) B)
      → Leads (λ d. d.tables ≡ tables) (λ d. d.tables ≡ tables) call
      → ((a : A) (d : Database DateTime) → d.tables ≡ tables → RollsBack tables (rest a d))
      → (d : Database DateTime) → d.tables ≡ tables
      → RollsBack tables ((call >>= rest) d)
  then-RollsBack tables call rest h k d p =
      continue-RollsBack tables rest k (call d).0 (call d).1 (h d p)

  restore-RollsBack :
      {A : Type 0} (tables : Tables DateTime) (t : Tables DateTime)
      (x : Result A × Database DateTime)
      → t ≡ tables
      → RollsBack tables (restore fails t x)
  restore-RollsBack tables t (ok a, d) q = tt
  restore-RollsBack tables t (err e, d) q = q

  restore-ok :
      {A : Type 0} (t : Tables DateTime) (x : Result A × Database DateTime) {a : A}
      {after : Database DateTime}
      → restore fails t x ≡ (ok a, after)
      → x ≡ (ok a, after)
  restore-ok t (ok b, d) h = h
  restore-ok t (err e, d) h = absurd (err_not_ok (ap (λ p. p.0) h))

  pub transaction-RollsBack :
      {A : Type 0} (work : Exec (Database DateTime) A) (d : Database DateTime)
      → RollsBack d.tables (transaction fails work d)
  unfolding transaction
  transaction-RollsBack work d =
      then-RollsBack d.tables (statement fails (λ t. (tt {0}, t))) _
        (statement-Leads fails (λ t. t ≡ d.tables) (λ t. (tt, t)) (λ t p. p))
        (λ _ e q. restore-RollsBack d.tables e.tables _ q) d refl

  -- A transaction that succeeds leaves what its work left.
  pub transaction-ok :
      {A : Type 0} (work : Exec (Database DateTime) A) (d : Database DateTime) {a : A}
      {after : Database DateTime}
      → transaction fails work d ≡ (ok a, after)
      → (begun : Database DateTime) × (done : Database DateTime) × (begun.tables ≡ d.tables)
        × (work begun ≡ (ok a, done))
        × (after.tables ≡ done.tables)
  unfolding transaction
  transaction-ok work d {a} {after} h =
      let idle : Exec (Database DateTime) (Unit {0}) = statement fails (λ t. (tt {0}, t)) in
      let (u, begun, e0, h0) =
        bind-ok idle (λ _ e. restore fails e.tables ((work >>= λ b. idle >> pure b) e)) d h in
      let (b, done, e1, h1) =
        bind-ok work (λ b. idle >> pure b) begun (restore-ok begun.tables _ h0) in
      let (w, committed, e2, h2) = bind-ok idle (λ _. pure b) done h1 in
      (
        begun,
        done,
        (statement-ok (λ t. (tt, t)) d e0).1,
        e1 ∙ ap (λ r. (r, done)) (ap (λ p. p.0) h2),
        sym (ap (λ p. p.1.tables) h2) ∙ (statement-ok (λ t. (tt, t)) done e2).1,
      )

  pub version-ok :
      (name : Text) (d : Database DateTime) {version : ℤ} {after : Database DateTime}
      → next_policy_version_in_transaction fails name d ≡ (ok version, after)
      → (version ≡ next_of (find_version name d.tables.policy_versions))
        × (after.tables ≡ record d.tables {
          policy_versions = set_version name version d.tables.policy_versions;
        })
  unfolding next_policy_version_in_transaction
  version-ok name d {version} {after} h =
      let find : Exec (Database DateTime) (Option ℤ) =
        statement fails (λ t. (find_version name t.policy_versions, t)) in
      let write : Option ℤ → Exec (Database DateTime) (Unit {0}) = λ current. statement fails (λ t.
        (
          tt {0},
          record t { policy_versions = set_version name (next_of current) t.policy_versions },
        )) in
      let with_version : Tables DateTime → ℤ → Tables DateTime =
        λ t v. record t { policy_versions = set_version name v t.policy_versions } in
      let (current, read, e0, h0) =
        bind-ok find (λ current. write current >> pure (next_of current)) d h in
      let (u, written, e1, h1) = bind-ok (write current) (λ _. pure (next_of current)) read h0 in
      let (found, same) = statement-ok (λ t. (find_version name t.policy_versions, t)) d e0 in
      let is_version : next_of current ≡ version = ok-injective (ap (λ p. p.0) h1) in
      (
        sym is_version ∙ ap next_of found,
        sym (ap (λ p. p.1.tables) h1)
            ∙ (statement-ok (λ t. (tt, with_version t (next_of current))) read e1).1
            ∙ ap (λ t. with_version t (next_of current)) same
            ∙ ap (with_version d.tables) is_version,
      )
