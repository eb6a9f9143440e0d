-- ===== src/ControlPlane/Database/Leads.antt =====
-- A property of the tables that the statements of a handler keep, its handlers keep, whether a statement
-- fails or not.
use xdp_firewall.Prelude.{ℕ, ◌≡◌, refl, inl, inr, Bool, Bool-cases, Result, ok, err}
use xdp_firewall.Exec.{Exec, pure, lift, ◌>>=◌, ◌>>◌, Leads, bind-Leads}
use xdp_firewall.ControlPlane.Database.{Tables, Database, statement, restore, transaction}

module _ {DateTime : Type 0} (fails : ℕ → Bool) (Keeps : Tables DateTime → Type 0) where
  abbrev pub Holds : Database DateTime → Type 0
  Holds d = Keeps d.tables

  pub statement-Leads :
      {A : Type 0} (run : Tables DateTime → A × Tables DateTime)
      → ((t : Tables DateTime) → Keeps t → Keeps (run t).1)
      → Leads Holds Holds (statement fails run)
  unfolding statement
  statement-Leads run keeps d p = elim (Bool-cases (fails d.statements)) [
    | inl failed ↦ rw failed p
    | inr done ↦ rw done (keeps d.tables p)
  ]

  pub then-Leads :
      {A B : Type 0} (call : Exec (Database DateTime) A) (rest : A → Exec (Database DateTime) B)
      → Leads Holds Holds call
      → ((a : A) → Leads Holds Holds (rest a))
      → Leads Holds Holds (call >>= rest)
  then-Leads call rest h k = bind-Leads Holds Holds Holds (λ s q. q) call rest h k

  pub lift-Leads :
      {A B : Type 0} (r : Result A) (rest : A → Exec (Database DateTime) B)
      → ((a : A) → r ≡ ok a → Leads Holds Holds (rest a))
      → Leads Holds Holds (lift r >>= rest)
  lift-Leads (ok a) rest k = k a refl
  lift-Leads (err e) rest k = λ d p. p

  restore-Holds :
      {A : Type 0} (tables : Tables DateTime) (outcome : Result A × Database DateTime)
      → Keeps tables
      → Holds outcome.1
      → Holds (restore fails tables outcome).1
  restore-Holds tables (ok a, d) p q = q
  restore-Holds tables (err e, d) p q = p

  pub transaction-Leads :
      {A : Type 0} (work : Exec (Database DateTime) A)
      → Leads Holds Holds work
      → Leads Holds Holds (transaction fails work)
  unfolding transaction
  transaction-Leads work h =
      then-Leads (statement fails (λ t. (tt {0}, t)))
        (λ _ d.
          restore fails d.tables ((work >>= λ a. statement fails (λ t. (tt {0}, t)) >> pure a) d))
        (statement-Leads (λ t. (tt, t)) (λ t p. p))
        (λ _ d p. restore-Holds d.tables _ p (
          then-Leads work (λ a. statement fails (λ t. (tt {0}, t)) >> pure a) h
            (λ a.
              then-Leads (statement fails (λ t. (tt {0}, t))) (λ _. pure a)
                (statement-Leads (λ t. (tt, t)) (λ t p. p)) (λ _ d p. p))
            d p))
