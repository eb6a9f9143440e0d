-- ===== src/ControlPlane/Database.antt =====
-- The tables that the handlers read and write, and their statements. Any statement may fail: `fails`
-- tells which ones do, by their number. Nothing else writes to the tables meanwhile.
pub mod Leads
pub mod Outcomes
use xdp_firewall.Prelude.{
  ℕ, zero, suc, ◌-◌, ◌^◌, Bool, Option, none, some, List, [], ◌∷◌, ◌++◌, ◌==◌, if◌then◌else◌,
  Result, ok, err, foreign,
}
use xdp_firewall.Prelude.Int.{ℤ, pos, negsuc}
use xdp_firewall.Exec.{Exec, pure, ◌>>=◌, ◌>>◌}
use xdp_firewall.Text.{Text, text_eq}
use xdp_firewall.Policy.Rows.{TempBanRow}

-- The columns of node::Model that are read.
pub record NodeRow : Type 0 where
  pub policy_name : Text
  pub interface_ips : Text

pub record Tables (DateTime : Type 0) : Type 0 where
  pub nodes : List NodeRow
  pub temp_bans : List (TempBanRow DateTime)
  pub last_temp_ban_id : ℕ
  pub policy_versions : List (Text × ℤ)

-- the tables, and the number of the statements that were sent
pub record Database (DateTime : Type 0) : Type 0 where
  pub tables : Tables DateTime
  pub statements : ℕ

-- `version + 1` of an i64, as a release build wraps it
abbrev pub next_i64 : ℤ → ℤ
next_i64 (pos n) = if n == 2 ^ 63 - 1 then negsuc n else pos (suc n)
next_i64 (negsuc zero) = pos 0
next_i64 (negsuc (suc n)) = negsuc n

unfoldable pub find_version : Text → List (Text × ℤ) → Option ℤ
find_version name [] = none
find_version name ((other, version) ∷ rows) =
    let rest = find_version name rows in if text_eq other name then some version else rest

-- the row with the name is updated, or inserted
unfoldable pub set_version : Text → ℤ → List (Text × ℤ) → List (Text × ℤ)
set_version name version [] = (name, version) ∷ []
set_version name version ((other, old) ∷ rows) =
    let rest = set_version name version rows in
    if text_eq other name then (other, version) ∷ rows else (other, old) ∷ rest

abbrev pub next_of : Option ℤ → ℤ
next_of none = pos 1
next_of (some version) = next_i64 version

module _ {DateTime : Type 0} (fails : ℕ → Bool) where
  unfoldable pub statement :
      {A : Type 0} → (Tables DateTime → A × Tables DateTime) → Exec (Database DateTime) A
  statement run d =
      if fails d.statements
      then (err (foreign "database"), record d { statements = suc d.statements })
      else (
        ok (run d.tables).0,
        record d { tables = (run d.tables).1; statements = suc d.statements },
      )

  abbrev pub restore :
      {A : Type 0} → Tables DateTime → Result A × Database DateTime → Result A × Database DateTime
  restore tables (ok a, d) = (ok a, d)
  restore tables (err e, d) = (err e, record d { tables = tables })

  -- `db.begin()`, the work and `txn.commit()`; a transaction that is dropped before is rolled back
  unfoldable pub transaction :
      {A : Type 0} → Exec (Database DateTime) A → Exec (Database DateTime) A
  unfolding statement
  transaction work =
      statement (λ t. (tt {0}, t))
      >> (λ d. restore d.tables ((work >>= λ a. statement (λ t. (tt {0}, t)) >> pure a) d))

  unfoldable pub next_policy_version_in_transaction : Text → Exec (Database DateTime) ℤ
  unfolding statement find_version set_version
  next_policy_version_in_transaction name = do
    current ← statement (λ t. (find_version name t.policy_versions, t))
    statement (λ t. (
      tt {0},
      record t { policy_versions = set_version name (next_of current) t.policy_versions },
    ))
    pure (next_of current)
