-- ===== src/ControlPlane/TempBans/Stored.antt =====
-- The temporary bans that the handlers leave in the database.
use xdp_firewall.Prelude.{
  ℕ, suc, Bool, Option, List, [], ◌∷◌, ◌==◌, if◌then◌else◌, length, retain-All, All, All-append,
  All-imp, ok, err, not_found,
}
use xdp_firewall.Prelude.Int.{ℤ, pos}
use xdp_firewall.Exec.{Exec, pure, ◌>>=◌, Leads}
use xdp_firewall.Text.{Text}
use xdp_firewall.Net.{Ipnet}
use xdp_firewall.ControlPlane.Validation.{
  validate_batch_len, validate_batch_ids, ensure_all_ids_deleted, int_eq, ReadsPrinted,
}
use xdp_firewall.ControlPlane.Database.{
  Tables, Database, statement, next_policy_version_in_transaction, find_version, set_version,
  next_of,
}
use xdp_firewall.ControlPlane.Database.Leads.{
  Holds, statement-Leads, then-Leads, lift-Leads, transaction-Leads,
}
use xdp_firewall.ControlPlane.TempBanInput.{
  CreateTempBanRequest, ActiveModel, default_policy_name, active_model, active_models,
}
use xdp_firewall.ControlPlane.TempBans.{
  insert_row, delete_rows, is_in, reject_temp_ban_node_ip, reject_all, insert, insert_all, create,
  create_batch, delete_by_id, delete_batch,
}
use xdp_firewall.ControlPlane.TempBans.Rejects.{reject-Leads, reject_all-Leads}
use xdp_firewall.ControlPlane.TempBans.Loads.{
  IsLoadable, active_model-IsLoadable, Loadable, active_models-Loadable,
}

-- A request to one of the handlers, with the times that it reads.
pub data TempBanCall (DateTime : Type 0) : Type 0 where
  call_create : (ℕ → DateTime) → CreateTempBanRequest → TempBanCall DateTime
  call_create_batch : (ℕ → DateTime) → List CreateTempBanRequest → TempBanCall DateTime
  call_delete_by_id : (ℕ → DateTime) → ℤ → TempBanCall DateTime
  call_delete_batch : (ℕ → DateTime) → List ℤ → TempBanCall DateTime

module _ (net : Ipnet) (parse : Text → Option net.IpNet) {DateTime : Type 0}
    (add_seconds : DateTime → ℤ → Option DateTime) (fails : ℕ → Bool) where
  abbrev pub run_call : TempBanCall DateTime → Database DateTime → Database DateTime
  run_call (call_create now request) d = (create net parse add_seconds fails now request d).1
  run_call (call_create_batch now items) d =
      (create_batch net parse add_seconds fails now items d).1
  run_call (call_delete_by_id now id) d = (delete_by_id net parse add_seconds fails now id d).1
  run_call (call_delete_batch now ids) d = (delete_batch net parse add_seconds fails now ids d).1

  abbrev pub run_calls : List (TempBanCall DateTime) → Database DateTime → Database DateTime
  run_calls [] d = d
  run_calls (call ∷ calls) d = run_calls calls (run_call call d)

  abbrev pub AllLoad : Tables DateTime → Type 0
  AllLoad t = All (IsLoadable net parse) t.temp_bans

  abbrev LeadsOn : {A : Type 0} → Exec (Database DateTime) A → Type 0
  LeadsOn call = Leads (Holds fails AllLoad) (Holds fails AllLoad) call

  version-Leads : (name : Text) → LeadsOn (next_policy_version_in_transaction fails name)
  unfolding next_policy_version_in_transaction
  version-Leads name =
      then-Leads fails AllLoad (statement fails (λ t. (find_version name t.policy_versions, t))) _
        (statement-Leads fails AllLoad _ (λ t p. p))
        (λ current.
          then-Leads fails AllLoad
            (statement fails (λ t. (
              tt {0},
              record t { policy_versions = set_version name (next_of current) t.policy_versions },
            )))
            (λ _. pure (next_of current)) (statement-Leads fails AllLoad _ (λ t p. p)) (λ _ d p. p))

  insert-Leads :
      (now : ℕ → DateTime) (model : ActiveModel DateTime)
      → Loadable net parse model
      → LeadsOn (insert net parse add_seconds fails now model)
  unfolding insert
  insert-Leads now model loads = statement-Leads fails AllLoad (insert_row model) (λ t p.
      All-append (IsLoadable net parse) t.temp_bans _ p (loads (pos (suc t.last_temp_ban_id)), tt))

  insert_all-Leads :
      (now : ℕ → DateTime) (models : List (ActiveModel DateTime))
      → All (Loadable net parse) models
      → LeadsOn (insert_all net parse add_seconds fails now models)
  unfolding insert_all
  insert_all-Leads now [] l = λ d p. p
  insert_all-Leads now (model ∷ models) l =
      then-Leads fails AllLoad _
        (λ row. insert_all net parse add_seconds fails now models >>= λ rows. pure (row ∷ rows))
        (insert-Leads now model l.0)
        (λ row.
          then-Leads fails AllLoad _ (λ rows. pure (row ∷ rows)) (insert_all-Leads now models l.1)
            (λ rows d p. p))

  delete-Leads : (picks : ℤ → Bool) → LeadsOn (statement fails (delete_rows picks))
  delete-Leads picks = statement-Leads fails AllLoad (delete_rows picks) (λ t p.
      All-imp _ (IsLoadable net parse) _ (λ x q. q.0)
        (retain-All (IsLoadable net parse) _ t.temp_bans p))

  module _ (reads : ReadsPrinted net parse) where
    create-Leads :
        (now : ℕ → DateTime) (request : CreateTempBanRequest)
        → LeadsOn (create net parse add_seconds fails now request)
    unfolding create
    create-Leads now request =
        then-Leads fails AllLoad (reject_temp_ban_node_ip net parse add_seconds fails now request) _
          (reject-Leads net parse add_seconds fails now AllLoad request)
          (λ _. transaction-Leads fails AllLoad _ (
            lift-Leads fails AllLoad (active_model net parse add_seconds (now 0) request) _
              (λ model e.
                then-Leads fails AllLoad (insert net parse add_seconds fails now model) _
                  (insert-Leads now model (λ id.
                    active_model-IsLoadable net parse add_seconds (now 0) request reads id e))
                  (λ row.
                    then-Leads fails AllLoad
                      (next_policy_version_in_transaction fails default_policy_name) _
                      (version-Leads default_policy_name) (λ v d p. p)))))

    create_batch-Leads :
        (now : ℕ → DateTime) (items : List CreateTempBanRequest)
        → LeadsOn (create_batch net parse add_seconds fails now items)
    unfolding create_batch
    create_batch-Leads now items =
        lift-Leads fails AllLoad (validate_batch_len (length items)) _ (λ _ _.
          then-Leads fails AllLoad (reject_all net parse add_seconds fails now items) _
            (reject_all-Leads net parse add_seconds fails now AllLoad items)
            (λ _.
              lift-Leads fails AllLoad (active_models net parse add_seconds now 0 items) _
                (λ models e. transaction-Leads fails AllLoad _ (
                  then-Leads fails AllLoad (insert_all net parse add_seconds fails now models) _
                    (insert_all-Leads now models
                      (active_models-Loadable net parse add_seconds reads now 0 items e))
                    (λ rows.
                      then-Leads fails AllLoad
                        (next_policy_version_in_transaction fails default_policy_name) _
                        (version-Leads default_policy_name) (λ v d p. p))))))

    delete_by_id-Leads :
        (now : ℕ → DateTime) (id : ℤ) → LeadsOn (delete_by_id net parse add_seconds fails now id)
    unfolding delete_by_id
    delete_by_id-Leads now id = transaction-Leads fails AllLoad _ (
        then-Leads fails AllLoad (statement fails (delete_rows (λ other. int_eq other id))) _
          (delete-Leads (λ other. int_eq other id))
          (λ deleted.
            lift-Leads fails AllLoad
              (if deleted == 0 then err (not_found "temporary ban not found") else ok tt) _
              (λ _ _.
                then-Leads fails AllLoad
                  (next_policy_version_in_transaction fails default_policy_name) _
                  (version-Leads default_policy_name) (λ v d p. p))))

    delete_batch-Leads :
        (now : ℕ → DateTime) (ids : List ℤ)
        → LeadsOn (delete_batch net parse add_seconds fails now ids)
    unfolding delete_batch
    delete_batch-Leads now requested =
        lift-Leads fails AllLoad (validate_batch_ids requested) _ (λ ids _.
          transaction-Leads fails AllLoad _ (
            then-Leads fails AllLoad (statement fails (delete_rows (is_in ids))) _
              (delete-Leads (is_in ids))
              (λ deleted.
                lift-Leads fails AllLoad
                  (ensure_all_ids_deleted deleted (length ids) "temporary ban not found") _
                  (λ _ _.
                    then-Leads fails AllLoad
                      (next_policy_version_in_transaction fails default_policy_name) _
                      (version-Leads default_policy_name) (λ v d p. p)))))

    run_call-Holds :
        (call : TempBanCall DateTime) (d : Database DateTime)
        → AllLoad d.tables
        → AllLoad (run_call call d).tables
    run_call-Holds (call_create now request) d p = create-Leads now request d p
    run_call-Holds (call_create_batch now items) d p = create_batch-Leads now items d p
    run_call-Holds (call_delete_by_id now id) d p = delete_by_id-Leads now id d p
    run_call-Holds (call_delete_batch now ids) d p = delete_batch-Leads now ids d p

    -- No request can store a temporary ban that the policy could not be loaded with: whatever requests the
    -- handlers are sent, valid or not, and whichever statements fail, if every row could be loaded before,
    -- then every row can be loaded behind them. ipnet reads back the networks that it prints.
    pub run_calls-AllLoad :
        (calls : List (TempBanCall DateTime)) (d : Database DateTime)
        → AllLoad d.tables
        → AllLoad (run_calls calls d).tables
    run_calls-AllLoad [] d p = p
    run_calls-AllLoad (call ∷ calls) d p =
        run_calls-AllLoad calls (run_call call d) (run_call-Holds call d p)
