-- ===== src/ControlPlane/TempBans/Batch.antt =====
-- What a batch of temporary bans leaves in the database.
use xdp_firewall.Prelude.{
  ℕ, ◌≤◌, ◌≡◌, refl, sym, ap, subst, ◌∙◌, arith, Bool, Option, some, List, ◌++◌, length, All,
  Result, ok, err, ok-injective,
}
use xdp_firewall.Prelude.Int.{ℤ}
use xdp_firewall.Exec.{Exec, pure, lift, ◌>>=◌, ◌>>◌, bind-ok, lift-bind-ok}
use xdp_firewall.Text.{Text}
use xdp_firewall.Net.{Ipnet, IpnetLaws}
use xdp_firewall.Policy.Rows.{TempBanRow}
use xdp_firewall.ControlPlane.Validation.{validate_batch_len}
use xdp_firewall.ControlPlane.Database.{
  Tables, Database, transaction, next_policy_version_in_transaction, find_version, set_version,
  next_of,
}
use xdp_firewall.ControlPlane.Database.Outcomes.{
  RollsBack, then-RollsBack, transaction-RollsBack, transaction-ok, version-ok, find-set_version,
}
use xdp_firewall.ControlPlane.TempBanInput.{
  CreateTempBanRequest, ActiveModel, default_policy_name, active_models,
}
use xdp_firewall.ControlPlane.TempBans.{Versioned, insert_all, reject_all, create_batch}
use xdp_firewall.ControlPlane.TempBans.Inserts.{rows_from, with_rows, insert_all-ok}
use xdp_firewall.ControlPlane.TempBans.Rejects.{SparesNodes, reject_all-Leads, reject_all-ok}

validate_batch_len-ok : (len : ℕ) → validate_batch_len len ≡ ok tt → (1 ≤ len) × (len ≤ 500)
unfolding validate_batch_len
validate_batch_len-ok len h = ground arith

module _ (net : Ipnet) (laws : IpnetLaws net) (parse : Text → Option net.IpNet) {DateTime : Type 0}
    (add_seconds : DateTime → ℤ → Option DateTime) (fails : ℕ → Bool) (now : ℕ → DateTime) where
  -- What an accepted batch leaves.
  pub record Created (items : List CreateTempBanRequest) (before : Tables DateTime)
      (answer : Versioned (List (TempBanRow DateTime))) (after : Tables DateTime) : Type 0 where
    pub size : (1 ≤ length items) × (length items ≤ 500)
    pub models : List (ActiveModel DateTime)
    pub accepted : active_models net parse add_seconds now 0 items ≡ ok models
    pub spared : All (SparesNodes net laws parse add_seconds fails now before.nodes) items
    pub answered : answer.value ≡ rows_from before.last_temp_ban_id models
    pub is_next : answer.version ≡ next_of (find_version default_policy_name before.policy_versions)
    pub version_stored :
        find_version default_policy_name after.policy_versions ≡ some answer.version
    pub bans_stored : after.temp_bans ≡ before.temp_bans ++ answer.value
    pub nodes_kept : after.nodes ≡ before.nodes

  abbrev Answer : Type 0
  Answer = Versioned (List (TempBanRow DateTime))

  -- the parts of create_batch
  abbrev work : List (ActiveModel DateTime) → Exec (Database DateTime) Answer
  work models = do
    rows ← insert_all net parse add_seconds fails now models
    version ← next_policy_version_in_transaction fails default_policy_name
    pure (record { version = version; value = rows })

  abbrev behind_checks : List CreateTempBanRequest → Exec (Database DateTime) Answer
  behind_checks items = do
    models ← lift (active_models net parse add_seconds now 0 items)
    transaction fails (work models)

  abbrev behind_length : List CreateTempBanRequest → Exec (Database DateTime) Answer
  behind_length items = reject_all net parse add_seconds fails now items >> behind_checks items

  -- What the work of a batch answers and leaves.
  abbrev answer_of : List (ActiveModel DateTime) → Tables DateTime → Answer
  answer_of models t = record {
    version = next_of (find_version default_policy_name t.policy_versions);
    value = rows_from t.last_temp_ban_id models;
  }

  abbrev tables_of : List (ActiveModel DateTime) → Tables DateTime → Tables DateTime
  tables_of models t = record (with_rows models t) {
    policy_versions =
        set_version default_policy_name (answer_of models t).version t.policy_versions;
  }

  work-ok :
      (models : List (ActiveModel DateTime)) (d : Database DateTime) {answer : Answer}
      {after : Database DateTime}
      → work models d ≡ (ok answer, after)
      → (answer ≡ answer_of models d.tables) × (after.tables ≡ tables_of models d.tables)
  work-ok models d {answer} {after} h =
      let (rows, inserted, e0, h0) =
        bind-ok (insert_all net parse add_seconds fails now models)
          (λ rows. next_policy_version_in_transaction fails default_policy_name >>= λ version.
            pure (record { version = version; value = rows }))
          d h in
      let (version, versioned, e1, h1) =
        bind-ok (next_policy_version_in_transaction fails default_policy_name)
          (λ version. pure (record { version = version; value = rows })) inserted h0 in
      let (are_rows, with_all) = insert_all-ok net parse add_seconds fails now models d e0 in
      let (is_version, with_version) = version-ok fails default_policy_name inserted e1 in
      let is_next : version ≡ (answer_of models d.tables).version =
        is_version
        ∙ ap (λ (t : Tables DateTime). next_of (find_version default_policy_name t.policy_versions))
            with_all in
      let made : Answer = record { version = version; value = rows } in
      let is_made : made ≡ answer = ok-injective (ap (λ p. p.0) h1) in
      let is_answer : made ≡ answer_of models d.tables =
        λ i. record { version = is_next i; value = are_rows i } in
      let versioned_tables : Tables DateTime → ℤ → Tables DateTime =
        λ t v. record t { policy_versions = set_version default_policy_name v t.policy_versions } in
      (
        sym is_made ∙ is_answer,
        sym (ap (λ p. p.1.tables) h1)
            ∙ with_version
            ∙ (λ i. versioned_tables (with_all i) (is_next i)),
      )

  create_batch-Created :
      (items : List CreateTempBanRequest) (d : Database DateTime)
      {answer : Versioned (List (TempBanRow DateTime))} {after : Database DateTime}
      → create_batch net parse add_seconds fails now items d ≡ (ok answer, after)
      → Created items d.tables answer after.tables
  unfolding create_batch
  create_batch-Created items d {answer} {after} h =
      let (u, e0, h0) =
        lift-bind-ok (validate_batch_len (length items)) (λ _. behind_length items) d h in
      let (w, checked, e1, h1) =
        bind-ok (reject_all net parse add_seconds fails now items) (λ _. behind_checks items) d
          h0 in
      let (models, e2, h2) =
        lift-bind-ok (active_models net parse add_seconds now 0 items)
          (λ models. transaction fails (work models)) checked h1 in
      let (spares, same) = reject_all-ok net laws parse add_seconds fails now items d e1 in
      let (begun, done, b, worked, k) = transaction-ok fails (work models) checked h2 in
      let (answered, stored) = work-ok models begun worked in
      let is_answer : answer ≡ answer_of models d.tables =
        answered ∙ ap (answer_of models) (b ∙ same) in
      let left : after.tables ≡ tables_of models d.tables =
        k ∙ stored ∙ ap (tables_of models) (b ∙ same) in
      record {
        size = validate_batch_len-ok (length items) e0;
        models = models;
        accepted = e2;
        spared = spares;
        answered = ap (λ (a : Answer). a.value) is_answer;
        is_next = ap (λ (a : Answer). a.version) is_answer;
        version_stored =
            ap (λ (t : Tables DateTime). find_version default_policy_name t.policy_versions) left
            ∙ find-set_version default_policy_name (answer_of models d.tables).version
                d.tables.policy_versions
            ∙ ap (λ (a : Answer). some a.version) (sym is_answer);
        bans_stored =
            ap (λ (t : Tables DateTime). t.temp_bans) left
            ∙ ap (λ (a : Answer). d.tables.temp_bans ++ a.value) (sym is_answer);
        nodes_kept = ap (λ (t : Tables DateTime). t.nodes) left;
      }

  create_batch-RollsBack :
      (items : List CreateTempBanRequest) (d : Database DateTime)
      → RollsBack fails d.tables (create_batch net parse add_seconds fails now items d)
  unfolding create_batch
  create_batch-RollsBack items d =
      then-RollsBack fails d.tables (lift (validate_batch_len (length items)))
        (λ _. behind_length items) (λ e p. p)
        (λ _.
          then-RollsBack fails d.tables (reject_all net parse add_seconds fails now items)
            (λ _. behind_checks items)
            (reject_all-Leads net parse add_seconds fails now (λ t. t ≡ d.tables) items)
            (λ _.
              then-RollsBack fails d.tables (lift (active_models net parse add_seconds now 0 items))
                (λ models. transaction fails (work models)) (λ e p. p)
                (λ models e p.
                  subst (λ t. RollsBack fails t (transaction fails (work models) e)) p
                    (transaction-RollsBack fails (work models) e))))
        d refl

  -- An answer or an error, with the tables behind it.
  abbrev pub BatchOutcome :
      List CreateTempBanRequest
      → Tables DateTime
      → Result (Versioned (List (TempBanRow DateTime))) × Database DateTime
      → Type 0
  BatchOutcome items before (err e, after) = after.tables ≡ before
  BatchOutcome items before (ok answer, after) = Created items before answer after.tables

  outcome_of :
      (items : List CreateTempBanRequest) (d : Database DateTime)
      (outcome : Result Answer × Database DateTime)
      → create_batch net parse add_seconds fails now items d ≡ outcome
      → BatchOutcome items d.tables outcome
  outcome_of items d (err e, after) h =
      subst (RollsBack fails d.tables) h (create_batch-RollsBack items d)
  outcome_of items d (ok answer, after) h = create_batch-Created items d h

  -- A batch of temporary bans is stored whole or not at all, whichever statements fail. If it is
  -- refused or fails, all tables are as they were. If it is accepted, it has 1 to 500 items, each of
  -- them valid and its network without any address of a node of the policy; the rows of the items are
  -- added behind the others, in order and with the ids behind the last one; they are the answer, with the version behind
  -- the last one, which is stored as the policy's.
  pub create_batch_lem :
      (items : List CreateTempBanRequest) (d : Database DateTime)
      → BatchOutcome items d.tables (create_batch net parse add_seconds fails now items d)
  create_batch_lem items d =
      outcome_of items d (create_batch net parse add_seconds fails now items d) refl
