-- ===== src/ControlPlane/TempBans.antt =====
-- src/control_plane/api/temp_bans/create.rs and delete.rs: the handlers that write temporary bans. A
-- handler is a function from the database to its answer and the database behind it.
pub mod Reads
pub mod Loads
pub mod Rejects
pub mod Stored
pub mod Inserts
pub mod Batch
use xdp_firewall.Prelude.{
  ℕ, zero, suc, ◌&&◌, Bool, not, Option, true, false, ◌||◌, List, [], ◌∷◌, ◌++◌, map, ◌==◌,
  if◌then◌else◌, length, retain, Result, ok, err, not_found,
}
use xdp_firewall.Prelude.Int.{ℤ, pos}
use xdp_firewall.Exec.{Exec, pure, lift, ◌>>=◌, ◌>>◌}
use xdp_firewall.Text.{Text, text_eq}
use xdp_firewall.Net.{Ipnet}
use xdp_firewall.Policy.Rows.{TempBanRow}
use xdp_firewall.ControlPlane.Validation.{
  validate_batch_len, validate_batch_ids, ensure_all_ids_deleted, parse_normalized_cidr,
  reject_nodes, int_eq,
}
use xdp_firewall.ControlPlane.Database.{
  NodeRow, Tables, Database, statement, transaction, next_policy_version_in_transaction,
}
use xdp_firewall.ControlPlane.TempBanInput.{
  CreateTempBanRequest, ActiveModel, default_policy_name, active_model, active_models,
}

-- an answer with the version of the policy; the field `data` is `value` here
pub record Versioned (A : Type 0) : Type 0 where
  pub version : ℤ
  pub value : A

-- the interface_ips of the nodes of the default policy
abbrev pub node_ips : List NodeRow → List Text
node_ips nodes =
    map (λ node. node.interface_ips)
      (retain (λ node. text_eq node.policy_name default_policy_name) nodes)

abbrev pub row_of : {DateTime : Type 0} → ℤ → ActiveModel DateTime → TempBanRow DateTime
row_of id model = record {
  id = id;
  policy_name = model.policy_name;
  cidr = model.cidr;
  protocol = model.protocol;
  port = model.port;
  expires_at = model.expires_at;
  comment = model.comment;
  created_at = model.created_at;
}

abbrev pub insert_row :
    {DateTime : Type 0}
    → ActiveModel DateTime
    → Tables DateTime
    → TempBanRow DateTime × Tables DateTime
insert_row model t =
    let row = row_of (pos (suc t.last_temp_ban_id)) model in
    (
      row,
      record t { temp_bans = t.temp_bans ++ row ∷ []; last_temp_ban_id = suc t.last_temp_ban_id },
    )

-- the delete statement, for the rows of the default policy that a test of the id picks
abbrev pub delete_rows : {DateTime : Type 0} → (ℤ → Bool) → Tables DateTime → ℕ × Tables DateTime
delete_rows {DateTime} picks t =
    let deleted : TempBanRow DateTime → Bool =
      λ row. text_eq row.policy_name default_policy_name && picks row.id in
    (
      length (retain deleted t.temp_bans),
      record t { temp_bans = retain (λ row. not (deleted row)) t.temp_bans },
    )

abbrev pub is_in : List ℤ → ℤ → Bool
is_in [] id = false
is_in (other ∷ ids) id = int_eq other id || is_in ids id

module _ (net : Ipnet) (parse : Text → Option net.IpNet) {DateTime : Type 0}
    (add_seconds : DateTime → ℤ → Option DateTime) (fails : ℕ → Bool) (now : ℕ → DateTime) where
  abbrev pub Handler : Type 0 → Type 0
  Handler A = Exec (Database DateTime) A

  unfoldable pub reject_node_ip_block : net.IpNet → Handler (Unit {0})
  unfolding statement reject_nodes
  reject_node_ip_block cidr = do
    rows ← statement fails (λ t. (node_ips t.nodes, t))
    lift (reject_nodes net cidr rows)

  unfoldable pub reject_temp_ban_node_ip : CreateTempBanRequest → Handler (Unit {0})
  unfolding parse_normalized_cidr reject_node_ip_block
  reject_temp_ban_node_ip request = do
    cidr ← lift (parse_normalized_cidr net parse request.cidr)
    reject_node_ip_block cidr

  unfoldable pub reject_all : List CreateTempBanRequest → Handler (Unit {0})
  unfolding reject_temp_ban_node_ip
  reject_all [] = pure tt
  reject_all (request ∷ requests) = do reject_temp_ban_node_ip request; reject_all requests

  -- `model.insert(&txn)`
  unfoldable pub insert : ActiveModel DateTime → Handler (TempBanRow DateTime)
  unfolding statement
  insert model = statement fails (insert_row model)

  unfoldable pub insert_all : List (ActiveModel DateTime) → Handler (List (TempBanRow DateTime))
  unfolding insert
  insert_all [] = pure []
  insert_all (model ∷ models) = do row ← insert model; rows ← insert_all models; pure (row ∷ rows)

  unfoldable pub create : CreateTempBanRequest → Handler (Versioned (TempBanRow DateTime))
  unfolding reject_temp_ban_node_ip transaction active_model insert
      next_policy_version_in_transaction
  create request = do
    reject_temp_ban_node_ip request
    transaction fails (do
      model ← lift (active_model net parse add_seconds (now 0) request)
      row ← insert model
      version ← next_policy_version_in_transaction fails default_policy_name
      pure (record { version = version; value = row }))

  unfoldable pub create_batch :
      List CreateTempBanRequest → Handler (Versioned (List (TempBanRow DateTime)))
  unfolding reject_all transaction active_models insert_all next_policy_version_in_transaction
  create_batch items = do
    lift (validate_batch_len (length items))
    reject_all items
    models ← lift (active_models net parse add_seconds now 0 items)
    transaction fails (do
      rows ← insert_all models
      version ← next_policy_version_in_transaction fails default_policy_name
      pure (record { version = version; value = rows }))

  unfoldable pub delete_by_id : ℤ → Handler (Versioned ℤ)
  unfolding transaction next_policy_version_in_transaction
  delete_by_id id = transaction fails (do
    deleted ← statement fails (delete_rows (λ other. int_eq other id))
    lift (if deleted == 0 then err (not_found "temporary ban not found") else ok tt)
    version ← next_policy_version_in_transaction fails default_policy_name
    pure (record { version = version; value = id }))

  unfoldable pub delete_batch : List ℤ → Handler (Versioned ℕ)
  unfolding transaction next_policy_version_in_transaction validate_batch_ids
  delete_batch requested = do
    ids ← lift (validate_batch_ids requested)
    transaction fails (do
      deleted ← statement fails (delete_rows (is_in ids))
      lift (ensure_all_ids_deleted deleted (length ids) "temporary ban not found")
      version ← next_policy_version_in_transaction fails default_policy_name
      pure (record { version = version; value = deleted }))
