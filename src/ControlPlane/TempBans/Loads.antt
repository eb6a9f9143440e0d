-- ===== src/ControlPlane/TempBans/Loads.antt =====
-- What the handlers store can be loaded by the policy: a row that they make is read by parse_temp_ban
-- of src/policy/firewall/parse.rs.
use xdp_firewall.Prelude.{
  ℕ, suc, ◌≡◌, ap, subst, Option, none, some, List, [], ◌∷◌, String, invalid_cidr, Result, ok, err,
  ◌>>=◌, >>=-eq-ok, ok-injective, transpose_map, All,
}
use xdp_firewall.Prelude.Int.{ℤ}
use xdp_firewall.Text.{Text, codes, trim}
use xdp_firewall.Net.{Ipnet}
use xdp_firewall.Policy.Model.{TempBanPolicy}
use xdp_firewall.Policy.Validate.{validate_temp_ban_policy}
use xdp_firewall.Policy.Rows.{TempBanRow, parse_cidr, parse_temp_ban}
use xdp_firewall.ControlPlane.Validation.{
  normalize_protocol, validate_dynamic_rate_port, contains_slash, print_net, normalize_cidr,
  ReadsPrinted,
}
use xdp_firewall.ControlPlane.TempBanInput.{
  CreateTempBanRequest, ActiveModel, default_policy_name, or_default, validate_duration,
  expires_after, active_model, active_models,
}
use xdp_firewall.ControlPlane.TempBans.{row_of}
use xdp_firewall.ControlPlane.TempBans.Reads.{given-Known, Reads, guard-ok, port_columns-Reads}

module _ (net : Ipnet) (parse : Text → Option net.IpNet) where
  open net use {IpNet}

  read_cidr :
      (label : String) (text : Text) {n : IpNet}
      → parse_cidr net parse label text ≡ ok n
      → parse text ≡ some n
  read_cidr label text h = of_option (parse text) h
    where
      of_option :
          (o : Option IpNet) {n : IpNet}
          → (elim o [ none ↦ err (invalid_cidr label) | some cidr ↦ ok cidr ]) ≡ ok n
          → o ≡ some n
      of_option none k = absurd (cc)
      of_option (some m) k = ap some (ok-injective k)

  cidr_read :
      (label : String) (text : Text) {n : IpNet}
      → parse text ≡ some n
      → parse_cidr net parse label text ≡ ok n
  cidr_read label text e =
      ap (λ o. elim o [ none ↦ err (invalid_cidr label) | some cidr ↦ ok cidr ]) e

  -- A normalized CIDR is a printed network.
  pub normalize_cidr-printed :
      (value : Text) {cidr : Text}
      → normalize_cidr net parse value ≡ ok cidr
      → (n : IpNet) × (text : Text) × (parse text ≡ some n) × (print_net net n ≡ cidr)
  unfolding normalize_cidr
  normalize_cidr-printed value h =
      let (slash, k) = guard-ok (contains_slash (trim value)) _ _ h in
      let (n, e, l) =
        >>=-eq-ok (parse_cidr net parse "CIDR" (trim value)) (λ n. ok (print_net net n)) k in
      (n, trim value, read_cidr "CIDR" (trim value) e, ok-injective l)

  abbrev pub IsLoadable : {DateTime : Type 0} → TempBanRow DateTime → Type 0
  IsLoadable {DateTime} row =
      (policy : TempBanPolicy IpNet DateTime) × (parse_temp_ban net parse row ≡ ok policy)

  read-IsLoadable :
      {DateTime : Type 0} (row : TempBanRow DateTime) {m : IpNet}
      → parse row.cidr ≡ some m
      → Reads row.protocol row.port
      → IsLoadable row
  unfolding parse_temp_ban validate_temp_ban_policy
  read-IsLoadable row {m} e r = (
    record {
      cidr = m;
      protocol = r.l4;
      port = r.number;
      expires_at = row.expires_at;
      comment = row.comment;
    },
    simp (cidr_read "temporary ban" row.cidr e, r.protocol_read, r.port_read, r.no_icmp_port),
  )

  module _ {DateTime : Type 0} (add_seconds : DateTime → ℤ → Option DateTime) (now : DateTime)
      (request : CreateTempBanRequest) where
    -- the rest of active_model behind each of its calls
    abbrev model_of : Text → Text → Option ℤ → DateTime → Result (ActiveModel DateTime)
    model_of cidr protocol port expires_at = ok (record {
      policy_name = default_policy_name;
      cidr = cidr;
      protocol = protocol;
      port = port;
      expires_at = expires_at;
      comment = request.comment;
      created_at = now;
    })

    abbrev after_duration : Text → Text → Option ℤ → ℤ → Result (ActiveModel DateTime)
    after_duration cidr protocol port seconds =
        expires_after net parse add_seconds now seconds >>= λ at. model_of cidr protocol port at

    abbrev after_port : Text → Text → Option ℤ → Result (ActiveModel DateTime)
    after_port cidr protocol port = validate_duration request.duration_seconds >>= λ seconds.
        after_duration cidr protocol port seconds

    abbrev after_given : Text → Option Text → Result (ActiveModel DateTime)
    after_given cidr given =
        validate_dynamic_rate_port (or_default (codes "any") given) request.port >>= λ port.
        after_port cidr (or_default (codes "any") given) port

    -- The row of an accepted request can be loaded, whatever its id is.
    pub active_model-IsLoadable :
        ReadsPrinted net parse
        → {model : ActiveModel DateTime} (id : ℤ)
        → active_model net parse add_seconds now request ≡ ok model
        → IsLoadable (row_of id model)
    unfolding active_model
    active_model-IsLoadable reads id h =
        let (cidr, e0, h0) =
          >>=-eq-ok (normalize_cidr net parse request.cidr)
            (λ cidr.
              transpose_map normalize_protocol request.protocol >>= λ given. after_given cidr given)
            h in
        let (given, e1, h1) =
          >>=-eq-ok (transpose_map normalize_protocol request.protocol) (after_given cidr) h0 in
        let protocol = or_default (codes "any") given in
        let (port, e2, h2) =
          >>=-eq-ok (validate_dynamic_rate_port protocol request.port) (after_port cidr protocol)
            h1 in
        let (seconds, e3, h3) =
          >>=-eq-ok (validate_duration request.duration_seconds) (after_duration cidr protocol port)
            h2 in
        let (at, e4, h4) =
          >>=-eq-ok (expires_after net parse add_seconds now seconds) (model_of cidr protocol port)
            h3 in
        let (n, text, parsed, printed) = normalize_cidr-printed request.cidr e0 in
        let (m, again, addr_same, len_same) = reads text n parsed in
        subst (λ model. IsLoadable (row_of id model)) (ok-injective h4)
          (read-IsLoadable
            (row_of id (record {
              policy_name = default_policy_name;
              cidr = cidr;
              protocol = protocol;
              port = port;
              expires_at = at;
              comment = request.comment;
              created_at = now;
            }))
            (subst (λ t. parse t ≡ some m) printed again)
            (port_columns-Reads protocol (given-Known request.protocol e1) request.port e2))

  -- a model whose row can be loaded, whatever its id is
  abbrev pub Loadable : {DateTime : Type 0} → ActiveModel DateTime → Type 0
  Loadable model = (id : ℤ) → IsLoadable (row_of id model)

  module _ {DateTime : Type 0} (add_seconds : DateTime → ℤ → Option DateTime)
      (reads : ReadsPrinted net parse) where
    pub active_models-Loadable :
        (now : ℕ → DateTime) (k : ℕ) (items : List CreateTempBanRequest)
        {models : List (ActiveModel DateTime)}
        → active_models net parse add_seconds now k items ≡ ok models
        → All (Loadable) models
    unfolding active_models
    active_models-Loadable now k [] h = subst (All Loadable) (ok-injective h) tt
    active_models-Loadable now k (item ∷ items) h =
        let (model, e, rest) =
          >>=-eq-ok (active_model net parse add_seconds (now k) item)
            (λ model. active_models net parse add_seconds now (suc k) items >>= λ models.
              ok (model ∷ models))
            h in
        let (models, es, whole) =
          >>=-eq-ok (active_models net parse add_seconds now (suc k) items)
            (λ models. ok (model ∷ models)) rest in
        subst (All Loadable) (ok-injective whole) (
          (λ id. active_model-IsLoadable add_seconds (now k) item reads id e),
          active_models-Loadable now (suc k) items es,
        )
