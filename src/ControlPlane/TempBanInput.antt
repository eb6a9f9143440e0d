-- ===== src/ControlPlane/TempBanInput.antt =====
-- src/control_plane/api/temp_bans/input.rs: the row that a request for a temporary ban asks for. `now`
-- is the time that is read, `add_seconds` chrono's checked_add_signed of a number of seconds.
use xdp_firewall.Prelude.{
  ℕ, suc, Bool, false, Option, none, some, List, [], ◌∷◌, ltb, if◌then◌else◌, Result, ok, err,
  out_of_range, expiration_overflow, transpose_map, ◌>>=◌,
}
use xdp_firewall.Prelude.Int.{ℤ, pos, negsuc}
use xdp_firewall.Text.{Text, codes}
use xdp_firewall.Net.{Ipnet}
use xdp_firewall.ControlPlane.Validation.{
  normalize_protocol, validate_dynamic_rate_port, normalize_cidr, is_positive,
}

pub record CreateTempBanRequest : Type 0 where
  pub cidr : Text
  pub protocol : Option Text
  pub port : Option ℤ
  pub duration_seconds : Option ℤ
  pub comment : Option Text

-- temp_ban::ActiveModel, all of whose columns but the id are set
pub record ActiveModel (DateTime : Type 0) : Type 0 where
  pub policy_name : Text
  pub cidr : Text
  pub protocol : Text
  pub port : Option ℤ
  pub expires_at : DateTime
  pub comment : Option Text
  pub created_at : DateTime

-- DEFAULT_POLICY_NAME of src/policy/model.rs
abbrev pub default_policy_name : Text
default_policy_name = codes "default"

abbrev pub default_temp_ban_seconds : ℕ
default_temp_ban_seconds = 300

abbrev pub max_temp_ban_seconds : ℕ
max_temp_ban_seconds = 31536000

abbrev pub or_default {ℓ} : {A : Type ℓ} → A → Option A → A
or_default a none = a
or_default a (some b) = b

abbrev pub above_max : ℤ → Bool
above_max (pos n) = ltb max_temp_ban_seconds n
above_max (negsuc n) = false

unfoldable pub validate_duration : Option ℤ → Result ℤ
validate_duration value =
    let duration = or_default (pos default_temp_ban_seconds) value in
    if is_positive duration
    then (if above_max duration then err (out_of_range "duration_seconds") else ok duration)
    else err (out_of_range "duration_seconds")

module _ (net : Ipnet) (parse : Text → Option net.IpNet) {DateTime : Type 0}
    (add_seconds : DateTime → ℤ → Option DateTime) where
  abbrev pub expires_after : DateTime → ℤ → Result DateTime
  expires_after now duration = elim (add_seconds now duration) [
    | none ↦ err expiration_overflow
    | some expires_at ↦ ok expires_at
  ]

  unfoldable pub active_model : DateTime → CreateTempBanRequest → Result (ActiveModel DateTime)
  unfolding normalize_protocol validate_dynamic_rate_port normalize_cidr validate_duration
  active_model now request = do
    cidr ← normalize_cidr net parse request.cidr
    given ← transpose_map normalize_protocol request.protocol
    let protocol = or_default (codes "any") given
    port ← validate_dynamic_rate_port protocol request.port
    duration_seconds ← validate_duration request.duration_seconds
    expires_at ← expires_after now duration_seconds
    ok (record {
      policy_name = default_policy_name;
      cidr = cidr;
      protocol = protocol;
      port = port;
      expires_at = expires_at;
      comment = request.comment;
      created_at = now;
    })

  -- `into_iter().map(active_model).collect()`; the k-th item reads the time `now k`
  unfoldable pub active_models :
      (ℕ → DateTime) → ℕ → List CreateTempBanRequest → Result (List (ActiveModel DateTime))
  unfolding active_model
  active_models now k [] = ok []
  active_models now k (request ∷ requests) = do
    model ← active_model (now k) request
    models ← active_models now (suc k) requests
    ok (model ∷ models)
