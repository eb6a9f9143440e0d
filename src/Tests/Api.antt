-- ===== src/Tests/Api.antt =====
-- The handlers of the temporary bans, with two nodes and a parser of two networks.
use xdp_firewall.Prelude.{
  ℕ, ◌+◌, ◌≡◌, refl, subst, Bool, true, false, Option, none, some, List, [], ◌∷◌, ok, retain,
}
use xdp_firewall.Prelude.Int.{ℤ, pos, negsuc}
use xdp_firewall.Text.{Text, codes, text_eq, trim}
use xdp_firewall.Net.{v4}
use xdp_firewall.Net.Parse.{parse_ip}
use xdp_firewall.Net.Display.{print_ip}
use xdp_firewall.Net.Example.{nets, nets-laws, Network}
use xdp_firewall.Policy.Rows.{TempBanRow}
use xdp_firewall.ControlPlane.Validation.{
  validate_batch_len, print_net, ReadsPrinted, validate_batch_ids,
}
use xdp_firewall.ControlPlane.Database.{Tables, Database}
use xdp_firewall.ControlPlane.TempBanInput.{CreateTempBanRequest}
use xdp_firewall.ControlPlane.TempBans.{create_batch}
use xdp_firewall.ControlPlane.TempBans.Stored.{
  TempBanCall, call_create_batch, call_delete_batch, run_calls, AllLoad, run_calls-AllLoad,
}
use xdp_firewall.ControlPlane.TempBans.Batch.{BatchOutcome, create_batch_lem}

abbrev given : Network
given = record { address = v4 0xc0000207; len = 24 }

abbrev normal : Network
normal = record { address = v4 0xc0000200; len = 24 }

abbrev choose : Bool → Bool → Option Network
choose true b = some given
choose false true = some normal
choose false false = none

abbrev parse : Text → Option Network
parse text = choose (text_eq text (codes "192.0.2.7/24")) (text_eq text (codes "192.0.2.0/24"))

abbrev ReadsBack : Network → Type 0
ReadsBack n =
    (m : Network) × (parse (print_net nets n) ≡ some m)
    × (m.address ≡ nets.network n)
    × (nets.prefix_len m ≡ nets.prefix_len n)

some-injective : {A : Type 0} {a b : A} → some a ≡ some b → a ≡ b
some-injective h = cc

choose-ReadsBack : (a b : Bool) (n : Network) → choose a b ≡ some n → ReadsBack n
unfolding print_net print_ip
choose-ReadsBack true b n h = subst ReadsBack (some-injective h) (normal, refl, refl, refl)
choose-ReadsBack false true n h = subst ReadsBack (some-injective h) (normal, refl, refl, refl)
choose-ReadsBack false false n h = absurd (cc)

reads : ReadsPrinted nets parse
reads text n h =
    choose-ReadsBack (text_eq text (codes "192.0.2.7/24")) (text_eq text (codes "192.0.2.0/24")) n h

-- seconds since some time
abbrev add_seconds : ℕ → ℤ → Option ℕ
add_seconds t (pos n) = some (t + n)
add_seconds t (negsuc n) = none

abbrev fails : ℕ → Bool
fails n = false

abbrev now : ℕ → ℕ
now k = 1000 + k

abbrev request : CreateTempBanRequest
request = record {
  cidr = codes " 192.0.2.7/24";
  protocol = some (codes "TCP");
  port = some (pos 22);
  duration_seconds = none;
  comment = none;
}

abbrev tables : Tables ℕ
tables = record {
  nodes =
      record { policy_name = codes "default"; interface_ips = codes "203.0.113.9, 10.0.0.1" } ∷ [];
  temp_bans = [];
  last_temp_ban_id = 6;
  policy_versions = (codes "default", pos 3) ∷ [];
}

abbrev database : Database ℕ
database = record { tables = tables; statements = 0 }

abbrev stored : TempBanRow ℕ
stored = record {
  id = pos 7;
  policy_name = codes "default";
  cidr = codes "192.0.2.0/24";
  protocol = codes "tcp";
  port = some (pos 22);
  expires_at = 1300;
  comment = none;
  created_at = 1000;
}

create_batch_stores :
    (create_batch nets parse add_seconds fails now (request ∷ []) database).1.tables
    ≡ record tables {
      temp_bans = stored ∷ [];
      last_temp_ban_id = 7;
      policy_versions = (codes "default", pos 4) ∷ [];
    }
unfolding create_batch parse_ip trim validate_batch_len retain
create_batch_stores = refl

create_batch_empty : (create_batch nets parse add_seconds fails now [] database).1.tables ≡ tables
unfolding create_batch validate_batch_len
create_batch_empty = refl

unique_batch_ids : validate_batch_ids (pos 4 ∷ pos 2 ∷ pos 4 ∷ []) ≡ ok (pos 4 ∷ pos 2 ∷ [])
unfolding validate_batch_ids
unique_batch_ids = refl

create_batch_lem_example :
    BatchOutcome nets nets-laws parse add_seconds fails now
      (request ∷ request ∷ [])
      tables
      (create_batch nets parse add_seconds fails now (request ∷ request ∷ []) database)
create_batch_lem_example =
    create_batch_lem nets nets-laws parse add_seconds fails now (request ∷ request ∷ []) database

abbrev calls : List (TempBanCall ℕ)
calls =
    call_create_batch now (request ∷ request ∷ []) ∷ call_delete_batch now (pos 7 ∷ pos 7 ∷ []) ∷ []

run_calls-AllLoad_example :
    AllLoad nets parse add_seconds fails
      (run_calls nets parse add_seconds fails calls database).tables
run_calls-AllLoad_example = run_calls-AllLoad nets parse add_seconds fails reads calls database tt
