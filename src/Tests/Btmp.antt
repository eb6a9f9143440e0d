-- ===== src/Tests/Btmp.antt =====
-- The monitor of failed logins, with a file of records and a small server.
use xdp_firewall.Prelude.{
  ℕ, zero, suc, ◌+◌, ◌*◌, ◌≤◌, ◌<◌, ◌≡◌, ◌≢◌, refl, false, Option, none, some, List, [], ◌∷◌, ◌++◌,
  arith, All, Any, ok, err, length, take, retain, out_of_fuel,
}
use xdp_firewall.Prelude.Int.{ℤ, pos, negsuc}
use xdp_firewall.Text.{Text, codes, trim}
use xdp_firewall.Net.{IpAddr, v4, v6}
use xdp_firewall.Net.Parse.{parse_ip}
use xdp_firewall.Net.Display.{print_ip}
use xdp_firewall.Net.Example.{nets, nets-laws, clock, clock-laws, Network}
use xdp_firewall.Btmp.Record.{FailedAttempt, parse_record}
use xdp_firewall.Btmp.Read.{ReadCursor, read_attempts}
use xdp_firewall.Btmp.Read.Rounds.{grown, file_of, read_rounds, rounds_read_everything}
use xdp_firewall.Btmp.Config.{Config, validate}
use xdp_firewall.Btmp.Counts.{since}
use xdp_firewall.Btmp.Counts.Keys.{times_of, IsMap}
use xdp_firewall.Btmp.Counts.Merge.{failures_of}
use xdp_firewall.Btmp.Api.{
  CreateTempBanItem, Page, HttpRequest, get, post, Http, HttpLaws, ApiClient, chunks,
  list_temp_ban_cidrs, create_temp_bans_batch,
}
use xdp_firewall.Btmp.Api.Chunks.{concat}
use xdp_firewall.Btmp.Api.Batch.{Outcome, create_temp_bans_batch_lem}
use xdp_firewall.Btmp.Api.Pages.{
  Serves, items_from, list_temp_ban_cidrs_ends, list_temp_ban_cidrs_complete,
}
use xdp_firewall.Btmp.Monitor.{RunSummary, Monitor, item_of, consider_all, run_once, run_daemon}
use xdp_firewall.Btmp.Monitor.Accepted.{request_of, item_of_accepted}
use xdp_firewall.Btmp.Monitor.Candidates.{Justified, IsBannable, tally, consider_all_exact}
use xdp_firewall.Btmp.Monitor.Daemon.{files, run_daemon_counts}
use xdp_firewall.Btmp.Monitor.Keeps.{HoldsRead, run_once_keeps_read}
use xdp_firewall.Btmp.Monitor.Rounds.{RoundBans, run_once_bans}
use xdp_firewall.ControlPlane.Validation.SingleHost.{IsHost}
use xdp_firewall.ControlPlane.TempBanInput.{default_policy_name, active_model}

abbrev zeros : ℕ → List ℕ
zeros zero = []
zeros (suc n) = 0 ∷ zeros n

-- A failed login from 192.0.2.7, 1000 + `seconds` after the epoch.
abbrev record_bytes : ℕ → List ℕ
record_bytes seconds =
    zeros 340 ++ (232 + seconds) ∷ 3 ∷ 0 ∷ 0 ∷ 1 ∷ 0 ∷ 0 ∷ 0 ∷ 192 ∷ 0 ∷ 2 ∷ 7 ∷ zeros 32

-- nanoseconds since the epoch
abbrev from_timestamp : ℤ → ℕ → Option ℕ
from_timestamp (pos seconds) nanos = some (seconds * 1000000000 + nanos)
from_timestamp (negsuc n) nanos = none

abbrev source : IpAddr
source = v4 0xc0000207

parse_record_source :
    parse_record from_timestamp (record_bytes 2)
    ≡ some (record { ip = v6 0xc0000207000000000000000000000000; time = 1002000001000 })
unfolding parse_record
parse_record_source = refl

parse_ip_v4 : parse_ip (codes "192.0.2.7") ≡ some source
unfolding parse_ip
parse_ip_v4 = refl

parse_ip_v6 : parse_ip (codes "2001:db8::1") ≡ some (v6 0x20010db8000000000000000000000001)
unfolding parse_ip
parse_ip_v6 = refl

parse_ip_octal : parse_ip (codes "192.0.2.07") ≡ none
unfolding parse_ip
parse_ip_octal = refl

print_ip_v4 : print_ip source ≡ codes "192.0.2.7"
unfolding print_ip
print_ip_v4 = refl

print_ip_v6 : print_ip (v6 0x20010db8000000000000000000000001) ≡ codes "2001:db8::1"
unfolding print_ip
print_ip_v6 = refl

-- A server with one page of bans, that accepts every batch.
abbrev ban_page : ℕ → Page
ban_page number = record { items = codes "10.0.0.1/32" ∷ []; total_pages = 1 }

abbrev answer : HttpRequest → Option (ℕ × ℕ)
answer (get url token) = some (200, 1)
answer (post url token items) = some (201, 0)

abbrev http : Http
http = record {
  Body = ℕ;
  send = λ requests request. answer request;
  decode_page = λ number. some (ban_page number);
}

http-laws : HttpLaws http
http-laws body page e = ground arith

abbrev config : Config Network
config = record {
  api_url = codes "http://10.0.0.1/api";
  api_token = codes "t";
  ban = record {
    threshold = 2;
    window_seconds = 600;
    duration_seconds = pos 3600;
    protocol = codes "tcp";
    port = pos 22;
    comment = codes "ssh";
  };
  monitor = record {
    btmp_path = codes "/var/log/btmp";
    trusted_cidrs = record { address = v4 0x0a000000; len = 8 } ∷ [];
  };
}

validate-config : validate config ≡ ok tt
unfolding validate trim
validate-config = refl

abbrev client : ApiClient
client = record { base_url = config.api_url; token = config.api_token }

-- The file at the first round: two whole records and a part of a third, of which the rest is written
-- while the file is read.
abbrev start : List ℕ × List ℕ
start = (record_bytes 0 ++ record_bytes 1 ++ take 100 (record_bytes 2), [])

abbrev later : List ℕ × List ℕ
later = (zeros 284, [])

abbrev monitor : Monitor ℕ
monitor = record { cursor = none; counts = []; requests = [] }

rounds_read_everything_example :
    (next : ReadCursor) × (read_attempts from_timestamp
        (some (file_of 7 [] (grown [] (start ∷ later ∷ []), [])))
        none
      ≡ ok ((read_rounds from_timestamp 7 [] none (start ∷ later ∷ [])).0, next))
    × ((read_rounds from_timestamp 7 [] none (start ∷ later ∷ [])).1 ≡ some next)
rounds_read_everything_example = rounds_read_everything from_timestamp 7 start (later ∷ [])

run_daemon_counts_example :
    (attempts : List (FailedAttempt ℕ)) × (next : ReadCursor) × (read_attempts from_timestamp
        (some (file_of 7 [] (grown [] (start ∷ later ∷ []), [])))
        none
      ≡ ok (attempts, next))
    × IsMap
        (run_daemon nets clock from_timestamp http config false
          (files nets clock from_timestamp http config 7 [] ((start, 0) ∷ (later, 5) ∷ []))
          monitor).counts
    × (times_of source
          (run_daemon nets clock from_timestamp http config false
            (files nets clock from_timestamp http config 7 [] ((start, 0) ∷ (later, 5) ∷ []))
            monitor).counts
        ≡ retain (since clock 5) (failures_of source attempts))
run_daemon_counts_example =
    run_daemon_counts nets clock from_timestamp http config 7 clock-laws false start 0
      ((later, 5) ∷ []) monitor source refl refl (refl, tt)

run_once_bans_example :
    RoundBans nets nets-laws clock from_timestamp http config monitor
      (run_once nets clock from_timestamp http config (some (file_of 7 [] start)) 0 false monitor)
run_once_bans_example =
    run_once_bans nets nets-laws clock from_timestamp http config (some (file_of 7 [] start)) 0
      monitor

run_once_keeps_read_example :
    HoldsRead nets clock from_timestamp http config
      (read_attempts from_timestamp (some (file_of 7 [] start)) none)
      0
      monitor
      (run_once nets clock from_timestamp http config (some (file_of 7 [] start)) 0 false monitor).1
run_once_keeps_read_example =
    run_once_keeps_read nets clock from_timestamp http config (some (file_of 7 [] start)) 0 false
      monitor

-- 192.0.2.7 failed twice, the trusted 10.0.0.9 twice, 203.0.113.1 once, and 203.0.113.2 is banned.
abbrev counts : List (IpAddr × List ℕ)
counts =
    (source, 1 ∷ 2 ∷ [])
    ∷ (v4 0x0a000009, 1 ∷ 3 ∷ [])
    ∷ (v4 0xcb007101, 4 ∷ [])
    ∷ (v4 0xcb007102, 5 ∷ 6 ∷ [])
    ∷ []

abbrev banned : List Text
banned = codes "203.0.113.2/32" ∷ []

abbrev empty_summary : RunSummary
empty_summary = record {
  parsed = 7;
  in_window = 7;
  banned = 0;
  skipped_trusted = 0;
  skipped_already_banned = 0;
  below_threshold = 0;
}

consider_all_counts : consider_all nets config banned counts (empty_summary, []) ≡ (
  record empty_summary { skipped_trusted = 1; skipped_already_banned = 1; below_threshold = 1 },
  (source, 2) ∷ [],
)
unfolding consider_all
consider_all_counts = refl

consider_all_exact_example :
    All
      (Justified nets nets-laws config banned counts)
      (consider_all nets config banned counts (empty_summary, [])).1
    × All
        (λ (entry : IpAddr × List ℕ).
          IsBannable nets nets-laws config banned entry.0 (length entry.1)
          → Any
              (λ c. c ≡ (entry.0, length entry.1))
              (consider_all nets config banned counts (empty_summary, [])).1)
        counts
    × (tally nets nets-laws config banned
          (consider_all nets config banned counts (empty_summary, []))
        ≡ tally nets nets-laws config banned (empty_summary, []) + length counts)
consider_all_exact_example = consider_all_exact nets nets-laws config banned counts empty_summary

abbrev item : CreateTempBanItem
item = record {
  cidr = codes "192.0.2.7/32";
  protocol = codes "tcp";
  port = some (pos 22);
  duration_seconds = pos 3600;
  comment = none;
}

create_temp_bans_batch_lem_example :
    (concat (chunks (item ∷ [])) ≡ item ∷ [])
    × All (λ chunk. (0 < length chunk) × (length chunk ≤ 500)) (chunks (item ∷ []))
    × Outcome http client 0
        (chunks (item ∷ []))
        []
        (create_temp_bans_batch http client (item ∷ []) [])
create_temp_bans_batch_lem_example = create_temp_bans_batch_lem http client (item ∷ []) []

list_temp_ban_cidrs_ends_example : (list_temp_ban_cidrs http client []).0 ≢ err out_of_fuel
list_temp_ban_cidrs_ends_example = list_temp_ban_cidrs_ends http client http-laws []

serves : Serves http client ban_page 1
serves = record {
  answers = λ k requests low high. refl;
  total = λ k. refl;
  filled = λ k low high. absurd (omega arith);
}

list_temp_ban_cidrs_complete_example :
    (list_temp_ban_cidrs http client []).0 ≡ ok (items_from http client ban_page 1 1)
list_temp_ban_cidrs_complete_example =
    list_temp_ban_cidrs_complete http client ban_page 1 [] serves (omega arith) (omega arith)

-- a parser that reads any text as 192.0.2.7/32
abbrev parse : Text → Option Network
parse text = some (record { address = source; len = 32 })

-- seconds behind a time
abbrev add_seconds : ℕ → ℤ → Option ℕ
add_seconds t (pos n) = some (t + n)
add_seconds t (negsuc n) = none

source-IsHost : IsHost nets source (record { address = source; len = 32 })
source-IsHost = record { same_network = refl; whole_prefix = refl }

item_of_accepted_example :
    active_model nets parse add_seconds 50 (request_of (item_of nets config (source, 4)))
    ≡ ok (record {
      policy_name = default_policy_name;
      cidr = codes "192.0.2.7/32";
      protocol = codes "tcp";
      port = some (pos 22);
      expires_at = 3650;
      comment = (item_of nets config (source, 4)).comment;
      created_at = 50;
    })
unfolding print_ip
item_of_accepted_example =
    item_of_accepted nets parse add_seconds config (source, 4) 50 validate-config refl source-IsHost
      refl
