-- ===== src/Btmp/Monitor.antt =====
-- tools/btmp-monitor/src/monitor.rs: the rounds of the daemon. A round is given what the system
-- answers for the btmp file, and the cutoff, `Utc::now()` less the window.
pub mod Candidates
pub mod Keeps
pub mod Daemon
pub mod Posts
pub mod Bans
pub mod Rounds
pub mod Accepted
pub mod Items
use xdp_firewall.Prelude.{
  ℕ, suc, ◌+◌, ◌<◌, ◌&&◌, ◌||◌, Bool, true, false, Option, none, some, List, [], ◌∷◌, ◌++◌, map,
  ltb, leb, ◌==◌, if◌then◌else◌, length, Result, ok, err,
}
use xdp_firewall.Prelude.Int.{ℤ}
use xdp_firewall.Exec.{Exec, pure, lift, on, ◌>>=◌, ◌>>◌}
use xdp_firewall.Sorting.{sort_by}
use xdp_firewall.Text.{Text, codes, text_eq}
use xdp_firewall.Net.{IpAddr, v4, v6, Ipnet, Chrono}
use xdp_firewall.Net.Display.{print_ip, print_decimal}
use xdp_firewall.Dedup.{contains_key}
use xdp_firewall.Btmp.Record.{FailedAttempt}
use xdp_firewall.Btmp.Read.{ReadCursor, BtmpFile, read_attempts}
use xdp_firewall.Btmp.Config.{Config, ban_port}
use xdp_firewall.Btmp.Counts.{Counts, in_window, merge_attempts}
use xdp_firewall.Btmp.Api.{
  CreateTempBanItem, HttpRequest, Http, ApiClient, list_temp_ban_cidrs, create_temp_bans_batch,
}

pub record RunSummary : Type 0 where
  pub parsed : ℕ
  pub in_window : ℕ
  pub banned : ℕ
  pub skipped_trusted : ℕ
  pub skipped_already_banned : ℕ
  pub below_threshold : ℕ

-- an address with the number of its failures
abbrev pub Candidate : Type 0
Candidate = IpAddr × ℕ

unfoldable pub ip_cidr : IpAddr → Text
unfolding print_ip
ip_cidr (v4 a) = print_ip (v4 a) ++ codes "/32"
ip_cidr (v6 a) = print_ip (v6 a) ++ codes "/128"

module _ (net : Ipnet) where
  open net use {IpNet, contains}

  abbrev pub is_trusted : IpAddr → List IpNet → Bool
  is_trusted ip [] = false
  is_trusted ip (cidr ∷ cidrs) = contains cidr ip || is_trusted ip cidrs

  module _ {DateTime : Type 0} (config : Config IpNet) (existing : List Text) where
    -- the body of the loop over the counts
    unfoldable pub consider :
        IpAddr → List DateTime → RunSummary × List Candidate → RunSummary × List Candidate
    unfolding ip_cidr
    consider ip times (summary, candidates) =
        if ltb (length times) config.ban.threshold
        then (record summary { below_threshold = suc summary.below_threshold }, candidates)
        else if is_trusted ip config.monitor.trusted_cidrs
        then (record summary { skipped_trusted = suc summary.skipped_trusted }, candidates)
        else if contains_key text_eq existing (ip_cidr ip)
        then (
          record summary { skipped_already_banned = suc summary.skipped_already_banned },
          candidates,
        )
        else (summary, candidates ++ (ip, length times) ∷ [])

    unfoldable pub consider_all :
        Counts DateTime → RunSummary × List Candidate → RunSummary × List Candidate
    unfolding consider
    consider_all [] found = found
    consider_all ((ip, times) ∷ counts) found = consider_all counts (consider ip times found)

  -- one request item
  unfoldable pub item_of : Config IpNet → Candidate → CreateTempBanItem
  unfolding ip_cidr print_decimal ban_port
  item_of config (ip, count) = record {
    cidr = ip_cidr ip;
    protocol = config.ban.protocol;
    port = ban_port config;
    duration_seconds = config.ban.duration_seconds;
    comment = some (
        config.ban.comment
        ++ codes " ("
        ++ print_decimal count
        ++ codes " failures >= "
        ++ print_decimal config.ban.threshold
        ++ codes ")");
  }

-- `sort_by_key(Reverse(count))`
abbrev pub more_failures : Candidate → Candidate → Bool
more_failures (a, n) (b, m) = ltb m n

-- The state of the monitor, and the requests that its client has sent.
pub record Monitor (DateTime : Type 0) : Type 0 where
  pub cursor : Option ReadCursor
  pub counts : Counts DateTime
  pub requests : List HttpRequest

module _ (net : Ipnet) (clock : Chrono) (from_timestamp : ℤ → ℕ → Option clock.DateTime)
    (http : Http) (config : Config net.IpNet) where
  open clock use {DateTime}

  abbrev pub client : ApiClient
  client = record { base_url = config.api_url; token = config.api_token }

  -- a call of the client
  abbrev pub api : {A : Type 0} → Exec (List HttpRequest) A → Exec (Monitor DateTime) A
  api call = on (λ m. m.requests) (λ requests m. record m { requests = requests }) call

  abbrev pub store_read :
      Result (List (FailedAttempt DateTime) × ReadCursor)
      → Exec (Monitor DateTime) (List (FailedAttempt DateTime))
  store_read (err e) m = (err e, m)
  store_read (ok (attempts, cursor)) m = (ok attempts, record m { cursor = some cursor })

  unfoldable pub collect_attempts :
      Option BtmpFile → Exec (Monitor DateTime) (List (FailedAttempt DateTime))
  collect_attempts file m = store_read (read_attempts from_timestamp file m.cursor) m

  unfoldable pub merge :
      List (FailedAttempt DateTime) → DateTime → Exec (Monitor DateTime) (Unit {0})
  merge attempts cutoff m =
      (ok tt, record m { counts = merge_attempts clock m.counts attempts cutoff })

  unfoldable pub existing_cidrs : Bool → Exec (Monitor DateTime) (List Text)
  existing_cidrs true = pure []
  existing_cidrs false = api (list_temp_ban_cidrs http client)

  abbrev pub first_summary : ℕ → Counts DateTime → RunSummary
  first_summary parsed counts = record {
    parsed = parsed;
    in_window = in_window counts;
    banned = 0;
    skipped_trusted = 0;
    skipped_already_banned = 0;
    below_threshold = 0;
  }

  -- from the candidates on
  unfoldable pub submit : Bool → RunSummary → List Candidate → Exec (Monitor DateTime) RunSummary
  submit dry_run summary [] = pure summary
  submit true summary (c ∷ cs) = pure (record summary { banned = length (c ∷ cs) })
  submit false summary (c ∷ cs) = do
    n ← api (
        create_temp_bans_batch http client
          (map (item_of net config) (sort_by more_failures (c ∷ cs))))
    pure (record summary { banned = n })

  -- behind the listing of the bans
  unfoldable pub ban_round : Bool → ℕ → List Text → Exec (Monitor DateTime) RunSummary
  unfolding submit consider_all
  ban_round dry_run parsed existing m =
      let found = consider_all net config existing m.counts (first_summary parsed m.counts, []) in
      submit dry_run found.0 found.1 m

  -- behind the reading of the file
  unfoldable pub judge :
      DateTime → Bool → List (FailedAttempt DateTime) → Exec (Monitor DateTime) RunSummary
  unfolding merge existing_cidrs ban_round
  judge cutoff dry_run attempts = do
    merge attempts cutoff
    existing ← existing_cidrs dry_run
    ban_round dry_run (length attempts) existing

  unfoldable pub run_once : Option BtmpFile → DateTime → Bool → Exec (Monitor DateTime) RunSummary
  unfolding collect_attempts judge
  run_once file cutoff dry_run = do attempts ← collect_attempts file; judge cutoff dry_run attempts

  -- The loop of run_daemon in tools/btmp-monitor/src/main.rs: a failed round is logged, and the next
  -- one starts from the state that it left. The rounds are those before a signal.
  unfoldable pub run_daemon :
      Bool → List (Option BtmpFile × DateTime) → Monitor DateTime → Monitor DateTime
  run_daemon dry_run [] m = m
  run_daemon dry_run ((file, cutoff) ∷ rounds) m =
      run_daemon dry_run rounds (run_once file cutoff dry_run m).1
