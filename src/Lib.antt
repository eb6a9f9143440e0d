-- ===== src/Lib.antt =====
-- xdp-firewall: a distributed firewall. A control plane keeps a policy in a database and serves it
-- to agents; each agent compiles the policy and writes it to the maps of an XDP program, which
-- decides for every packet; a monitor on a host reads failed logins and has the control plane ban
-- their sources. This library models the path of a policy from the snapshot that the control plane
-- serves to the entries of the maps, the lock under which threat lists are refreshed, and the
-- monitor.
--
-- - Policy (src/policy, src/intelligence/geo/country.rs): the types of the snapshot and of the compiled
--   policy (Policy.Model), their validation (Policy.Validate), country codes (Policy.Country),
--   compile_policy with its helpers (Policy.Compile), and the rows of the database that hold rate limits
--   and the dynamic defense (Policy.Rows, with src/db/scalars.rs and
--   src/control_plane/api/dynamic_defense/model.rs). A snapshot is compiled or refused with an error.
-- - Xdp (src/data_plane/xdp): capacities of the maps and their growth (Xdp.Capacity), the keys, ids and
--   codes of the entries (Xdp.Encoding), the compaction of trusted prefixes and bans and the tests
--   against the agent's own addresses (Xdp.Local), the entries that a policy asks for (Xdp.Pending), the
--   values (Xdp.Values), and the write: LinuxXdpManager::apply and apply_to_current_maps with every
--   put_*_key and remove_stale_*_keys (Xdp.Apply). The state is the record LinuxXdpManager; a method
--   that may fail with `?` is of type Exec, from a state to a result and the state behind it, so what was
--   written before an error stays written. Xdp.BpfMap has the two loops over a map in general.
-- - Xds (src/control_plane/xds): the trusted CIDRs that the control plane adds at run time
--   (Xds.RuntimeCidrs), and the gates of its background refreshes (Xds.Refresh).
-- - Agent (src/agent): the policy that an agent writes (Agent.Trust: apply_latest and the trusted CIDR of
--   the control plane) and what it does in an outage (Agent.Offline), with the loops around it as a step
--   relation on the state AgentRuntime.
-- - Btmp (tools/btmp-monitor/src): the records of the btmp file (Btmp.Record, btmp.rs), the incremental
--   reading with its cursor (Btmp.Read, btmp.rs), the configuration (Btmp.Config, config.rs), the failures
--   in the window (Btmp.Counts, monitor.rs), the client of the API (Btmp.Api, api.rs), and the rounds:
--   Monitor::run_once and the loop of run_daemon in main.rs (Btmp.Monitor). The state is the record
--   Monitor, with the requests that were sent. What the system answers for the file and the cutoff of a
--   round, `Utc::now()` less the window, are arguments of a round; the server is any function of all the
--   requests before (Btmp.Api.Http).
-- - ControlPlane (src/control_plane/api): the handlers that write temporary bans (ControlPlane.TempBans,
--   with ControlPlane.TempBanInput for temp_bans/input.rs), their checks (ControlPlane.Validation,
--   validation/*.rs), and the tables with their statements (ControlPlane.Database, with
--   src/db/policy_version.rs). The state is the record Database; any statement may fail, and a
--   transaction that fails leaves the tables as they were.
-- - Intelligence.Lock (src/intelligence/refresh_lock.rs, src/intelligence/threat/lock.rs): the row of
--   the refresh lock and the four statements on it. Intelligence.Lock.System interleaves the statements
--   of any number of processes, with crashes and the passing of time, as a step relation.
-- - Shared: Compaction is the loop that three functions of the program repeat, Dedup the loop over a
--   HashSet of ids, Sorting is slice::sort_by, Text is str with
--   from_utf8 (Text.Utf8); Net has IpAddr with its parser and printer (Net.Parse, Net.Display).
--
-- The policy flows from Xds.RuntimeCidrs.load_policy_snapshot to Policy.Compile.compile_policy
-- (whose cleared host bits are what the compactions of Xdp.Local rely on), both in
-- Agent.Trust.Latest.apply_latest, and from there to Xdp.Apply.apply_to_current_maps. A round of
-- the monitor goes from Btmp.Read.read_attempts by Btmp.Counts.merge_attempts and
-- Btmp.Monitor.consider_all to Btmp.Api.create_temp_bans_batch; its items are requests of
-- ControlPlane.TempBans.create_batch, whose check of one request is ControlPlane.TempBanInput.active_model
-- (Btmp.Monitor.Accepted). The rows that this stores are read by Policy.Rows.parse_temp_ban
-- (ControlPlane.TempBans.Loads).
--
-- Code outside the repository is a parameter: ipnet and chrono are the records Net.Ipnet and
-- Net.Chrono with the laws Net.IpnetLaws and Net.ChronoLaws; the maps of aya are Xdp.BpfMap.BpfMap
-- with the laws of a BPF map on canonical keys; the clock of the kernel and the defense array are
-- fields of Xdp.Apply.Kernel; reqwest, serde and the server are Btmp.Api.Http, chrono's
-- from_timestamp an argument of Btmp.Record; ipnet's parser of a text is an argument of
-- ControlPlane.Validation with the law ReadsPrinted, and the times that a handler reads are
-- arguments. Net.Example, Xdp.BpfMap.Example and Tests.Fixtures give concrete values of all.
--
-- Integers: u8 to u64 and usize are numbers, with the wrap or the check where the code computes;
-- i32 and i64 are integers of Prelude.Int. Fuel: checked_next_power_of_two has 64 rounds, for the
-- exponents 0 to 63 of a u64, and the listing of the bans 2 ^ 64, since the number of its page is a
-- u64 below the total of pages, which is one too. The microseconds of a btmp record wrap as in a
-- release build. The clock of the lock is the same for all processes and gives no time twice, and
-- the lock's times are exact. IpAddr is its family and a number, a text a list of code points.
--
-- Not modelled: log messages and the texts of errors; the attachment of the XDP program, netlink
-- and the pinned maps; the XDP program itself, which is C; the other handlers of the HTTP API, the
-- migrations of the database, the signals and arguments of the monitor, the frontend and the loops
-- of the agent, which are input and output around the modelled functions.
pub mod Prelude
pub mod Compaction
pub mod Exec
pub mod Sorting
pub mod Dedup
pub mod Intelligence
pub mod Net
pub mod Text
pub mod Policy
pub mod Xdp
pub mod Xds
pub mod Agent
pub mod Btmp
pub mod ControlPlane
pub mod Tests
