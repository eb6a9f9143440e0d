-- ===== src/Btmp/Counts.antt =====
-- tools/btmp-monitor/src/monitor.rs: the failures of the window, by address. The HashMap is the list
-- of its entries.
pub mod Keys
pub mod Merge
pub mod Window
use xdp_firewall.Prelude.{
  ℕ, ◌+◌, Bool, true, false, not, ◌&&◌, List, [], ◌∷◌, ◌++◌, if◌then◌else◌, retain, length,
}
use xdp_firewall.Net.{IpAddr, addr_eq, Chrono}
use xdp_firewall.Btmp.Record.{FailedAttempt}

abbrev pub Counts : Type 0 → Type 0
Counts DateTime = List (IpAddr × List DateTime)

-- `entry(ip).or_default().push_back(time)`
unfoldable pub push_back :
    {DateTime : Type 0} → IpAddr → DateTime → Counts DateTime → Counts DateTime
push_back ip time [] = (ip, time ∷ []) ∷ []
push_back ip time ((key, times) ∷ counts) =
    if addr_eq key ip
    then (key, times ++ time ∷ []) ∷ counts
    else (key, times) ∷ push_back ip time counts

-- the values of the map, added up
abbrev pub in_window : {DateTime : Type 0} → Counts DateTime → ℕ
in_window [] = 0
in_window ((key, times) ∷ counts) = length times + in_window counts

-- an entry whose list is empty is dropped
abbrev pub keep_entry :
    {DateTime : Type 0} → IpAddr → List DateTime → Counts DateTime → Counts DateTime
keep_entry key [] counts = counts
keep_entry key (time ∷ times) counts = (key, time ∷ times) ∷ counts

module _ (clock : Chrono) where
  open clock use {DateTime, lt}

  -- `time >= cutoff`
  abbrev pub since : DateTime → DateTime → Bool
  since cutoff time = not (lt time cutoff)

  -- the loop over the attempts
  unfoldable pub push_attempts :
      DateTime → Counts DateTime → List (FailedAttempt DateTime) → Counts DateTime
  unfolding push_back
  push_attempts cutoff counts [] = counts
  push_attempts cutoff counts (a ∷ attempts) =
      push_attempts cutoff (if since cutoff a.time then push_back a.ip a.time counts else counts)
        attempts

  -- `counts.retain` with `times.retain` inside
  unfoldable pub retain_since : DateTime → Counts DateTime → Counts DateTime
  unfolding retain
  retain_since cutoff [] = []
  retain_since cutoff ((key, times) ∷ counts) =
      keep_entry key (retain (since cutoff) times) (retain_since cutoff counts)

  unfoldable pub merge_attempts :
      Counts DateTime → List (FailedAttempt DateTime) → DateTime → Counts DateTime
  unfolding push_attempts retain_since
  merge_attempts counts attempts cutoff = retain_since cutoff (push_attempts cutoff counts attempts)
