-- ===== src/Xdp/Pending/Bans.antt =====
-- The temporary bans that are written still run, and none of them holds an address of the agent's
-- own interface.
use xdp_firewall.Prelude.{
  ◌≤◌, ◌≡◌, Bool, false, true, not, ◌||◌, List, arith, All, All-map_imp, retain-All,
}
use xdp_firewall.Net.{width, Ipnet, IpnetLaws, Chrono}
use xdp_firewall.Compaction.Coverage.{compact-All}
use xdp_firewall.Dedup.First.{unique-All, IsDistinct, unique-IsDistinct}
use xdp_firewall.Policy.Model.{XdpTempBan}
use xdp_firewall.Xdp.Encoding.{RuleKey, rule_id_eq}
use xdp_firewall.Xdp.Encoding.Keys.{rule_id_eq_iff}
use xdp_firewall.Xdp.Local.{LocalInterfaceCidr, compact_temp_bans, temp_ban_covers_or_supersedes}
use xdp_firewall.Xdp.Local.Safety.{Avoids, temp_ban-Avoids}
use xdp_firewall.Xdp.Pending.{
  ban_entry, ban_entry_id, temp_ban_matches_local_interface, pending_temp_bans,
}

neither : (a b : Bool) → not (not a || b) ≡ true → (a ≡ true) × (b ≡ false)
neither a b h = ground arith

module _ (net : Ipnet) (laws : IpnetLaws net) (locals : List LocalInterfaceCidr)
    (chrono : Chrono) where
  open chrono use {DateTime, lt}

  -- What is written for a ban: it ends after `now`, and holds none of the interface's addresses.
  abbrev pub IsSafeBan : DateTime → XdpTempBan DateTime → Type 0
  IsSafeBan now ban = (lt now ban.expires_at ≡ true) × Avoids ban.addr ban.prefix locals

  -- For bans with prefix lengths within their family's bits, each ban that is written ends after the
  -- time of the write and holds no address of the agent's own interface, and no two have the same key.
  pub pending_temp_bans_safe :
      (now : DateTime) (bans : List (XdpTempBan DateTime))
      → All (λ (b : XdpTempBan DateTime). b.prefix ≤ width b.addr) bans
      → All
          (λ (e : RuleKey × XdpTempBan DateTime). IsSafeBan now e.1)
          (pending_temp_bans net locals chrono now bans).1
        × IsDistinct rule_id_eq
            (ban_entry_id net locals chrono)
            (pending_temp_bans net locals chrono now bans).1
  unfolding pending_temp_bans temp_ban_matches_local_interface compact_temp_bans
  pending_temp_bans_safe now bans fits =
      let compacted =
        compact-All (temp_ban_covers_or_supersedes net chrono)
          (λ (b : XdpTempBan DateTime). b.prefix ≤ width b.addr) bans fits in
      let kept =
        retain-All (λ (b : XdpTempBan DateTime). b.prefix ≤ width b.addr)
          (λ ban.
            not (
              not (lt now ban.expires_at)
              || temp_ban_matches_local_interface net locals chrono ban))
          _ compacted in
      (
        unique-All rule_id_eq (ban_entry_id net locals chrono) rule_id_eq_iff
            (λ e. IsSafeBan now e.1) _
            (All-map_imp _ _ (ban_entry net locals chrono) _
              (λ b p.
                let (runs, misses) = neither _ _ p.1 in
                (runs, temp_ban-Avoids net laws chrono b locals p.0 misses))
              kept),
        unique-IsDistinct rule_id_eq (ban_entry_id net locals chrono) rule_id_eq_iff _,
      )
