-- ===== src/ControlPlane/TempBans/Rejects.antt =====
-- The checks against the addresses of the nodes read the tables and change nothing.
use xdp_firewall.Prelude.{ℕ, ◌≡◌, sym, ap, subst, ◌∙◌, Bool, Option, List, [], ◌∷◌, All, ok}
use xdp_firewall.Prelude.Int.{ℤ}
use xdp_firewall.Exec.{lift, Leads, bind-ok, lift-bind-ok}
use xdp_firewall.Text.{Text}
use xdp_firewall.Net.{Ipnet, IpnetLaws}
use xdp_firewall.ControlPlane.Validation.{parse_normalized_cidr, reject_nodes}
use xdp_firewall.ControlPlane.Validation.Nodes.{Spares, reject_nodes-ok}
use xdp_firewall.ControlPlane.Database.{NodeRow, Tables, Database, statement}
use xdp_firewall.ControlPlane.Database.Leads.{Holds, statement-Leads, then-Leads, lift-Leads}
use xdp_firewall.ControlPlane.Database.Outcomes.{statement-ok}
use xdp_firewall.ControlPlane.TempBanInput.{CreateTempBanRequest}
use xdp_firewall.ControlPlane.TempBans.{
  node_ips, reject_node_ip_block, reject_temp_ban_node_ip, reject_all,
}

module _ (net : Ipnet) (parse : Text → Option net.IpNet) {DateTime : Type 0}
    (add_seconds : DateTime → ℤ → Option DateTime) (fails : ℕ → Bool) (now : ℕ → DateTime)
    (Keeps : Tables DateTime → Type 0) where
  pub reject-Leads :
      (request : CreateTempBanRequest)
      → Leads
          (Holds fails Keeps)
          (Holds fails Keeps)
          (reject_temp_ban_node_ip net parse add_seconds fails now request)
  unfolding reject_temp_ban_node_ip reject_node_ip_block
  reject-Leads request =
      lift-Leads fails Keeps (parse_normalized_cidr net parse request.cidr) _ (λ cidr _.
        then-Leads fails Keeps (statement fails (λ t. (node_ips t.nodes, t))) _
          (statement-Leads fails Keeps _ (λ t p. p)) (λ rows d p. p))

  pub reject_all-Leads :
      (items : List CreateTempBanRequest)
      → Leads
          (Holds fails Keeps)
          (Holds fails Keeps)
          (reject_all net parse add_seconds fails now items)
  unfolding reject_all
  reject_all-Leads [] = λ d p. p
  reject_all-Leads (item ∷ items) =
      then-Leads fails Keeps _ (λ _. reject_all net parse add_seconds fails now items)
        (reject-Leads item) (λ _. reject_all-Leads items)

-- The check succeeds only if the network of the request spares the nodes.
module _ (net : Ipnet) (laws : IpnetLaws net) (parse : Text → Option net.IpNet) {DateTime : Type 0}
    (add_seconds : DateTime → ℤ → Option DateTime) (fails : ℕ → Bool) (now : ℕ → DateTime) where
  -- The network of the request holds no address of a node.
  abbrev pub SparesNodes : List NodeRow → CreateTempBanRequest → Type 0
  SparesNodes nodes request =
      (cidr : net.IpNet) × (parse_normalized_cidr net parse request.cidr ≡ ok cidr)
      × Spares net cidr (node_ips nodes)

  reject-ok :
      (request : CreateTempBanRequest) (d : Database DateTime) {u : Unit {0}}
      {after : Database DateTime}
      → reject_temp_ban_node_ip net parse add_seconds fails now request d ≡ (ok u, after)
      → SparesNodes d.tables.nodes request × (after.tables ≡ d.tables)
  unfolding reject_temp_ban_node_ip reject_node_ip_block
  reject-ok request d h =
      let (cidr, e0, h0) =
        lift-bind-ok (parse_normalized_cidr net parse request.cidr)
          (reject_node_ip_block net parse add_seconds fails now) d h in
      let (rows, read, e1, h1) =
        bind-ok (statement fails (λ t. (node_ips t.nodes, t)))
          (λ rows. lift (reject_nodes net cidr rows)) d h0 in
      let (found, same) = statement-ok fails (λ t. (node_ips t.nodes, t)) d e1 in
      (
        (
          cidr,
          e0,
          subst (Spares net cidr) found (reject_nodes-ok net laws cidr rows (ap (λ p. p.0) h1)),
        ),
        sym (ap (λ p. p.1.tables) h1) ∙ same,
      )

  pub reject_all-ok :
      (items : List CreateTempBanRequest) (d : Database DateTime) {u : Unit {0}}
      {after : Database DateTime}
      → reject_all net parse add_seconds fails now items d ≡ (ok u, after)
      → All (SparesNodes d.tables.nodes) items × (after.tables ≡ d.tables)
  unfolding reject_all
  reject_all-ok [] d h = (tt, sym (ap (λ p. p.1.tables) h))
  reject_all-ok (item ∷ items) d h =
      let (u, checked, e0, h0) =
        bind-ok (reject_temp_ban_node_ip net parse add_seconds fails now item)
          (λ _. reject_all net parse add_seconds fails now items) d h in
      let (spares, same) = reject-ok item d e0 in
      let (rest, kept) = reject_all-ok items checked h0 in
      (
        (spares, subst (λ (t : Tables DateTime). All (SparesNodes t.nodes) items) same rest),
        kept ∙ same,
      )
