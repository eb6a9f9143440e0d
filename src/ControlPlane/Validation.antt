-- ===== src/ControlPlane/Validation.antt =====
-- src/control_plane/api/validation: the checks that the handlers share. `parse` is ipnet's parser.
pub mod Nodes
pub mod SingleHost
use xdp_firewall.Prelude.{
  ℕ, zero, suc, ◌+◌, ◌-◌, ◌^◌, ◌≡◌, ◌&&◌, ◌||◌, Bool, true, false, not, Option, none, some, List,
  [], ◌∷◌, ◌++◌, map, ltb, leb, ◌==◌, if◌then◌else◌, String, length, retain, Result, ok, err,
  unsupported_protocol, unsupported_action, out_of_range, icmp_port, invalid_cidr, bad_request,
  not_found, collect_map, ◌>>=◌, ◌>>◌,
}
use xdp_firewall.Prelude.Int.{ℤ, pos, negsuc}
use xdp_firewall.Text.{Text, codes, text_eq, trim, to_ascii_lowercase}
use xdp_firewall.Net.{IpAddr, is_ipv4, Ipnet}
use xdp_firewall.Net.Parse.{parse_ip}
use xdp_firewall.Net.Display.{print_ip, print_decimal}
use xdp_firewall.Dedup.{contains_key}
use xdp_firewall.Policy.Rows.{parse_cidr, u16_try_from}

abbrev pub max_batch_size : ℕ
max_batch_size = 500

unfoldable pub validate_batch_len : ℕ → Result (Unit {0})
validate_batch_len len =
    if len == 0
    then err (bad_request "items must not be empty")
    else if ltb max_batch_size len
    then err (bad_request "items")
    else ok tt

abbrev pub int_eq : ℤ → ℤ → Bool
int_eq (pos m) (pos n) = m == n
int_eq (negsuc m) (negsuc n) = m == n
int_eq _ _ = false

abbrev pub is_positive : ℤ → Bool
is_positive (pos n) = ltb 0 n
is_positive (negsuc n) = false

-- the loop; `unique` holds the members of `seen`
unfoldable pub unique_ids : List ℤ → List ℤ → Result (List ℤ)
unique_ids unique [] = ok unique
unique_ids unique (id ∷ ids) =
    let skip = unique_ids unique ids in
    let push = unique_ids (unique ++ id ∷ []) ids in
    if not (is_positive id)
    then err (bad_request "ids must be positive integers")
    else if contains_key int_eq unique id
    then skip
    else push

unfoldable pub validate_batch_ids : List ℤ → Result (List ℤ)
unfolding unique_ids
validate_batch_ids ids =
    if length ids == 0
    then err (bad_request "ids must not be empty")
    else if ltb max_batch_size (length ids)
    then err (bad_request "ids")
    else unique_ids [] ids

unfoldable pub ensure_all_ids_deleted : ℕ → ℕ → String → Result (Unit {0})
ensure_all_ids_deleted deleted requested what =
    if not (deleted == requested) then err (not_found what) else ok tt

unfoldable pub normalize_protocol : Text → Result Text
normalize_protocol value =
    let value = to_ascii_lowercase value in
    if text_eq value (codes "any")
    then ok (codes "any")
    else if text_eq value (codes "tcp")
    then ok (codes "tcp")
    else if text_eq value (codes "udp")
    then ok (codes "udp")
    else if text_eq value (codes "icmp")
    then ok (codes "icmp")
    else err unsupported_protocol

-- `u16::try_from(port).ok().filter(|port| *port > 0)`
abbrev pub is_port : ℤ → Bool
is_port (pos n) = ltb 0 n && ltb n (2 ^ 16)
is_port (negsuc n) = false

unfoldable pub validate_dynamic_rate_port : Text → Option ℤ → Result (Option ℤ)
validate_dynamic_rate_port protocol none = ok none
validate_dynamic_rate_port protocol (some port) =
    if not (is_port port)
    then err (out_of_range "port")
    else if text_eq protocol (codes "any")
        || text_eq protocol (codes "tcp")
        || text_eq protocol (codes "udp")
    then ok (some port)
    else if text_eq protocol (codes "icmp")
    then err (icmp_port "dynamic rate limit")
    else err unsupported_protocol

abbrev pub contains_slash : Text → Bool
contains_slash [] = false
contains_slash (c ∷ s) = c == 47 || contains_slash s

-- `str::split` at a character
abbrev pub split_first : List Text → ℕ → List Text
split_first [] c = (c ∷ []) ∷ []
split_first (part ∷ parts) c = (c ∷ part) ∷ parts

abbrev pub split : ℕ → Text → List Text
split at [] = [] ∷ []
split at (c ∷ s) = let rest = split at s in if c == at then [] ∷ rest else split_first rest c

abbrev pub is_nonempty : Text → Bool
is_nonempty [] = false
is_nonempty (c ∷ s) = true

abbrev pub parse_interface_ip : Text → Result IpAddr
unfolding parse_ip
parse_interface_ip value = elim (parse_ip value) [
  | none ↦ err (invalid_cidr "persisted node interface IP")
  | some ip ↦ ok ip
]

unfoldable pub parse_node_interface_ips : Text → Result (List IpAddr)
unfolding trim parse_interface_ip
parse_node_interface_ips value =
    collect_map parse_interface_ip (retain is_nonempty (map trim (split 44 value)))

abbrev pub same_family : Bool → Bool → Bool
same_family true b = b
same_family false b = not b

module _ (net : Ipnet) where
  open net use {IpNet, is_v4, network, prefix_len, contains}

  -- `format!("{}/{}", net.network(), net.prefix_len())`
  unfoldable pub print_net : IpNet → Text
  unfolding print_ip print_decimal
  print_net cidr = print_ip (network cidr) ++ 47 ∷ print_decimal (prefix_len cidr)

  unfoldable pub cidr_contains_ip : IpNet → IpAddr → Bool
  cidr_contains_ip cidr ip =
      if same_family (is_v4 cidr) (is_ipv4 ip) then contains cidr ip else false

  -- the inner loop of reject_node_ip_block
  unfoldable pub reject_ips : IpNet → List IpAddr → Result (Unit {0})
  unfolding cidr_contains_ip
  reject_ips cidr [] = ok tt
  reject_ips cidr (ip ∷ ips) =
      let rest = reject_ips cidr ips in
      if cidr_contains_ip cidr ip then err (bad_request "node interface IP") else rest

  -- the outer loop, over the interface_ips of the rows
  unfoldable pub reject_nodes : IpNet → List Text → Result (Unit {0})
  unfolding parse_node_interface_ips reject_ips
  reject_nodes cidr [] = ok tt
  reject_nodes cidr (interface_ips ∷ rows) = do
    ips ← parse_node_interface_ips interface_ips
    reject_ips cidr ips
    reject_nodes cidr rows

module _ (net : Ipnet) (parse : Text → Option net.IpNet) where
  open net use {IpNet}

  unfoldable pub normalize_cidr : Text → Result Text
  unfolding trim print_net
  normalize_cidr value =
      let cidr = trim value in
      if not (contains_slash cidr)
      then err (invalid_cidr "prefix length")
      else do n ← parse_cidr net parse "CIDR" cidr; ok (print_net net n)

  unfoldable pub parse_normalized_cidr : Text → Result IpNet
  unfolding normalize_cidr
  parse_normalized_cidr value = do
    cidr ← normalize_cidr value
    parse_cidr net parse "normalized CIDR" cidr

  -- ipnet reads back a network that it printed.
  abbrev pub ReadsPrinted : Type 0
  ReadsPrinted =
      (text : Text) (n : IpNet)
      → parse text ≡ some n
      → (m : IpNet) × (parse (print_net net n) ≡ some m)
        × (net.addr m ≡ net.network n)
        × (net.prefix_len m ≡ net.prefix_len n)
