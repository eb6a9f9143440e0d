-- ===== src/Agent/Trust/Latest.antt =====
-- `apply_latest` of src/agent/policy_apply.rs, and that the policy it writes trusts the control plane.
use xdp_firewall.Prelude.{
  ℕ, ◌≡◌, sym, ap, subst, ◌∙◌, inl, inr, Option, none, some, List, [], ◌∷◌, ◌++◌, map, Any,
  Bool-cases, ok, ok-injective, >>=-eq-ok,
}
use xdp_firewall.Prelude.Int.{ℤ}
use xdp_firewall.Exec.{Exec, pure, lift, ◌>>=◌, lift-bind-ok, bind-ok}
use xdp_firewall.Net.{IpAddr, width, SamePrefix, Ipnet, IpnetLaws, Chrono}
use xdp_firewall.Net.Prefix.{SamePrefix-refl}
use xdp_firewall.Dedup.{contains_key}
use xdp_firewall.Dedup.Members.{contained-Any}
use xdp_firewall.Policy.Model.{PolicySnapshot, TrustedCidrPolicy, CompiledPolicy}
use xdp_firewall.Policy.Compile.{compile_policy}
use xdp_firewall.Policy.Compile.Networks.{compile-HasNetworks, compiled-trusts}
use xdp_firewall.Xdp.Local.{compact_trusted_prefixes}
use xdp_firewall.Xdp.Local.TrustedCoverage.{Trusts, compact_trusted_coverage}
use xdp_firewall.Xds.RuntimeCidrs.Cover.{Holds}
use xdp_firewall.Xds.RuntimeCidrs.Coverage.{equal-Holds}
use xdp_firewall.Agent.Trust.{
  or_invalid, ip_literal_prefix, resolve_control_plane_prefixes, add_control_plane_trusted_cidr,
  add_each, add_control_plane_trusted_cidrs,
}

module _ {X : Type 0} (net : Ipnet) (chrono : Chrono) where
  open net use {IpNet}
  open chrono use {DateTime}

  -- `apply` is `xdp.apply`; the answer is the version of the compiled policy
  unfoldable pub apply_latest :
      (CompiledPolicy DateTime → Exec X (Unit {0}))
      → (ℕ → DateTime)
      → PolicySnapshot IpNet DateTime
      → Option IpAddr
      → Exec X ℤ
  unfolding add_control_plane_trusted_cidrs
  apply_latest apply now snapshot host =
      lift (add_control_plane_trusted_cidrs net snapshot host) >>= λ snapshot.
      lift (compile_policy net chrono now snapshot) >>= λ compiled.
      apply compiled >>= λ _. pure compiled.version

module _ (net : Ipnet) (laws : IpnetLaws net) where
  open net use {IpNet, addr, prefix_len, net_eq}

  -- The list of the snapshot holds the address.
  abbrev pub IsTrusted : {DateTime : Type 0} → IpAddr → PolicySnapshot IpNet DateTime → Type 0
  IsTrusted ip snapshot =
      Any (λ (t : TrustedCidrPolicy IpNet). Holds net ip t.cidr) snapshot.trusted_cidrs

  last-Any :
      (ip : IpAddr) (ts : List (TrustedCidrPolicy IpNet)) (t : TrustedCidrPolicy IpNet)
      → Holds net ip t.cidr
      → Any (λ (t : TrustedCidrPolicy IpNet). Holds net ip t.cidr) (ts ++ (t ∷ []))
  last-Any ip [] t h = inl h
  last-Any ip (u ∷ ts) t h = inr (last-Any ip ts t h)

  Any-map_cidr :
      (ip : IpAddr) (ts : List (TrustedCidrPolicy IpNet))
      → Any (Holds net ip) (map (λ (t : TrustedCidrPolicy IpNet). t.cidr) ts)
      → Any (λ (t : TrustedCidrPolicy IpNet). Holds net ip t.cidr) ts
  Any-map_cidr ip [] h = h
  Any-map_cidr ip (t ∷ ts) (inl p) = inl p
  Any-map_cidr ip (t ∷ ts) (inr h) = inr (Any-map_cidr ip ts h)

  add-IsTrusted :
      {DateTime : Type 0} (ip : IpAddr) (snapshot : PolicySnapshot IpNet DateTime) (cidr : IpNet)
      → Holds net ip cidr
      → IsTrusted ip (add_control_plane_trusted_cidr net snapshot cidr)
  unfolding add_control_plane_trusted_cidr
  add-IsTrusted ip snapshot cidr h =
      elim (Bool-cases (
        contains_key net_eq (map (λ (t : TrustedCidrPolicy IpNet). t.cidr) snapshot.trusted_cidrs)
          cidr)) [
            | inl old ↦ rw old (
                Any-map_cidr ip snapshot.trusted_cidrs
                  (contained-Any net_eq (Holds net ip) (equal-Holds net laws ip) _ cidr old h))
            | inr new ↦ rw new (last-Any ip snapshot.trusted_cidrs _ h)
          ]

  or_invalid-ok : (o : Option IpNet) {n : IpNet} → or_invalid net o ≡ ok n → o ≡ some n
  unfolding or_invalid
  or_invalid-ok none h = absurd (cc)
  or_invalid-ok (some m) h = ap some (ok-injective h)

  literal-Holds :
      (ip : IpAddr) (cidr : IpNet) → ip_literal_prefix net ip ≡ ok cidr → Holds net ip cidr
  unfolding ip_literal_prefix
  literal-Holds ip cidr h =
      let made : net.new ip (width ip) ≡ some cidr = or_invalid-ok (net.new ip (width ip)) h in
      subst (λ a. SamePrefix (prefix_len cidr) a ip) (sym (laws.new_addr ip (width ip) cidr made))
        (SamePrefix-refl (prefix_len cidr) ip)

  added-IsTrusted :
      {DateTime : Type 0} (ip : IpAddr) (snapshot t : PolicySnapshot IpNet DateTime)
      → add_control_plane_trusted_cidrs net snapshot (some ip) ≡ ok t
      → IsTrusted ip t
  unfolding add_control_plane_trusted_cidrs resolve_control_plane_prefixes add_each
  added-IsTrusted ip snapshot t h =
      let (prefixes, e, k) =
        >>=-eq-ok (resolve_control_plane_prefixes net (some ip))
          (λ prefixes. ok (add_each net snapshot prefixes)) h in
      let (cidr, literal, single) =
        >>=-eq-ok (ip_literal_prefix net ip) (λ cidr. ok (cidr ∷ [])) e in
      let same : add_each net snapshot (cidr ∷ []) ≡ t =
        ap (add_each net snapshot) (ok-injective single) ∙ ok-injective k in
      subst (IsTrusted ip) same (add-IsTrusted ip snapshot cidr (literal-Holds ip cidr literal))

module _ {X : Type 0} (net : Ipnet) (laws : IpnetLaws net) (chrono : Chrono) where
  open net use {IpNet}
  open chrono use {DateTime}

  -- When `apply_latest` succeeds for a control plane that is given by its address, the policy that it
  -- writes trusts that address, also behind the compaction that the write makes, whatever the policy of
  -- the control plane says.
  pub apply_latest-Trusts :
      (apply : CompiledPolicy DateTime → Exec X (Unit {0})) (now : ℕ → DateTime)
      (snapshot : PolicySnapshot IpNet DateTime) (ip : IpAddr) (x x' : X) (version : ℤ)
      → apply_latest net chrono apply now snapshot (some ip) x ≡ (ok version, x')
      → (policy : CompiledPolicy DateTime) × (apply policy x ≡ (ok tt, x'))
        × (policy.version ≡ version)
        × Any (Trusts ip) (compact_trusted_prefixes net policy.trusted_prefixes)
  unfolding apply_latest
  apply_latest-Trusts apply now snapshot ip x x' version h =
      let (t, added, r1) =
        lift-bind-ok (add_control_plane_trusted_cidrs net snapshot (some ip))
          (λ snapshot. lift (compile_policy net chrono now snapshot) >>= λ compiled.
            apply compiled >>= λ _. pure compiled.version)
          x h in
      let (policy, compiles, r2) =
        lift-bind-ok (compile_policy net chrono now t)
          (λ compiled. apply compiled >>= λ _. pure compiled.version) x r1 in
      let (u, y, applied, r3) = bind-ok (apply policy) (λ _. pure policy.version) x r2 in
      let networks = compile-HasNetworks net chrono laws now t policy compiles in
      let held =
        compiled-trusts net chrono laws now t policy ip compiles
          (added-IsTrusted net laws ip snapshot t added) in
      (
        policy,
        applied ∙ (λ i. (ok tt, (r3 i).1)),
        ok-injective (ap (λ p. p.0) r3),
        (compact_trusted_coverage net laws policy.trusted_prefixes ip networks.trusted).0.1 held,
      )
