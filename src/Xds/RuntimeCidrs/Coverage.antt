-- ===== src/Xds/RuntimeCidrs/Coverage.antt =====
-- The CIDRs that the policy of an agent trusts: those of the policy, of the configuration and of
-- Kubernetes, and no address beyond.
use xdp_firewall.Prelude.{
  ◌≡◌, refl, sym, ap, subst, ◌↔◌, ◌⊎◌, inl, inr, true, not, ◌||◌, Option, none, some, List, [], ◌∷◌,
  ◌++◌, map, All, Any, All-append, Bool-cases,
}
use xdp_firewall.Net.{IpAddr, Ipnet, IpnetLaws, SamePrefix}
use xdp_firewall.Dedup.{contains_key, unique_from}
use xdp_firewall.Dedup.Members.{
  own, unique_from-members-All, unique_from-Any, ids-Any, Any-unique_from, Any-retain_new,
  retain-Any,
}
use xdp_firewall.Text.{codes}
use xdp_firewall.Policy.Model.{PolicySnapshot}
use xdp_firewall.Xds.RuntimeCidrs.{
  RuntimeTrustedCidrSnapshot, is_empty, static_cidrs, current_snapshot,
  compact_runtime_trusted_cidrs_with_snapshot, inject_runtime_trusted_cidrs, load_policy_snapshot,
}
use xdp_firewall.Xds.RuntimeCidrs.Cover.{
  IsCanonicalCidr, Holds, compact_covered_cidrs_coverage, compact_covered_cidrs-All,
}

-- The content of the discovery cache, if there is discovery.
abbrev pub discovered : {A : Type 0} → Option (List A) → List A
discovered none = []
discovered (some xs) = xs

Any-append :
    {A : Type 0} (P : A → Type 0) (xs ys : List A) → Any P (xs ++ ys) ↔ (Any P xs ⊎ Any P ys)
Any-append P xs ys = ((λ h. split xs h), (λ h. join xs h))
  where
    split : (zs : List _) → Any P (zs ++ ys) → Any P zs ⊎ Any P ys
    split [] h = inr h
    split (z ∷ zs) (inl p) = inl (inl p)
    split (z ∷ zs) (inr h) = elim (split zs h) [ inl p ↦ inl (inr p) | inr p ↦ inr p ]

    join : (zs : List _) → Any P zs ⊎ Any P ys → Any P (zs ++ ys)
    join [] (inl h) = absurd h
    join [] (inr h) = h
    join (z ∷ zs) (inl (inl p)) = inl p
    join (z ∷ zs) (inl (inr p)) = inr (join zs (inl p))
    join (z ∷ zs) (inr h) = inr (join zs (inr h))

map-append_map :
    {A B : Type 0} (f : A → B) (g : B → A)
    → ((b : B) → f (g b) ≡ b)
    → (xs : List A) (ys : List B) → map f (xs ++ map g ys) ≡ map f xs ++ ys
map-append_map f g h [] [] = refl
map-append_map f g h [] (y ∷ ys) = λ i. h y i ∷ map-append_map f g h [] ys i
map-append_map f g h (x ∷ xs) ys = ap (λ l. f x ∷ l) (map-append_map f g h xs ys)

module _ (net : Ipnet) (laws : IpnetLaws net) (ip : IpAddr) where
  open net use {IpNet, addr, prefix_len, net_eq}

  abbrev pub Hit : List IpNet → Type 0
  Hit cidrs = Any (Holds net ip) cidrs

  pub equal-Holds : (a b : IpNet) → net_eq a b ≡ true → Holds net ip b → Holds net ip a
  equal-Holds a b h p =
      let (addrs, lens) = (laws.net_eq_iff a b).0 h in
      subst (λ q. SamePrefix q (addr a) ip) (sym lens)
        (subst (λ x. SamePrefix (prefix_len b) x ip) (sym addrs) p)

  -- What an id or an entry of the two loops holds.
  in_first : (cidrs : List IpNet) → Hit cidrs → Hit (unique_from net_eq (own net_eq) [] cidrs).1
  in_first cidrs h = elim (Any-unique_from net_eq (Holds net ip) equal-Holds [] cidrs h) [
    | inl none_seen ↦ absurd none_seen
    | inr p ↦ p
  ]

  seen_in : (cidrs : List IpNet) → Hit (unique_from net_eq (own net_eq) [] cidrs).0 → Hit cidrs
  seen_in cidrs h = elim (ids-Any net_eq (Holds net ip) [] cidrs h) [
    | inl none_seen ↦ absurd none_seen
    | inr p ↦ p
  ]

  -- The snapshot of the runtime CIDRs holds what the configuration and the cache hold.
  pub current_snapshot-Hit :
      (cidrs : List IpNet) (cache : Option (List IpNet))
      → All (IsCanonicalCidr net) cidrs
      → All (IsCanonicalCidr net) (discovered cache)
      → Hit (current_snapshot net cidrs cache).all ↔ (Hit cidrs ⊎ Hit (discovered cache))
  unfolding current_snapshot
  current_snapshot-Hit cidrs none c d =
      let first = (unique_from net_eq (own net_eq) [] cidrs).1 in
      let canonical = unique_from-members-All net_eq (IsCanonicalCidr net) [] cidrs c in
      let cover = compact_covered_cidrs_coverage net laws first ip canonical in
      (
        (λ h. inl (unique_from-Any net_eq (Holds net ip) [] cidrs (cover.0 h))),
        (λ h. elim h [ inl p ↦ cover.1 (in_first cidrs p) | inr p ↦ absurd p ]),
      )
  current_snapshot-Hit cidrs (some cached) c d =
      let first = unique_from net_eq (own net_eq) [] cidrs in
      let more = (unique_from net_eq (own net_eq) first.0 cached).1 in
      let canonical =
        All-append (IsCanonicalCidr net) first.1 more
          (unique_from-members-All net_eq (IsCanonicalCidr net) [] cidrs c)
          (unique_from-members-All net_eq (IsCanonicalCidr net) first.0 cached d) in
      let cover = compact_covered_cidrs_coverage net laws (first.1 ++ more) ip canonical in
      let parts = Any-append (Holds net ip) first.1 more in
      (
        (λ h. elim (parts.0 (cover.0 h)) [
          | inl p ↦ inl (unique_from-Any net_eq (Holds net ip) [] cidrs p)
          | inr p ↦ inr (unique_from-Any net_eq (Holds net ip) first.0 cached p)
        ]),
        (λ h. cover.1 (
            parts.1 (elim h [
              | inl p ↦ inl (in_first cidrs p)
              | inr p ↦ elim (Any-unique_from net_eq (Holds net ip) equal-Holds first.0 cached p) [
                | inl old ↦ inl (in_first cidrs (seen_in cidrs old))
                | inr q ↦ inr q
              ]
            ]))),
      )

  current_snapshot-canonical :
      (cidrs : List IpNet) (cache : Option (List IpNet))
      → All (IsCanonicalCidr net) cidrs
      → All (IsCanonicalCidr net) (discovered cache)
      → All (IsCanonicalCidr net) (current_snapshot net cidrs cache).all
  unfolding current_snapshot
  current_snapshot-canonical cidrs none c d =
      compact_covered_cidrs-All net laws (IsCanonicalCidr net) _
        (unique_from-members-All net_eq (IsCanonicalCidr net) [] cidrs c)
  current_snapshot-canonical cidrs (some cached) c d =
      let first = unique_from net_eq (own net_eq) [] cidrs in
      compact_covered_cidrs-All net laws (IsCanonicalCidr net) _ (
        All-append (IsCanonicalCidr net) first.1 (unique_from net_eq (own net_eq) first.0 cached).1
          (unique_from-members-All net_eq (IsCanonicalCidr net) [] cidrs c)
          (unique_from-members-All net_eq (IsCanonicalCidr net) first.0 cached d))

  current_snapshot-inject :
      (cidrs : List IpNet) (cache : Option (List IpNet))
      → (current_snapshot net cidrs cache).inject ≡ (current_snapshot net cidrs cache).all
  unfolding current_snapshot
  current_snapshot-inject cidrs none = refl
  current_snapshot-inject cidrs (some cached) = refl

  module _ {DateTime : Type 0} (snapshot : PolicySnapshot IpNet DateTime) where
    static : List IpNet
    static = static_cidrs net snapshot

    -- The compaction against the policy's own CIDRs injects no address beyond, and drops none that
    -- those do not hold.
    compacted-Hit :
        (runtime : RuntimeTrustedCidrSnapshot IpNet)
        → runtime.inject ≡ runtime.all
        → All (IsCanonicalCidr net) static
        → All (IsCanonicalCidr net) runtime.all
        → (Hit (compact_runtime_trusted_cidrs_with_snapshot net snapshot runtime).inject
            → Hit static ⊎ Hit runtime.all)
          × (Hit runtime.all
              → Hit static
                ⊎ Hit (compact_runtime_trusted_cidrs_with_snapshot net snapshot runtime).inject)
    unfolding compact_runtime_trusted_cidrs_with_snapshot static
    compacted-Hit runtime same cs ca =
        let both =
          compact_covered_cidrs_coverage net laws (static ++ runtime.all) ip
            (All-append (IsCanonicalCidr net) static runtime.all cs ca) in
        let parts = Any-append (Holds net ip) static runtime.all in
        elim (Bool-cases (is_empty runtime.all || is_empty static)) [
          | inl untouched ↦
              rw untouched ((λ h. inr (subst Hit same h)), (λ h. inr (subst Hit (sym same) h)))
          | inr combined ↦ rw combined (
            (λ h. parts.0 (
                both.0
                  (retain-Any (Holds net ip) (λ cidr. not (contains_key net_eq static cidr)) _ h))),
            (λ h.
                Any-retain_new net_eq (Holds net ip) equal-Holds static _
                  (both.1 (parts.1 (inr h)))),
          )
        ]

    injected-Hit :
        (cidrs : List IpNet)
        → Hit (static_cidrs net (inject_runtime_trusted_cidrs net snapshot cidrs))
          ↔ (Hit static ⊎ Hit cidrs)
    unfolding inject_runtime_trusted_cidrs static
    injected-Hit cidrs =
        let more = (unique_from net_eq (own net_eq) static cidrs).1 in
        let parts = Any-append (Holds net ip) static more in
        let shape =
          map-append_map (λ trusted. trusted.cidr)
            (λ cidr. record { cidr = cidr; comment = some (codes "runtime xDS trusted CIDR") })
            (λ b. refl) snapshot.trusted_cidrs more in
        (
          (λ h. elim (parts.0 (subst Hit shape h)) [
            | inl p ↦ inl p
            | inr p ↦ inr (unique_from-Any net_eq (Holds net ip) static cidrs p)
          ]),
          (λ h. subst Hit (sym shape) (
              parts.1 (elim h [
                | inl p ↦ inl p
                | inr p ↦ Any-unique_from net_eq (Holds net ip) equal-Holds static cidrs p
              ]))),
        )

    -- The policy that an agent receives trusts an address exactly when the policy of the database, the
    -- configured runtime CIDRs or the discovered ones hold it, for CIDRs with cleared host bits.
    pub load_policy_snapshot-trusts :
        (configured : List IpNet) (cache : Option (List IpNet))
        → All (IsCanonicalCidr net) (static_cidrs net snapshot)
        → All (IsCanonicalCidr net) configured
        → All (IsCanonicalCidr net) (discovered cache)
        → Hit (
            static_cidrs net
              (load_policy_snapshot net snapshot (current_snapshot net configured cache)))
          ↔ (Hit (static_cidrs net snapshot) ⊎ Hit configured ⊎ Hit (discovered cache))
    unfolding load_policy_snapshot static
    load_policy_snapshot-trusts configured cache cs cc cd =
        let runtime = current_snapshot net configured cache in
        let all = current_snapshot-Hit configured cache cc cd in
        let compacted =
          compacted-Hit runtime (current_snapshot-inject configured cache) cs
            (current_snapshot-canonical configured cache cc cd) in
        let injected =
          injected-Hit (compact_runtime_trusted_cidrs_with_snapshot net snapshot runtime).inject in
        (
          (λ h. elim (injected.0 h) [
            | inl p ↦ inl p
            | inr p ↦ elim (compacted.0 p) [ inl q ↦ inl q | inr q ↦ inr (all.0 q) ]
          ]),
          (λ h. injected.1 (elim h [ inl p ↦ inl p | inr p ↦ compacted.1 (all.1 p) ])),
        )
