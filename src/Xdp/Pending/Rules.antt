-- ===== src/Xdp/Pending/Rules.antt =====
-- The rules that reach the rule map: none that denies the agent's own addresses, and for each key
-- the one that comes first by priority and source.
use xdp_firewall.Prelude.{
  ◌≤◌, ◌≡◌, refl, sym, ap, ◌∙◌, subst, inl, inr, Bool, false, true, not, some, List, [], ◌∷◌, ◌++◌,
  map, arith, All, Any, All-map_imp, All-map, retain, retain-All, Bool-cases, absurd_true,
  Any-position, All-get_elem?, not-eq_true, ltb, All-Any_self,
}
use xdp_firewall.Net.{width, Ipnet, IpnetLaws}
use xdp_firewall.Dedup.{find_key}
use xdp_firewall.Dedup.First.{find-unique, find_key-All, unique-All}
use xdp_firewall.Sorting.{sort_by}
use xdp_firewall.Sorting.Laws.{IsSorted, sort_by-IsSorted, sort_by-All, sort_by-Any}
use xdp_firewall.Prelude.Int.{ℤ, pos, negsuc, ltb_ℤ}
use xdp_firewall.Policy.Model.{
  deny, XdpPrefixRule, XdpRuleSource, firewall_rule, threat_intel, CompiledPolicy,
}
use xdp_firewall.Xdp.Encoding.{
  rule_key, rule_key_id, RuleKey, RuleId, rule_id_eq, rule_source_order,
}
use xdp_firewall.Xdp.Encoding.Keys.{rule_id_eq_iff}
use xdp_firewall.Xdp.Local.{LocalInterfaceCidr}
use xdp_firewall.Xdp.Local.Safety.{Avoids, deny_rule-Avoids}
use xdp_firewall.Xdp.Pending.{
  rule_before, rule_entry, rule_entry_id, deny_rule_matches_local_interface, pending_rules,
}

before_asymmetric : (a b : XdpPrefixRule) → rule_before a b ≡ true → rule_before b a ≡ false
unfolding rule_before
before_asymmetric a b h = ground arith

before_trans :
    (a b c : XdpPrefixRule)
    → rule_before a b ≡ false
    → rule_before b c ≡ false
    → rule_before a c ≡ false
unfolding rule_before
before_trans a b c h k = ground arith

before_irreflexive : (a : XdpPrefixRule) → rule_before a a ≡ false
before_irreflexive a = elim (Bool-cases (rule_before a a)) [
  | inl before ↦ before_asymmetric a a before
  | inr fine ↦ fine
]

-- A rule with a smaller number, or at the same one not a firewall rule against threat intelligence.
pub record IsFirst (first rule : XdpPrefixRule) : Type 0 where
  pub priority : ltb_ℤ rule.priority first.priority ≡ false
  pub source :
      rule.priority ≡ first.priority → rule.source ≡ threat_intel → first.source ≡ threat_intel

ltb_irreflexive : (a : ℤ) → ltb_ℤ a a ≡ false
ltb_irreflexive (pos a) = ground arith
ltb_irreflexive (negsuc a) = ground arith

earlier_source :
    (a b : XdpRuleSource)
    → ltb (rule_source_order a) (rule_source_order b) ≡ false
    → a ≡ threat_intel
    → b ≡ threat_intel
unfolding rule_source_order
earlier_source a threat_intel h e = refl
earlier_source threat_intel firewall_rule h e = absurd (cc)
earlier_source firewall_rule firewall_rule h e = e

not_before-IsFirst :
    (rule first : XdpPrefixRule) → rule_before rule first ≡ false → IsFirst first rule
unfolding rule_before
not_before-IsFirst rule first h = record {
  priority = ground arith;
  source = λ same threat.
      let equal : ltb_ℤ first.priority rule.priority ≡ false =
        rw same (ltb_irreflexive first.priority) in
      earlier_source rule.source first.source (ground arith) threat;
}

abbrev pub id_of : XdpPrefixRule → RuleId
id_of rule = rule_entry_id (rule_entry rule)

-- In a sorted list the first safe rule with the id of a safe rule is not behind it.
first_of_sorted :
    (safe : XdpPrefixRule → Bool) (rule : XdpPrefixRule) (xs : List XdpPrefixRule)
    → IsSorted rule_before xs
    → safe rule ≡ true
    → Any (λ x. x ≡ rule) xs
    → (e : RuleKey × XdpPrefixRule) × (find_key rule_id_eq rule_entry_id
          (id_of rule)
          (map rule_entry (retain safe xs))
        ≡ some e)
      × (rule_before rule e.1 ≡ false)
unfolding retain
first_of_sorted safe rule [] s ok_rule here = absurd here
first_of_sorted safe rule (x ∷ xs) s ok_rule here = elim (Bool-cases (safe x)) [
  | inl keep ↦ elim (Bool-cases (rule_id_eq (id_of x) (id_of rule))) [
    | inl same ↦ (
      rule_entry x,
      rw (keep, same),
      elim here [
        | inl it ↦ rw it (before_irreflexive rule)
        | inr later ↦
            let (i, y, at, eq) = Any-position (λ y. y ≡ rule) xs later in
            subst (λ r. rule_before r x ≡ false) eq
              (All-get_elem? (λ y. rule_before y x ≡ false) xs i s.0 at)
      ],
    )
    | inr other ↦
        let later : Any (λ y. y ≡ rule) xs = elim here [
          | inl it ↦ absurd_true ((rule_id_eq_iff (id_of x) (id_of rule)).1 (ap id_of it)) other
          | inr later ↦ later
        ] in
        let (e, found, least) = first_of_sorted safe rule xs s.1 ok_rule later in
        (e, rw (keep, other) found, least)
  ]
  | inr drop ↦
      let later : Any (λ y. y ≡ rule) xs = elim here [
        | inl it ↦ absurd_true (rw it ok_rule) drop
        | inr later ↦ later
      ] in
      let (e, found, least) = first_of_sorted safe rule xs s.1 ok_rule later in
      (e, rw drop found, least)
]

module _ (net : Ipnet) (locals : List LocalInterfaceCidr) {DateTime : Type 0}
    (policy : CompiledPolicy DateTime) where
  sorted_first :
      (rule : XdpPrefixRule)
      → Any (λ r. r ≡ rule) (policy.threat_prefixes ++ policy.rules)
      → deny_rule_matches_local_interface net locals rule ≡ false
      → (e : RuleKey × XdpPrefixRule) × (find_key rule_id_eq rule_entry_id
            (id_of rule)
            (pending_rules net locals policy).1
          ≡ some e)
        × (rule_before rule e.1 ≡ false)
  unfolding pending_rules
  sorted_first rule here safe = rw (find-unique rule_id_eq rule_entry_id rule_id_eq_iff) (
      first_of_sorted (λ r. not (deny_rule_matches_local_interface net locals r)) rule
        (sort_by rule_before (policy.threat_prefixes ++ policy.rules))
        (sort_by-IsSorted rule_before before_asymmetric before_trans
          (policy.threat_prefixes ++ policy.rules))
        (rw safe)
        (sort_by-Any rule_before (λ r. r ≡ rule) (policy.threat_prefixes ++ policy.rules) here))

  -- The key of an entry is that of its rule.
  pub pending_rules-key :
      All
        (λ (e : RuleKey × XdpPrefixRule). e.0 ≡ rule_key e.1.addr e.1.prefix e.1.protocol e.1.port)
        (pending_rules net locals policy).1
  unfolding pending_rules
  pending_rules-key =
      unique-All rule_id_eq rule_entry_id rule_id_eq_iff
        (λ e. e.0 ≡ rule_key e.1.addr e.1.prefix e.1.protocol e.1.port) _
        (All-map
          (λ (e : RuleKey × XdpPrefixRule).
            e.0 ≡ rule_key e.1.addr e.1.prefix e.1.protocol e.1.port)
          rule_entry _ (λ r. refl))

  -- No deny rule that is written holds an address of the agent's own interface. The prefix lengths
  -- of the policy's rules are within their family's bits.
  pub pending_rules_safe :
      IpnetLaws net
      → All
          (λ (r : XdpPrefixRule). r.prefix ≤ width r.addr)
          (policy.threat_prefixes ++ policy.rules)
      → All
          (λ (e : RuleKey × XdpPrefixRule). e.1.action ≡ deny → Avoids e.1.addr e.1.prefix locals)
          (pending_rules net locals policy).1
  unfolding pending_rules deny_rule_matches_local_interface
  pending_rules_safe laws fits =
      let sorted =
        sort_by-All rule_before (λ (r : XdpPrefixRule). r.prefix ≤ width r.addr)
          (policy.threat_prefixes ++ policy.rules) fits in
      let kept =
        retain-All (λ (r : XdpPrefixRule). r.prefix ≤ width r.addr)
          (λ r. not (deny_rule_matches_local_interface net locals r))
          (sort_by rule_before (policy.threat_prefixes ++ policy.rules)) sorted in
      unique-All rule_id_eq rule_entry_id rule_id_eq_iff
        (λ e. e.1.action ≡ deny → Avoids e.1.addr e.1.prefix locals) _
        (All-map_imp _ _ rule_entry _
          (λ r p d. deny_rule-Avoids net laws r locals p.0 d (not-eq_true _ p.1)) kept)

  -- The rule of an entry is one of the policy.
  pub pending_rules-Any :
      All
        (λ (e : RuleKey × XdpPrefixRule).
          Any (λ r. r ≡ e.1) (policy.threat_prefixes ++ policy.rules))
        (pending_rules net locals policy).1
  unfolding pending_rules
  pending_rules-Any =
      let all = policy.threat_prefixes ++ policy.rules in
      let sorted =
        sort_by-All rule_before (λ (r : XdpPrefixRule). Any (λ x. x ≡ r) all) all
          (All-Any_self (λ (x r : XdpPrefixRule). x ≡ r) (λ r. refl) all) in
      let kept =
        retain-All (λ (r : XdpPrefixRule). Any (λ x. x ≡ r) all)
          (λ r. not (deny_rule_matches_local_interface net locals r)) (sort_by rule_before all)
          sorted in
      unique-All rule_id_eq rule_entry_id rule_id_eq_iff (λ e. Any (λ r. r ≡ e.1) all) _
        (All-map_imp _ _ rule_entry _ (λ r p. p.0) kept)

  -- Each rule of the policy that does not deny the agent's own addresses finds an entry under its
  -- key, and the rule of that entry is one of the policy with the same key and comes first: its
  -- priority number is not greater than the rule's, and at the same number it is of threat intelligence
  -- if the rule is.
  pub pending_rules-IsFirst :
      (rule : XdpPrefixRule)
      → Any (λ r. r ≡ rule) (policy.threat_prefixes ++ policy.rules)
      → deny_rule_matches_local_interface net locals rule ≡ false
      → (e : RuleKey × XdpPrefixRule) × (find_key rule_id_eq rule_entry_id
            (id_of rule)
            (pending_rules net locals policy).1
          ≡ some e)
        × Any (λ r. r ≡ e.1) (policy.threat_prefixes ++ policy.rules)
        × (id_of e.1 ≡ id_of rule)
        × IsFirst e.1 rule
  pending_rules-IsFirst rule here safe =
      let (e, found, least) = sorted_first rule here safe in
      let pending = (pending_rules net locals policy).1 in
      let own =
        find_key-All rule_id_eq rule_entry_id rule_id_eq_iff
          (λ e. Any (λ r. r ≡ e.1) (policy.threat_prefixes ++ policy.rules)) (id_of rule) pending e
          pending_rules-Any found in
      let shape =
        find_key-All rule_id_eq rule_entry_id rule_id_eq_iff
          (λ e. e.0 ≡ rule_key e.1.addr e.1.prefix e.1.protocol e.1.port) (id_of rule) pending e
          pending_rules-key found in
      (e, found, own.0, ap rule_key_id (sym shape.0) ∙ shape.1, not_before-IsFirst rule e.1 least)
