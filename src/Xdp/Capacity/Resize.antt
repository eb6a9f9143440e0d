-- ===== src/Xdp/Capacity/Resize.antt =====
-- Resizing all maps at once: `resized_map_sizes` and `validate_map_capacity` agree.
use xdp_firewall.Prelude.{
  ℕ, ◌≤◌, ◌≡◌, refl, ap, inl, inr, ◌↔◌, true, Option, none, some, if◌then◌else◌, Result, ok, err,
  Error, ◌>>=◌, arith, Bool-cases, ok-injective, subst, sym, String, ◌∙◌,
}
use xdp_firewall.Xdp.Capacity.{
  u32_max, XdpMapSizes, sizes_eq, validate_map_capacity, expanded_capacity, resized_map_sizes,
}
use xdp_firewall.Xdp.Capacity.Growth.{expanded_bounds, expanded_stable}

-- The sizes hold the required entries. `rate_entries` is sized by the operator, not by a policy.
pub record Fits (required configured : XdpMapSizes) : Type 0 where
  pub rule : required.rule_entries ≤ configured.rule_entries
  pub trusted : required.trusted_entries ≤ configured.trusted_entries
  pub geo : required.geo_entries ≤ configured.geo_entries
  pub country : required.country_entries ≤ configured.country_entries
  pub custom : required.custom_rate_limit_entries ≤ configured.custom_rate_limit_entries
  pub temp : required.temp_ban_entries ≤ configured.temp_ban_entries

-- The capacity check accepts exactly the sizes that hold the required entries of every map.
pub validate_map_capacity_iff :
    (required configured : XdpMapSizes)
    → (validate_map_capacity required configured ≡ ok tt) ↔ Fits required configured
unfolding validate_map_capacity
validate_map_capacity_iff required configured = ((λ h. ground arith), (λ f. ground arith))

validate_map_capacity-err :
    (required configured : XdpMapSizes)
    → ¬ Fits required configured
    → (e : Error) × (validate_map_capacity required configured ≡ err e)
validate_map_capacity-err required configured h =
    go (validate_map_capacity required configured) refl
  where
    go :
        (r : Result (Unit {0}))
        → validate_map_capacity required configured ≡ r
        → (e : Error) × (validate_map_capacity required configured ≡ err e)
    go (ok u) e = absurd (h ((validate_map_capacity_iff required configured).0 e))
    go (err x) e = (x, e)

sizes_eq→eq : (a b : XdpMapSizes) → sizes_eq a b ≡ true → a ≡ b
sizes_eq→eq a b h = ground arith

sizes_eq_refl : (a : XdpMapSizes) → sizes_eq a a ≡ true
sizes_eq_refl a = ground arith

-- The sizes that the function computes before it compares them with the current ones.
record IsExpanded (current required s : XdpMapSizes) : Type 0 where
  rule :
      expanded_capacity "rule_cidrs" current.rule_entries required.rule_entries ≡ ok s.rule_entries
  geo : expanded_capacity "geo_cidrs" current.geo_entries required.geo_entries ≡ ok s.geo_entries
  trusted :
      expanded_capacity "trusted_cidrs" current.trusted_entries required.trusted_entries
      ≡ ok s.trusted_entries
  country :
      expanded_capacity "country_rules" current.country_entries required.country_entries
      ≡ ok s.country_entries
  custom :
      expanded_capacity "custom_rate_limits" current.custom_rate_limit_entries
        required.custom_rate_limit_entries
      ≡ ok s.custom_rate_limit_entries
  temp :
      expanded_capacity "temp_bans" current.temp_ban_entries required.temp_ban_entries
      ≡ ok s.temp_ban_entries
  rate : current.rate_entries ≡ s.rate_entries

abbrev answer : XdpMapSizes → XdpMapSizes → Option XdpMapSizes
answer current s = if sizes_eq s current then none else some s

-- Inversion of six successful steps.
six-eq-ok :
    {A : Type 0} (a b c d e f : Result ℕ) (make : ℕ → ℕ → ℕ → ℕ → ℕ → ℕ → A) {z : A}
    → (a >>= λ u. b >>= λ v. c >>= λ w. d >>= λ x. e >>= λ y. f >>= λ t. ok (make u v w x y t))
      ≡ ok z
    → (u : ℕ) × (v : ℕ) × (w : ℕ) × (x : ℕ) × (y : ℕ) × (t : ℕ) × (a ≡ ok u)
      × (b ≡ ok v)
      × (c ≡ ok w)
      × (d ≡ ok x)
      × (e ≡ ok y)
      × (f ≡ ok t)
      × (make u v w x y t ≡ z)
six-eq-ok (ok u) (ok v) (ok w) (ok x) (ok y) (ok t) make h =
    (u, v, w, x, y, t, refl, refl, refl, refl, refl, refl, ok-injective h)
six-eq-ok (ok u) (ok v) (ok w) (ok x) (ok y) (err t) make h = absurd (cc)
six-eq-ok (ok u) (ok v) (ok w) (ok x) (err y) f make h = absurd (cc)
six-eq-ok (ok u) (ok v) (ok w) (err x) e f make h = absurd (cc)
six-eq-ok (ok u) (ok v) (err w) d e f make h = absurd (cc)
six-eq-ok (ok u) (err v) c d e f make h = absurd (cc)
six-eq-ok (err u) b c d e f make h = absurd (cc)

abbrev sizes : XdpMapSizes → ℕ → ℕ → ℕ → ℕ → ℕ → ℕ → XdpMapSizes
sizes current rule geo trusted country custom temp = record {
  rule_entries = rule;
  geo_entries = geo;
  trusted_entries = trusted;
  country_entries = country;
  rate_entries = current.rate_entries;
  custom_rate_limit_entries = custom;
  temp_ban_entries = temp;
}

resized-parts :
    (current required : XdpMapSizes) {o : Option XdpMapSizes}
    → resized_map_sizes current required ≡ ok o
    → (s : XdpMapSizes) × IsExpanded current required s × (answer current s ≡ o)
unfolding resized_map_sizes
resized-parts current required h =
    let (rule, geo, trusted, country, custom, temp, e1, e2, e3, e4, e5, e6, same) =
      six-eq-ok (expanded_capacity "rule_cidrs" current.rule_entries required.rule_entries)
        (expanded_capacity "geo_cidrs" current.geo_entries required.geo_entries)
        (expanded_capacity "trusted_cidrs" current.trusted_entries required.trusted_entries)
        (expanded_capacity "country_rules" current.country_entries required.country_entries)
        (expanded_capacity "custom_rate_limits" current.custom_rate_limit_entries
          required.custom_rate_limit_entries)
        (expanded_capacity "temp_bans" current.temp_ban_entries required.temp_ban_entries)
        (λ a b c d e f. answer current (sizes current a b c d e f)) h in
    (
      sizes current rule geo trusted country custom temp,
      record {
        rule = e1;
        geo = e2;
        trusted = e3;
        country = e4;
        custom = e5;
        temp = e6;
        rate = refl;
      },
      same,
    )

-- No size of the record is beyond u32.
pub record IsSizes (s : XdpMapSizes) : Type 0 where
  pub rule : s.rule_entries ≤ u32_max
  pub geo : s.geo_entries ≤ u32_max
  pub trusted : s.trusted_entries ≤ u32_max
  pub country : s.country_entries ≤ u32_max
  pub custom : s.custom_rate_limit_entries ≤ u32_max
  pub temp : s.temp_ban_entries ≤ u32_max

expanded-Fits :
    (current required s : XdpMapSizes)
    → IsSizes current
    → IsExpanded current required s
    → Fits required s
expanded-Fits current required s c x = record {
  rule = (expanded_bounds _ _ _ _ c.rule x.rule).0;
  trusted = (expanded_bounds _ _ _ _ c.trusted x.trusted).0;
  geo = (expanded_bounds _ _ _ _ c.geo x.geo).0;
  country = (expanded_bounds _ _ _ _ c.country x.country).0;
  custom = (expanded_bounds _ _ _ _ c.custom x.custom).0;
  temp = (expanded_bounds _ _ _ _ c.temp x.temp).0;
}

expanded-keeps :
    (map : String) (current required : ℕ) {r : ℕ}
    → required ≤ current
    → expanded_capacity map current required ≡ ok r
    → current ≡ r
expanded-keeps map current required q h =
    ok-injective (sym (expanded_stable map current required q) ∙ h)

kept-eq :
    (current required s : XdpMapSizes)
    → Fits required current
    → IsExpanded current required s
    → current ≡ s
kept-eq current required s f x = λ i. record {
  rule_entries = expanded-keeps _ _ _ f.rule x.rule i;
  geo_entries = expanded-keeps _ _ _ f.geo x.geo i;
  trusted_entries = expanded-keeps _ _ _ f.trusted x.trusted i;
  country_entries = expanded-keeps _ _ _ f.country x.country i;
  rate_entries = x.rate i;
  custom_rate_limit_entries = expanded-keeps _ _ _ f.custom x.custom i;
  temp_ban_entries = expanded-keeps _ _ _ f.temp x.temp i;
}

answer-none : (current s : XdpMapSizes) → current ≡ s → answer current s ≡ none
answer-none current s e = rw (← e, sizes_eq_refl current)

answer-eq-none : (current s : XdpMapSizes) → answer current s ≡ none → s ≡ current
answer-eq-none current s h = elim (Bool-cases (sizes_eq s current)) [
  | inl same ↦ sizes_eq→eq s current same
  | inr other ↦ absurd (let e : some s ≡ none = rw other at h in cc)
]

answer-eq-some : (current s t : XdpMapSizes) → answer current s ≡ some t → s ≡ t
answer-eq-some current s t h = elim (Bool-cases (sizes_eq s current)) [
  | inl same ↦ absurd (let e : none ≡ some t = rw same at h in cc)
  | inr other ↦ let e : some s ≡ some t = rw other at h in cc
]

resized-stable :
    (s required : XdpMapSizes) → Fits required s → resized_map_sizes s required ≡ ok none
unfolding resized_map_sizes
resized-stable s required f = rw (
  expanded_stable "rule_cidrs" s.rule_entries required.rule_entries f.rule,
  expanded_stable "geo_cidrs" s.geo_entries required.geo_entries f.geo,
  expanded_stable "trusted_cidrs" s.trusted_entries required.trusted_entries f.trusted,
  expanded_stable "country_rules" s.country_entries required.country_entries f.country,
  expanded_stable "custom_rate_limits" s.custom_rate_limit_entries
      required.custom_rate_limit_entries f.custom,
  expanded_stable "temp_bans" s.temp_ban_entries required.temp_ban_entries f.temp,
  sizes_eq_refl s,
)

-- No resize is asked for exactly when the current sizes hold the required entries, and then the
-- capacity check of the write accepts them.
pub resized-none_iff :
    (current required : XdpMapSizes)
    → IsSizes current
    → (resized_map_sizes current required ≡ ok none)
      ↔ (validate_map_capacity required current ≡ ok tt)
resized-none_iff current required c = (
  (λ h.
      let (s, x, a) = resized-parts current required h in
      (validate_map_capacity_iff required current).1 (
        subst (Fits required) (answer-eq-none current s a) (expanded-Fits current required s c x))),
  (λ h. resized-stable current required ((validate_map_capacity_iff required current).0 h)),
)

-- A resize to `s` is asked for only when the capacity check refuses the current sizes, so a manager
-- that may not resize stops there with an error; `s` passes the check, needs no further resize, and
-- leaves the rate buckets alone.
pub resized-some :
    (current required s : XdpMapSizes)
    → IsSizes current
    → resized_map_sizes current required ≡ ok (some s)
    → ((e : Error) × (validate_map_capacity required current ≡ err e))
      × (validate_map_capacity required s ≡ ok tt)
      × (resized_map_sizes s required ≡ ok none)
      × (s.rate_entries ≡ current.rate_entries)
resized-some current required s c h =
    let (t, x, a) = resized-parts current required h in
    let same = answer-eq-some current t s a in
    let fits = subst (Fits required) same (expanded-Fits current required t c x) in
    (
      validate_map_capacity-err required current (λ f.
          let n : none ≡ some s =
            sym (answer-none current t (kept-eq current required t f x)) ∙ a in
          cc),
      (validate_map_capacity_iff required s).1 fits,
      resized-stable s required fits,
      ap (λ (z : XdpMapSizes). z.rate_entries) (sym same) ∙ sym x.rate,
    )
