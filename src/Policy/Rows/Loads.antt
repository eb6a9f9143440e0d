-- ===== src/Policy/Rows/Loads.antt =====
-- What the rows are read as: src/policy/firewall/parse.rs.
use xdp_firewall.Prelude.{
  Bool, true, if◌then◌else◌, Error, ok-injective, ℕ, ◌^◌, ◌<◌, ◌≡◌, refl, sym, ap, subst, ◌∙◌, ◌↔◌,
  false, ◌&&◌, Option, none, some, arith, String, Result, ok, err, ◌>>=◌, ◌>>◌, >>=-eq-ok,
}
use xdp_firewall.Prelude.Int.{ℤ, pos, negsuc}
use xdp_firewall.Policy.Model.{is_icmp, L4Protocol, any, tcp, udp, icmp, DynamicRateLimitPolicy}
use xdp_firewall.Text.{Text, codes, text_eq, to_ascii_lowercase}
use xdp_firewall.Text.Laws.{text_eq→eq}
use xdp_firewall.Policy.Validate.{is_some, validate_dynamic_rate_limit_policy}
use xdp_firewall.Policy.Rows.{
  parse_optional_port, i32_to_u32, parse_protocol, DynamicRateLimitRow, parse_dynamic_rate_limit,
}

-- A port that a column of type i32 stands for.
abbrev pub IsPortOf : Option ℕ → Option ℤ → Type 0
IsPortOf none none = Unit {0}
IsPortOf (some port) (some value) = (value ≡ pos port) × (port < 2 ^ 16)
IsPortOf _ _ = ⊥

parse_optional_port_iff :
    (value : Option ℤ) (label : String) (port : Option ℕ)
    → (parse_optional_port value label ≡ ok port) ↔ IsPortOf port value
unfolding parse_optional_port
parse_optional_port_iff none label none = ((λ h. tt), (λ h. refl))
parse_optional_port_iff none label (some p) = ground arith
parse_optional_port_iff (some (pos n)) label none = ground arith
parse_optional_port_iff (some (pos n)) label (some p) = ground arith
parse_optional_port_iff (some (negsuc n)) label none = ground arith
parse_optional_port_iff (some (negsuc n)) label (some p) = ground arith

-- A rate that a column of type i32 stands for: it is positive.
abbrev pub IsRateOf : ℕ → ℤ → Type 0
IsRateOf rate value = (value ≡ pos rate) × (0 < rate)

-- The name of a protocol, in lower case.
abbrev pub name_of : L4Protocol → Text
name_of any = codes "any"
name_of tcp = codes "tcp"
name_of udp = codes "udp"
name_of icmp = codes "icmp"

-- A text that names the protocol, in any case.
abbrev pub IsNameOf : L4Protocol → Text → Type 0
IsNameOf protocol value = to_ascii_lowercase value ≡ name_of protocol

named_choice :
    (v : Text) (a b c d : Bool) (e : Error) (p : L4Protocol)
    → (a ≡ true → v ≡ codes "any")
    → (b ≡ true → v ≡ codes "tcp")
    → (c ≡ true → v ≡ codes "udp")
    → (d ≡ true → v ≡ codes "icmp")
    → (if a
        then ok any
        else if b
        then ok tcp
        else if c
        then ok udp
        else if d
        then ok icmp
        else err e)
      ≡ ok p
    → v ≡ name_of p
named_choice v true b c d e p f g k l h = subst (λ q. v ≡ name_of q) (ok-injective h) (f refl)
named_choice v false true c d e p f g k l h = subst (λ q. v ≡ name_of q) (ok-injective h) (g refl)
named_choice v false false true d e p f g k l h =
    subst (λ q. v ≡ name_of q) (ok-injective h) (k refl)
named_choice v false false false true e p f g k l h =
    subst (λ q. v ≡ name_of q) (ok-injective h) (l refl)
named_choice v false false false false e p f g k l h = absurd (cc)

protocol_named : (value : Text) (p : L4Protocol) → parse_protocol value ≡ ok p → IsNameOf p value
unfolding parse_protocol
protocol_named value p h =
    let v = to_ascii_lowercase value in
    named_choice v (text_eq v (codes "any")) (text_eq v (codes "tcp")) (text_eq v (codes "udp"))
      (text_eq v (codes "icmp")) _ p (text_eq→eq v (codes "any")) (text_eq→eq v (codes "tcp"))
      (text_eq→eq v (codes "udp")) (text_eq→eq v (codes "icmp")) h

named_protocol : (value : Text) (p : L4Protocol) → IsNameOf p value → parse_protocol value ≡ ok p
unfolding parse_protocol
named_protocol value any h = rw h refl
named_protocol value tcp h = rw h refl
named_protocol value udp h = rw h refl
named_protocol value icmp h = rw h refl

-- The policy that a row of the table of rate limits stands for.
pub record Loads (row : DynamicRateLimitRow) (policy : DynamicRateLimitPolicy) : Type 0 where
  pub priority : policy.priority ≡ row.priority
  pub protocol : IsNameOf policy.protocol row.protocol
  pub port : IsPortOf policy.port row.port
  pub rate : IsRateOf policy.packets_per_second row.packets_per_second
  pub burst : IsRateOf policy.burst row.burst
  pub comment : policy.comment ≡ row.comment
  pub no_icmp_port : (is_icmp policy.protocol && is_some policy.port) ≡ false

-- Four values, then a check of what they make.
module _ {A B C D R : Type 0} (make : A → B → C → D → R) (check : R → Result (Unit {0})) where
  four : Result A → Result B → Result C → Result D → Result R
  four a b c d = do x ← a; y ← b; z ← c; w ← d; check (make x y z w) >> ok (make x y z w)

  four-eq-ok :
      (a : Result A) (b : Result B) (c : Result C) (d : Result D) {r : R}
      → four a b c d ≡ ok r
      → (x : A) × (y : B) × (z : C) × (w : D) × (a ≡ ok x)
        × (b ≡ ok y)
        × (c ≡ ok z)
        × (d ≡ ok w)
        × (check r ≡ ok tt)
        × (make x y z w ≡ r)
  unfolding four
  four-eq-ok (ok x) (ok y) (ok z) (ok w) h =
      let (u, k, l) = >>=-eq-ok (check (make x y z w)) (λ _. ok (make x y z w)) h in
      (x, y, z, w, refl, refl, refl, refl, cc, cc)
  four-eq-ok (err e) b c d h = absurd (cc)
  four-eq-ok (ok x) (err e) c d h = absurd (cc)
  four-eq-ok (ok x) (ok y) (err e) d h = absurd (cc)
  four-eq-ok (ok x) (ok y) (ok z) (err e) h = absurd (cc)

  four-ok :
      (a : Result A) (b : Result B) (c : Result C) (d : Result D) {x : A} {y : B} {z : C} {w : D}
      → a ≡ ok x
      → b ≡ ok y
      → c ≡ ok z
      → d ≡ ok w
      → check (make x y z w) ≡ ok tt
      → four a b c d ≡ ok (make x y z w)
  unfolding four
  four-ok a b c d {x} {y} {z} {w} e f g h k = simp (e, f, g, h, k)

i32_to_u32_iff :
    (label : String) (value : ℤ) (n : ℕ) → (i32_to_u32 label value ≡ ok n) ↔ (value ≡ pos n)
i32_to_u32_iff label (pos m) n = ((λ h. cc), (λ h. ground arith))
i32_to_u32_iff label (negsuc m) n = ((λ h. absurd (cc)), (λ h. absurd (cc)))

validate_dynamic_rate_limit_iff :
    (policy : DynamicRateLimitPolicy)
    → (validate_dynamic_rate_limit_policy policy ≡ ok tt)
      ↔ (0 < policy.packets_per_second)
        × (0 < policy.burst)
        × ((is_icmp policy.protocol && is_some policy.port) ≡ false)
unfolding validate_dynamic_rate_limit_policy
validate_dynamic_rate_limit_iff policy =
    ((λ h. (ground arith, ground arith, ground arith)), (λ h. ground arith))

abbrev limit_of : DynamicRateLimitRow → L4Protocol → Option ℕ → ℕ → ℕ → DynamicRateLimitPolicy
limit_of row protocol port rate burst = record {
  priority = row.priority;
  protocol = protocol;
  port = port;
  packets_per_second = rate;
  burst = burst;
  comment = row.comment;
}

limit_of_fields :
    (row : DynamicRateLimitRow) (policy : DynamicRateLimitPolicy)
    → policy.priority ≡ row.priority
    → policy.comment ≡ row.comment
    → limit_of row policy.protocol policy.port policy.packets_per_second policy.burst ≡ policy
limit_of_fields row policy h k = cc

loads :
    (row : DynamicRateLimitRow) (policy : DynamicRateLimitPolicy)
    → parse_dynamic_rate_limit row ≡ ok policy
    → Loads row policy
unfolding parse_dynamic_rate_limit validate_dynamic_rate_limit_policy four
loads row policy h =
    let (protocol, port, rate, burst, e, f, g, k, v, made) =
      four-eq-ok (limit_of row) validate_dynamic_rate_limit_policy (parse_protocol row.protocol)
        (parse_optional_port row.port "dynamic rate limit port")
        (i32_to_u32 "dynamic rate limit packets_per_second" row.packets_per_second)
        (i32_to_u32 "dynamic rate limit burst" row.burst) {r = policy} h in
    let (rate_pos, burst_pos, no_icmp) = (validate_dynamic_rate_limit_iff policy).0 v in
    record {
      priority = sym (ap (λ (p : DynamicRateLimitPolicy). p.priority) made);
      protocol =
          protocol_named row.protocol policy.protocol
            (e ∙ ap (λ (p : DynamicRateLimitPolicy). ok p.protocol) made);
      port =
          subst (λ (p : DynamicRateLimitPolicy). IsPortOf p.port row.port) made
            ((parse_optional_port_iff row.port "dynamic rate limit port" port).0 f);
      rate = (
        (i32_to_u32_iff "dynamic rate limit packets_per_second" row.packets_per_second rate).0 g
            ∙ ap (λ (p : DynamicRateLimitPolicy). pos p.packets_per_second) made,
        rate_pos,
      );
      burst = (
        (i32_to_u32_iff "dynamic rate limit burst" row.burst burst).0 k
            ∙ ap (λ (p : DynamicRateLimitPolicy). pos p.burst) made,
        burst_pos,
      );
      comment = sym (ap (λ (p : DynamicRateLimitPolicy). p.comment) made);
      no_icmp_port = no_icmp;
    }

loaded :
    (row : DynamicRateLimitRow) (policy : DynamicRateLimitPolicy)
    → Loads row policy
    → parse_dynamic_rate_limit row ≡ ok policy
unfolding parse_dynamic_rate_limit validate_dynamic_rate_limit_policy four
loaded row policy r =
    let made : limit_of row policy.protocol policy.port policy.packets_per_second policy.burst
        ≡ policy =
      limit_of_fields row policy r.priority r.comment in
    four-ok (limit_of row) validate_dynamic_rate_limit_policy (parse_protocol row.protocol)
      (parse_optional_port row.port "dynamic rate limit port")
      (i32_to_u32 "dynamic rate limit packets_per_second" row.packets_per_second)
      (i32_to_u32 "dynamic rate limit burst" row.burst)
      (named_protocol row.protocol policy.protocol r.protocol)
      ((parse_optional_port_iff row.port "dynamic rate limit port" policy.port).1 r.port)
      ((i32_to_u32_iff "dynamic rate limit packets_per_second" row.packets_per_second
          policy.packets_per_second).1
        r.rate.0)
      ((i32_to_u32_iff "dynamic rate limit burst" row.burst policy.burst).1 r.burst.0)
      ((validate_dynamic_rate_limit_iff
          (limit_of row policy.protocol policy.port policy.packets_per_second policy.burst)).1
        (r.rate.1, r.burst.1, r.no_icmp_port))
    ∙ ap ok made

-- The reading of a row is a policy exactly when the row stands for it: the protocol is named by `any`,
-- `tcp`, `udp` or `icmp` in any case, the port is within u16 and given for no ICMP entry, both rates are positive, and
-- the rest is the row's.
pub parse_dynamic_rate_limit_iff :
    (row : DynamicRateLimitRow) (policy : DynamicRateLimitPolicy)
    → (parse_dynamic_rate_limit row ≡ ok policy) ↔ Loads row policy
parse_dynamic_rate_limit_iff row policy = (loads row policy, loaded row policy)
