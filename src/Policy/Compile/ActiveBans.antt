-- ===== src/Policy/Compile/ActiveBans.antt =====
-- Which temporary bans reach the compiled policy, compile_active_temp_bans of src/policy/compile.rs.
use xdp_firewall.Prelude.{
  ap, Bool, false, if◌then◌else◌, ℕ, suc, ◌≡◌, refl, true, none, some, List, [], ◌∷◌, All, All-imp,
  Any, Bool-cases, inl, inr,
}
use xdp_firewall.Net.{Ipnet, Chrono}
use xdp_firewall.Policy.Model.{XdpTempBan, TempBanPolicy}
use xdp_firewall.Policy.Compile.{
  compile_temp_ban, active_temp_bans, compile_active_temp_bans, unwrap_or,
}

module _ {A : Type 0} (P : A → Type 0) where
  kept_first :
      (b : Bool) (x : A) (rest : List A) → b ≡ true → P x → Any P (if b then x ∷ rest else rest)
  kept_first true x rest e p = inl p
  kept_first false x rest e p = absurd (cc)

  kept_later :
      (b : Bool) (x : A) (rest : List A) → Any P rest → Any P (if b then x ∷ rest else rest)
  kept_later true x rest h = inr h
  kept_later false x rest h = h

module _ (net : Ipnet) (chrono : Chrono) where
  open net use {IpNet}
  open chrono use {DateTime, lt}

  -- The compiled form of a ban.
  pub record CompiledFrom (ban : TempBanPolicy IpNet DateTime) (b : XdpTempBan DateTime)
      : Type 0 where
    pub addr : b.addr ≡ net.network ban.cidr
    pub prefix : b.prefix ≡ net.prefix_len ban.cidr
    pub protocol : b.protocol ≡ ban.protocol
    pub port_set : (port : ℕ) → ban.port ≡ some port → b.port ≡ port
    pub port_unset : ban.port ≡ none → b.port ≡ 0
    pub expires_at : b.expires_at ≡ ban.expires_at

  -- Each ban with its place.
  abbrev pub numbered :
      ℕ → List (TempBanPolicy IpNet DateTime) → List (ℕ × TempBanPolicy IpNet DateTime)
  numbered i [] = []
  numbered i (ban ∷ bans) = (i, ban) ∷ numbered (suc i) bans

  -- The ban ends after the time that is read at its place.
  abbrev pub Runs : (ℕ → DateTime) → ℕ × TempBanPolicy IpNet DateTime → Type 0
  Runs now p = lt (now p.0) p.1.expires_at ≡ true

  compile_temp_ban-CompiledFrom :
      (ban : TempBanPolicy IpNet DateTime) → CompiledFrom ban (compile_temp_ban net chrono ban)
  unfolding compile_temp_ban
  compile_temp_ban-CompiledFrom ban = record {
    addr = refl;
    prefix = refl;
    protocol = refl;
    port_set = λ port e. ap (λ o. unwrap_or o 0) e;
    port_unset = λ e. ap (λ o. unwrap_or o 0) e;
    expires_at = refl;
  }

  Made : (ℕ → DateTime) → List (ℕ × TempBanPolicy IpNet DateTime) → XdpTempBan DateTime → Type 0
  Made now places b = Any (λ p. Runs now p × CompiledFrom p.1 b) places

  active-Made :
      (now : ℕ → DateTime) (i : ℕ) (bans : List (TempBanPolicy IpNet DateTime))
      → All (Made now (numbered i bans)) (active_temp_bans net chrono now i bans)
  unfolding active_temp_bans Made
  active-Made now i [] = tt
  active-Made now i (ban ∷ bans) =
      let later =
        All-imp (Made now (numbered (suc i) bans)) (Made now (numbered i (ban ∷ bans))) _
          (λ b h. inr h) (active-Made now (suc i) bans) in
      elim (Bool-cases (lt (now i) ban.expires_at)) [
        | inl on ↦ rw on (inl (on, compile_temp_ban-CompiledFrom ban), later)
        | inr off ↦ rw off later
      ]

  active-covers :
      (now : ℕ → DateTime) (i : ℕ) (bans : List (TempBanPolicy IpNet DateTime))
      → All
          (λ p. Runs now p → Any (CompiledFrom p.1) (active_temp_bans net chrono now i bans))
          (numbered i bans)
  unfolding active_temp_bans
  active-covers now i [] = tt
  active-covers now i (ban ∷ bans) =
      let rest = active_temp_bans net chrono now (suc i) bans in
      let made = compile_temp_ban net chrono ban in
      let on = lt (now i) ban.expires_at in
      (
        (λ runs.
            kept_first (CompiledFrom ban) on made rest runs (compile_temp_ban-CompiledFrom ban)),
        All-imp (λ p. Runs now p → Any (CompiledFrom p.1) rest)
            (λ p. Runs now p → Any (CompiledFrom p.1) (if on then made ∷ rest else rest))
            (numbered (suc i) bans)
            (λ p h runs. kept_later (CompiledFrom p.1) on made rest (h runs))
            (active-covers now (suc i) bans),
      )

  -- The compiled bans are those that still run: each of them has the network, the protocol, the port
  -- and the end of a ban that ends after the time that is read at its place, and each such ban is
  -- compiled so.
  pub compile_active_temp_bans_exact :
      (now : ℕ → DateTime) (bans : List (TempBanPolicy IpNet DateTime))
      → All
          (λ b. Any (λ p. Runs now p × CompiledFrom p.1 b) (numbered 0 bans))
          (compile_active_temp_bans net chrono now bans)
        × All
            (λ p.
              Runs now p → Any (CompiledFrom p.1) (compile_active_temp_bans net chrono now bans))
            (numbered 0 bans)
  unfolding compile_active_temp_bans Made
  compile_active_temp_bans_exact now bans = (active-Made now 0 bans, active-covers now 0 bans)
