-- ===== src/Xdp/Apply/Resizing.antt =====
-- `LinuxXdpManager::apply` when the manager may not resize its maps.
use xdp_firewall.Prelude.{
  ◌≡◌, refl, sym, subst, ◌⊎◌, inl, inr, false, Option, none, some, Error, Result, ok, err,
}
use xdp_firewall.Exec.{Exec, lift, ◌>>=◌, ◌>>◌}
use xdp_firewall.Net.{Ipnet, Chrono}
use xdp_firewall.Policy.Model.{CompiledPolicy}
use xdp_firewall.Xdp.Capacity.{XdpMapSizes, validate_map_capacity, resized_map_sizes}
use xdp_firewall.Xdp.Capacity.Resize.{IsSizes, resized-none_iff, resized-some}
use xdp_firewall.Xdp.Apply.{Kernel, LinuxXdpManager, resize_if_needed, apply_to_current_maps, apply}
use xdp_firewall.Xdp.Apply.Sizes.{required_policy_map_sizes}

module _ (kernel : Kernel) (net : Ipnet) (chrono : Chrono) where
  open chrono use {DateTime}

  -- What `apply` does with the required sizes.
  by_resized :
      (resize_maps : XdpMapSizes → Exec (LinuxXdpManager kernel) (Unit {0}))
      (policy : CompiledPolicy DateTime) (wall_now : DateTime) (m : LinuxXdpManager kernel)
      (required : XdpMapSizes) (resized : Result (Option XdpMapSizes))
      → m.auto_resize_maps ≡ false
      → IsSizes m.map_sizes
      → resized_map_sizes m.map_sizes required ≡ resized
      → (let run =
            (lift resized >>= λ resized.
            resize_if_needed kernel net chrono resize_maps m required resized
            >> apply_to_current_maps kernel net chrono policy wall_now)
              m in
          ((validate_map_capacity required m.map_sizes ≡ ok tt)
            × (run ≡ apply_to_current_maps kernel net chrono policy wall_now m))
          ⊎ ((e : Error) × (run ≡ (err e, m))))
  by_resized resize_maps policy wall_now m required (err e) fixed sizes h = inr (e, refl)
  by_resized resize_maps policy wall_now m required (ok none) fixed sizes h =
      inl ((resized-none_iff m.map_sizes required sizes).0 h, refl)
  by_resized resize_maps policy wall_now m required (ok (some s)) fixed sizes h =
      let refused = (resized-some m.map_sizes required s sizes h).0 in
      let full = refused.1 in inr (refused.0, rw (fixed, full))

  -- A manager that may not resize either has room for the policy, and `apply` is the write to its maps,
  -- or it is unchanged behind an error of `apply`; its sizes are u32 numbers.
  pub apply_fixed_cases :
      (resize_maps : XdpMapSizes → Exec (LinuxXdpManager kernel) (Unit {0}))
      (policy : CompiledPolicy DateTime) (wall_now : DateTime) (m : LinuxXdpManager kernel)
      (required : XdpMapSizes)
      → m.auto_resize_maps ≡ false
      → IsSizes m.map_sizes
      → required_policy_map_sizes net chrono m.map_sizes policy ≡ ok required
      → ((validate_map_capacity required m.map_sizes ≡ ok tt)
          × (apply kernel net chrono resize_maps policy wall_now m
              ≡ apply_to_current_maps kernel net chrono policy wall_now m))
        ⊎ ((e : Error) × (apply kernel net chrono resize_maps policy wall_now m ≡ (err e, m)))
  unfolding apply
  apply_fixed_cases resize_maps policy wall_now m required fixed sizes needs =
      let rest : XdpMapSizes → Exec (LinuxXdpManager kernel) (Unit {0}) = λ required.
        lift (resized_map_sizes m.map_sizes required) >>= λ resized.
        resize_if_needed kernel net chrono resize_maps m required resized
        >> apply_to_current_maps kernel net chrono policy wall_now in
      subst
        (λ r.
          ((validate_map_capacity required m.map_sizes ≡ ok tt)
            × ((lift r >>= rest) m ≡ apply_to_current_maps kernel net chrono policy wall_now m))
          ⊎ ((e : Error) × ((lift r >>= rest) m ≡ (err e, m))))
        (sym needs)
        (by_resized resize_maps policy wall_now m required (resized_map_sizes m.map_sizes required)
          fixed sizes refl)
