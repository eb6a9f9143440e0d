-- ===== src/Net/Display.antt =====
-- The Display of std::net::IpAddr.
pub mod Printed
use xdp_firewall.Prelude.{
  ℕ, zero, suc, ◌+◌, ◌*◌, ◌^◌, ◌/◌, ◌%◌, List, [], ◌∷◌, ◌++◌, ltb, ◌==◌, if◌then◌else◌, take, drop,
}
use xdp_firewall.Text.{Text, codes}
use xdp_firewall.Net.{IpAddr, v4, v6}

abbrev digit_char : ℕ → ℕ
digit_char d = if ltb d 10 then d + 48 else d + 87

-- The digits of `n` before `after`, at most `places`.
print_from : ℕ → ℕ → ℕ → Text → Text
print_from zero radix n after = after
print_from (suc places) radix n after =
    let rest = print_from places radix (n / radix) (digit_char (n % radix) ∷ after) in
    if ltb n radix then digit_char n ∷ after else rest

-- a number below 10 ^ 20
unfoldable pub print_decimal : ℕ → Text
unfolding print_from
print_decimal n = print_from 20 10 n []

print_hex : ℕ → Text
unfolding print_from
print_hex n = print_from 4 16 n []

print_ipv4 : ℕ → Text
unfolding print_decimal
print_ipv4 a =
    print_decimal (a / 2 ^ 24)
    ++ 46 ∷ print_decimal (a / 2 ^ 16 % 256)
    ++ 46 ∷ print_decimal (a / 2 ^ 8 % 256)
    ++ 46 ∷ print_decimal (a % 256)

-- the last `count` segments of an address, the most significant first
segments : ℕ → ℕ → List ℕ
segments zero a = []
segments (suc count) a = (a / 2 ^ (16 * count) % 2 ^ 16) ∷ segments count a

fmt_subslice : List ℕ → Text
unfolding print_hex
fmt_subslice [] = []
fmt_subslice (g ∷ []) = print_hex g
fmt_subslice (g ∷ h ∷ gs) = print_hex g ++ 58 ∷ fmt_subslice (h ∷ gs)

pub record Span : Type 0 where
  pub start : ℕ
  pub len : ℕ

-- the first longest run of zero segments, from the index `i`
longest_zeros : ℕ → Span → Span → List ℕ → Span
longest_zeros i current longest [] = longest
longest_zeros i current longest (g ∷ gs) =
    let start : ℕ = if current.len == 0 then i else current.start in
    let run : Span =
      if g == 0
      then record { start = start; len = current.len + 1 }
      else record { start = 0; len = 0 } in
    longest_zeros (i + 1) run (if ltb longest.len run.len then run else longest) gs

print_ipv6 : ℕ → Text
unfolding print_ipv4 segments fmt_subslice longest_zeros
print_ipv6 a =
    let groups = segments 8 a in
    let none_yet : Span = record { start = 0; len = 0 } in
    let zeros = longest_zeros 0 none_yet none_yet groups in
    if a / 2 ^ 32 == 0xffff
    then codes "::ffff:" ++ print_ipv4 (a % 2 ^ 32)
    else if ltb 1 zeros.len
    then fmt_subslice (take zeros.start groups)
      ++ codes "::"
      ++ fmt_subslice (drop (zeros.start + zeros.len) groups)
    else fmt_subslice groups

unfoldable pub print_ip : IpAddr → Text
unfolding print_ipv4 print_ipv6
print_ip (v4 a) = print_ipv4 a
print_ip (v6 a) = print_ipv6 a
