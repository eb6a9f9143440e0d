-- ===== src/Net/Parse.antt =====
-- str::parse::<IpAddr>() of std: core::net::parser. A reader takes the text that is left and returns
-- what it read with the rest; where it fails, the caller goes on from the text before it.
use xdp_firewall.Prelude.{
  ℕ, zero, suc, ◌+◌, ◌-◌, ◌*◌, ◌^◌, ◌/◌, ◌%◌, ◌&&◌, Bool, true, false, not, Option, none, some,
  List, [], ◌∷◌, ◌++◌, leb, ltb, ◌==◌, if◌then◌else◌, length, replicate,
}
use xdp_firewall.Text.{Text}
use xdp_firewall.Net.{IpAddr, v4, v6}

abbrev pub Reader : Type 0 → Type 0
Reader A = Text → Option (A × Text)

infixl 5 ◌>>=◌
abbrev ◌>>=◌ : {A B : Type 0} → Reader A → (A → Reader B) → Reader B
◌>>=◌ m f s = elim (m s) [ none ↦ none | some (a, rest) ↦ f a rest ]

abbrev pure : {A : Type 0} → A → Reader A
pure a s = some (a, s)

read_given_char : ℕ → Reader (Unit {0})
read_given_char c [] = none
read_given_char c (d ∷ s) = if d == c then some (tt, s) else none

-- char::to_digit
to_digit : ℕ → ℕ → Option ℕ
to_digit radix c =
    if leb 48 c && leb c 57
    then some (c - 48)
    else if radix == 16 && leb 97 c && leb c 102
    then some (c - 87)
    else if radix == 16 && leb 65 c && leb c 70
    then some (c - 55)
    else none

-- The digits that follow: `count` of them read, at most `max_digits`, with a value up to `bound`.
read_digits : ℕ → ℕ → ℕ → ℕ → ℕ → Text → Option ((ℕ × ℕ) × Text)
unfolding to_digit
read_digits radix bound max_digits count value [] = some ((count, value), [])
read_digits radix bound max_digits count value (c ∷ s) = elim (to_digit radix c) [
  | none ↦ some ((count, value), c ∷ s)
  | some digit ↦ elim (leb (value * radix + digit) bound && ltb count max_digits) [
    | false ↦ none
    | true ↦ read_digits radix bound max_digits (count + 1) (value * radix + digit) s
  ]
]

abbrev starts_with_zero : Text → Bool
starts_with_zero [] = false
starts_with_zero (c ∷ s) = c == 48

read_number : ℕ → ℕ → ℕ → Bool → Reader ℕ
unfolding read_digits
read_number radix bound max_digits allow_zero_prefix s =
    elim (read_digits radix bound max_digits 0 0 s) [
      | none ↦ none
      | some ((count, value), rest) ↦
          if count == 0
          then none
          else if not allow_zero_prefix && starts_with_zero s && ltb 1 count
          then none
          else some (value, rest)
    ]

abbrev read_octet : Reader ℕ
read_octet = read_number 10 255 3 false

read_ipv4_addr : Reader ℕ
unfolding read_number read_given_char
read_ipv4_addr = do
  a ← read_octet
  dot ← read_given_char 46
  b ← read_octet
  dot ← read_given_char 46
  c ← read_octet
  dot ← read_given_char 46
  d ← read_octet
  pure (((a * 256 + b) * 256 + c) * 256 + d)

-- a separator before every group but the first
read_separator : {A : Type 0} → Bool → Reader A → Reader A
unfolding read_given_char
read_separator true inner s = inner s
read_separator false inner s = (read_given_char 58 >>= (λ colon. inner)) s

-- Up to `limit` groups, whether an IPv4 address ended them, and the rest.
read_groups : ℕ → Bool → Text → (List ℕ × Bool) × Text
unfolding read_separator read_ipv4_addr read_number
read_groups zero first s = (([], false), s)
read_groups (suc limit) first s =
    let embedded : Option (ℕ × Text) =
      if limit == 0 then none else read_separator first read_ipv4_addr s in
    elim embedded [
      | some (a, rest) ↦ ((a / 2 ^ 16 ∷ a % 2 ^ 16 ∷ [], true), rest)
      | none ↦ elim (read_separator first (read_number 16 65535 4 true) s) [
        | none ↦ (([], false), s)
        | some (group, rest) ↦
            let more = read_groups limit false rest in ((group ∷ more.0.0, more.0.1), more.1)
      ]
    ]

-- the segments, the most significant first
from_segments : ℕ → List ℕ → ℕ
from_segments value [] = value
from_segments value (g ∷ gs) = from_segments (value * 2 ^ 16 + g) gs

read_ipv6_addr : Reader ℕ
unfolding read_groups read_given_char from_segments
read_ipv6_addr s =
    let head = read_groups 8 true s in
    let size : ℕ = length head.0.0 in
    if size == 8
    then some (from_segments 0 head.0.0, head.1)
    else if head.0.1
    then none
    else (do
      colon ← read_given_char 58
      colon ← read_given_char 58
      λ rest.
          let tail = read_groups (8 - (size + 1)) true rest in
          some (
            from_segments 0 (head.0.0 ++ replicate (8 - size - length tail.0.0) 0 ++ tail.0.0),
            tail.1,
          ))
        head.1

whole : Option (IpAddr × Text) → Option IpAddr
whole (some (ip, [])) = some ip
whole _ = none

unfoldable pub parse_ip : Text → Option IpAddr
unfolding read_ipv4_addr read_ipv6_addr whole
parse_ip s = elim (read_ipv4_addr s) [
  | some (a, rest) ↦ whole (some (v4 a, rest))
  | none ↦ elim (read_ipv6_addr s) [ none ↦ none | some (a, rest) ↦ whole (some (v6 a, rest)) ]
]
