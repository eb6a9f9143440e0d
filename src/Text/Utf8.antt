-- ===== src/Text/Utf8.antt =====
-- std::str::from_utf8: the decoding of bytes, one at a time.
use xdp_firewall.Prelude.{
  ℕ, zero, suc, ◌+◌, ◌-◌, ◌*◌, ◌&&◌, true, false, Option, none, some, List, [], ◌∷◌, leb, ltb, ◌==◌,
  if◌then◌else◌,
}
use xdp_firewall.Text.{Text}

-- The bytes that a character still needs, the range of the next one, and the bits read so far.
record Pending : Type 0 where
  need : ℕ
  low : ℕ
  high : ℕ
  bits : ℕ

abbrev between : Pending
between = record { need = 0; low = 0x80; high = 0xbf; bits = 0 }

-- the first byte of a character of several bytes
lead : ℕ → Option Pending
lead b =
    if leb 0xc2 b && leb b 0xdf
    then some (record { need = 1; low = 0x80; high = 0xbf; bits = b - 0xc0 })
    else if b == 0xe0
    then some (record { need = 2; low = 0xa0; high = 0xbf; bits = 0 })
    else if b == 0xed
    then some (record { need = 2; low = 0x80; high = 0x9f; bits = 0xd })
    else if leb 0xe1 b && leb b 0xef
    then some (record { need = 2; low = 0x80; high = 0xbf; bits = b - 0xe0 })
    else if b == 0xf0
    then some (record { need = 3; low = 0x90; high = 0xbf; bits = 0 })
    else if leb 0xf1 b && leb b 0xf3
    then some (record { need = 3; low = 0x80; high = 0xbf; bits = b - 0xf0 })
    else if b == 0xf4
    then some (record { need = 3; low = 0x80; high = 0x8f; bits = 4 })
    else none

prepend : ℕ → Option Text → Option Text
prepend c none = none
prepend c (some s) = some (c ∷ s)

decode : Pending → List ℕ → Option Text
unfolding prepend lead
decode p [] = if p.need == 0 then some [] else none
decode p (b ∷ bytes) = elim (p.need) [
  | zero ↦ elim (ltb b 0x80) [
    | true ↦ prepend b (decode between bytes)
    | false ↦ elim (lead b) [ none ↦ none | some q ↦ decode q bytes ]
  ]
  | suc left ↦ elim (leb p.low b && leb b p.high) [
    | false ↦ none
    | true ↦ elim (left == 0) [
      | true ↦ prepend (p.bits * 64 + (b - 0x80)) (decode between bytes)
      | false ↦
          decode (record { need = left; low = 0x80; high = 0xbf; bits = p.bits * 64 + (b - 0x80) })
            bytes
    ]
  ]
]

unfoldable pub utf8_decode : List ℕ → Option Text
unfolding decode
utf8_decode bytes = decode between bytes
