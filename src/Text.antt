-- ===== src/Text.antt =====
-- Texts as lists of code points, and the operations of std::str that the program uses on them.
pub mod Laws
pub mod Utf8
use Prim.Native.Char.{code}
use Prim.Native.String.{String}
use mathlib.Core.List.{reverse}
use xdp_firewall.Prelude.{
  ℕ, suc, ◌+◌, ◌-◌, Bool, false, true, ◌&&◌, ◌||◌, List, [], ◌∷◌, map, leb, ltb, ◌==◌,
  if◌then◌else◌,
}

abbrev pub Text : Type 0
Text = List ℕ

-- The code points of a literal.
abbrev pub codes : String → Text
codes String.[] = []
codes (String.◌∷◌ c s) = code c ∷ codes s

abbrev pub text_eq : Text → Text → Bool
text_eq [] [] = true
text_eq (a ∷ s) (b ∷ t) = a == b && text_eq s t
text_eq _ _ = false

-- char::is_whitespace: the property White_Space of Unicode
abbrev pub is_whitespace : ℕ → Bool
is_whitespace c =
    leb 9 c && leb c 13
    || c == 32
    || c == 0x85
    || c == 0xa0
    || c == 0x1680
    || leb 0x2000 c && leb c 0x200a
    || c == 0x2028
    || c == 0x2029
    || c == 0x202f
    || c == 0x205f
    || c == 0x3000

unfoldable pub trim_start : Text → Text
trim_start [] = []
trim_start (c ∷ s) = let rest = trim_start s in if is_whitespace c then rest else c ∷ s

-- str::trim
unfoldable pub trim : Text → Text
unfolding trim_start
trim s = reverse (trim_start (reverse (trim_start s)))

abbrev pub is_ascii_lowercase : ℕ → Bool
is_ascii_lowercase c = leb 97 c && leb c 122

abbrev pub is_ascii_uppercase : ℕ → Bool
is_ascii_uppercase c = leb 65 c && leb c 90

abbrev pub is_ascii_alphabetic : ℕ → Bool
is_ascii_alphabetic c = is_ascii_lowercase c || is_ascii_uppercase c

abbrev pub ascii_upper : ℕ → ℕ
ascii_upper c = if is_ascii_lowercase c then c - 32 else c

abbrev pub ascii_lower : ℕ → ℕ
ascii_lower c = if is_ascii_uppercase c then c + 32 else c

abbrev pub to_ascii_uppercase : Text → Text
to_ascii_uppercase s = map ascii_upper s

abbrev pub to_ascii_lowercase : Text → Text
to_ascii_lowercase s = map ascii_lower s

-- str::len: the bytes of the UTF-8 encoding
abbrev pub utf8_width : ℕ → ℕ
utf8_width c = if ltb c 0x80 then 1 else if ltb c 0x800 then 2 else if ltb c 0x10000 then 3 else 4

abbrev pub len : Text → ℕ
len [] = 0
len (c ∷ s) = utf8_width c + len s

-- bytes().all(|byte| byte.is_ascii_alphabetic()): a byte of a longer sequence is none
abbrev pub all_ascii_alphabetic : Text → Bool
all_ascii_alphabetic [] = true
all_ascii_alphabetic (c ∷ s) = is_ascii_alphabetic c && all_ascii_alphabetic s
