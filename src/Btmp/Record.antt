-- ===== src/Btmp/Record.antt =====
-- tools/btmp-monitor/src/btmp.rs: one record of the file. chrono's DateTime::from_timestamp is a
-- parameter. Bytes are numbers; the machine is little-endian, as the record's layout presumes.
use xdp_firewall.Prelude.{
  ℕ, ◌+◌, ◌-◌, ◌*◌, ◌^◌, ◌%◌, ◌&&◌, ◌||◌, Bool, true, Option, none, some, List, [], ◌∷◌, ltb, ◌==◌,
  if◌then◌else◌, take, drop,
}
use xdp_firewall.Prelude.Int.{ℤ, pos, negsuc}
use xdp_firewall.Text.{Text, trim}
use xdp_firewall.Text.Utf8.{utf8_decode}
use xdp_firewall.Net.{IpAddr, v4, v6}
use xdp_firewall.Net.Parse.{parse_ip}

pub record FailedAttempt (DateTime : Type 0) : Type 0 where
  pub ip : IpAddr
  pub time : DateTime

abbrev pub utmp_record_size : ℕ
utmp_record_size = 384

-- `&bytes[off..off + len]`
abbrev pub slice : ℕ → ℕ → List ℕ → List ℕ
slice off len bytes = take len (drop off bytes)

-- the bytes before the first NUL
abbrev pub until_nul : List ℕ → List ℕ
until_nul [] = []
until_nul (b ∷ bytes) = if b == 0 then [] else b ∷ until_nul bytes

abbrev pub or_empty : Option Text → Text
or_empty none = []
or_empty (some s) = s

unfoldable pub field_str : List ℕ → Text
unfolding utf8_decode
field_str bytes = or_empty (utf8_decode (until_nul bytes))

abbrev pub all_zero : List ℕ → Bool
all_zero [] = true
all_zero (b ∷ bytes) = b == 0 && all_zero bytes

-- the number of bytes in network order
abbrev pub from_be_bytes : ℕ → List ℕ → ℕ
from_be_bytes value [] = value
from_be_bytes value (b ∷ bytes) = from_be_bytes (value * 256 + b) bytes

-- `bytes[10] == 0xff && bytes[11] == 0xff`
abbrev pub all_ff : List ℕ → Bool
all_ff [] = true
all_ff (b ∷ bytes) = b == 0xff && all_ff bytes

unfoldable pub ip_from_addr_v6 : List ℕ → Option IpAddr
ip_from_addr_v6 bytes =
    let is_v4_mapped = all_zero (take 10 bytes) && all_ff (slice 10 2 bytes) in
    let is_v4_compat = all_zero (take 12 bytes) in
    if all_zero bytes
    then none
    else if is_v4_mapped || is_v4_compat
    then some (v4 (from_be_bytes 0 (slice 12 4 bytes)))
    else some (v6 (from_be_bytes 0 (take 16 bytes)))

-- the little-endian number of a slice of four bytes
abbrev pub le_bits : List ℕ → Option ℕ
le_bits (a ∷ b ∷ c ∷ d ∷ []) = some (a + 2 ^ 8 * b + 2 ^ 16 * c + 2 ^ 24 * d)
le_bits _ = none

-- the i32 with these bits
abbrev pub as_i32 : ℕ → ℤ
as_i32 bits = if ltb bits (2 ^ 31) then pos bits else negsuc (2 ^ 32 - 1 - bits)

-- `u32::try_from(usec).unwrap_or(0) * 1000`, as a release build wraps it
abbrev pub nanoseconds : ℤ → ℕ
nanoseconds (pos usec) = usec * 1000 % 2 ^ 32
nanoseconds (negsuc n) = 0

module _ {DateTime : Type 0} (from_timestamp : ℤ → ℕ → Option DateTime) where
  abbrev pub attempt_at : IpAddr → Option DateTime → Option (FailedAttempt DateTime)
  attempt_at ip none = none
  attempt_at ip (some time) = some (record { ip = ip; time = time })

  abbrev pub attempt_of : IpAddr → Option ℕ → Option ℕ → Option (FailedAttempt DateTime)
  attempt_of ip (some sec) (some usec) =
      attempt_at ip (from_timestamp (as_i32 sec) (nanoseconds (as_i32 usec)))
  attempt_of ip _ _ = none

  unfoldable pub source_of : Option IpAddr → List ℕ → Option IpAddr
  unfolding ip_from_addr_v6
  source_of (some ip) bytes = some ip
  source_of none bytes = ip_from_addr_v6 bytes

  unfoldable pub parse_record : List ℕ → Option (FailedAttempt DateTime)
  unfolding field_str parse_ip trim source_of
  parse_record bytes =
      let host = field_str (slice 76 256 bytes) in
      elim (source_of (parse_ip (trim host)) (slice 348 16 bytes)) [
        | none ↦ none
        | some ip ↦ attempt_of ip (le_bits (slice 340 4 bytes)) (le_bits (slice 344 4 bytes))
      ]
