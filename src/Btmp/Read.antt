-- ===== src/Btmp/Read.antt =====
-- tools/btmp-monitor/src/btmp.rs: read_attempts. What the system answers for the path is an argument:
-- the inode and the length at the call of metadata, and the bytes that are there when they are read.
pub mod Incremental
pub mod Rounds
use xdp_firewall.Prelude.{
  ℕ, zero, suc, ◌+◌, ◌*◌, ◌/◌, ◌&&◌, Bool, Option, none, some, List, [], ◌∷◌, leb, ◌==◌,
  if◌then◌else◌, take, drop, length, Result, ok, err, foreign,
}
use xdp_firewall.Prelude.Int.{ℤ}
use xdp_firewall.Btmp.Record.{FailedAttempt, parse_record, utmp_record_size}

pub record ReadCursor : Type 0 where
  pub inode : ℕ
  pub offset : ℕ

pub record BtmpFile : Type 0 where
  pub inode : ℕ
  pub is_file : Bool
  pub len : ℕ
  pub bytes : List ℕ

-- `chunks_exact` of a list with `count` whole records
abbrev pub chunks_exact : ℕ → List ℕ → List (List ℕ)
chunks_exact zero bytes = []
chunks_exact (suc count) bytes =
    take utmp_record_size bytes ∷ chunks_exact count (drop utmp_record_size bytes)

-- Rotation: a cursor of another file, or beyond the end, is not used.
unfoldable pub start_of : Option ReadCursor → BtmpFile → ℕ
start_of none file = 0
start_of (some c) file = if c.inode == file.inode && leb c.offset file.len then c.offset else 0

abbrev pub filter_map {ℓ κ} : {A : Type ℓ} {B : Type κ} → (A → Option B) → List A → List B
filter_map f [] = []
filter_map f (x ∷ xs) = elim (f x) [ none ↦ filter_map f xs | some y ↦ y ∷ filter_map f xs ]

module _ {DateTime : Type 0} (from_timestamp : ℤ → ℕ → Option DateTime) where
  -- from the bytes behind `start`
  unfoldable pub read_from : ℕ → ℕ → List ℕ → List (FailedAttempt DateTime) × ReadCursor
  read_from inode start buf =
      let complete : ℕ = length buf / utmp_record_size * utmp_record_size in
      (
        filter_map (parse_record from_timestamp)
            (chunks_exact (length buf / utmp_record_size) (take complete buf)),
        record { inode = inode; offset = start + complete },
      )

  unfoldable pub read_attempts :
      Option BtmpFile → Option ReadCursor → Result (List (FailedAttempt DateTime) × ReadCursor)
  unfolding read_from start_of
  read_attempts none cursor = err (foreign "failed to open btmp file")
  read_attempts (some file) cursor =
      if file.is_file
      then ok (read_from file.inode (start_of cursor file) (drop (start_of cursor file) file.bytes))
      else err (foreign "btmp path is not a regular file")
