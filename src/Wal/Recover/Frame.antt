-- ===== src/Wal/Recover/Frame.antt =====
-- One record of internal/wal/wal.go: what encodeAppend writes and recoverShard reads.
use fleare.Prelude.{
  ℕ, suc, ◌+◌, ◌-◌, ◌%◌, ◌^◌, ◌<◌, ◌≡◌, some, List, [], ◌∷◌, ◌++◌, length, take, drop, arith,
  length-append, take-length-append, drop-length-append,
}
use mathlib.Core.List.{append_assoc}
use fleare.Prelude.Bytes.{Bytes}
use fleare.Wal.{Entry, Codec, put_uint32, uint32, frame}
use fleare.Wal.Recover.{
  Status, full, read_full, on_header, on_data, called, check_data, read_records,
}

pub uint32-put_uint32 : (n : ℕ) (rest : Bytes) → n < 2 ^ 32 → uint32 (put_uint32 n ++ rest) ≡ n
unfolding uint32 put_uint32
uint32-put_uint32 n rest h = omega arith

pub read_full-append : (xs rest : Bytes) → read_full (length xs) (xs ++ rest) ≡ full xs rest
unfolding read_full
read_full-append xs rest =
    rw (take-length-append xs rest, drop-length-append xs rest)
      (ground (arith, length-append xs rest))

pub header-read :
    (a b : ℕ) (rest : Bytes)
    → read_full 8 (put_uint32 a ++ put_uint32 b ++ rest) ≡ full (put_uint32 a ++ put_uint32 b) rest
unfolding put_uint32
header-read a b rest = read_full-append (put_uint32 a ++ put_uint32 b) rest

header_length : (a b : ℕ) → a < 2 ^ 32 → uint32 (take 4 (put_uint32 a ++ put_uint32 b)) ≡ a
unfolding uint32 put_uint32
header_length a b h = omega arith

header_sum : (a b : ℕ) → b < 2 ^ 32 → uint32 (drop 4 (put_uint32 a ++ put_uint32 b)) ≡ b
unfolding uint32 put_uint32
header_sum a b h = omega arith

-- What the loop does behind a header that it read in full.
pub on_header-frame :
    (c : Codec) (next : Bytes → List Entry × Status) (payload rest : Bytes)
    → length payload + 4 < 2 ^ 32
    → c.checksum payload < 2 ^ 32
    → on_header c next
        (full (put_uint32 ((4 + length payload) % 2 ^ 32) ++ put_uint32 (c.checksum payload)) rest)
      ≡ on_data c next (c.checksum payload) (read_full (length payload) rest)
on_header-frame c next payload rest h k =
    rw
      (
        header_length ((4 + length payload) % 2 ^ 32) (c.checksum payload) (omega arith),
        header_sum ((4 + length payload) % 2 ^ 32) (c.checksum payload) k,
        sizes,
      )
      (rw (cancel) (ground arith))
  where
    sizes : (4 + length payload) % 2 ^ 32 ≡ 4 + length payload
    sizes = omega arith

    cancel : 4 + length payload - 4 ≡ length payload
    cancel = omega arith

-- A codec reads back what it writes for this entry, and the record fits its 32-bit fields.
pub record Survives (c : Codec) (e : Entry) (payload : Bytes) : Type 0 where
  pub written : c.marshal e ≡ some payload
  pub read_back : c.unmarshal payload ≡ some e
  pub fits : length payload + 4 < 2 ^ 32
  pub sum_fits : c.checksum payload < 2 ^ 32
  pub known_op : e.op < 2

pub read_record :
    (c : Codec) (e : Entry) (payload : Bytes) (fuel : ℕ) (rest : Bytes)
    → Survives c e payload
    → read_records c (suc fuel) (frame c payload ++ rest)
      ≡ called (e ∷ []) (read_records c fuel rest)
unfolding read_records frame check_data
read_record c e payload fuel rest s =
    rw
      (
        append_assoc (put_uint32 ((4 + length payload) % 2 ^ 32) ++ put_uint32 (c.checksum payload))
            payload rest,
        header-read ((4 + length payload) % 2 ^ 32) (c.checksum payload) (payload ++ rest),
        on_header-frame c (read_records c fuel) payload (payload ++ rest) s.fits s.sum_fits,
        read_full-append payload rest,
      )
      (ground (arith, s.read_back))
