-- ===== src/Wal/Recover.antt =====
-- Recovery in internal/wal/wal.go: `recoverShard` and `Recover`. The callback's effect is that of
-- the entries that it is called with, so a recovery is the list of those and the way it ended.
pub mod Frame
pub mod RoundTrip
pub mod Torn
pub mod Crash
use fleare.Prelude.{
  ℕ, zero, suc, ◌+◌, ◌-◌, Bool, true, false, Option, none, some, List, [], ◌∷◌, ◌++◌, length, take,
  drop, ltb, ◌==◌, if◌then◌else◌,
}
use fleare.Prelude.Bytes.{Bytes}
use fleare.Wal.{Entry, Codec, uint32}

-- `done` is the return of nil, the others are the errors; `out_of_fuel` is no result of the code.
pub data Status : Type 0 where
  done bad_rec_len end_of_file checksum_mismatch bad_entry out_of_fuel : Status

-- io.ReadFull for n bytes: what it read and the rest; at the end of the file io.EOF if there was
-- nothing left, and io.ErrUnexpectedEOF if there was less.
pub data ReadFull : Type 0 where
  full : Bytes → Bytes → ReadFull
  eof unexpected_eof : ReadFull

unfoldable pub read_full : ℕ → Bytes → ReadFull
read_full n r =
    if ltb (length r) n
    then (if length r == 0 then eof else unexpected_eof)
    else full (take n r) (drop n r)

-- `cb` is called for the two known operations only.
abbrev pub known : Entry → List Entry
known e = if ltb e.op 2 then e ∷ [] else []

abbrev pub called : List Entry → List Entry × Status → List Entry × Status
called es (more, end) = (es ++ more, end)

abbrev pub and_then : List Entry × Status → List Entry × Status → List Entry × Status
and_then (es, done) (more, end) = (es ++ more, end)
and_then (es, end) more = (es, end)

module _ (codec : Codec) where
  -- One record's data against its checksum; `more` is the rest of the loop.
  unfoldable pub check_data : ℕ → Bytes → List Entry × Status → List Entry × Status
  check_data expected payload more =
      if codec.checksum payload == expected
      then elim (codec.unmarshal payload) [
        | none ↦ ([], bad_entry)
        | some e ↦ called (known e) more
      ]
      else ([], checksum_mismatch)

  -- The data behind a header; `next` is the loop on what follows.
  abbrev pub on_data : (Bytes → List Entry × Status) → ℕ → ReadFull → List Entry × Status
  on_data next expected eof = ([], end_of_file)
  on_data next expected unexpected_eof = ([], done)
  on_data next expected (full payload rest) = check_data expected payload (next rest)

  -- A header: `recLen` includes the four bytes of the checksum.
  abbrev pub on_header : (Bytes → List Entry × Status) → ReadFull → List Entry × Status
  on_header next eof = ([], done)
  on_header next unexpected_eof = ([], done)
  on_header next (full hdr rest) =
      let rec_len = uint32 (take 4 hdr) in
      if ltb rec_len 4
      then ([], bad_rec_len)
      else on_data next (uint32 (drop 4 hdr)) (read_full (rec_len - 4) rest)

  -- The loop of `recoverShard`; every round but the last reads a header of eight bytes.
  unfoldable pub read_records : ℕ → Bytes → List Entry × Status
  read_records zero r = ([], out_of_fuel)
  read_records (suc fuel) r = on_header (read_records fuel) (read_full 8 r)

  -- A file that does not exist is an empty recovery.
  unfoldable pub recover_shard : Option Bytes → List Entry × Status
  recover_shard none = ([], done)
  recover_shard (some file) = read_records (suc (length file)) file

  -- `Recover` goes through the shards' files in the order that the map's iteration happens to
  -- have, and ends at the first error.
  unfoldable pub recover : List (Option Bytes) → List Entry × Status
  recover [] = ([], done)
  recover (f ∷ files) = and_then (recover_shard f) (recover files)
