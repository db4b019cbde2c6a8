-- ===== src/Wal/Recover/Torn.antt =====
-- Damaged files in internal/wal/wal.go: a torn tail, and a record that fails its checksum.
use fleare.Prelude.{
  ℕ, zero, suc, ◌+◌, ◌-◌, ◌%◌, ◌^◌, ◌<◌, ◌≡◌, ◌≢◌, refl, ap, ◌∙◌, inl, inr, some, List, [], ◌∷◌,
  ◌++◌, length, take, length-take, arith, ltb, if◌then◌else◌, Bool-cases, ltb→lt,
}
use mathlib.Core.List.{append-nil}
use fleare.Prelude.Bytes.{Bytes}
use fleare.Wal.{Entry, Codec, put_uint32, frame}
use fleare.Wal.Run.{records}
use fleare.Wal.Recover.{
  Status, done, end_of_file, checksum_mismatch, called, eof, unexpected_eof, read_full, on_data,
  read_records, check_data, recover_shard,
}
use fleare.Wal.Recover.Frame.{Survives, header-read, on_header-frame, read_full-append}
use fleare.Wal.Recover.RoundTrip.{AllSurvive, recover-records}

-- A header in front of anything at all.
abbrev pub header : ℕ → ℕ → Bytes
header size sum = put_uint32 ((4 + size) % 2 ^ 32) ++ put_uint32 sum

pub length-header : (size sum : ℕ) → length (header size sum) ≡ 8
unfolding put_uint32
length-header size sum = refl

pub take-append :
    (n : ℕ) (xs ys : Bytes)
    → take n (xs ++ ys) ≡ (if ltb n (length xs) then take n xs else xs ++ take (n - length xs) ys)
take-append n [] ys = ground arith
take-append zero (x ∷ xs) ys = ground arith
take-append (suc n) (x ∷ xs) ys = ground (arith, take-append n xs ys)

read_short : (n : ℕ) (r : Bytes) → length r < n → length r ≢ 0 → read_full n r ≡ unexpected_eof
unfolding read_full
read_short n r h k = ground arith

read_empty : (p : Bytes) → p ≢ [] → read_full (length p) [] ≡ eof
unfolding read_full
read_empty [] h = absurd (h refl)
read_empty (x ∷ p) h = ground arith

module _ (c : Codec) where
  mismatch :
      (sum : ℕ) (payload : Bytes) (more : List Entry × Status)
      → c.checksum payload ≢ sum
      → check_data c sum payload more ≡ ([], checksum_mismatch)
  unfolding check_data
  mismatch sum payload more h = ground arith

  corrupt_data :
      (next : Bytes → List Entry × Status) (size sum : ℕ) (changed rest : Bytes)
      → length changed ≡ size
      → c.checksum changed ≢ sum
      → on_data c next sum (read_full size (changed ++ rest)) ≡ ([], checksum_mismatch)
  corrupt_data next size sum changed rest l d =
      rw (← l, read_full-append changed rest) (mismatch sum changed (next rest) d)

  -- Fewer than eight bytes are no header, and the loop ends without error.
  short_header : (fuel : ℕ) (r : Bytes) → length r < 8 → read_records c (suc fuel) r ≡ ([], done)
  unfolding read_records read_full
  short_header fuel r h = ground arith

  -- The loop behind a header.
  behind_header :
      (fuel : ℕ) (payload rest : Bytes)
      → length payload + 4 < 2 ^ 32
      → c.checksum payload < 2 ^ 32
      → read_records c (suc fuel) (header (length payload) (c.checksum payload) ++ rest)
        ≡ on_data c (read_records c fuel) (c.checksum payload) (read_full (length payload) rest)
  unfolding read_records
  behind_header fuel payload rest h k =
      rw (header-read ((4 + length payload) % 2 ^ 32) (c.checksum payload) rest)
        (on_header-frame c (read_records c fuel) payload rest h k)

  torn_record :
      (fuel n : ℕ) (e : Entry) (payload : Bytes)
      → Survives c e payload
      → n < 8 + length payload
      → n ≢ 8
      → read_records c (suc fuel) (take n (frame c payload)) ≡ ([], done)
  unfolding frame
  torn_record fuel n e payload s h k = elim (Bool-cases (ltb n 8)) [
    | inl front ↦
        short_header fuel (take n (frame c payload))
          (omega (arith, length-take n (frame c payload), ltb→lt n 8 front))
    | inr back ↦ rw (take-append n (header (length payload) (c.checksum payload)) payload) (
        rw (length-header (length payload) (c.checksum payload), back)
          (behind_header fuel payload (take (n - 8) payload) s.fits s.sum_fits
            ∙ rw (
                read_short (length payload) (take (n - 8) payload)
                  (ground (arith, length-take (n - 8) payload))
                  (ground (arith, length-take (n - 8) payload)))))
  ]

  -- A file whose last record was cut, at any place but right behind its header, is recovered
  -- without error: all entries in front of the cut record are delivered.
  pub recover-torn :
      (es : List Entry) (e : Entry) (payload : Bytes) (n : ℕ)
      → AllSurvive c es
      → Survives c e payload
      → n < 8 + length payload
      → n ≢ 8
      → recover_shard c (some (records c es ++ take n (frame c payload))) ≡ (es, done)
  recover-torn es e payload n a s h k =
      let (fuel, whole, _) = recover-records c es (take n (frame c payload)) a in
      whole
      ∙ ap (called es) (torn_record fuel n e payload s h k)
      ∙ ap (λ t. (t, done)) (append-nil es)

  -- A cut right behind the header of a record with data makes the recovery of the file fail with
  -- io.EOF, after it delivered the entries in front.
  pub recover-cut_header :
      (es : List Entry) (e : Entry) (payload : Bytes)
      → AllSurvive c es
      → Survives c e payload
      → payload ≢ []
      → recover_shard c (some (records c es ++ take 8 (frame c payload))) ≡ (es, end_of_file)
  unfolding frame
  recover-cut_header es e payload a s n =
      let (fuel, whole, _) = recover-records c es (take 8 (frame c payload)) a in
      whole ∙ ap (called es) (cut fuel) ∙ ap (λ t. (t, end_of_file)) (append-nil es)
    where
      cut : (fuel : ℕ) → read_records c (suc fuel) (take 8 (frame c payload)) ≡ ([], end_of_file)
      cut fuel = rw (take-append 8 (header (length payload) (c.checksum payload)) payload) (
          rw (length-header (length payload) (c.checksum payload))
            (behind_header fuel payload [] s.fits s.sum_fits ∙ rw (read_empty payload n)))

  -- Data that does not have the checksum of its record's header stops the recovery with an error;
  -- the entries in front have been delivered, and nothing behind is.
  pub recover-corrupt :
      (es : List Entry) (payload changed rest : Bytes)
      → AllSurvive c es
      → length payload + 4 < 2 ^ 32
      → c.checksum payload < 2 ^ 32
      → length changed ≡ length payload
      → c.checksum changed ≢ c.checksum payload
      → recover_shard c (
          some
            (records c es ++ (header (length payload) (c.checksum payload) ++ (changed ++ rest))))
        ≡ (es, checksum_mismatch)
  recover-corrupt es payload changed rest a h k l d =
      let tail = header (length payload) (c.checksum payload) ++ (changed ++ rest) in
      let (fuel, whole, _) = recover-records c es tail a in
      whole
      ∙ ap (called es) (
          behind_header fuel payload (changed ++ rest) h k
          ∙ corrupt_data (read_records c fuel) (length payload) (c.checksum payload) changed rest l
              d)
      ∙ ap (λ t. (t, checksum_mismatch)) (append-nil es)
