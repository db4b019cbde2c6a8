-- ===== src/Wal/Recover/RoundTrip.antt =====
-- Recovery of files that the writer of internal/wal/wal.go wrote.
use fleare.Prelude.{
  ℕ, suc, ◌+◌, ◌-◌, ◌≤◌, ◌≡◌, refl, sym, ap, ◌∙◌, some, List, [], ◌∷◌, ◌++◌, length, length-append,
  arith,
}
use mathlib.Core.List.{append_assoc, append-nil}
use fleare.Prelude.Bytes.{Bytes}
use fleare.Wal.{Entry, Codec, Options, Event, put_uint32, frame, new_wal_shard, run, close}
use fleare.Wal.Run.{records, sent, close-run}
use fleare.Wal.Recover.{Status, done, called, read_full, read_records, recover_shard}
use fleare.Wal.Recover.Frame.{Survives, read_record}

-- Every entry of the list survives its encoding.
abbrev pub AllSurvive : Codec → List Entry → Type 0
AllSurvive c [] = Unit
AllSurvive c (e ∷ es) = ((payload : Bytes) × Survives c e payload) × AllSurvive c es

called-called :
    (es ds : List Entry) (r : List Entry × Status) → called es (called ds r) ≡ called (es ++ ds) r
called-called es ds (more, end) = ap (λ t. (t, end)) (sym (append_assoc es ds more))

module _ (c : Codec) where
  -- The loop reads the records of entries that survive, and goes on with what follows them.
  pub read_records-records :
      (es : List Entry) (fuel : ℕ) (tail : Bytes)
      → AllSurvive c es
      → read_records c (length es + fuel) (records c es ++ tail)
        ≡ called es (read_records c fuel tail)
  read_records-records [] fuel tail a =
      let (more, end) = read_records c fuel tail in
      ap (λ n. read_records c n tail) (omega arith) ∙ refl
  read_records-records (e ∷ es) fuel tail ((payload, s), a) =
      ap (λ n. read_records c n (records c (e ∷ es) ++ tail)) more_fuel
      ∙ rw (s.written, append_assoc (frame c payload) (records c es) tail)
          (read_record c e payload (length es + fuel) (records c es ++ tail) s
            ∙ ap (called (e ∷ [])) (read_records-records es fuel tail a)
            ∙ called-called (e ∷ []) es (read_records c fuel tail))
    where
      more_fuel : length (e ∷ es) + fuel ≡ suc (length es + fuel)
      more_fuel = omega arith

  length-records : (es : List Entry) → AllSurvive c es → length es ≤ length (records c es)
  unfolding frame put_uint32
  length-records [] a = omega arith
  length-records (e ∷ es) ((payload, s), a) =
      rw s.written
        (omega (arith, length-records es a, length-append (frame c payload) (records c es)))

  -- Enough fuel is given: a whole file of such records and a tail goes on to the tail.
  pub recover-records :
      (es : List Entry) (tail : Bytes)
      → AllSurvive c es
      → (fuel : ℕ) × (recover_shard c (some (records c es ++ tail))
          ≡ called es (read_records c (suc fuel) tail))
        × (length tail ≤ fuel)
  unfolding recover_shard
  recover-records es tail a =
      let bound = length-records es a in
      let fuel = length (records c es ++ tail) - length es in
      (
        fuel,
        ap (λ n. read_records c n (records c es ++ tail))
              (omega (arith, length-append (records c es) tail))
            ∙ read_records-records es (suc fuel) tail a,
        omega (arith, length-append (records c es) tail),
      )

  -- If all the entries sent survive their encoding, then after any sends and rounds and a close,
  -- recovering the shard's file delivers exactly the entries sent, in order, and ends without error.
  pub recover-close :
      (o : Options) (evs : List Event)
      → AllSurvive c (sent evs)
      → recover_shard c (some (close c o (run c o (new_wal_shard []) evs)).file) ≡ (sent evs, done)
  unfolding read_records read_full
  recover-close o evs a =
      let (fuel, whole, _) = recover-records (sent evs) [] a in
      ap (λ f. recover_shard c (some f))
        (close-run c o [] evs ∙ sym (append-nil (records c (sent evs))))
      ∙ whole
      ∙ ap (λ t. (t, done)) (append-nil (sent evs))
