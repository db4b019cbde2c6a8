-- ===== src/Wal/Recover/Crash.antt =====
-- What recovery in internal/wal/wal.go finds when the program has crashed: a shard's file up to
-- some byte at or behind what was synced, and what becomes of the entries that are logged later.
use fleare.Prelude.{
  ℕ, zero, suc, ◌+◌, ◌-◌, ◌^◌, ◌≤◌, ◌<◌, ◌≡◌, ◌≢◌, refl, sym, ap, ◌∙◌, ◌⊎◌, inl, inr, Bool-cases,
  false, take_all, take-append-drop, some, List, [], ◌∷◌, ◌++◌, length, take, drop, length-append,
  length-take, arith, ltb, ltb→lt, ◌==◌,
}
use mathlib.Core.List.{append_assoc, append-nil}
use fleare.Prelude.Bytes.{Bytes}
use fleare.Wal.{Entry, Codec, Options, Event, new_wal_shard, run, close, frame}
use fleare.Wal.Run.{records, sent, run-content, close-run, records-append, length-frame}
use fleare.Wal.Recover.{
  Status, done, end_of_file, checksum_mismatch, read_full, read_records, recover_shard,
}
use fleare.Wal.Recover.Frame.{Survives}
use fleare.Wal.Recover.RoundTrip.{AllSurvive, recover-records}
use fleare.Wal.Recover.Torn.{
  header, length-header, recover-torn, recover-cut_header, recover-corrupt, take-append,
}

-- How the part of a file behind its last nothing record looks.
data Tail (c : Codec) (t : Bytes) : Type 0 where
  nothing : t ≡ [] → Tail c t
  torn :
      (e : Entry) (payload : Bytes) (n : ℕ)
      → Survives c e payload
      → n < 8 + length payload
      → t ≡ take n (frame c payload)
      → Tail c t

-- Where a cut divides the records of a list of entries.
record Cut (c : Codec) (es : List Entry) (m : ℕ) : Type 0 where
  pub front : List Entry
  pub lost : List Entry
  pub parts : front ++ lost ≡ es
  pub survive : AllSurvive c front
  pub tail : Bytes
  pub tail_form : Tail c tail
  pub bytes : take m (records c es) ≡ records c front ++ tail

take-nil : (m : ℕ) → take {A = ℕ} m [] ≡ []
take-nil zero = refl
take-nil (suc m) = refl

take-front : (m : ℕ) (xs ys : Bytes) → m ≤ length xs → take m (xs ++ ys) ≡ take m xs
take-front m xs ys h = elim (Bool-cases (ltb m (length xs))) [
  | inl inside ↦ take-append m xs ys ∙ rw inside
  | inr outside ↦
      let all : m ≡ length xs = ground arith in
      take-append m xs ys
      ∙ rw outside (rw all (ground (arith, append-nil xs, take_all (length xs) xs)))
]

regroup :
    (es h t new : Bytes) (k : ℕ)
    → (es ++ (h ++ t)) ++ new ≡ es ++ (h ++ ((t ++ take k new) ++ drop k new))
regroup es h t new k = simp (append_assoc, take-append-drop k new)

some_data : (payload : Bytes) (n : ℕ) → n < 8 + length payload → n ≡ 8 → payload ≢ []
some_data payload n h e q = omega (arith, ap length q)

module _ (c : Codec) where
  torn_at :
      (n : ℕ) (payload : Bytes)
      → take (8 + n) (frame c payload)
        ≡ header (length payload) (c.checksum payload) ++ take n payload
  unfolding frame
  torn_at n payload =
      let past : ltb (8 + n) 8 ≡ false = ground arith in
      let less : 8 + n - 8 ≡ n = omega arith in
      take-append (8 + n) (header (length payload) (c.checksum payload)) payload
      ∙ rw (length-header (length payload) (c.checksum payload), past) (rw less)

  AllSurvive-append :
      (es ds : List Entry) → AllSurvive c es → AllSurvive c ds → AllSurvive c (es ++ ds)
  AllSurvive-append [] ds a b = b
  AllSurvive-append (e ∷ es) ds (s, a) b = (s, AllSurvive-append es ds a b)

  AllSurvive-front : (es ds : List Entry) → AllSurvive c (es ++ ds) → AllSurvive c es
  AllSurvive-front [] ds a = tt
  AllSurvive-front (e ∷ es) ds (s, a) = (s, AllSurvive-front es ds a)

  AllSurvive-back : (es ds : List Entry) → AllSurvive c (es ++ ds) → AllSurvive c ds
  AllSurvive-back [] ds a = a
  AllSurvive-back (e ∷ es) ds (s, a) = AllSurvive-back es ds a

  -- Every cut of the records of entries that survive their encoding keeps nothing records, and a part
  -- of one more.
  cut : (es : List Entry) (m : ℕ) → AllSurvive c es → Cut c es m
  cut [] m a = record {
    front = [];
    lost = [];
    parts = refl;
    survive = tt;
    tail = [];
    tail_form = nothing refl;
    bytes = take-nil m;
  }
  cut (e ∷ es) m ((payload, s), a) =
      let rest = cut es (m - length (frame c payload)) a in
      elim (Bool-cases (ltb m (length (frame c payload)))) [
        | inl front ↦ record {
          front = [];
          lost = e ∷ es;
          parts = refl;
          survive = tt;
          tail = take m (frame c payload);
          tail_form =
              torn e payload m s
                (omega (arith, ltb→lt m (length (frame c payload)) front, length-frame c payload))
                refl;
          bytes = rw s.written (take-append m (frame c payload) (records c es) ∙ rw front);
        }
        | inr back ↦ record {
          front = e ∷ rest.front;
          lost = rest.lost;
          parts = ap (λ t. e ∷ t) rest.parts;
          survive = ((payload, s), rest.survive);
          tail = rest.tail;
          tail_form = rest.tail_form;
          bytes = rw s.written (
              take-append m (frame c payload) (records c es)
              ∙ rw back (
                  ap (λ t. frame c payload ++ t) rest.bytes
                  ∙ sym (append_assoc (frame c payload) (records c rest.front) rest.tail)));
        }
      ]

  recover-whole :
      (es : List Entry) → AllSurvive c es → recover_shard c (some (records c es ++ [])) ≡ (es, done)
  unfolding read_records read_full
  recover-whole es a =
      let (fuel, read, _) = recover-records c es [] a in read ∙ ap (λ t. (t, done)) (append-nil es)

  -- Recovery of nothing records and such a tail.
  recover-Tail :
      (es : List Entry) (t : Bytes)
      → AllSurvive c es
      → Tail c t
      → (status : Status) × (recover_shard c (some (records c es ++ t)) ≡ (es, status))
        × ((status ≡ done) ⊎ (status ≡ end_of_file))
  recover-Tail es t a (nothing e) = (done, rw e (recover-whole es a), inl refl)
  recover-Tail es t a (torn e payload n s h p) = elim (Bool-cases (n == 8)) [
    | inl at ↦
        let eight : n ≡ 8 = ground arith in
        (
          end_of_file,
          rw (p, eight)
              (recover-cut_header c es e payload a s (λ q. some_data payload n h eight q)),
          inr refl,
        )
    | inr off ↦ (done, rw p (recover-torn c es e payload n a s h (ground arith)), inl refl)
  ]

  -- Recovery of a part of the file of nothing records that reaches behind some of them.
  recover-cut :
      (early late : List Entry) (m : ℕ)
      → AllSurvive c (early ++ late)
      → length (records c early) ≤ m
      → (kept : List Entry) × (lost : List Entry) × (status : Status) × (recover_shard c
            (some (take m (records c (early ++ late))))
          ≡ (early ++ kept, status))
        × (kept ++ lost ≡ late)
        × ((status ≡ done) ⊎ (status ≡ end_of_file))
  recover-cut early late m a h =
      let behind : ltb m (length (records c early)) ≡ false = ground arith in
      let d = cut late (m - length (records c early)) (AllSurvive-back early late a) in
      let front = AllSurvive-append early d.front (AllSurvive-front early late a) d.survive in
      let (status, e, ends) = recover-Tail (early ++ d.front) d.tail front d.tail_form in
      (
        d.front,
        d.lost,
        status,
        ap (λ f. recover_shard c (some f))
              (rw (records-append c early late, records-append c early d.front)
                (take-append m (records c early) (records c late)
                  ∙ rw behind (
                      ap (λ b. records c early ++ b) d.bytes
                      ∙ sym (append_assoc (records c early) (records c d.front) d.tail))))
            ∙ e,
        d.parts,
        ends,
      )

  -- If all entries sent survive their encoding, the file after any sends and rounds holds the
  -- records of some entries sent among what was synced, and a crash cuts it at or behind what was
  -- synced, then recovery delivers those entries and a further part of the entries sent, in the
  -- order of the sends and with no gap, and ends without error or with io.EOF.
  pub recover-crash :
      (o : Options) (evs : List Event) (early late : List Entry) (m : ℕ)
      → AllSurvive c (sent evs)
      → early ++ late ≡ sent evs
      → length (records c early) ≤ (run c o (new_wal_shard []) evs).synced
      → (run c o (new_wal_shard []) evs).synced ≤ m
      → m ≤ length (run c o (new_wal_shard []) evs).file
      → (kept : List Entry) × (lost : List Entry) × (status : Status) × (recover_shard c
            (some (take m (run c o (new_wal_shard []) evs).file))
          ≡ (early ++ kept, status))
        × (kept ++ lost ≡ late)
        × ((status ≡ done) ⊎ (status ≡ end_of_file))
  recover-crash o evs early late m a p h k l =
      let s = run c o (new_wal_shard []) evs in
      let (held, _) = run-content c o (new_wal_shard []) evs refl in
      let (kept, lost, status, e, parts, ends) = recover-cut early late m (rw p a) (omega arith) in
      (
        kept,
        lost,
        status,
        ap (λ f. recover_shard c (some f))
              (sym (take-front m s.file (s.batch_buf ++ records c s.queue) l)
                ∙ ap (take m) (
                    sym (append_assoc s.file s.batch_buf (records c s.queue))
                    ∙ held
                    ∙ ap (records c) (sym p)))
            ∙ e,
        parts,
        ends,
      )

  -- A file that was cut inside the data of a record and is then opened again, written to and closed:
  -- if the bytes that complete the cut record have another checksum, the recovery of that file
  -- delivers none of the entries that were logged after the cut, and fails with a wrong checksum.
  pub recover-reopened :
      (o : Options) (evs : List Event) (es : List Entry) (payload : Bytes) (n : ℕ)
      → AllSurvive c es
      → length payload + 4 < 2 ^ 32
      → c.checksum payload < 2 ^ 32
      → n < length payload
      → length payload ≤ n + length (records c (sent evs))
      → c.checksum (take n payload ++ take (length payload - n) (records c (sent evs)))
        ≢ c.checksum payload
      → recover_shard c (
          some
            (close c o
              (run c o (new_wal_shard (records c es ++ take (8 + n) (frame c payload))) evs)).file)
        ≡ (es, checksum_mismatch)
  unfolding frame
  recover-reopened o evs es payload n a h k l fill d =
      let new = records c (sent evs) in
      let gap = length payload - n in
      let changed = take n payload ++ take gap new in
      ap (λ f. recover_shard c (some f))
        (close-run c o (records c es ++ take (8 + n) (frame c payload)) evs
          ∙ ap (λ t. (records c es ++ t) ++ new) (torn_at n payload)
          ∙ regroup (records c es) (header (length payload) (c.checksum payload)) (take n payload)
              new gap)
      ∙ recover-corrupt c es payload changed (drop gap new) a h k
          (ground (
            arith,
            length-append (take n payload) (take gap new),
            length-take n payload,
            length-take gap new,
          ))
          d
