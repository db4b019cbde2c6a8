-- ===== src/Wal/Run.antt =====
-- What the goroutine of a shard in internal/wal/wal.go writes to its file.
use fleare.Prelude.{
  ℕ, zero, suc, ◌+◌, ◌-◌, ◌≤◌, ◌≡◌, refl, sym, ap, ◌∙◌, Bool, true, false, ◌||◌, Option, none, some,
  List, [], ◌∷◌, ◌++◌, length, length-append, ltb, leb, Bool-cases, inl, inr, ◌==◌, arith,
}
use mathlib.Core.List.{append-nil, append_assoc}
use fleare.Prelude.Bytes.{Bytes}
use fleare.Wal.{
  Entry, Codec, Options, WalShard, Event, send, turn, new_wal_shard, frame, put_uint32,
  append_frame, encode_append, flush, drain, receive, round, step, run, close_rounds, close,
}

abbrev pub framed : Codec → Option Bytes → Bytes
framed c none = []
framed c (some payload) = frame c payload

-- The records of a list of entries, in order.
abbrev pub records : Codec → List Entry → Bytes
records c [] = []
records c (e ∷ es) = framed c (c.marshal e) ++ records c es

abbrev pub sent : List Event → List Entry
sent [] = []
sent (send e ∷ evs) = e ∷ sent evs
sent (turn late ∷ evs) = sent evs

-- What the file will hold once everything is flushed.
abbrev pub content : Codec → WalShard → Bytes
content c s = (s.file ++ s.batch_buf) ++ records c s.queue

-- `batchBytes` counts the bytes of the batch.
abbrev pub Counts : WalShard → Type 0
Counts s = s.batch_bytes ≡ length s.batch_buf

nil_of_length : {A : Type 0} (xs : List A) → length xs ≡ 0 → xs ≡ []
nil_of_length [] e = refl
nil_of_length (x ∷ xs) e = absurd (omega arith)

module _ (c : Codec) where
  no_queue : (s : WalShard) → length s.queue ≡ 0 → s.file ++ s.batch_buf ≡ content c s
  no_queue s e = rw (nil_of_length s.queue e) (sym (append-nil (s.file ++ s.batch_buf)))

  pub records-append : (es ds : List Entry) → records c (es ++ ds) ≡ records c es ++ records c ds
  records-append [] ds = refl
  records-append (e ∷ es) ds = simp (records-append es ds, append_assoc)

  pub length-frame : (payload : Bytes) → length (frame c payload) ≡ 8 + length payload
  unfolding frame put_uint32
  length-frame payload = omega arith

  append-content :
      (p : Option Bytes) (s : WalShard)
      → ((append_frame c p s).file ++ (append_frame c p s).batch_buf
          ≡ (s.file ++ s.batch_buf) ++ framed c p)
        × (Counts s → Counts (append_frame c p s))
        × ((append_frame c p s).queue ≡ s.queue)
  append-content none s = (sym (append-nil (s.file ++ s.batch_buf)), (λ k. k), refl)
  append-content (some payload) s = (
    sym (append_assoc s.file s.batch_buf (frame c payload)),
    (λ k. omega (arith, length-append s.batch_buf (frame c payload), length-frame payload)),
    refl,
  )

  encode-content :
      (e : Entry) (s : WalShard)
      → ((encode_append c e s).file ++ (encode_append c e s).batch_buf
          ≡ (s.file ++ s.batch_buf) ++ framed c (c.marshal e))
        × (Counts s → Counts (encode_append c e s))
        × ((encode_append c e s).queue ≡ s.queue)
  unfolding encode_append
  encode-content e s = append-content (c.marshal e) s

  pub flush-content :
      (o : Options) (force : Bool) (s : WalShard)
      → Counts s
      → ((flush o force s).file ≡ s.file ++ s.batch_buf)
        × ((flush o force s).batch_buf ≡ [])
        × ((flush o force s).queue ≡ s.queue)
        × Counts (flush o force s)
  unfolding flush
  flush-content o force s k = elim (Bool-cases (s.batch_bytes == 0)) [
    | inl e ↦
        let empty : s.batch_buf ≡ [] = nil_of_length s.batch_buf (ground arith) in
        rw e ((rw empty (sym (append-nil s.file))), empty, refl, k)
    | inr e ↦ rw e (refl, refl, refl, refl)
  ]

  drain-content :
      (o : Options) (es : List Entry) (s : WalShard)
      → Counts s
      → (content c (drain c o es s) ≡ (s.file ++ s.batch_buf) ++ records c es)
        × Counts (drain c o es s)
        × (length (drain c o es s).queue ≤ length es)
  unfolding drain
  drain-content o [] s k = (refl, k, omega arith)
  drain-content o (e ∷ es) s k =
      let (app, keep, same_queue) = encode-content e s in
      let (ih, ik, il) = drain-content o es (encode_append c e s) (keep k) in
      elim (Bool-cases (ltb s.batch_bytes o.batch_bytes)) [
        | inl go ↦ rw go (
          ih
              ∙ rw app
                  (append_assoc (s.file ++ s.batch_buf) (framed c (c.marshal e)) (records c es)),
          ik,
          omega arith,
        )
        | inr stop ↦ rw stop (refl, k, omega arith)
      ]

  receive-content :
      (es : List Entry) (s : WalShard)
      → Counts s
      → (content c (receive c es s) ≡ (s.file ++ s.batch_buf) ++ records c es)
        × Counts (receive c es s)
        × (length (receive c es s).queue ≤ length es - 1)
  unfolding receive
  receive-content [] s k = (refl, k, omega arith)
  receive-content (e ∷ es) s k =
      let (app, keep, same_queue) = encode-content e s in
      (
        rw app (append_assoc (s.file ++ s.batch_buf) (framed c (c.marshal e)) (records c es)),
        keep k,
        omega arith,
      )

  flushed-content :
      (o : Options) (force : Bool) (s : WalShard)
      → Counts s
      → content c (flush o force s) ≡ content c s
  flushed-content o force s k =
      let (f, b, q, _) = flush-content o force s k in
      rw (f, b, q) (rw (append-nil (s.file ++ s.batch_buf)))

  round-content :
      (o : Options) (late : Bool) (s : WalShard)
      → Counts s
      → (content c (round c o late s) ≡ content c s)
        × Counts (round c o late s)
        × (length (round c o late s).queue ≤ length s.queue - 1)
  unfolding round
  round-content o late s k =
      let s1 = receive c s.queue s in
      let s2 = drain c o s1.queue s1 in
      let (e1, k1, l1) = receive-content s.queue s k in
      let (e2, k2, l2) = drain-content o s1.queue s1 k1 in
      elim (Bool-cases (leb o.batch_bytes s2.batch_bytes || late)) [
        | inl yes_flush ↦ rw yes_flush (
          flushed-content o false s2 k2 ∙ e2 ∙ e1,
          (flush-content o false s2 k2).3,
          rw ((flush-content o false s2 k2).2) (omega arith),
        )
        | inr not_yet ↦ rw not_yet (e2 ∙ e1, k2, omega arith)
      ]

  step-content :
      (o : Options) (s : WalShard) (ev : Event)
      → Counts s
      → (content c (step c o s ev) ≡ content c s ++ records c (sent (ev ∷ [])))
        × Counts (step c o s ev)
  unfolding step
  step-content o s (send e) k = (
    ap (λ t. (s.file ++ s.batch_buf) ++ t) (records-append s.queue (e ∷ []))
        ∙ sym (append_assoc (s.file ++ s.batch_buf) (records c s.queue) (records c (e ∷ []))),
    k,
  )
  step-content o s (turn late) k =
      let (e, k', _) = round-content o late s k in (e ∙ sym (append-nil (content c s)), k')

  -- Whatever the order of sends and rounds, the file, the batch and the records of the queue
  -- together hold what they held at first and then the record of every entry sent, in order.
  pub run-content :
      (o : Options) (s : WalShard) (evs : List Event)
      → Counts s
      → (content c (run c o s evs) ≡ content c s ++ records c (sent evs)) × Counts (run c o s evs)
  unfolding run
  run-content o s [] k = (sym (append-nil (content c s)), k)
  run-content o s (send e ∷ evs) k =
      let (e1, k1) = step-content o s (send e) k in
      let (e2, k2) = run-content o (step c o s (send e)) evs k1 in
      (
        e2
            ∙ ap (λ t. t ++ records c (sent evs)) e1
            ∙ append_assoc (content c s) (records c (e ∷ [])) (records c (sent evs))
            ∙ ap (λ t. content c s ++ (t ++ records c (sent evs)))
                (append-nil (framed c (c.marshal e))),
        k2,
      )
  run-content o s (turn late ∷ evs) k =
      let (e1, k1) = step-content o s (turn late) k in
      let (e2, k2) = run-content o (step c o s (turn late)) evs k1 in
      (e2 ∙ ap (λ t. t ++ records c (sent evs)) (e1 ∙ append-nil (content c s)), k2)

  close_rounds-file :
      (o : Options) (fuel : ℕ) (s : WalShard)
      → Counts s
      → length s.queue ≤ fuel
      → (close_rounds c o fuel s).file ≡ content c s
  unfolding close_rounds
  close_rounds-file o zero s k h = (flush-content o true s k).0 ∙ no_queue s (omega arith)
  close_rounds-file o (suc fuel) s k h = elim (Bool-cases (length s.queue == 0)) [
    | inl e ↦ rw e ((flush-content o true s k).0 ∙ no_queue s (ground arith))
    | inr e ↦
        let (same_content, k', l) = round-content o false s k in
        rw e (close_rounds-file o fuel (round c o false s) k' (ground arith) ∙ same_content)
  ]

  -- After a shard of an old file has gone through any sends and rounds and is closed, its file is
  -- the old file and then the record of every entry sent, each once and in the order of the sends.
  pub close-run :
      (o : Options) (old : Bytes) (evs : List Event)
      → (close c o (run c o (new_wal_shard old) evs)).file ≡ old ++ records c (sent evs)
  unfolding close
  close-run o old evs =
      let s = new_wal_shard old in
      let (e, k) = run-content o s evs refl in
      close_rounds-file o (length (run c o s evs).queue) (run c o s evs) k (omega arith)
      ∙ e
      ∙ ap (λ t. t ++ records c (sent evs)) (append-nil (old ++ []) ∙ append-nil old)
