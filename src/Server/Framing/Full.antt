-- ===== src/Server/Framing/Full.antt =====
-- io.ReadFull over the bufio.Reader of server/eventloop/netcon.go: enough bytes give enough bytes.
use fleare.Prelude.{
  ℕ, zero, suc, ◌-◌, ◌≤◌, ◌<◌, ◌≡◌, refl, ◌∙◌, ap, List, [], ◌∷◌, ◌++◌, length, take, length-append,
  length-take, leb, ◌==◌, Bool-cases, false, inl, inr, arith,
}
use mathlib.Core.List.{append_assoc}
use fleare.Prelude.Bytes.{Bytes}
use fleare.Server.Framing.{
  Chunk, bytes_of, conn_read, Reader, reader_read, read_full_loop, onto_read, io_buffer_size,
}
use fleare.Server.Framing.Read.{Reads, conn_read-Reads, fill-Reads, buffer-Reads}

-- A read that takes a byte at least and no more than `n`.
record Step (n : ℕ) (total : Bytes) (others : List Chunk) (r : Bytes × Reader) : Type 0 where
  pub reads : Reads total others r
  pub some_bytes : 0 < length (r.0)
  pub at_most : length (r.0) ≤ n

chunk-Step :
    (n : ℕ) (c : ℕ) (cs : Bytes) (own others : List Chunk)
    → 0 < n
    → Step n (bytes_of ((c, cs) ∷ own)) others (reader_read n [] (((c, cs) ∷ own) ++ others))
unfolding reader_read conn_read
chunk-Step n c cs own others h = elim (Bool-cases (leb io_buffer_size n)) [
  | inl e ↦ rw e (record {
    reads = conn_read-Reads n c cs own others;
    some_bytes = rw (length-take n (c ∷ cs)) (omega arith);
    at_most = rw (length-take n (c ∷ cs)) (omega arith);
  })
  | inr e ↦ rw e (record {
    reads = fill-Reads n io_buffer_size c cs own others;
    some_bytes =
        rw (length-take n (take io_buffer_size (c ∷ cs)), length-take io_buffer_size (c ∷ cs))
          (omega arith);
    at_most = rw (length-take n (take io_buffer_size (c ∷ cs))) (omega arith);
  })
]

read-Step :
    (n : ℕ) (buffered : Bytes) (own others : List Chunk)
    → 0 < n
    → 0 < length (buffered ++ bytes_of own)
    → Step n (buffered ++ bytes_of own) others (reader_read n buffered (own ++ others))
unfolding reader_read
read-Step n [] [] others h k = absurd (omega arith)
read-Step n [] ((c, cs) ∷ own) others h k = chunk-Step n c cs own others h
read-Step n (b ∷ bs) own others h k = record {
  reads = buffer-Reads n b bs own others;
  some_bytes = rw (length-take n (b ∷ bs)) (omega arith);
  at_most = rw (length-take n (b ∷ bs)) (omega arith);
}

-- What is read in full.
pub record Full (n : ℕ) (total : Bytes) (others : List Chunk) (r : Bytes × Reader) : Type 0 where
  pub reads : Reads total others r
  pub exact : length (r.0) ≡ n

pub nonzero : (n : ℕ) → 0 < n → (n == 0) ≡ false
nonzero n h = ground arith

onto-Full :
    (fuel n : ℕ) (total : Bytes) (others : List Chunk) (bytes : Bytes) (r : Reader)
    → (s : Step n total others (bytes, r))
    → Full (n - length bytes) (s.reads.left ++ bytes_of (s.reads.own)) others (
        read_full_loop fuel
          (n - length bytes)
          (record { buffered = s.reads.left; chunks = s.reads.own ++ others }))
    → Full n total others (onto_read bytes (read_full_loop fuel (n - length bytes) r))
onto-Full fuel n total others bytes r s f = rw s.reads.reader_is (record {
  reads = record {
    left = f.reads.left;
    own = f.reads.own;
    reader_is = f.reads.reader_is;
    in_order =
        append_assoc bytes
          ((read_full_loop fuel (n - length bytes)
            (record { buffered = s.reads.left; chunks = s.reads.own ++ others })).0)
          (f.reads.left ++ bytes_of (f.reads.own))
        ∙ ap (λ (t : Bytes). bytes ++ t) (f.reads.in_order)
        ∙ s.reads.in_order;
  };
  exact = omega (
    arith,
    length-append bytes (
        (read_full_loop fuel (n - length bytes)
          (record { buffered = s.reads.left; chunks = s.reads.own ++ others })).0),
    f.exact,
    s.at_most,
  );
})

pub loop-Full :
    (fuel n : ℕ) (buffered : Bytes) (own others : List Chunk)
    → n ≤ fuel
    → n ≤ length (buffered ++ bytes_of own)
    → Full n
        (buffered ++ bytes_of own)
        others
        (read_full_loop fuel n (record { buffered = buffered; chunks = own ++ others }))
unfolding read_full_loop
loop-Full zero n buffered own others h k = record {
  reads = record { left = buffered; own = own; reader_is = refl; in_order = refl };
  exact = omega arith;
}
loop-Full (suc fuel) zero buffered own others h k = record {
  reads = record { left = buffered; own = own; reader_is = refl; in_order = refl };
  exact = refl;
}
loop-Full (suc fuel) (suc n) buffered own others h k =
    let s = read-Step (suc n) buffered own others (omega arith) (omega arith) in
    rw
      (
        nonzero (suc n) (omega arith),
        nonzero (length ((reader_read (suc n) buffered (own ++ others)).0)) (s.some_bytes),
      )
      (onto-Full fuel (suc n) (buffered ++ bytes_of own) others
        ((reader_read (suc n) buffered (own ++ others)).0)
        ((reader_read (suc n) buffered (own ++ others)).1) s
        (loop-Full fuel (suc n - length ((reader_read (suc n) buffered (own ++ others)).0))
          (s.reads.left) (s.reads.own) others (omega (arith, s.some_bytes))
          (omega (
            arith,
            k,
            s.at_most,
            ap length (s.reads.in_order),
            length-append ((reader_read (suc n) buffered (own ++ others)).0)
                (s.reads.left ++ bytes_of (s.reads.own)),
          ))))
