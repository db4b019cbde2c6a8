-- ===== src/Server/Framing/RoundTrip.antt =====
-- What a client sends and what the loop of server/eventloop/io_thread.go takes from it.
use fleare.Prelude.{
  ℕ, zero, suc, ◌%◌, ◌^◌, ◌||◌, ◌≤◌, ◌<◌, ◌≡◌, refl, sym, ◌∙◌, ap, List, [], ◌∷◌, ◌++◌, length,
  take, drop, length-append, take-length-append, drop-length-append, ltb, ◌==◌, ==_refl, All, false,
  arith,
}
use mathlib.Core.List.{append-nil}
use fleare.Prelude.Bytes.{Bytes}
use fleare.Wal.{put_uint32}
use fleare.Wal.Recover.Frame.{uint32-put_uint32}
use fleare.Server.Framing.{
  Chunk, bytes_of, Reader, reader_read, read_full_loop, request, end_of_stream, on_body,
  on_length_bytes, read_sync, on_received, start_sync, message, max_request_body_size,
}
use fleare.Server.Framing.Full.{Full, loop-Full}

-- Two lists with equal first parts.
pub append_split :
    {A : Type 0} (xs ys us vs : List A)
    → xs ++ ys ≡ us ++ vs
    → length xs ≡ length us
    → (xs ≡ us) × (ys ≡ vs)
append_split xs ys us vs e l = (
  sym (take-length-append xs ys)
      ∙ ap (λ n. take n (xs ++ ys)) l
      ∙ ap (take (length us)) e
      ∙ take-length-append us vs,
  sym (drop-length-append xs ys)
      ∙ ap (λ n. drop n (xs ++ ys)) l
      ∙ ap (drop (length us)) e
      ∙ drop-length-append us vs,
)

-- A request that ReadSync lets pass.
pub record Sendable (body : Bytes) : Type 0 where
  pub nonempty : 0 < length body
  pub at_most : length body ≤ max_request_body_size

pub in_range :
    (n : ℕ) → 0 < n → n ≤ max_request_body_size → ((n == 0) || ltb max_request_body_size n) ≡ false
in_range n h k = ground arith

pub no_chunks : (left : Bytes) (own : List Chunk) → length (left ++ bytes_of own) ≡ 0 → own ≡ []
no_chunks left [] e = refl
no_chunks left ((c, cs) ∷ own) e =
    absurd (omega (arith, e, length-append left ((c ∷ cs) ++ bytes_of own)))

read_body :
    (body left : Bytes) (own others : List Chunk)
    → left ++ bytes_of own ≡ body
    → on_body (length body) (
        read_full_loop
          (length body)
          (length body)
          (record { buffered = left; chunks = own ++ others }))
      ≡ (request body, others)
read_body body left own others e =
    let f =
      loop-Full (length body) (length body) left own others (omega arith)
        (omega (arith, ap length e)) in
    let rest = f.reads.left ++ bytes_of (f.reads.own) in
    let parts =
      append_split
        ((read_full_loop (length body) (length body)
          (record { buffered = left; chunks = own ++ others })).0)
        rest body [] (f.reads.in_order ∙ e ∙ sym (append-nil body)) (f.exact) in
    rw
      (
        parts.0,
        ==_refl (length body),
        f.reads.reader_is,
        no_chunks (f.reads.left) (f.reads.own) (ap length (parts.1)),
      )
      refl

-- Behind the length, which came with any bytes of the body.
on_length_bytes-message :
    (body : Bytes) (own others : List Chunk)
    → Sendable body
    → (r : Bytes × Reader) → Full 4 (message body) others r
    → on_length_bytes r ≡ (request body, others)
unfolding message put_uint32
on_length_bytes-message body own others s (bytes, r) f =
    let parts =
      append_split bytes (f.reads.left ++ bytes_of (f.reads.own))
        (put_uint32 (length body % 2 ^ 32)) body (f.reads.in_order) (f.exact) in
    rw
      (
        parts.0,
        uint32-put_uint32 (length body % 2 ^ 32) [] (omega arith),
        small,
        in_range (length body) s.nonempty s.at_most,
        f.reads.reader_is,
      )
      (read_body body (f.reads.left) (f.reads.own) others (parts.1))
  where
    small : length body % 2 ^ 32 ≡ length body
    small = omega (arith, s.at_most)

-- The bytes of one request arrive in chunks of their own.
pub read_sync-message :
    (body : Bytes) (own others : List Chunk)
    → Sendable body
    → bytes_of own ≡ message body
    → read_sync (own ++ others) ≡ (request body, others)
unfolding read_sync message put_uint32
read_sync-message body own others s e =
    on_length_bytes-message body own others s
      (read_full_loop 4 4 (record { buffered = []; chunks = own ++ others }))
      (rw (← e) (loop-Full 4 4 [] own others (omega arith) (rw e (omega arith))))

-- A request and the chunks that its bytes arrive in.
abbrev pub Arrival : Type 0
Arrival = Bytes × List Chunk

abbrev pub Arrives : Arrival → Type 0
Arrives (body, own) = Sendable body × (bytes_of own ≡ message body)

abbrev pub arriving : List Arrival → List Chunk
arriving [] = []
arriving ((body, own) ∷ more) = own ++ arriving more

abbrev pub bodies : List Arrival → List Bytes
bodies [] = []
bodies ((body, own) ∷ more) = body ∷ bodies more

at_end : read_sync [] ≡ (end_of_stream, [])
unfolding read_sync read_full_loop reader_read
at_end = refl

-- If requests of 1 byte to 10 MiB arrive, however their frames are cut into chunks, but with no
-- bytes of two requests in one chunk, then the loop of a connection hands over these requests, in
-- their order and nothing else, and then ends with io.EOF; fuel above their number is enough.
pub start_sync-arriving :
    (fuel : ℕ) (arrivals : List Arrival)
    → All Arrives arrivals
    → length arrivals < fuel
    → start_sync fuel (arriving arrivals) ≡ (bodies arrivals, end_of_stream)
unfolding start_sync
start_sync-arriving zero arrivals a h = absurd (omega arith)
start_sync-arriving (suc fuel) [] a h = ap (on_received (start_sync fuel)) at_end
start_sync-arriving (suc fuel) ((body, own) ∷ more) ((s, e), a) h =
    rw
      (
        read_sync-message body own (arriving more) s e,
        start_sync-arriving fuel more a (omega arith),
      )
      refl
