-- ===== src/Server/Framing/Pipelined.antt =====
-- Requests that a client sends without waiting, in server/eventloop/netcon.go.
use fleare.Prelude.{
  ℕ, zero, suc, ◌-◌, ◌%◌, ◌^◌, ◌≤◌, ◌<◌, ◌≡◌, refl, ap, List, [], ◌∷◌, ◌++◌, length, take, drop,
  length-take, take-length-append, drop-length-append, take_all, drop_all, ==_refl, arith,
}
use mathlib.Core.List.{append-nil}
use fleare.Prelude.Bytes.{Bytes}
use fleare.Wal.{put_uint32}
use fleare.Wal.Recover.Frame.{uint32-put_uint32}
use fleare.Server.Framing.{
  Chunk, conn_read, Reader, fill, reader_read, read_full_loop, request, read_sync, message,
  io_buffer_size,
}
use fleare.Server.Framing.Full.{nonzero}
use fleare.Server.Framing.RoundTrip.{Sendable, in_range}

no_more : (fuel : ℕ) (r : Reader) → read_full_loop fuel 0 r ≡ ([], r)
unfolding read_full_loop
no_more zero r = refl
no_more (suc fuel) r = refl

-- One `Read` that gives everything is enough.
read_once :
    (n : ℕ) (r : Reader) (bytes : Bytes) (r' : Reader)
    → 0 < n
    → reader_read n r.buffered r.chunks ≡ (bytes, r')
    → length bytes ≡ n
    → read_full_loop n n r ≡ (bytes, r')
unfolding read_full_loop
read_once zero r bytes r' h e l = absurd (omega arith)
read_once (suc n) r bytes r' h e l =
    rw (e, l, nonzero (suc n) (omega arith), cancel, no_more n r', append-nil bytes) refl
  where
    cancel : suc n - suc n ≡ 0
    cancel = omega arith

-- What the buffer holds is taken from it.
read_buffered :
    (body extra : Bytes) (chunks : List Chunk)
    → 0 < length body
    → read_full_loop
        (length body)
        (length body)
        (record { buffered = body ++ extra; chunks = chunks })
      ≡ (body, record { buffered = extra; chunks = chunks })
unfolding reader_read
read_buffered [] extra chunks h = absurd (omega arith)
read_buffered (b ∷ bs) extra chunks h =
    read_once (length (b ∷ bs)) (record { buffered = (b ∷ bs) ++ extra; chunks = chunks }) (b ∷ bs)
      (record { buffered = extra; chunks = chunks }) h taken refl
  where
    taken :
        reader_read (length (b ∷ bs)) ((b ∷ bs) ++ extra) chunks
        ≡ (b ∷ bs, record { buffered = extra; chunks = chunks })
    taken = rw (take-length-append bs extra, drop-length-append bs extra) refl

-- The length comes with the whole chunk, which is then in the buffer.
fill_whole :
    (n k : ℕ) (c : ℕ) (cs : Bytes) (others : List Chunk)
    → length (c ∷ cs) ≤ k
    → fill n (conn_read k ((c, cs) ∷ others))
      ≡ (take n (c ∷ cs), record { buffered = drop n (c ∷ cs); chunks = others })
unfolding conn_read
fill_whole n k c cs others h = rw (take_all k (c ∷ cs) h, drop_all k (c ∷ cs) h) refl

read_length :
    (c : ℕ) (cs : Bytes) (others : List Chunk)
    → 4 ≤ length (c ∷ cs)
    → length (c ∷ cs) ≤ io_buffer_size
    → read_full_loop 4 4 (record { buffered = []; chunks = (c, cs) ∷ others })
      ≡ (take 4 (c ∷ cs), record { buffered = drop 4 (c ∷ cs); chunks = others })
unfolding reader_read
read_length c cs others h k =
    read_once 4 (record { buffered = []; chunks = (c, cs) ∷ others }) (take 4 (c ∷ cs))
      (record { buffered = drop 4 (c ∷ cs); chunks = others }) (omega arith)
      (fill_whole 4 io_buffer_size c cs others k) (rw (length-take 4 (c ∷ cs)) (omega (arith, h)))

-- If the bytes that arrive in one chunk of at most 1 MiB begin with the frame of a request of 1
-- byte to 10 MiB, then ReadSync returns this request, and the rest of the chunk is lost, also if it
-- holds further requests: the next call sees only the chunks behind it.
pub read_sync-pipelined :
    (body extra : Bytes) (c : ℕ) (cs : Bytes) (others : List Chunk)
    → Sendable body
    → c ∷ cs ≡ message body ++ extra
    → length (c ∷ cs) ≤ io_buffer_size
    → read_sync ((c, cs) ∷ others) ≡ (request body, others)
unfolding read_sync message put_uint32
read_sync-pipelined body extra c cs others s e h =
    rw
      (
        read_length c cs others (omega (arith, ap length e)) h,
        ap (λ (t : Bytes). length (take 4 t)) e,
        ap (take 4) e,
        ap (drop 4) e,
        uint32-put_uint32 (length body % 2 ^ 32) [] (omega arith),
        small,
        in_range (length body) s.nonempty s.at_most,
        read_buffered body extra others s.nonempty,
        ==_refl (length body),
      )
      refl
  where
    small : length body % 2 ^ 32 ≡ length body
    small = omega (arith, s.at_most)
