-- ===== src/Server/Framing.antt =====
-- server/eventloop/netcon.go and io_thread.go: requests and responses on a connection. What the
-- peer sent arrives in chunks of at least one byte, and a `Read` of the connection returns bytes of
-- the first chunk; at the end of the stream it returns io.EOF.
pub mod Read
pub mod Full
pub mod Pipelined
pub mod RoundTrip
use fleare.Prelude.{
  ℕ, zero, suc, ◌+◌, ◌-◌, ◌%◌, ◌^◌, Bool, ◌||◌, Option, none, some, List, [], ◌∷◌, ◌++◌, length,
  take, drop, leb, ltb, ◌==◌, if◌then◌else◌,
}
use fleare.Prelude.Bytes.{Bytes}
use fleare.Wal.{put_uint32, uint32}

abbrev pub max_request_body_size : ℕ
max_request_body_size = 10485760

abbrev pub io_buffer_size : ℕ
io_buffer_size = 1048576

-- A chunk's first byte and its other bytes.
abbrev pub Chunk : Type 0
Chunk = ℕ × Bytes

abbrev pub bytes_of : List Chunk → Bytes
bytes_of [] = []
bytes_of ((c, cs) ∷ chunks) = (c ∷ cs) ++ bytes_of chunks

-- What a read leaves of a chunk.
abbrev pub push : Bytes → List Chunk → List Chunk
push [] chunks = chunks
push (c ∷ cs) chunks = (c, cs) ∷ chunks

-- conn.Read into a buffer of `n` bytes; no bytes mean io.EOF.
unfoldable pub conn_read : ℕ → List Chunk → Bytes × List Chunk
conn_read n [] = ([], [])
conn_read n ((c, cs) ∷ chunks) = (take n (c ∷ cs), push (drop n (c ∷ cs)) chunks)

-- bufio.Reader
pub record Reader : Type 0 where
  pub buffered : Bytes
  pub chunks : List Chunk

-- `Read` of the bufio.Reader into `n` bytes, which reads from the connection only if its buffer is
-- empty, and past its buffer if `n` is not below the buffer's size.
abbrev pub fill : ℕ → Bytes × List Chunk → Bytes × Reader
fill n (bytes, chunks) = (take n bytes, record { buffered = drop n bytes; chunks = chunks })

abbrev pub pass_by : Bytes × List Chunk → Bytes × Reader
pass_by (bytes, chunks) = (bytes, record { buffered = []; chunks = chunks })

abbrev pub read_chunks : ℕ → List Chunk → Bytes × Reader
read_chunks n chunks =
    if leb io_buffer_size n
    then pass_by (conn_read n chunks)
    else fill n (conn_read io_buffer_size chunks)

unfoldable pub reader_read : ℕ → Bytes → List Chunk → Bytes × Reader
unfolding conn_read
reader_read n [] chunks = read_chunks n chunks
reader_read n (b ∷ bs) chunks =
    (take n (b ∷ bs), record { buffered = drop n (b ∷ bs); chunks = chunks })

-- io.ReadFull: the bytes that were read, which are fewer than `n` at the end of the stream. Each
-- round reads a byte at least, so `n` is enough fuel.
abbrev pub onto_read : Bytes → Bytes × Reader → Bytes × Reader
onto_read bytes (more, r) = (bytes ++ more, r)

unfoldable pub read_full_loop : ℕ → ℕ → Reader → Bytes × Reader
unfolding reader_read
read_full_loop zero n r = ([], r)
read_full_loop (suc fuel) n r =
    let (bytes, r') = reader_read n r.buffered r.chunks in
    let rest = onto_read bytes (read_full_loop fuel (n - length bytes) r') in
    if n == 0 then ([], r) else if length bytes == 0 then ([], r') else rest

-- A request, io.EOF, io.ErrUnexpectedEOF, or a length that is refused.
pub data Received : Type 0 where
  request : Bytes → Received
  end_of_stream unexpected_end : Received
  invalid_length : ℕ → Received

abbrev pub cut_off : Bytes → Received
cut_off [] = end_of_stream
cut_off (b ∷ bs) = unexpected_end

abbrev pub on_body : ℕ → Bytes × Reader → Received × List Chunk
on_body n (body, r) = (if length body == n then request body else cut_off body, r.chunks)

abbrev pub on_length : ℕ → Reader → Received × List Chunk
on_length n r =
    if (n == 0) || ltb max_request_body_size n
    then (invalid_length n, r.chunks)
    else on_body n (read_full_loop n n r)

abbrev pub on_length_bytes : Bytes × Reader → Received × List Chunk
on_length_bytes (bytes, r) =
    if length bytes == 4 then on_length (uint32 bytes) r else (cut_off bytes, r.chunks)

-- ReadSync: its bufio.Reader is new in each call, and what is left in its buffer is lost.
unfoldable pub read_sync : List Chunk → Received × List Chunk
unfolding read_full_loop
read_sync chunks = on_length_bytes (read_full_loop 4 4 (record { buffered = []; chunks = chunks }))

-- StartSync: the requests that are handed to OnTraffic, and the error that ends the loop. Each
-- request takes five bytes at least.
abbrev pub on_received :
    (List Chunk → List Bytes × Received) → Received × List Chunk → List Bytes × Received
on_received next (request body, chunks) = let (bodies, end) = next chunks in (body ∷ bodies, end)
on_received next (end, chunks) = ([], end)

unfoldable pub start_sync : ℕ → List Chunk → List Bytes × Received
unfolding read_sync
start_sync zero chunks = ([], end_of_stream)
start_sync (suc fuel) chunks = on_received (start_sync fuel) (read_sync chunks)

-- WriteSync and WriteErr: the length and then the data, of a message that is marshalled.
unfoldable pub message : Bytes → Bytes
message body = put_uint32 (length body % 2 ^ 32) ++ body
