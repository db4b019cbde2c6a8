-- ===== src/Wal.antt =====
-- internal/wal/wal.go: the write-ahead log. A shard's goroutine packs entries into a batch and
-- flushes it to the shard's file; recovery reads the files back.
-- The protobuf library and the CRC-32C checksum are parameters (`Codec`). A file is the list of
-- its bytes; writes to it succeed.
pub mod Run
pub mod Recover
pub mod System
mod Runs
use fleare.Prelude.{
  ℕ, zero, suc, ◌+◌, ◌-◌, ◌*◌, ◌/◌, ◌%◌, ◌^◌, Bool, true, false, ◌||◌, Option, none, some, List, [],
  ◌∷◌, ◌++◌, length, take, drop, leb, ltb, ◌==◌, if◌then◌else◌,
}
use fleare.Prelude.Bytes.{Bytes}
use fleare.Store.{Object}

-- comm.WALEntry; `op` is a protobuf enum, which is open. Its field `checksum` is never set.
pub record Entry : Type 0 where
  pub op : ℕ
  pub key : Bytes
  pub object : Option Object

abbrev pub update_op : ℕ
update_op = 0

abbrev pub delete_op : ℕ
delete_op = 1

-- proto.Marshal and proto.Unmarshal of an entry, and crc32.Checksum with the Castagnoli table.
pub record Codec : Type 0 where
  pub marshal : Entry → Option Bytes
  pub unmarshal : Bytes → Option Entry
  pub checksum : Bytes → ℕ

-- SyncPolicy
pub data SyncPolicy : Type 0 where
  sync_never sync_every_batch sync_every_n_batch : SyncPolicy

pub record Options : Type 0 where
  pub batch_bytes : ℕ
  pub sync_policy : SyncPolicy
  pub sync_every_n : ℕ

-- walShard: `file` is what was written, `synced` how much of it was synced, `queue` the channel.
pub record WalShard : Type 0 where
  pub file : Bytes
  pub synced : ℕ
  pub queue : List Entry
  pub batch_buf : Bytes
  pub batch_bytes : ℕ
  pub batch_count : ℕ

abbrev pub new_wal_shard : Bytes → WalShard
new_wal_shard old = record {
  file = old;
  synced = length old;
  queue = [];
  batch_buf = [];
  batch_bytes = 0;
  batch_count = 0;
}

-- binary.BigEndian.PutUint32 and Uint32.
unfoldable pub put_uint32 : ℕ → Bytes
put_uint32 n = n / 2 ^ 24 % 256 ∷ n / 2 ^ 16 % 256 ∷ n / 2 ^ 8 % 256 ∷ n % 256 ∷ []

unfoldable pub uint32 : Bytes → ℕ
uint32 (a ∷ b ∷ c ∷ d ∷ rest) = a * 2 ^ 24 + b * 2 ^ 16 + c * 2 ^ 8 + d
uint32 _ = 0

-- What happens to a shard: a `Put` or `Delete` sends an entry, or its goroutine makes a round.
pub data Event : Type 0 where
  send : Entry → Event
  turn : Bool → Event

-- flush(forceSync)
abbrev pub need_sync : Options → ℕ → Bool → Bool
need_sync o count force = elim o.sync_policy [
  | sync_never ↦ force
  | sync_every_batch ↦ true
  | sync_every_n_batch ↦ force || (count % o.sync_every_n == 0)
]

unfoldable pub flush : Options → Bool → WalShard → WalShard
flush o force s =
    if s.batch_bytes == 0
    then s
    else let written = s.file ++ s.batch_buf in
      record s {
        file = written;
        synced = if need_sync o s.batch_count force then length written else s.synced;
        batch_buf = [];
        batch_bytes = 0;
      }

abbrev pub never_syncs : SyncPolicy → Bool
never_syncs sync_never = true
never_syncs _ = false

module _ (codec : Codec) where
  -- The header and the data of one record: [u32 length][u32 crc32c][protobuf bytes].
  unfoldable pub frame : Bytes → Bytes
  frame payload =
      put_uint32 ((4 + length payload) % 2 ^ 32) ++ put_uint32 (codec.checksum payload) ++ payload

  abbrev pub append_frame : Option Bytes → WalShard → WalShard
  append_frame none s = s
  append_frame (some payload) s = record s {
    batch_buf = s.batch_buf ++ frame payload;
    batch_bytes = s.batch_bytes + (8 + length payload);
    batch_count = s.batch_count + 1;
  }

  -- encodeAppend; an entry that cannot be marshalled is dropped.
  unfoldable pub encode_append : Entry → WalShard → WalShard
  encode_append e s = append_frame (codec.marshal e) s

  -- The inner loop of `run`: it takes entries until the batch is full or the channel is empty.
  unfoldable pub drain : Options → List Entry → WalShard → WalShard
  drain o [] s = record s { queue = [] }
  drain o (e ∷ es) s =
      let more = drain o es (encode_append e s) in
      if ltb s.batch_bytes o.batch_bytes then more else record s { queue = e ∷ es }

  -- The fast path of `run`: it takes one entry, if there is one.
  unfoldable pub receive : List Entry → WalShard → WalShard
  receive [] s = record s { queue = [] }
  receive (e ∷ es) s = let s' = encode_append e s in record s' { queue = es }

  -- One round of the outer loop; `late` says that the batch deadline has passed.
  unfoldable pub round : Options → Bool → WalShard → WalShard
  unfolding receive drain flush
  round o late s =
      let s1 = receive s.queue s in
      let s2 = drain o s1.queue s1 in
      if leb o.batch_bytes s2.batch_bytes || late then flush o false s2 else s2

  unfoldable pub step : Options → WalShard → Event → WalShard
  unfolding round
  step o s (send e) = record s { queue = s.queue ++ e ∷ [] }
  step o s (turn late) = round o late s

  unfoldable pub run : Options → WalShard → List Event → WalShard
  unfolding step
  run o s [] = s
  run o s (ev ∷ evs) = run o (step o s ev) evs

  -- After `close(s.ch)` the goroutine still receives what is queued, and then flushes and ends.
  -- A round with a queue takes one entry at least, so the queue's length is enough fuel.
  unfoldable pub close_rounds : Options → ℕ → WalShard → WalShard
  unfolding round
  close_rounds o zero s = flush o true s
  close_rounds o (suc fuel) s =
      let more = close_rounds o fuel (round o false s) in
      if length s.queue == 0 then flush o true s else more

  unfoldable pub close : Options → WalShard → WalShard
  unfolding close_rounds
  close o s =
      let s' = close_rounds o (length s.queue) s in
      record s' { synced = if never_syncs o.sync_policy then s'.synced else length s'.file }
