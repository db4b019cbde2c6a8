-- ===== src/Wal/Runs.antt =====
-- The theorems on internal/wal/wal.go at a codec of two fields.
use fleare.Prelude.{◌⊎◌, ◌≡◌, refl, false, none, some, List, [], ◌∷◌, ◌++◌, take, arith}
use fleare.Wal.{
  Entry, Codec, sync_never, sync_every_batch, Options, Event, send, turn, update_op, delete_op,
  new_wal_shard, frame, run, close, flush, drain, receive, encode_append, put_uint32, round, step,
}
use fleare.Wal.Run.{records, sent, close-run}
use fleare.Wal.Recover.{Status, done, end_of_file, checksum_mismatch, recover_shard}
use fleare.Wal.Recover.Frame.{Survives}
use fleare.Wal.Recover.RoundTrip.{AllSurvive, recover-close}
use fleare.Wal.Recover.Crash.{recover-crash, recover-reopened}
use fleare.Wal.Recover.Torn.{header, recover-corrupt}

-- The operation and then the key.
abbrev two_fields : Codec
two_fields = record {
  marshal = λ e. some (e.op ∷ e.key);
  unmarshal = λ bytes. elim bytes [
    | [] ↦ none
    | op ∷ key ↦ some (record { op = op; key = key; object = none })
  ];
  checksum = λ bytes. elim bytes [ [] ↦ 0 | c ∷ cs ↦ c ];
}

abbrev removal : Entry
removal = record { op = delete_op; key = b'k' ∷ []; object = none }

abbrev touch : Entry
touch = record { op = update_op; key = b'j' ∷ []; object = none }

abbrev small_batches : Options
small_batches = record { batch_bytes = 4; sync_policy = sync_every_batch; sync_every_n = 1 }

abbrev events : List Event
events = send removal ∷ turn false ∷ send touch ∷ []

removal-Survives : Survives two_fields removal (1 ∷ b'k' ∷ [])
removal-Survives = record {
  written = refl;
  read_back = refl;
  fits = omega arith;
  sum_fits = omega arith;
  known_op = omega arith;
}

touch-Survives : Survives two_fields touch (0 ∷ b'j' ∷ [])
touch-Survives = record {
  written = refl;
  read_back = refl;
  fits = omega arith;
  sum_fits = omega arith;
  known_op = omega arith;
}

close-run_example :
    (close two_fields small_batches
      (run two_fields small_batches (new_wal_shard (7 ∷ [])) events)).file
    ≡ (7 ∷ []) ++ records two_fields (sent events)
close-run_example = close-run two_fields small_batches (7 ∷ []) events

recover-close_example :
    recover_shard two_fields (
      some
        (close two_fields small_batches
          (run two_fields small_batches (new_wal_shard []) events)).file)
    ≡ (removal ∷ touch ∷ [], done)
recover-close_example =
    recover-close two_fields small_batches events
      ((1 ∷ b'k' ∷ [], removal-Survives), ((0 ∷ b'j' ∷ [], touch-Survives), tt))

recover-corrupt_example :
    recover_shard two_fields (
      some (
        records two_fields (removal ∷ [])
        ++ (header 2 0 ++ ((5 ∷ b'j' ∷ []) ++ records two_fields (removal ∷ [])))))
    ≡ (removal ∷ [], checksum_mismatch)
recover-corrupt_example =
    recover-corrupt two_fields (removal ∷ []) (0 ∷ b'j' ∷ []) (5 ∷ b'j' ∷ [])
      (records two_fields (removal ∷ [])) ((1 ∷ b'k' ∷ [], removal-Survives), tt) (omega arith)
      (omega arith) refl (ground arith)

abbrev no_syncs : Options
no_syncs = record { batch_bytes = 4; sync_policy = sync_never; sync_every_n = 1 }

abbrev rounds : List Event
rounds = send removal ∷ turn false ∷ send touch ∷ turn false ∷ []

both_survive : AllSurvive two_fields (sent rounds)
both_survive = ((1 ∷ b'k' ∷ [], removal-Survives), ((0 ∷ b'j' ∷ [], touch-Survives), tt))

recover-crash_example :
    (kept : List Entry) × (lost : List Entry) × (status : Status) × (recover_shard two_fields
        (some (take 15 (run two_fields no_syncs (new_wal_shard []) rounds).file))
      ≡ ([] ++ kept, status))
    × (kept ++ lost ≡ removal ∷ touch ∷ [])
    × ((status ≡ done) ⊎ (status ≡ end_of_file))
unfolding run step round flush drain receive encode_append frame put_uint32
recover-crash_example =
    recover-crash two_fields no_syncs rounds [] (removal ∷ touch ∷ []) 15 both_survive refl
      (omega arith) (omega arith) (omega arith)

recover-reopened_example :
    recover_shard two_fields (
      some
        (close two_fields small_batches (
          run two_fields small_batches
            (new_wal_shard
              (records two_fields (touch ∷ []) ++ take 8 (frame two_fields (1 ∷ b'k' ∷ []))))
            rounds)).file)
    ≡ (touch ∷ [], checksum_mismatch)
unfolding frame put_uint32
recover-reopened_example =
    recover-reopened two_fields small_batches rounds (touch ∷ []) (1 ∷ b'k' ∷ []) 0
      ((0 ∷ b'j' ∷ [], touch-Survives), tt) (omega arith) (omega arith) (omega arith) (omega arith)
      (ground arith)
