-- ===== src/Wal/System/Runs.antt =====
-- The theorem on WALSystem at two shards with one entry each.
use fleare.Prelude.{ℕ, ◌≡◌, refl, inl, inr, Option, none, some, List, [], ◌∷◌, All, false, arith}
use fleare.Prelude.Bytes.{Bytes, same, codes}
use fleare.Prelude.Dict.{lookup}
use fleare.Ring.{get_node}
use fleare.Shard.Access.{logged}
use fleare.Wal.{Entry, Codec, sync_every_batch, Options, update_op, delete_op, new_wal_shard}
use fleare.Wal.Recover.{done, recover}
use fleare.Wal.Recover.Frame.{Survives}
use fleare.Wal.System.{WalSystem, SystemEvent, write, round_of, new_wal_system, system_run, files}
use fleare.Wal.System.Parts.{written}
use fleare.Wal.System.Whole.{Once, logged-recover}

-- The operation and then the key.
abbrev two_fields : Codec
two_fields = record {
  marshal = λ e. some (e.op ∷ e.key);
  unmarshal = λ bytes. elim bytes [
    | [] ↦ none
    | op ∷ key ↦ some (record { op = op; key = key; object = none })
  ];
  checksum = λ bytes. elim bytes [ [] ↦ 0 | c ∷ cs ↦ c ];
}

-- The first byte.
abbrev first_byte : Bytes → ℕ
first_byte [] = 0
first_byte (c ∷ cs) = c

abbrev of_first : Entry
of_first = record { op = delete_op; key = codes "k"; object = none }

abbrev of_second : Entry
of_second = record { op = update_op; key = codes "1"; object = none }

abbrev small_batches : Options
small_batches = record { batch_bytes = 4; sync_policy = sync_every_batch; sync_every_n = 1 }

abbrev two_writes : List SystemEvent
two_writes = write of_first ∷ round_of (codes "0") false ∷ write of_second ∷ []

of_first-Survives : Survives two_fields of_first (1 ∷ b'k' ∷ [])
of_first-Survives = record {
  written = refl;
  read_back = refl;
  fits = omega arith;
  sum_fits = omega arith;
  known_op = omega arith;
}

of_second-Survives : Survives two_fields of_second (0 ∷ b'1' ∷ [])
of_second-Survives = record {
  written = refl;
  read_back = refl;
  fits = omega arith;
  sum_fits = omega arith;
  known_op = omega arith;
}

both_there :
    All
      (λ id. lookup id (new_wal_system first_byte 2).shards ≡ some (new_wal_shard []))
      (codes "1" ∷ codes "0" ∷ [])
unfolding lookup new_wal_system same fleare.Shard.ids_from fleare.Prelude.Decimal.itoa
both_there = (refl, (refl, tt))

k-Once :
    Once
      (get_node first_byte (codes "k") (new_wal_system first_byte 2).chash)
      (codes "1" ∷ codes "0" ∷ [])
unfolding lookup new_wal_system same get_node fleare.Ring.add_nodes fleare.Shard.ids_from
    fleare.Ring.add_node fleare.Ring.sort fleare.Prelude.Decimal.itoa fleare.Ring.search
    fleare.Ring.search_loop
k-Once = inr (refl, inl (refl, tt))

logged-recover_example :
    (ws : WalSystem) × (system_run first_byte two_fields small_batches two_writes
        (new_wal_system first_byte 2)
      ≡ some ws)
    × (es : List Entry) × (recover two_fields
          (files first_byte two_fields small_batches (codes "1" ∷ codes "0" ∷ []) ws)
        ≡ (es, done))
    × (logged es (codes "k") ≡ logged (written two_writes) (codes "k"))
logged-recover_example =
    logged-recover first_byte two_fields small_batches 1 two_writes (codes "1" ∷ codes "0" ∷ [])
      (codes "k") ((_, of_first-Survives), ((_, of_second-Survives), tt)) both_there k-Once
