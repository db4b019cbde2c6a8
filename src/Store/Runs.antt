-- ===== src/Store/Runs.antt =====
-- The theorems on internal/store/mem.go at a memory with a plain key and an expiring one.
use fleare.Prelude.{◌≡◌, refl, false, some, [], ◌∷◌, arith, if◌then◌else◌, length, ◌-◌, ◌≤◌, ◌↔◌}
use fleare.Prelude.Int.{pos, negsuc, ◌+ℤ◌, ◌-ℤ◌, ◌<ℤ◌, ltb_ℤ, wrap64, wrap32}
use fleare.Prelude.Bytes.{Bytes, same}
use fleare.Prelude.Dict.{lookup, without}
use fleare.Store.{Object, Memory, get, ttl, expire, cleanup_expired, due}
use fleare.Store.View.{Reads, get-Reads}
use fleare.Store.Unique.{Unique}
use fleare.Store.Expiry.{Expired, ttl-expire, cleanup_exact, boundary_second, overflow_stamp}

abbrev plain_key : Bytes
plain_key = b'p' ∷ []

abbrev short_key : Bytes
short_key = b's' ∷ []

abbrev lasting : Object
lasting = record { value = 1 ∷ []; kind = 0; timestamp = pos 0 }

abbrev short : Object
short = record { value = 2 ∷ []; kind = 0; timestamp = pos 100 }

abbrev two_keys : Memory
two_keys = (plain_key, lasting) ∷ (short_key, short) ∷ []

get-Reads_example :
    (((get (pos 101) short_key two_keys).0 ≡ some short) ↔ Reads (pos 101) two_keys short_key short)
    × (Reads (pos 102) (get (pos 101) short_key two_keys).1 plain_key short
        ↔ Reads (pos 102) two_keys plain_key short)
get-Reads_example = get-Reads (pos 101) (pos 102) short_key plain_key two_keys short (omega arith)

ttl-expire_example :
    (ttl (pos 60) plain_key (expire (pos 50) (pos 50) plain_key (pos 20) two_keys).1).0
    ≡ (if ltb_ℤ (pos 60) (pos 50 +ℤ pos 20) then pos 50 +ℤ pos 20 -ℤ pos 60 else negsuc 1)
unfolding expire lookup same ◌+ℤ◌
ttl-expire_example =
    ttl-expire (pos 50) (pos 50) (pos 60) (pos 20) plain_key two_keys refl (omega arith)
      (omega arith) (omega arith, omega arith) (omega arith)

two_keys-Unique : Unique two_keys
unfolding lookup same
two_keys-Unique = (refl, (refl, tt))

cleanup_exact_example :
    ((lookup short_key (cleanup_expired (pos 100) two_keys).1 ≡ some short)
      ↔ ((lookup short_key two_keys ≡ some short) × (¬ Expired (pos 100) short)))
    × Unique (cleanup_expired (pos 100) two_keys).1
    × (length (cleanup_expired (pos 100) two_keys).1 ≤ length two_keys)
    × ((cleanup_expired (pos 100) two_keys).0
        ≡ wrap32 (length two_keys - length (cleanup_expired (pos 100) two_keys).1))
cleanup_exact_example = cleanup_exact (pos 100) short_key two_keys short two_keys-Unique

boundary_second_example :
    ((get (pos 100) short_key two_keys).0 ≡ some short)
    × (ttl (pos 100) short_key two_keys ≡ (negsuc 1, without short_key two_keys))
    × (expire (pos 100) (pos 100) short_key (pos 5) two_keys ≡ (false, without short_key two_keys))
unfolding lookup same
boundary_second_example =
    boundary_second (pos 100) short_key (pos 5) two_keys short refl refl (omega arith)

-- The plain key after `Expire` with the largest int64.
abbrev far : Memory
far = (expire (pos 50) (pos 50) plain_key (pos 9223372036854775807) two_keys).1

overflow_stamp_example :
    (wrap64 (pos 50 +ℤ pos 9223372036854775807) <ℤ pos 0)
    × (get (pos 200) plain_key far
        ≡ (some (record lasting { timestamp = wrap64 (pos 50 +ℤ pos 9223372036854775807) }), far))
    × (ttl (pos 200) plain_key far ≡ (negsuc 1, without plain_key far))
unfolding lookup due same ◌+ℤ◌
overflow_stamp_example =
    overflow_stamp (pos 50) (pos 50) (pos 200) (pos 200) (pos 9223372036854775807) plain_key
      two_keys lasting refl refl (omega arith) (omega arith) (omega arith, omega arith)
      (omega arith, omega arith) (omega arith)
