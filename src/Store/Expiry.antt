-- ===== src/Store/Expiry.antt =====
-- Expiry in internal/store/mem.go: `Expire`, `TTL` and `CleanupExpired` against `Get`.
use mathlib.Core.Option.{some-injective}
use mathlib.Core.Bool.{true≢false}
use fleare.Prelude.{
  ◌+◌, ◌-◌, ◌^◌, ◌≤◌, ◌<◌, ◌≡◌, ◌↔◌, refl, sym, ap, ◌∙◌, true, false, Bool-cases, Option, none,
  some, [], ◌∷◌, length, arith, if◌then◌else◌, Option-cases, inl, inr,
}
use fleare.Prelude.Int.{
  ℤ, pos, negsuc, ◌+ℤ◌, ◌-ℤ◌, ◌≤ℤ◌, ◌<ℤ◌, ltb_ℤ, wrap64, wrap32, wrap64_id, IsInt64, pos_part,
  +ℤ-lt, +ℤ_parts, -ℤ_parts,
}
use fleare.Prelude.Bytes.{Bytes, same_iff}
use fleare.Prelude.Dict.{lookup, lookup-insert, without}
use fleare.Store.{Object, Memory, past, due, kept, deleted, get, ttl, expire, cleanup_expired}
use fleare.Store.View.{peek}
use fleare.Store.Unique.{Unique, unless_due, lookup-kept, kept-Unique}

deleted-kept : (now : ℤ) (m : Memory) → deleted now m + length (kept now m) ≡ length m
unfolding deleted kept
deleted-kept now [] = omega arith
deleted-kept now ((k, obj) ∷ m) = ground (arith, deleted-kept now m)

-- The reply of `TTL` for an object.
abbrev pub remaining : ℤ → Option Object → ℤ
remaining at none = negsuc 1
remaining at (some obj) =
    if ltb_ℤ (pos 0) obj.timestamp
    then (if ltb_ℤ at obj.timestamp then obj.timestamp -ℤ at else negsuc 1)
    else negsuc 0

ttl_of :
    (at : ℤ) (key : Bytes) (m : Memory) (obj : Object)
    → lookup key m ≡ some obj
    → pos 0 ≤ℤ obj.timestamp
    → IsInt64 obj.timestamp
    → pos 0 ≤ℤ at
    → (ttl at key m).0 ≡ remaining at (some obj)
unfolding ttl
ttl_of at key m obj e h i j =
    ground (arith, e, wrap64_id (obj.timestamp -ℤ at), -ℤ_parts obj.timestamp at)

expire-lookup :
    (now later seconds : ℤ) (key : Bytes) (m : Memory)
    → (expire now later key seconds m).0 ≡ true
    → pos 0 <ℤ seconds
    → IsInt64 (later +ℤ seconds)
    → (obj : Object) × (lookup key (expire now later key seconds m).1 ≡ some obj)
      × (obj.timestamp ≡ later +ℤ seconds)
unfolding expire
expire-lookup now later seconds key m e hs hi = elim (Option-cases (lookup key m)) [
  | inl absent ↦ absurd (ground (arith, absent))
  | inr (obj, found) ↦ (
    record obj { timestamp = later +ℤ seconds },
    ground (
      arith,
      found,
      wrap64_id (later +ℤ seconds),
      lookup-insert key key (record obj { timestamp = later +ℤ seconds }) m,
      same_iff key key,
    ),
    refl,
  )
]

-- After an `Expire` that reported success with a positive number of seconds, at any later time
-- before the sum of the second reading and the seconds `TTL` replies with the seconds left, and
-- from that time on with -2; the sum has to fit an int64 and the clock to be positive.
pub ttl-expire :
    (now later at seconds : ℤ) (key : Bytes) (m : Memory)
    → (expire now later key seconds m).0 ≡ true
    → pos 0 <ℤ seconds
    → pos 0 <ℤ later
    → IsInt64 (later +ℤ seconds)
    → later ≤ℤ at
    → (ttl at key (expire now later key seconds m).1).0
      ≡ (if ltb_ℤ at (later +ℤ seconds) then later +ℤ seconds -ℤ at else negsuc 1)
ttl-expire now later at seconds key m e hs hl hi ha =
    let (obj, found, stamp) = expire-lookup now later seconds key m e hs hi in
    ttl_of at key (expire now later key seconds m).1 obj found
      (rw stamp (omega (arith, +ℤ_parts later seconds))) (rw stamp hi) (omega arith)
    ∙ rw stamp (ground (arith, +ℤ_parts later seconds))

-- The time that the object names has come.
abbrev pub Expired : ℤ → Object → Type 0
Expired now obj = (pos 0 <ℤ obj.timestamp) × (obj.timestamp ≤ℤ now)

due-Expired : (now : ℤ) (obj : Object) → (due now obj ≡ true) ↔ Expired now obj
unfolding due
due-Expired now obj = ground arith

unless_due-some :
    (now : ℤ) (o : Option Object) (obj : Object)
    → (unless_due now o ≡ some obj) ↔ ((o ≡ some obj) × (¬ Expired now obj))
unless_due-some now none obj = (λ e. cc, λ h. cc (h.0))
unless_due-some now (some o) obj = elim (Bool-cases (due now o)) [
  | inl d ↦
      rw d (λ e. cc, λ h. absurd (h.1 (rw (← some-injective o obj h.0) ((due-Expired now o).0 d))))
  | inr d ↦ rw d (
    λ e. (e, λ x. true≢false (sym ((due-Expired now o).1 (rw (some-injective o obj e) x)) ∙ d)),
    λ h. h.0,
  )
]

-- `CleanupExpired` deletes exactly the objects that have a positive timestamp at or before its
-- second: after it an object is found under a key if and only if it was before and is none of
-- these. The map still holds each key once, and the returned count is the number of the deleted
-- entries, as an int32.
pub cleanup_exact :
    (now : ℤ) (j : Bytes) (m : Memory) (obj : Object)
    → Unique m
    → ((lookup j (cleanup_expired now m).1 ≡ some obj)
        ↔ ((lookup j m ≡ some obj) × (¬ Expired now obj)))
      × Unique (cleanup_expired now m).1
      × (length (cleanup_expired now m).1 ≤ length m)
      × ((cleanup_expired now m).0 ≡ wrap32 (length m - length (cleanup_expired now m).1))
unfolding cleanup_expired
cleanup_exact now j m obj u =
    let counted = deleted-kept now m in
    (
      rw (lookup-kept now j m u) (unless_due-some now (lookup j m) obj),
      kept-Unique now m u,
      omega arith,
      ap wrap32 (omega arith),
    )

-- A pass of `CleanupExpired` is seen by no `Get` that is made after the second of the pass.
peek-cleanup :
    (now later : ℤ) (j : Bytes) (m : Memory)
    → Unique m
    → now <ℤ later
    → peek later (cleanup_expired now m).1 j ≡ peek later m j
unfolding cleanup_expired peek past due
peek-cleanup now later j m u h = ground (arith, lookup-kept now j m u)

expire_stamp :
    (now later seconds : ℤ) (key : Bytes) (m : Memory) (obj : Object)
    → lookup key m ≡ some obj
    → due now obj ≡ false
    → pos 0 <ℤ seconds
    → lookup key (expire now later key seconds m).1
      ≡ some (record obj { timestamp = wrap64 (later +ℤ seconds) })
unfolding expire
expire_stamp now later seconds key m obj e d hs = ground (
  arith,
  e,
  d,
  lookup-insert key key (record obj { timestamp = wrap64 (later +ℤ seconds) }) m,
  same_iff key key,
)

wrap64_negative : (a : ℤ) → pos (2 ^ 63) ≤ℤ a → pos_part a < 2 ^ 64 → wrap64 a <ℤ pos 0
unfolding wrap64
wrap64_negative (pos n) h k = ground arith
wrap64_negative (negsuc n) h k = absurd (omega arith)

get_negative :
    (at : ℤ) (key : Bytes) (m : Memory) (obj : Object)
    → lookup key m ≡ some obj
    → obj.timestamp <ℤ pos 0
    → get at key m ≡ (some obj, m)
unfolding get
get_negative at key m obj e h = ground (arith, e)

ttl_negative :
    (at : ℤ) (key : Bytes) (m : Memory) (obj : Object)
    → lookup key m ≡ some obj
    → obj.timestamp <ℤ pos 0
    → pos 0 ≤ℤ at
    → ttl at key m ≡ (negsuc 1, without key m)
unfolding ttl
ttl_negative at key m obj e h k = ground (arith, e)

-- In the very second that an object's timestamp names, `Get` still returns the object, while `TTL`
-- replies -2 and deletes the key, and `Expire` reports that the key is gone and deletes it.
pub boundary_second :
    (now : ℤ) (key : Bytes) (seconds : ℤ) (m : Memory) (obj : Object)
    → lookup key m ≡ some obj
    → obj.timestamp ≡ now
    → pos 0 <ℤ now
    → ((get now key m).0 ≡ some obj)
      × (ttl now key m ≡ (negsuc 1, without key m))
      × (expire now now key seconds m ≡ (false, without key m))
unfolding get ttl expire
boundary_second now key seconds m obj e t h =
    (ground (arith, e, t), ground (arith, e, t), ground (arith, e, t))

-- If an unexpired key is given an expiration time beyond the int64 range, the time wraps to a
-- negative timestamp. Then `Get` returns the object at every time and changes nothing, while `TTL`,
-- at any time that is not negative, replies -2 and deletes the key.
pub overflow_stamp :
    (now later read at seconds : ℤ) (key : Bytes) (m : Memory) (obj : Object)
    → lookup key m ≡ some obj
    → due now obj ≡ false
    → pos 0 ≤ℤ later
    → pos 0 ≤ℤ at
    → IsInt64 later
    → IsInt64 seconds
    → pos (2 ^ 63) ≤ℤ later +ℤ seconds
    → let m' = (expire now later key seconds m).1 in
      let stamp = wrap64 (later +ℤ seconds) in
      (stamp <ℤ pos 0)
      × (get read key m' ≡ (some (record obj { timestamp = stamp }), m'))
      × (ttl at key m' ≡ (negsuc 1, without key m'))
overflow_stamp now later read at seconds key m obj e d hl ha il is big =
    let stamp = wrap64 (later +ℤ seconds) in
    let negative : stamp <ℤ pos 0 =
      wrap64_negative (later +ℤ seconds) big (+ℤ-lt later seconds il is) in
    let found : lookup key (expire now later key seconds m).1
        ≡ some (record obj { timestamp = stamp }) =
      expire_stamp now later seconds key m obj e d (omega (arith, +ℤ_parts later seconds)) in
    (
      negative,
      get_negative read key (expire now later key seconds m).1 _ found negative,
      ttl_negative at key (expire now later key seconds m).1 _ found negative ha,
    )
