-- ===== src/Ingest/Dedupe.antt =====
-- src/ingest/dedupe.rs: the hot cache of event identities. Its laws are in the modules below.
-- The clock is an argument of each call that reads it; a hash is the number that its 128 bits stand
-- for; the `HashMap` is an association list and `len` its length.
pub mod Order
pub mod Commit
pub mod Lookup
pub mod Room
use usagedb.Prelude.{
  ℕ, ◌≡◌, Bool, true, false, Option, none, some, List, [], ◌∷◌, ◌++◌, length, ℕ_discrete, ltb, ◌==◌,
  if◌then◌else◌,
}
use usagedb.Prelude.Int.{ℤ, pos, sub64, leb_ℤ}
use usagedb.Prelude.Map.{get, insert, remove}

abbrev pub default_ttl_ms : ℤ
default_ttl_ms = pos 604800000

pub record DedupeEntry : Type 0 where
  pub payload_hash : ℕ
  pub first_seen_ms : ℤ

abbrev pub Cache : Type 0
Cache = List (ℕ × DedupeEntry)

abbrev pub Queue : Type 0
Queue = List (ℕ × ℤ)

pub record HotDedupe : Type 0 where
  pub cache : Cache
  pub order : Queue
  pub max_capacity : ℕ
  pub ttl_ms : ℤ

pub data DedupeResult : Type 0 where
  new_event exact_duplicate payload_conflict : DedupeResult

unfoldable pub new : ℕ → HotDedupe
new max_capacity = record {
  cache = [];
  order = [];
  max_capacity = max_capacity;
  ttl_ms = default_ttl_ms;
}

unfoldable pub with_ttl : HotDedupe → ℤ → HotDedupe
with_ttl s ttl_ms = record s { ttl_ms = ttl_ms }

unfoldable pub against : Option DedupeEntry → ℕ → DedupeResult
against none payload_hash = new_event
against (some existing) payload_hash =
    if existing.payload_hash == payload_hash then exact_duplicate else payload_conflict

unfoldable pub classify : HotDedupe → ℕ → ℕ → DedupeResult
unfolding against
classify s event_id_hash payload_hash = against (get ℕ_discrete event_id_hash s.cache) payload_hash

-- The loop of `evict_expired`, over the queue and the cache.
unfoldable pub expire : ℤ → Queue → Cache → Queue × Cache
expire cutoff [] cache = ([], cache)
expire cutoff ((hash, inserted_at) ∷ order) cache =
    let rest = expire cutoff order (remove ℕ_discrete hash cache) in
    if leb_ℤ cutoff inserted_at then ((hash, inserted_at) ∷ order, cache) else rest

unfoldable pub evict_expired : ℤ → HotDedupe → HotDedupe
unfolding expire
evict_expired now s =
    let (order, cache) = expire (sub64 now s.ttl_ms) s.order s.cache in
    record s { cache = cache; order = order }

-- The loop at the end of `commit`.
unfoldable pub shrink : ℕ → Queue → Cache → Queue × Cache
shrink max_capacity [] cache = ([], cache)
shrink max_capacity ((hash, inserted_at) ∷ order) cache =
    let rest = shrink max_capacity order (remove ℕ_discrete hash cache) in
    if ltb max_capacity (length cache) then rest else ((hash, inserted_at) ∷ order, cache)

-- `cache.insert` and `order.push_back`.
unfoldable pub add_entry : ℕ → ℕ → ℤ → HotDedupe → HotDedupe
add_entry event_id_hash payload_hash first_seen_ms s = record s {
  cache =
      insert ℕ_discrete event_id_hash
        (record { payload_hash = payload_hash; first_seen_ms = first_seen_ms }) s.cache;
  order = s.order ++ (event_id_hash, first_seen_ms) ∷ [];
}

unfoldable pub contains_key : ℕ → Cache → Bool
contains_key hash cache = elim (get ℕ_discrete hash cache) [ none ↦ false | some _ ↦ true ]

unfoldable pub bounded : HotDedupe → HotDedupe
unfolding shrink
bounded s =
    let (order, cache) = shrink s.max_capacity s.order s.cache in
    record s { cache = cache; order = order }

-- The clock is read again for a new entry.
unfoldable pub commit : ℤ → ℤ → ℕ → ℕ → HotDedupe → HotDedupe
unfolding contains_key
commit now later event_id_hash payload_hash s =
    let s1 = evict_expired now s in
    if contains_key event_id_hash s1.cache
    then s1
    else bounded (add_entry event_id_hash payload_hash later s1)

unfoldable pub check_and_insert : ℤ → ℤ → ℕ → ℕ → HotDedupe → DedupeResult × HotDedupe
check_and_insert now later event_id_hash payload_hash s =
    elim (classify s event_id_hash payload_hash) [
      | new_event ↦ (new_event, commit now later event_id_hash payload_hash s)
      | exact_duplicate ↦ (exact_duplicate, s)
      | payload_conflict ↦ (payload_conflict, s)
    ]

unfoldable pub insert_known : ℕ → ℕ → ℤ → HotDedupe → HotDedupe
unfolding contains_key
insert_known event_id_hash payload_hash first_seen_ms s =
    if contains_key event_id_hash s.cache
    then s
    else add_entry event_id_hash payload_hash first_seen_ms s

unfoldable pub len : HotDedupe → ℕ
len s = length s.cache
