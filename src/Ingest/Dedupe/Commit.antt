-- ===== src/Ingest/Dedupe/Commit.antt =====
-- What `commit` and `insert_known` do to the cache: the invariant, the bound, the entries that stay.
use mathlib.Core.Path.{ap₂}
use usagedb.Prelude.{
  ℕ, suc, ◌-◌, ◌≡◌, refl, ◌∙◌, inl, inr, false, none, List, [], ◌∷◌, ◌++◌, length, drop, ℕ_discrete,
  arith, Bool-cases, if◌then◌else◌,
}
use usagedb.Prelude.Int.{ℤ, sub64}
use usagedb.Prelude.Map.{get}
use usagedb.Ingest.Dedupe.{
  Cache, HotDedupe, new, evict_expired, bounded, add_entry, commit, insert_known, contains_key,
}
use usagedb.Ingest.Dedupe.Order.{
  IsValid, stale_count, drop-Parallel, expire-drop, shrink-drop, insert_absent, append-Parallel,
}

pub new-IsValid : (n : ℕ) → IsValid (new n)
unfolding new
new-IsValid n = record { parallel = tt }

pub evict_expired-IsValid : (now : ℤ) (s : HotDedupe) → IsValid s → IsValid (evict_expired now s)
unfolding evict_expired
evict_expired-IsValid now s v = record {
  parallel =
      rw (expire-drop (sub64 now s.ttl_ms) s.order s.cache v.parallel)
        (drop-Parallel _ s.order s.cache v.parallel);
}

pub bounded-IsValid : (s : HotDedupe) → IsValid s → IsValid (bounded s)
unfolding bounded
bounded-IsValid s v = record {
  parallel =
      rw (shrink-drop s.max_capacity s.order s.cache v.parallel)
        (drop-Parallel _ s.order s.cache v.parallel);
}

pub contains_key-get : (h : ℕ) (c : Cache) → contains_key h c ≡ false → get ℕ_discrete h c ≡ none
unfolding contains_key
contains_key-get h c e = ground arith

pub add_entry-IsValid :
    (h p : ℕ) (t : ℤ) (s : HotDedupe)
    → IsValid s
    → get ℕ_discrete h s.cache ≡ none
    → IsValid (add_entry h p t s)
unfolding add_entry
add_entry-IsValid h p t s v fresh = record {
  parallel =
      rw (insert_absent h _ s.cache fresh) (append-Parallel h _ s.order s.cache v.parallel fresh);
}

pub insert_known-IsValid :
    (h p : ℕ) (t : ℤ) (s : HotDedupe) → IsValid s → IsValid (insert_known h p t s)
unfolding insert_known
insert_known-IsValid h p t s v = elim (Bool-cases (contains_key h s.cache)) [
  | inl old ↦ rw old v
  | inr fresh ↦ rw fresh (add_entry-IsValid h p t s v (contains_key-get h s.cache fresh))
]

-- Whatever a commit evicts, the cache and the queue stay in step.
pub commit-IsValid :
    (now later : ℤ) (h p : ℕ) (s : HotDedupe) → IsValid s → IsValid (commit now later h p s)
unfolding commit
commit-IsValid now later h p s v =
    let s1 = evict_expired now s in
    let v1 = evict_expired-IsValid now s v in
    elim (Bool-cases (contains_key h s1.cache)) [
      | inl old ↦ rw old v1
      | inr fresh ↦ rw fresh (
          bounded-IsValid _ (add_entry-IsValid h p later s1 v1 (contains_key-get h s1.cache fresh)))
    ]

pub length-drop : {A : Type 0} (n : ℕ) (xs : List A) → length (drop n xs) ≡ length xs - n
length-drop ℕ.zero xs = omega arith
length-drop (suc n) [] = omega arith
length-drop (suc n) (x ∷ xs) = omega (arith, length-drop n xs)

-- The last n entries.
unfoldable pub last : ℕ → Cache → Cache
last n c = drop (length c - n) c

pub cache-evict_expired :
    (now : ℤ) (s : HotDedupe)
    → IsValid s
    → (evict_expired now s).cache ≡ drop (stale_count (sub64 now s.ttl_ms) s.order) s.cache
unfolding evict_expired
cache-evict_expired now s v = rw (expire-drop (sub64 now s.ttl_ms) s.order s.cache v.parallel)

pub cache-bounded : (s : HotDedupe) → IsValid s → (bounded s).cache ≡ last s.max_capacity s.cache
unfolding bounded last
cache-bounded s v = rw (shrink-drop s.max_capacity s.order s.cache v.parallel)

cache-add_entry :
    (h p : ℕ) (t : ℤ) (s : HotDedupe)
    → get ℕ_discrete h s.cache ≡ none
    → (add_entry h p t s).cache
      ≡ s.cache ++ (h, record { payload_hash = p; first_seen_ms = t }) ∷ []
unfolding add_entry
cache-add_entry h p t s fresh = insert_absent h _ s.cache fresh

capacity-add_entry :
    (now later : ℤ) (h p : ℕ) (s : HotDedupe)
    → (add_entry h p later (evict_expired now s)).max_capacity ≡ s.max_capacity
unfolding add_entry evict_expired
capacity-add_entry now later h p s = refl

-- The abstract cache is a list of entries, oldest first. A commit drops its stale front; a hash that
-- is still there changes nothing more, and a new one is put last and the last `max_capacity` stay.
unfoldable pub after_commit : ℤ → ℤ → ℕ → ℕ → HotDedupe → Cache
after_commit now later h p s =
    let live = drop (stale_count (sub64 now s.ttl_ms) s.order) s.cache in
    if contains_key h live
    then live
    else last s.max_capacity (live ++ (h, record { payload_hash = p; first_seen_ms = later }) ∷ [])

-- A commit on a valid cache does exactly what the abstract cache does: the entries past the TTL at
-- the front of the queue go, then a new entry is added last and the oldest are dropped until
-- `max_capacity` remain.
pub commit-fifo :
    (now later : ℤ) (h p : ℕ) (s : HotDedupe)
    → IsValid s
    → (commit now later h p s).cache ≡ after_commit now later h p s
unfolding commit after_commit
commit-fifo now later h p s v =
    let s1 = evict_expired now s in
    let v1 = evict_expired-IsValid now s v in
    let e : s1.cache ≡ drop (stale_count (sub64 now s.ttl_ms) s.order) s.cache =
      cache-evict_expired now s v in
    elim (Bool-cases (contains_key h s1.cache)) [
      | inl old ↦ rw (← e) (rw (old) refl)
      | inr fresh ↦
          let new = contains_key-get h s1.cache fresh in
          rw (← e) (
            rw fresh (
              cache-bounded _ (add_entry-IsValid h p later s1 v1 new)
              ∙ ap₂ last (capacity-add_entry now later h p s) (cache-add_entry h p later s1 new)))
    ]
