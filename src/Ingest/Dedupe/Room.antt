-- ===== src/Ingest/Dedupe/Room.antt =====
-- src/ingest/dedupe.rs: a cache with room for one more entry and nothing stale at its front.
use usagedb.Prelude.{
  ℕ, suc, ◌+◌, ◌-◌, ◌≤◌, ◌≡◌, true, Option, none, some, [], ◌∷◌, ◌++◌, length, ite, length-append,
  ℕ_discrete, arith, ◌==◌, if◌then◌else◌,
}
use usagedb.Prelude.Int.{ℤ, leb_ℤ, sub64}
use usagedb.Prelude.Map.{get, get-insert}
use usagedb.Ingest.Dedupe.{
  Queue, HotDedupe, DedupeResult, new_event, exact_duplicate, payload_conflict, classify,
  evict_expired, bounded, add_entry, commit, len,
}
use usagedb.Ingest.Dedupe.Order.{IsValid, stale_count, expire-drop, shrink-drop, insert_absent}
use usagedb.Ingest.Dedupe.Commit.{add_entry-IsValid}
use usagedb.Ingest.Dedupe.Lookup.{contains_key-none}

evict_expired_fresh :
    (now : ℤ) (s : HotDedupe)
    → IsValid s
    → stale_count (sub64 now s.ttl_ms) s.order ≡ 0
    → evict_expired now s ≡ s
unfolding evict_expired
evict_expired_fresh now s v fresh =
    rw (expire-drop (sub64 now s.ttl_ms) s.order s.cache v.parallel, fresh)

bounded_roomy : (s : HotDedupe) → IsValid s → len s ≤ s.max_capacity → bounded s ≡ s
unfolding bounded len
bounded_roomy s v room =
    let zero_over : length s.cache - s.max_capacity ≡ 0 = omega arith in
    rw (shrink-drop s.max_capacity s.order s.cache v.parallel, zero_over)

-- The payload that the cache knows for a hash.
unfoldable pub known : HotDedupe → ℕ → Option ℕ
known s h = elim (get ℕ_discrete h s.cache) [ none ↦ none | some e ↦ some e.payload_hash ]

unfoldable pub judge : Option ℕ → ℕ → DedupeResult
judge none p = new_event
judge (some q) p = if q == p then exact_duplicate else payload_conflict

pub classify-judge : (s : HotDedupe) (h p : ℕ) → classify s h p ≡ judge (known s h) p
unfolding classify judge known
classify-judge s h p = ground arith

pub known-none : (s : HotDedupe) (h : ℕ) → known s h ≡ none → get ℕ_discrete h s.cache ≡ none
unfolding known
known-none s h e = ground arith

-- What the retries of a batch rely on: the cache is valid, it has room for n more entries, and at
-- every reading of the clock neither its front nor an entry of this batch is stale.
pub record HasRoom (clock : ℕ → ℤ) (n : ℕ) (s : HotDedupe) : Type 0 where
  pub valid : IsValid s
  pub room : len s + n ≤ s.max_capacity
  pub fresh : (i : ℕ) → stale_count (sub64 (clock i) s.ttl_ms) s.order ≡ 0
  pub quick : (i j : ℕ) → leb_ℤ (sub64 (clock i) s.ttl_ms) (clock j) ≡ true

stale_count-append :
    (cutoff : ℤ) (o : Queue) (h : ℕ) (t : ℤ)
    → stale_count cutoff o ≡ 0
    → leb_ℤ cutoff t ≡ true
    → stale_count cutoff (o ++ (h, t) ∷ []) ≡ 0
unfolding stale_count
stale_count-append cutoff [] h t z l = ground arith
stale_count-append cutoff ((k, u) ∷ o) h t z l = ground arith

module _ (clock : ℕ → ℤ) (n i j h p : ℕ) (s : HotDedupe) (r : HasRoom clock (suc n) s)
    (absent : known s h ≡ none) where
  abbrev now : ℤ
  now = clock i

  abbrev later : ℤ
  later = clock j

  abbrev added : HotDedupe
  added = add_entry h p later s

  gone : get ℕ_discrete h s.cache ≡ none
  gone = known-none s h absent

  added-cache :
      added.cache ≡ s.cache ++ (h, record { payload_hash = p; first_seen_ms = later }) ∷ []
  unfolding add_entry
  added-cache = insert_absent h _ s.cache gone

  added-len : length added.cache ≡ length s.cache + 1
  added-len = rw added-cache (length-append s.cache _)

  added-IsValid : IsValid added
  added-IsValid = add_entry-IsValid h p later s r.valid gone

  pub commit_roomy : commit now later h p s ≡ added
  unfolding commit len add_entry
  commit_roomy =
      rw (evict_expired_fresh now s r.valid (r.fresh i), contains_key-none h s.cache gone)
        (bounded_roomy added added-IsValid (omega (arith, added-len, r.room)))

  pub commit-HasRoom : HasRoom clock n (commit now later h p s)
  unfolding len add_entry
  commit-HasRoom = rw commit_roomy (record {
    valid = added-IsValid;
    room = omega (arith, added-len, r.room);
    fresh = λ k. stale_count-append _ s.order h later (r.fresh k) (r.quick k j);
    quick = r.quick;
  })

  -- The commit makes the hash known with its payload, and changes no other.
  pub known-commit :
      (k : ℕ) → known (commit now later h p s) k ≡ ite (ℕ_discrete h k) (some p) (known s k)
  unfolding known add_entry
  known-commit k = rw commit_roomy (
      ground (
        arith,
        get-insert ℕ_discrete h k (record { payload_hash = p; first_seen_ms = later }) s.cache,
      ))
