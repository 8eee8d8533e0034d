-- ===== src/Ingest/Dedupe/Lookup.antt =====
-- What a retry is told after a commit: entries that are kept, forgotten or new.
use usagedb.Prelude.{
  ℕ, suc, ◌-◌, ◌≤◌, ◌<◌, ◌≡◌, ◌≢◌, refl, ◌∙◌, ◌==◌, if_neg, ◌⊎◌, inl, inr, false, none, some, [],
  ◌∷◌, ◌++◌, length, length-append, drop, ℕ_discrete, arith, Bool-cases, if◌then◌else◌,
}
use usagedb.Prelude.Int.{ℤ, sub64}
use usagedb.Prelude.Map.{get, get-append, get-insert}
use usagedb.Ingest.Dedupe.{
  Cache, Queue, DedupeEntry, HotDedupe, new_event, exact_duplicate, payload_conflict, new, classify,
  evict_expired, bounded, add_entry, commit, contains_key, len,
}
use usagedb.Ingest.Dedupe.Order.{Parallel, IsValid, stale_count}
use usagedb.Ingest.Dedupe.Commit.{
  length-drop, last, cache-evict_expired, cache-bounded, after_commit, commit-fifo,
  add_entry-IsValid, contains_key-get, evict_expired-IsValid,
}

get-drop-none :
    (j n : ℕ) (c : Cache) → get ℕ_discrete j c ≡ none → get ℕ_discrete j (drop n c) ≡ none
unfolding get
get-drop-none j ℕ.zero c h = h
get-drop-none j (suc n) [] h = refl
get-drop-none j (suc n) ((k, e) ∷ c) h = get-drop-none j n c (ground arith)

get-drop :
    (j n : ℕ) (o : Queue) (c : Cache)
    → Parallel o c
    → (get ℕ_discrete j (drop n c) ≡ none) ⊎ (get ℕ_discrete j (drop n c) ≡ get ℕ_discrete j c)
unfolding get
get-drop j ℕ.zero o c p = inr refl
get-drop j (suc n) [] [] p = inl refl
get-drop j (suc n) [] (_ ∷ _) p = absurd p
get-drop j (suc n) (_ ∷ _) [] p = absurd p
get-drop j (suc n) ((h, t) ∷ o) ((k, e) ∷ c) p = elim (ℕ_discrete k j) [
  | yes same ↦ inl (get-drop-none j n c (rw (← same) p.2))
  | no other ↦ rw (if_neg _ other) (get-drop j n o c p.3)
]

drop-append_le : (n : ℕ) (c d : Cache) → n ≤ length c → drop n (c ++ d) ≡ drop n c ++ d
drop-append_le ℕ.zero c d h = refl
drop-append_le (suc n) [] d h = absurd (omega arith)
drop-append_le (suc n) (x ∷ c) d h = drop-append_le n c d (omega arith)

-- The newest entry is among the last n, for a positive n.
get-last :
    (h n : ℕ) (e : DedupeEntry) (c : Cache)
    → 0 < n
    → get ℕ_discrete h c ≡ none
    → get ℕ_discrete h (last n (c ++ (h, e) ∷ [])) ≡ some e
unfolding last get
get-last h n e c pos fresh =
    let l = length-append c ((h, e) ∷ []) in
    let m = length (c ++ (h, e) ∷ []) - n in
    rw
      (
        drop-append_le m c ((h, e) ∷ []) (omega arith),
        get-append ℕ_discrete h (drop m c) ((h, e) ∷ []),
        get-drop-none h m c fresh,
      )
      (ground arith)

pub contains_key-none : (h : ℕ) (c : Cache) → get ℕ_discrete h c ≡ none → contains_key h c ≡ false
unfolding contains_key
contains_key-none h c e = ground arith

pub get_of_new_event :
    (s : HotDedupe) (h p : ℕ) → classify s h p ≡ new_event → get ℕ_discrete h s.cache ≡ none
unfolding classify
get_of_new_event s h p e = ground arith

get-commit :
    (now later : ℤ) (h p : ℕ) (s : HotDedupe)
    → IsValid s
    → 0 < s.max_capacity
    → get ℕ_discrete h s.cache ≡ none
    → get ℕ_discrete h (commit now later h p s).cache
      ≡ some (record { payload_hash = p; first_seen_ms = later })
unfolding after_commit
get-commit now later h p s v pos fresh =
    let n = stale_count (sub64 now s.ttl_ms) s.order in
    let gone = get-drop-none h n s.cache fresh in
    rw (commit-fifo now later h p s v, contains_key-none h _ gone)
      (get-last h s.max_capacity _ _ pos gone)

-- After the commit of a hash that the cache did not hold, a retry with the same payload is a
-- duplicate and one with another payload is a conflict, whatever the commit evicted.
pub classify-commit :
    (now later : ℤ) (h p q : ℕ) (s : HotDedupe)
    → IsValid s
    → 0 < s.max_capacity
    → classify s h p ≡ new_event
    → classify (commit now later h p s) h q ≡ (if p == q then exact_duplicate else payload_conflict)
unfolding classify
classify-commit now later h p q s v pos new =
    ground (arith, get-commit now later h p s v pos (get_of_new_event s h p new))

-- Known as before, or forgotten.
abbrev Keeps : ℕ → Cache → Cache → Type 0
Keeps j before after =
    (get ℕ_discrete j after ≡ none) ⊎ (get ℕ_discrete j after ≡ get ℕ_discrete j before)

Keeps-trans : (j : ℕ) (a b c : Cache) → Keeps j a b → Keeps j b c → Keeps j a c
Keeps-trans j a b c (inl gone) (inl k) = inl k
Keeps-trans j a b c (inl gone) (inr k) = inl (k ∙ gone)
Keeps-trans j a b c (inr same) (inl k) = inl k
Keeps-trans j a b c (inr same) (inr k) = inr (k ∙ same)

evict_expired-Keeps :
    (j : ℕ) (now : ℤ) (s : HotDedupe) → IsValid s → Keeps j s.cache (evict_expired now s).cache
evict_expired-Keeps j now s v =
    rw (cache-evict_expired now s v) (get-drop j _ s.order s.cache v.parallel)

bounded-Keeps : (j : ℕ) (s : HotDedupe) → IsValid s → Keeps j s.cache (bounded s).cache
unfolding last
bounded-Keeps j s v = rw (cache-bounded s v) (get-drop j _ s.order s.cache v.parallel)

add_entry-Keeps :
    (j h p : ℕ) (t : ℤ) (s : HotDedupe) → h ≢ j → Keeps j s.cache (add_entry h p t s).cache
unfolding add_entry
add_entry-Keeps j h p t s other = inr (
    ground
      (arith, get-insert ℕ_discrete h j (record { payload_hash = p; first_seen_ms = t }) s.cache))

commit-Keeps :
    (now later : ℤ) (h p j : ℕ) (s : HotDedupe)
    → IsValid s
    → h ≢ j
    → Keeps j s.cache (commit now later h p s).cache
unfolding commit
commit-Keeps now later h p j s v other =
    let s1 = evict_expired now s in
    let v1 = evict_expired-IsValid now s v in
    let first = evict_expired-Keeps j now s v in
    elim (Bool-cases (contains_key h s1.cache)) [
      | inl old ↦ rw old first
      | inr fresh ↦
          let v2 = add_entry-IsValid h p later s1 v1 (contains_key-get h s1.cache fresh) in
          rw fresh (
            Keeps-trans j s.cache s1.cache _ first (
              Keeps-trans j s1.cache (add_entry h p later s1).cache _
                (add_entry-Keeps j h p later s1 other)
                (bounded-Keeps j (add_entry h p later s1) v2)))
    ]

-- A commit of one hash never makes another one known: it is evicted or answers as before.
pub classify-commit_other :
    (now later : ℤ) (h p j q : ℕ) (s : HotDedupe)
    → IsValid s
    → h ≢ j
    → (classify (commit now later h p s) j q ≡ new_event)
      ⊎ (classify (commit now later h p s) j q ≡ classify s j q)
unfolding classify
classify-commit_other now later h p j q s v other = elim (commit-Keeps now later h p j s v other) [
  | inl gone ↦ inl (ground arith)
  | inr same ↦ inr (ground arith)
]

-- A commit on a cache with nothing stale and room for one more keeps every entry.
pub commit_roomy :
    (now later : ℤ) (h p : ℕ) (s : HotDedupe)
    → IsValid s
    → stale_count (sub64 now s.ttl_ms) s.order ≡ 0
    → len s < s.max_capacity
    → get ℕ_discrete h s.cache ≡ none
    → (commit now later h p s).cache
      ≡ s.cache ++ (h, record { payload_hash = p; first_seen_ms = later }) ∷ []
unfolding after_commit last len
commit_roomy now later h p s v fresh room new =
    rw (commit-fifo now later h p s v, fresh, contains_key-none h s.cache new)
      (let l =
          length-append s.cache ((h, record { payload_hash = p; first_seen_ms = later }) ∷ []) in
        let none_over : length
                (s.cache ++ (h, record { payload_hash = p; first_seen_ms = later }) ∷ [])
              - s.max_capacity
            ≡ 0 =
          omega arith in
        rw none_over)

-- A commit of a new hash leaves at most `max_capacity` entries, however many there were.
pub len-commit-le :
    (now later : ℤ) (h p : ℕ) (s : HotDedupe)
    → IsValid s
    → classify s h p ≡ new_event
    → len (commit now later h p s) ≤ s.max_capacity
unfolding after_commit last len
len-commit-le now later h p s v new =
    rw
      (
        commit-fifo now later h p s v,
        contains_key-none h _ (
            get-drop-none h (stale_count (sub64 now s.ttl_ms) s.order) s.cache
              (get_of_new_event s h p new)),
      )
      (omega (arith, length-drop _ _))
