-- ===== src/Ingest/Flusher/Commits.antt =====
-- src/ingest/flusher.rs: what a flush writes.
use usagedb.Prelude.{
  ℕ, suc, ◌+◌, ◌≡◌, refl, sym, subst, true, false, List, [], ◌∷◌, ◌++◌, String, ltb, ◌==◌, arith,
  length, length-append, All, Bool-cases, ==_iff, inl, inr,
}
use usagedb.Prelude.Map.{insert, remove}
use usagedb.Prelude.Text.{String_discrete}
use usagedb.Model.{UsageEvent, bucket_for_account}
use usagedb.Storage.Manifest.{SegmentMeta}
use usagedb.Ingest.Segments.{insert_event, sort_events_canonical, build_segment_meta}
use usagedb.Ingest.Flusher.{
  Files, Buckets, push_event, by_bucket, WriteAnswer, bucket_written, bucket_failed, write_bucket,
  rollback_partial, remaining, WriteResult, written, failed, write_buckets,
}

abbrev pub row_counts : List SegmentMeta → ℕ
row_counts [] = 0
row_counts (m ∷ ms) = m.row_count + row_counts ms

-- All events of a bucket's list have that bucket.
abbrev pub AllIn : (List ℕ → List ℕ) → ℕ → Buckets → Type 0
AllIn blake3 n [] = Unit {0}
AllIn blake3 n ((b, es) ∷ rest) =
    All (λ (e : UsageEvent). b ≡ bucket_for_account blake3 e.account_id n) es × AllIn blake3 n rest

All-snoc :
    (P : UsageEvent → Type 0) (es : List UsageEvent) (e : UsageEvent)
    → All P es
    → P e
    → All P (es ++ e ∷ [])
All-snoc P [] e h p = (p, tt)
All-snoc P (d ∷ es) e h p = (h.0, All-snoc P es e h.1 p)

push_event-AllIn :
    (blake3 : List ℕ → List ℕ) (n : ℕ) (e : UsageEvent) (m : Buckets)
    → AllIn blake3 n m
    → AllIn blake3 n (push_event (bucket_for_account blake3 e.account_id n) e m)
unfolding push_event
push_event-AllIn blake3 n e [] h = ((refl, tt), tt)
push_event-AllIn blake3 n e ((b, es) ∷ rest) h =
    let bucket = bucket_for_account blake3 e.account_id n in
    let in_b : UsageEvent → Type 0 =
      λ (d : UsageEvent). b ≡ bucket_for_account blake3 d.account_id n in
    elim (Bool-cases (bucket == b)) [
      | inl same ↦ rw same (All-snoc in_b es e h.0 (sym ((==_iff bucket b).0 same)), h.1)
      | inr other ↦ rw other (elim (Bool-cases (ltb bucket b)) [
        | inl before ↦ rw before ((refl, tt), h)
        | inr after ↦ rw after (h.0, push_event-AllIn blake3 n e rest h.1)
      ])
    ]

-- Every bucket's list holds only events of that bucket.
pub by_bucket-AllIn :
    (blake3 : List ℕ → List ℕ) (n : ℕ) (acc : Buckets) (es : List UsageEvent)
    → AllIn blake3 n acc
    → AllIn blake3 n (by_bucket blake3 n acc es)
unfolding by_bucket
by_bucket-AllIn blake3 n acc [] h = h
by_bucket-AllIn blake3 n acc (e ∷ es) h =
    by_bucket-AllIn blake3 n (push_event (bucket_for_account blake3 e.account_id n) e acc) es
      (push_event-AllIn blake3 n e acc h)

length-push_event :
    (b : ℕ) (e : UsageEvent) (m : Buckets)
    → length (remaining (push_event b e m)) ≡ suc (length (remaining m))
unfolding push_event remaining
length-push_event b e [] = refl
length-push_event b e ((c, es) ∷ rest) = ground (
  arith,
  length-push_event b e rest,
  length-append es (remaining rest),
  length-append es (e ∷ []),
  length-append (es ++ e ∷ []) (remaining rest),
  length-append es (remaining (push_event b e rest)),
)

length-by_bucket :
    (blake3 : List ℕ → List ℕ) (n : ℕ) (acc : Buckets) (es : List UsageEvent)
    → length (remaining (by_bucket blake3 n acc es)) ≡ length (remaining acc) + length es
unfolding by_bucket
length-by_bucket blake3 n acc [] = omega arith
length-by_bucket blake3 n acc (e ∷ es) =
    let b = bucket_for_account blake3 e.account_id n in
    omega (arith, length-by_bucket blake3 n (push_event b e acc) es, length-push_event b e acc)

length-insert_event :
    (e : UsageEvent) (es : List UsageEvent) → length (insert_event e es) ≡ suc (length es)
unfolding insert_event
length-insert_event e [] = refl
length-insert_event e (d ∷ ds) = ground (arith, length-insert_event e ds)

length-sort : (es : List UsageEvent) → length (sort_events_canonical es) ≡ length es
unfolding sort_events_canonical
length-sort [] = refl
length-sort (e ∷ es) =
    omega (arith, length-insert_event e (sort_events_canonical es), length-sort es)

row_counts-snoc :
    (ms : List SegmentMeta) (m : SegmentMeta)
    → row_counts (ms ++ m ∷ []) ≡ row_counts ms + m.row_count
row_counts-snoc [] m = omega arith
row_counts-snoc (n ∷ ms) m = omega (arith, row_counts-snoc ms m)

-- The rows of the segments that were written, where all were written.
abbrev pub CountsTo : ℕ → WriteResult → Type 0
CountsTo n (written ms) = row_counts ms ≡ n
CountsTo n (failed es) = Unit {0}

build_count :
    (id : String) (es : List UsageEvent) (b c : ℕ)
    → (build_segment_meta id (sort_events_canonical es) b c).row_count ≡ length es
unfolding build_segment_meta
build_count id es b c = length-sort es

count_end :
    (metas : List SegmentMeta) (answer : ℕ → WriteAnswer) (paths : List String) (files : Files)
    → CountsTo (row_counts metas + 0) (write_buckets answer metas paths [] files).0
unfolding write_buckets
count_end metas answer paths files = omega arith

pub write_bucket_done :
    (a : WriteAnswer) (b : ℕ) (es : List UsageEvent) (files : Files)
    → a.written ≡ true
    → write_bucket a b es files
      ≡ bucket_written
          (build_segment_meta a.segment_id (sort_events_canonical es) b a.checksum)
          (insert String_discrete a.segment_id (sort_events_canonical es) files)
unfolding write_bucket
write_bucket_done a b es files h = rw (write_bucket, h) refl

pub write_bucket_stop :
    (a : WriteAnswer) (b : ℕ) (es : List UsageEvent) (files : Files)
    → a.written ≡ false
    → write_bucket a b es files ≡ bucket_failed (remove String_discrete a.segment_id files)
unfolding write_bucket
write_bucket_stop a b es files h = rw (write_bucket, h) refl

-- One turn of the loop, by the answer for the bucket.
pub write_buckets_done :
    (answer : ℕ → WriteAnswer) (metas : List SegmentMeta) (paths : List String) (b : ℕ)
    (es : List UsageEvent) (rest : Buckets) (files : Files)
    → (answer b).written ≡ true
    → let a = answer b in
      let rows = sort_events_canonical es in
      write_buckets answer metas paths ((b, es) ∷ rest) files
      ≡ write_buckets answer
          (metas ++ build_segment_meta a.segment_id rows b a.checksum ∷ [])
          (paths ++ a.segment_id ∷ [])
          rest
          (insert String_discrete a.segment_id rows files)
unfolding write_buckets
write_buckets_done answer metas paths b es rest files h =
    rw (write_buckets, write_bucket_done (answer b) b es files h) refl

pub write_buckets_stop :
    (answer : ℕ → WriteAnswer) (metas : List SegmentMeta) (paths : List String) (b : ℕ)
    (es : List UsageEvent) (rest : Buckets) (files : Files)
    → (answer b).written ≡ false
    → write_buckets answer metas paths ((b, es) ∷ rest) files ≡ (
      failed (es ++ remaining rest),
      rollback_partial paths (remove String_discrete (answer b).segment_id files),
    )
unfolding write_buckets
write_buckets_stop answer metas paths b es rest files h =
    rw (write_buckets, write_bucket_stop (answer b) b es files h) refl

-- Where every bucket is written, the row counts of the new segments add up to the number of events in
-- the buckets.
pub write_buckets_count :
    (answer : ℕ → WriteAnswer) (metas : List SegmentMeta) (paths : List String) (bs : Buckets)
    (files : Files)
    → CountsTo
        (row_counts metas + length (remaining bs))
        (write_buckets answer metas paths bs files).0
unfolding remaining
write_buckets_count answer metas paths [] files = count_end metas answer paths files
write_buckets_count answer metas paths ((b, es) ∷ rest) files =
    let a = answer b in
    let rows = sort_events_canonical es in
    let m = build_segment_meta a.segment_id rows b a.checksum in
    elim (Bool-cases a.written) [
      | inl done ↦ rw (write_buckets_done answer metas paths b es rest files done) (
          subst
            (λ n.
              CountsTo n
                (write_buckets answer (metas ++ m ∷ []) (paths ++ a.segment_id ∷ []) rest
                  (insert String_discrete a.segment_id rows files)).0)
            (omega (
              arith,
              row_counts-snoc metas m,
              build_count a.segment_id es b a.checksum,
              length-append es (remaining rest),
            ))
            (write_buckets_count answer (metas ++ m ∷ []) (paths ++ a.segment_id ∷ []) rest
              (insert String_discrete a.segment_id rows files)))
      | inr not_done ↦ rw (write_buckets_stop answer metas paths b es rest files not_done) tt
    ]

-- Where every bucket is written, the row counts of the new segments add up to the number of the
-- flushed events.
pub flushed_count :
    (blake3 : List ℕ → List ℕ) (n : ℕ) (answer : ℕ → WriteAnswer) (es : List UsageEvent)
    (files : Files) (ms : List SegmentMeta)
    → (write_buckets answer [] [] (by_bucket blake3 n [] es) files).0 ≡ written ms
    → row_counts ms ≡ length es
unfolding remaining
flushed_count blake3 n answer es files ms h =
    let counted =
      subst (CountsTo (0 + length (remaining (by_bucket blake3 n [] es)))) h
        (write_buckets_count answer [] [] (by_bucket blake3 n [] es) files) in
    omega (arith, counted, length-by_bucket blake3 n [] es)
