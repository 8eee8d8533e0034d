-- ===== src/Ingest/Flusher/Described.antt =====
-- `write_bucket` of src/ingest/flusher.rs: the written segment, as a query reads it.
use usagedb.Prelude.{ℕ, ◌≡◌, refl, ◌∙◌, some, List, [], ◌∷◌, All, Bool-cases, inl, inr, if_pos}
use usagedb.Prelude.Map.{get, get-insert}
use usagedb.Prelude.Text.{String_discrete}
use usagedb.Model.{UsageEvent, bucket_for_account}
use usagedb.Storage.Manifest.{SegmentMeta}
use usagedb.Ingest.Segments.{
  insert_event, sort_events_canonical, build_segment_meta, is_greater, cmp_events,
}
use usagedb.Ingest.Segments.Bounds.{AllI64, Describes, build_segment_meta-Describes}
use usagedb.Ingest.Flusher.{
  Files, WriteAnswer, BucketResult, bucket_written, bucket_failed, write_bucket,
}
use usagedb.Ingest.Flusher.Commits.{write_bucket_done, write_bucket_stop}
use usagedb.Query.Scan.{Faithful, FaithfulFile}

All-insert_event :
    (P : UsageEvent → Type 0) (e : UsageEvent) (es : List UsageEvent)
    → P e
    → All P es
    → All P (insert_event e es)
unfolding insert_event
All-insert_event P e [] p h = (p, tt)
All-insert_event P e (d ∷ ds) p h = elim (Bool-cases (is_greater (cmp_events e d))) [
  | inl later ↦ rw later (h.0, All-insert_event P e ds p h.1)
  | inr here ↦ rw here (p, h)
]

All-sort :
    (P : UsageEvent → Type 0) (es : List UsageEvent) → All P es → All P (sort_events_canonical es)
unfolding sort_events_canonical
All-sort P [] h = tt
All-sort P (e ∷ es) h = All-insert_event P e (sort_events_canonical es) h.0 (All-sort P es h.1)

-- All events are in the bucket.
abbrev pub AllOf : (List ℕ → List ℕ) → ℕ → ℕ → List UsageEvent → Type 0
AllOf blake3 n b es = All (λ (e : UsageEvent). b ≡ bucket_for_account blake3 e.account_id n) es

both :
    (blake3 : List ℕ → List ℕ) (n : ℕ) (s : SegmentMeta) (es : List UsageEvent)
    → All (Describes s) es
    → AllOf blake3 n s.bucket es
    → Faithful blake3 n s es
both blake3 n s [] d b = tt
both blake3 n s (e ∷ es) d b = ((d.0, b.0), both blake3 n s es d.1 b.1)

-- A bucket that was written can be read under its segment's identifier, with rows that its metadata
-- describes.
abbrev pub WrittenFaithful : (List ℕ → List ℕ) → ℕ → BucketResult → Type 0
WrittenFaithful blake3 n (bucket_written m files) =
    FaithfulFile blake3 n m (get String_discrete m.segment_id files)
WrittenFaithful blake3 n (bucket_failed files) = Unit {0}

rows-Faithful :
    (blake3 : List ℕ → List ℕ) (n : ℕ) (a : WriteAnswer) (b : ℕ) (es : List UsageEvent)
    → AllI64 es
    → AllOf blake3 n b es
    → Faithful blake3 n
        (build_segment_meta a.segment_id (sort_events_canonical es) b a.checksum)
        (sort_events_canonical es)
unfolding build_segment_meta
rows-Faithful blake3 n a b es r h =
    let rows = sort_events_canonical es in
    both blake3 n (build_segment_meta a.segment_id rows b a.checksum) rows
      (build_segment_meta-Describes a.segment_id rows b a.checksum (All-sort _ es r))
      (All-sort _ es h)

-- When a bucket is written, its file holds rows that the segment's metadata describes, all in the
-- segment's bucket. The timestamps are 64-bit and the events are those of the bucket.
pub write_bucket-Faithful :
    (blake3 : List ℕ → List ℕ) (n : ℕ) (a : WriteAnswer) (b : ℕ) (es : List UsageEvent)
    (files : Files)
    → AllI64 es
    → AllOf blake3 n b es
    → WrittenFaithful blake3 n (write_bucket a b es files)
unfolding build_segment_meta
write_bucket-Faithful blake3 n a b es files r h = elim (Bool-cases a.written) [
  | inl done ↦ rw (write_bucket_done a b es files done) (
      rw
        (get-insert String_discrete a.segment_id a.segment_id (sort_events_canonical es) files
          ∙ if_pos (String_discrete a.segment_id a.segment_id) refl
              (some (sort_events_canonical es)) (get String_discrete a.segment_id files))
        (rows-Faithful blake3 n a b es r h))
  | inr not_done ↦ rw (write_bucket_stop a b es files not_done) tt
]
