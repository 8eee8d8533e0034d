-- ===== src/Ingest/Flusher.antt =====
-- src/ingest/flusher.rs: `handle_message`, `attempt_flush`, `write_bucket` and `rollback_partial`.
-- The segment files map a segment's identifier (a fresh uuid) to its rows; that a file is read back as
-- the rows that were written is the contract of the segment format, which is not part of this model.
-- The dedupe sidecar of a segment is left out: its failure is only logged. The answers of the
-- operating system are parameters.
pub mod Commits
pub mod Losses
pub mod Described
use usagedb.Prelude.{
  ℕ, suc, ◌+◌, Bool, true, false, Option, none, some, List, [], ◌∷◌, ◌++◌, map, String, ltb, ◌==◌,
  if◌then◌else◌,
}
use usagedb.Prelude.Int.{ℤ}
use usagedb.Prelude.Text.{String_discrete}
use usagedb.Prelude.Map.{insert, remove}
use usagedb.Model.{UsageEvent, bucket_for_account, at_least_one}
use usagedb.Storage.Manifest.{Manifest, SegmentMeta}
use usagedb.Storage.Generations.{ManifestDir, SaveAnswers, save}
use usagedb.Ingest.Memtable
use usagedb.Ingest.Memtable.{Memtable}
use usagedb.Ingest.Wal.{Dir, delete_files_through}
use usagedb.Ingest.Handler.{FlushMessage}
use usagedb.Ingest.Segments.{sort_events_canonical, build_segment_meta}

abbrev pub Files : Type 0
Files = List (String × List UsageEvent)

abbrev pub Buckets : Type 0
Buckets = List (ℕ × List UsageEvent)

-- `by_bucket.entry(bucket).or_default().push(event)` on a `BTreeMap`.
unfoldable pub push_event : ℕ → UsageEvent → Buckets → Buckets
push_event bucket e [] = (bucket, e ∷ []) ∷ []
push_event bucket e ((b, es) ∷ rest) =
    let later = (b, es) ∷ push_event bucket e rest in
    if bucket == b
    then (b, es ++ e ∷ []) ∷ rest
    else if ltb bucket b
    then (bucket, e ∷ []) ∷ (b, es) ∷ rest
    else later

unfoldable pub by_bucket : (List ℕ → List ℕ) → ℕ → Buckets → List UsageEvent → Buckets
unfolding push_event
by_bucket blake3 bucket_count acc [] = acc
by_bucket blake3 bucket_count acc (e ∷ es) =
    by_bucket blake3 bucket_count
      (push_event (bucket_for_account blake3 e.account_id bucket_count) e acc) es

-- The identifier, the checksum and the success of the writing of one bucket.
pub record WriteAnswer : Type 0 where
  pub segment_id : String
  pub checksum : ℕ
  pub written : Bool

pub record FlushAnswers : Type 0 where
  pub write : ℕ → WriteAnswer
  pub saves : SaveAnswers
  pub deletes : Bool
  pub clock : ℕ → ℤ

-- The metadata, or a failure, and the files afterwards.
pub data BucketResult : Type 0 where
  bucket_written : SegmentMeta → Files → BucketResult
  bucket_failed : Files → BucketResult

-- The failed file is removed.
unfoldable pub write_bucket : WriteAnswer → ℕ → List UsageEvent → Files → BucketResult
write_bucket a bucket bucket_events files =
    let rows = sort_events_canonical bucket_events in
    if a.written
    then bucket_written (build_segment_meta a.segment_id rows bucket a.checksum)
        (insert String_discrete a.segment_id rows files)
    else bucket_failed (remove String_discrete a.segment_id files)

unfoldable pub rollback_partial : List String → Files → Files
rollback_partial [] files = files
rollback_partial (id ∷ ids) files = rollback_partial ids (remove String_discrete id files)

unfoldable pub remaining : Buckets → List UsageEvent
remaining [] = []
remaining ((b, es) ∷ rest) = es ++ remaining rest

-- `failed` holds the events of `FlushFailure`.
pub data WriteResult : Type 0 where
  written : List SegmentMeta → WriteResult
  failed : List UsageEvent → WriteResult

-- The loop over the buckets, with the metadata and the paths so far.
unfoldable pub write_buckets :
    (ℕ → WriteAnswer) → List SegmentMeta → List String → Buckets → Files → WriteResult × Files
unfolding rollback_partial remaining
write_buckets answer metas paths [] files = (written metas, files)
write_buckets answer metas paths ((bucket, es) ∷ rest) files =
    elim (write_bucket (answer bucket) bucket es files) [
      | bucket_written m files' ↦
          write_buckets answer (metas ++ m ∷ []) (paths ++ (answer bucket).segment_id ∷ []) rest
            files'
      | bucket_failed files' ↦ (failed (es ++ remaining rest), rollback_partial paths files')
    ]

unfoldable pub commit_metas : List SegmentMeta → ℕ → Manifest → Manifest
commit_metas metas sealed_wal_id m = record m {
  raw_segments = m.raw_segments ++ metas;
  last_sealed_wal_id =
      if ltb m.last_sealed_wal_id sealed_wal_id then sealed_wal_id else m.last_sealed_wal_id;
}

pub record FlushState : Type 0 where
  pub memtable : Memtable
  pub manifest : Manifest
  pub manifest_dir : ManifestDir
  pub files : Files
  pub wal_dir : Dir

-- A failed removal of sealed WAL files is only logged.
unfoldable pub delete_sealed : Bool → ℕ → Dir → Dir
delete_sealed true sealed_wal_id dir = delete_files_through dir sealed_wal_id
delete_sealed false sealed_wal_id dir = dir

-- `none` is `Ok(())`, `some` the events of the failure.
unfoldable pub commit_manifest :
    FlushAnswers → List SegmentMeta → ℕ → FlushState → Option (List UsageEvent) × FlushState
unfolding commit_metas delete_sealed rollback_partial
commit_manifest a metas sealed_wal_id s =
    let (ok, (manifest', dir')) =
      save a.saves (commit_metas metas sealed_wal_id s.manifest) s.manifest_dir in
    if ok
    then (
      none,
      record s {
        manifest = manifest';
        manifest_dir = dir';
        wal_dir = delete_sealed a.deletes sealed_wal_id s.wal_dir;
      },
    )
    else (
      some [],
      record s {
        manifest = manifest';
        manifest_dir = dir';
        files = rollback_partial (map (λ (m : SegmentMeta). m.segment_id) metas) s.files;
      },
    )

unfoldable pub attempt_flush :
    (List ℕ → List ℕ)
    → FlushAnswers
    → List UsageEvent
    → ℕ
    → FlushState
    → Option (List UsageEvent) × FlushState
unfolding write_buckets write_bucket by_bucket commit_manifest
attempt_flush blake3 a events sealed_wal_id s =
    let buckets = by_bucket blake3 (at_least_one s.manifest.bucket_count) [] events in
    let (result, files') = write_buckets a.write [] [] buckets s.files in
    elim result [
      | failed es ↦ (some es, record s { files = files' })
      | written metas ↦ commit_manifest a metas sealed_wal_id (record s { files = files' })
    ]

unfoldable pub reinsert : ℕ → (ℕ → ℤ) → ℕ → List UsageEvent → Memtable → Memtable
reinsert base clock i [] m = m
reinsert base clock i (e ∷ es) m =
    reinsert base clock (i + 1) es (Memtable.insert base (clock i) e m)

unfoldable pub reinsert_failed : ℕ → (ℕ → ℤ) → Option (List UsageEvent) → FlushState → FlushState
unfolding reinsert
reinsert_failed base clock none s = s
reinsert_failed base clock (some es) s = record s { memtable = reinsert base clock 0 es s.memtable }

unfoldable pub handle_events :
    (List ℕ → List ℕ) → ℕ → FlushAnswers → List UsageEvent → ℕ → FlushState → FlushState
unfolding attempt_flush reinsert_failed
handle_events blake3 base a [] sealed_wal_id s = s
handle_events blake3 base a (e ∷ es) sealed_wal_id s =
    let (failure, s') = attempt_flush blake3 a (e ∷ es) sealed_wal_id s in
    reinsert_failed base a.clock failure s'

unfoldable pub handle_message :
    (List ℕ → List ℕ) → ℕ → FlushAnswers → FlushMessage → FlushState → FlushState
unfolding handle_events
handle_message blake3 base a msg s = handle_events blake3 base a msg.events msg.sealed_wal_id s
