-- ===== src/Tests/Flush.antt =====
-- Flushes of two events, of which one succeeds, one fails at its second bucket and one cannot save.
use usagedb.Prelude.{ℕ, ◌≡◌, refl, none, List, [], ◌∷◌, true, length, if◌then◌else◌, ◌==◌}
use usagedb.Prelude.Int.{pos}
use usagedb.Model.{UsageEvent}
use usagedb.Storage.Manifest.{SegmentMeta, default_manifest}
use usagedb.Storage.Generations.{no_sync}
use usagedb.Ingest.Segments.{build_segment_meta, sort_events_canonical}
use usagedb.Prelude.{arith}
use usagedb.Ingest.Segments.Bounds.{AllI64}
use usagedb.Ingest.Flusher.Described.{AllOf, WrittenFaithful, write_bucket-Faithful}
use usagedb.Ingest.Flusher.{write_bucket}
use usagedb.Ingest.Flusher.{
  Buckets, WriteAnswer, FlushAnswers, FlushState, WriteResult, written, by_bucket, write_buckets,
}
use usagedb.Ingest.Flusher.Commits.{row_counts, flushed_count}
use usagedb.Ingest.Wal.{whole}
use usagedb.Tests.Data.{first, second, sample_env, empty_dir, empty_state}

abbrev write : ℕ → WriteAnswer
write b = record { segment_id = "s"; checksum = 0; written = true }

-- Everything is in one bucket.
abbrev metas : List SegmentMeta
metas = build_segment_meta "s" (sort_events_canonical (first ∷ second ∷ [])) 0 0 ∷ []

all_written :
    (write_buckets write [] [] (by_bucket sample_env.blake3 1 [] (first ∷ second ∷ [])) []).0
    ≡ written metas
unfolding write_buckets usagedb.Ingest.Flusher.write_bucket by_bucket
    usagedb.Ingest.Flusher.push_event usagedb.Model.bucket_for_account usagedb.Model.from_le_bytes
    usagedb.Model.as_bytes usagedb.Prelude.Text.utf8 usagedb.Prelude.Text.utf8_char
all_written = refl

flushed_count_example : row_counts metas ≡ 2
flushed_count_example =
    flushed_count sample_env.blake3 1 write (first ∷ second ∷ []) [] metas all_written

abbrev fail_second : ℕ → WriteAnswer
fail_second b = record { segment_id = if b == 0 then "s" else "t"; checksum = 0; written = b == 0 }

abbrev two_buckets : Buckets
two_buckets = (0, first ∷ []) ∷ (1, second ∷ []) ∷ []

abbrev unsynced : FlushAnswers
unsynced = record {
  write = write;
  saves = record { steps = no_sync; prunes = λ g. true };
  deletes = true;
  clock = λ i. pos 60;
}

abbrev state : FlushState
state = record {
  memtable = empty_state.memtable;
  manifest = default_manifest;
  manifest_dir = empty_dir;
  files = [];
  wal_dir = (1, record { durable = whole "a" ∷ []; cached = [] }) ∷ [];
}

in_range : AllI64 (second ∷ first ∷ [])
in_range = ((omega arith, omega arith), ((omega arith, omega arith), tt))

in_bucket : AllOf sample_env.blake3 1 0 (second ∷ first ∷ [])
unfolding usagedb.Model.bucket_for_account usagedb.Model.from_le_bytes usagedb.Model.as_bytes
    usagedb.Prelude.Text.utf8 usagedb.Prelude.Text.utf8_char
in_bucket = (refl, (refl, tt))

write_bucket-Faithful_example :
    WrittenFaithful sample_env.blake3 1 (write_bucket (write 0) 0 (second ∷ first ∷ []) [])
write_bucket-Faithful_example =
    write_bucket-Faithful sample_env.blake3 1 (write 0) 0 (second ∷ first ∷ []) [] in_range
      in_bucket
