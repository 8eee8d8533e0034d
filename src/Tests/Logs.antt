-- ===== src/Tests/Logs.antt =====
-- Validation, the hot cache, the memtable and the write-ahead log on small inputs.
use usagedb.Prelude.{◌≡◌, ◌≤◌, refl, some, [], ◌∷◌, String, ℕ_discrete, Bool, false, Option}
use usagedb.Prelude.Int.{pos}
use usagedb.Prelude.Map.{get}
use usagedb.Model.{UsageEvent}
use usagedb.Ingest.Dedupe.{
  HotDedupe, new_event, exact_duplicate, payload_conflict, classify, commit, len,
}
use usagedb.Ingest.Dedupe.Order.{IsValid}
use usagedb.Ingest.Dedupe.Commit.{after_commit, commit-fifo}
use usagedb.Ingest.Dedupe.Lookup.{len-commit-le}
use usagedb.Ingest.Memtable
use usagedb.Ingest.Memtable.{insert-IsValid}
use usagedb.Ingest.Wal.{Dir, whole}
use usagedb.Ingest.Wal.Files.{HasJson}
use usagedb.Tests.Data.{first, sample_env}

-- Two known events in a cache that is full.
abbrev full : HotDedupe
full = record {
  cache =
      (7, record { payload_hash = 9; first_seen_ms = pos 100 })
      ∷ (8, record { payload_hash = 3; first_seen_ms = pos 200 })
      ∷ [];
  order = (7, pos 100) ∷ (8, pos 200) ∷ [];
  max_capacity = 2;
  ttl_ms = pos 1000;
}

full-IsValid : IsValid full
unfolding get ℕ_discrete
full-IsValid = record { parallel = (refl, refl, refl, (refl, refl, refl, tt)) }

unseen : classify full 5 6 ≡ new_event
unfolding classify get ℕ_discrete usagedb.Ingest.Dedupe.against
unseen = refl

commit-fifo_example :
    (commit (pos 300) (pos 301) 5 6 full).cache ≡ after_commit (pos 300) (pos 301) 5 6 full
commit-fifo_example = commit-fifo (pos 300) (pos 301) 5 6 full full-IsValid

len-commit-le_example : len (commit (pos 300) (pos 301) 5 6 full) ≤ 2
len-commit-le_example = len-commit-le (pos 300) (pos 301) 5 6 full full-IsValid unseen

one-IsValid : Memtable.IsValid 200 (Memtable.insert 200 (pos 5) first Memtable.new)
one-IsValid = insert-IsValid 200 (pos 5) first Memtable.new (Memtable.new-IsValid 200)

abbrev wal_dir : Dir
wal_dir =
    (3, record { durable = whole "c" ∷ []; cached = [] })
    ∷ (1, record { durable = whole "a" ∷ []; cached = [] })
    ∷ (2, record { durable = whole "b" ∷ []; cached = [] })
    ∷ []

abbrev parse : String → Option UsageEvent
parse s = some first

abbrev never_blank : String → Bool
never_blank s = false

first-HasJson : HasJson sample_env.to_json parse never_blank first
first-HasJson = ("a", refl, refl, refl)
