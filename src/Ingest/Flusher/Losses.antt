-- ===== src/Ingest/Flusher/Losses.antt =====
-- src/ingest/flusher.rs: what a failed flush puts back, and what it leaves in the manifest.
use usagedb.Prelude.{ℕ, ◌≡◌, none, List, [], ◌∷◌, ◌++◌, String, if◌then◌else◌, All}
use usagedb.Prelude.Map.{get}
use usagedb.Prelude.Text.{String_discrete}
use usagedb.Model.{UsageEvent}
use usagedb.Storage.Manifest.{Manifest}
use usagedb.Ingest.Flusher.{Files, Buckets, WriteAnswer, WriteResult, written, failed}

-- The events of the buckets up to the first whose write fails, and of those from there on.
abbrev pub before_failure : (ℕ → WriteAnswer) → Buckets → List UsageEvent
before_failure answer [] = []
before_failure answer ((b, es) ∷ rest) =
    if (answer b).written then es ++ before_failure answer rest else []

abbrev pub put_back : WriteResult → List UsageEvent
put_back (written ms) = []
put_back (failed es) = es

-- The identifiers of the segments up to the first whose write fails, that one included.
abbrev pub tried : (ℕ → WriteAnswer) → Buckets → List String
tried answer [] = []
tried answer ((b, es) ∷ rest) =
    (answer b).segment_id ∷ (if (answer b).written then tried answer rest else [])

abbrev pub AreGone : List String → Files → Type 0
AreGone ids files = All (λ (id : String). get String_discrete id files ≡ none) ids

-- What the loop over the buckets leaves of the files.
abbrev pub RolledBack : List String → WriteResult × Files → Type 0
RolledBack ids (written ms, files) = Unit
RolledBack ids (failed es, files) = AreGone ids files
