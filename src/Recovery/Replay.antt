-- ===== src/Recovery/Replay.antt =====
-- src/runtime/recovery.rs: the replay of the log's files.
use usagedb.Prelude.{
  ℕ, ◌<◌, ◌≡◌, refl, sym, ap, ◌∙◌, Bool, true, Option, none, some, List, [], ◌∷◌, ◌++◌, String, ltb,
  ltb→lt, arith, All, ℕ_discrete, append_assoc, append-nil, Bool-cases, inl, inr, if◌then◌else◌,
}
use usagedb.Prelude.Int.{ℤ}
use usagedb.Prelude.Map.{get}
use usagedb.Model.{UsageEvent}
use usagedb.Ingest.Dedupe.{HotDedupe}
use usagedb.Ingest.Memtable
use usagedb.Ingest.Wal.{
  Dir, WalFile, file_at, file_or_empty, list_files_after, replay_file, delete_files_through,
  insert_sorted,
}
use usagedb.Ingest.Wal.Files.{get-delete}
use usagedb.Ingest.Handler.{Env, compute_event_hashes}
use usagedb.Recovery.{
  RecoveryAnswers, Rebuilt, register, recover_event, recover_events, replay_files,
}
use usagedb.Recovery.Known.{knows, insert_known-knows, register-keeps}

-- Every event of the memtable is known to the cache.
abbrev pub AllKnown : Env → HotDedupe → List UsageEvent → Type 0
AllKnown env d es = All (λ (e : UsageEvent). knows env d e ≡ true) es

register-AllKnown :
    (env : Env) (x : UsageEvent) (d : HotDedupe) (es : List UsageEvent)
    → AllKnown env d es
    → AllKnown env (register env x d) (es ++ x ∷ [])
unfolding register
register-AllKnown env x d [] k =
    let (id_hash, payload_hash) = compute_event_hashes env x in
    (insert_known-knows id_hash payload_hash x.ingested_at_ms d, tt)
register-AllKnown env x d (e ∷ es) k =
    (register-keeps env x (compute_event_hashes env e).0 d k.0, register-AllKnown env x d es k.1)

recover_events-AllKnown :
    (env : Env) (clock : ℕ → ℤ) (es : List UsageEvent) (r : Rebuilt)
    → AllKnown env r.dedupe r.memtable.events
    → let r' = recover_events env clock es r in AllKnown env r'.dedupe r'.memtable.events
unfolding recover_events recover_event Memtable.insert
recover_events-AllKnown env clock [] r k = k
recover_events-AllKnown env clock (e ∷ es) r k =
    recover_events-AllKnown env clock es (recover_event env clock e r)
      (register-AllKnown env e r.dedupe r.memtable.events k)

recover_events-memtable :
    (env : Env) (clock : ℕ → ℤ) (es : List UsageEvent) (r : Rebuilt)
    → (recover_events env clock es r).memtable.events ≡ r.memtable.events ++ es
unfolding recover_events recover_event Memtable.insert
recover_events-memtable env clock [] r = sym (append-nil r.memtable.events)
recover_events-memtable env clock (e ∷ es) r =
    recover_events-memtable env clock es (recover_event env clock e r)
    ∙ append_assoc r.memtable.events (e ∷ []) es

-- The events of some files of the log, one file after the other.
unfoldable pub all_events :
    (String → Option UsageEvent) → (String → Bool) → Dir → List ℕ → List UsageEvent
all_events from_json blank dir [] = []
all_events from_json blank dir (id ∷ ids) =
    replay_file from_json blank dir id ++ all_events from_json blank dir ids

-- What a replay yields: the memtable has the events behind those it had, and all are known.
abbrev pub Replayed : Env → List UsageEvent → Option Rebuilt → Type 0
Replayed env es none = Unit
Replayed env es (some r) = (r.memtable.events ≡ es) × AllKnown env r.dedupe r.memtable.events

pub Replayed-same :
    (env : Env) (es fs : List UsageEvent) (r : Option Rebuilt)
    → es ≡ fs
    → Replayed env es r
    → Replayed env fs r
Replayed-same env es fs none h k = tt
Replayed-same env es fs (some r) h k = (k.0 ∙ h, k.1)

pub replay_files-Replayed :
    (env : Env) (a : RecoveryAnswers) (dir : Dir) (ids : List ℕ) (r : Rebuilt)
    → AllKnown env r.dedupe r.memtable.events
    → Replayed env
        (r.memtable.events ++ all_events a.from_json a.blank dir ids)
        (replay_files env a dir ids r)
unfolding replay_files all_events
replay_files-Replayed env a dir [] r k = (sym (append-nil r.memtable.events), k)
replay_files-Replayed env a dir (id ∷ ids) r k =
    let here = replay_file a.from_json a.blank dir id in
    let later = all_events a.from_json a.blank dir ids in
    let r' = recover_events env a.clock here r in
    elim (Bool-cases (a.wal_read id)) [
      | inr broken ↦ rw (replay_files, broken) tt
      | inl fine ↦
          rw (replay_files, fine)
            (Replayed-same env (r'.memtable.events ++ later) (r.memtable.events ++ (here ++ later))
              (replay_files env a dir ids r')
              (ap (λ (t : List UsageEvent). t ++ later) (recover_events-memtable env a.clock here r)
                ∙ append_assoc r.memtable.events here later)
              (replay_files-Replayed env a dir ids r'
                (recover_events-AllKnown env a.clock here r k)))
    ]

above : (n id : ℕ) (f : Option WalFile) → n < id → (if ltb n id then f else none) ≡ f
above n id f h = ground (arith, h)

-- Deleting sealed files changes no file that is replayed.
replay-delete :
    (from_json : String → Option UsageEvent) (blank : String → Bool) (dir : Dir) (n id : ℕ)
    → n < id
    → replay_file from_json blank (delete_files_through dir n) id
      ≡ replay_file from_json blank dir id
unfolding replay_file file_at
replay-delete from_json blank dir n id h =
    let at : Option WalFile → List UsageEvent = λ f.
      let file = file_or_empty f in
      usagedb.Ingest.Wal.replay_lines from_json blank
        (usagedb.Ingest.Wal.file_lines (file.durable ++ file.cached)) in
    ap at (get-delete n id dir ∙ above n id (get ℕ_discrete id dir) h)

insert_sorted-above :
    (n id : ℕ) (ids : List ℕ)
    → n < id
    → All (λ (i : ℕ). n < i) ids
    → All (λ (i : ℕ). n < i) (insert_sorted id ids)
unfolding insert_sorted
insert_sorted-above n id [] h k = (h, tt)
insert_sorted-above n id (i ∷ ids) h k =
    ground (arith, h, k.0, k.1, insert_sorted-above n id ids h k.1)

pub list_files_after-above : (dir : Dir) (n : ℕ) → All (λ (i : ℕ). n < i) (list_files_after dir n)
unfolding list_files_after
list_files_after-above [] n = tt
list_files_after-above ((id, f) ∷ dir) n = elim (Bool-cases (ltb n id)) [
  | inl later ↦ rw later (
      insert_sorted-above n id (list_files_after dir n) (ltb→lt n id later)
        (list_files_after-above dir n))
  | inr sealed ↦ rw sealed (list_files_after-above dir n)
]

pub all_events-delete :
    (from_json : String → Option UsageEvent) (blank : String → Bool) (dir : Dir) (n : ℕ)
    (ids : List ℕ)
    → All (λ (i : ℕ). n < i) ids
    → all_events from_json blank (delete_files_through dir n) ids
      ≡ all_events from_json blank dir ids
unfolding all_events
all_events-delete from_json blank dir n [] h = refl
all_events-delete from_json blank dir n (id ∷ ids) h =
    rw (replay-delete from_json blank dir n id h.0, all_events-delete from_json blank dir n ids h.1)
      refl
