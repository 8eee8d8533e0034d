-- ===== src/Ingest/Handler/Failures.antt =====
-- What an ingest call leaves behind when a write, a sync or a rotation fails, and what is on the disk
-- when it succeeds in Strict mode.
use usagedb.Prelude.{
  ℕ, ◌≡◌, ◌<◌, ◌≢◌, sym, ◌∙◌, subst, ◌⊎◌, inl, inr, Bool, true, false, List, [], ◌∷◌, ◌++◌, ltb,
  arith, length, map, Bool-cases,
}
use usagedb.Ingest.Memtable.{drain_all}
use usagedb.Ingest.Wal.{Fragment, Wal, file_at, append_batch, sync, rotate, open_next}
use usagedb.Ingest.Wal.Files.{
  lines_of, append_batch_buffer, sync_durable, sync_keeps, sync_ids, file_at-create,
}
use usagedb.Ingest.Handler.{
  Env, Answers, Config, DurabilityMode, strict, fast, State, Classified, IngestOutcome, AppError,
  wal_rotate_failed, Result, ok, err, Sorted, sort_batch, commit_all, drain, finish,
  ingest_critical_section, log_batch, make_durable,
}
use usagedb.Ingest.Handler.Counts.{Result-cases, finished, finish_count}

log_batch_error :
    (env : Env) (mode : DurabilityMode) (a : Answers) (cs : List Classified) (w : Wal)
    (e : AppError)
    → (log_batch env mode a cs w).0 ≡ err e
    → e ≢ wal_rotate_failed
unfolding log_batch make_durable
log_batch_error env mode a [] w e h = cc
log_batch_error env strict a (c ∷ cs) w e h = ground arith
log_batch_error env fast a (c ∷ cs) w e h = ground arith

finish_error :
    (config : Config) (a : Answers) (n : ℕ) (r : Sorted) (s s' : State) (e : AppError)
    → finish config a n r s ≡ (err e, s')
    → (e ≡ wal_rotate_failed) × (s'.dedupe ≡ s.dedupe) × (s'.memtable.events ≡ [])
unfolding finish drain drain_all
finish_error config a n r s s' e h = ground arith

-- A call that fails in the log (append, sync or flush) changes neither the dedupe cache nor the
-- memtable, so a retry is classified as before. A call that fails in the rotation has committed the
-- batch to the dedupe cache, and has emptied the memtable into no message.
pub critical_section_error :
    (env : Env) (config : Config) (a : Answers) (cs : List Classified) (n : ℕ) (s s' : State)
    (e : AppError)
    → ingest_critical_section env config a cs n s ≡ (err e, s')
    → ((e ≢ wal_rotate_failed) × (s'.dedupe ≡ s.dedupe) × (s'.memtable ≡ s.memtable))
      ⊎ ((e ≡ wal_rotate_failed)
          × (s'.dedupe
              ≡ (commit_all env a.clock 0
                  (sort_batch s.dedupe [] cs).new_events
                  (s.dedupe, s.memtable)).0)
          × (s'.memtable.events ≡ []))
unfolding ingest_critical_section
critical_section_error env config a cs n s s' e h =
    let sorted = sort_batch s.dedupe [] cs in
    let logged = log_batch env config.durability_mode a sorted.new_events s.wal in
    elim (Result-cases logged.0) [
      | inl (w, q) ↦
          (let kept = commit_all env a.clock 0 sorted.new_events (s.dedupe, s.memtable) in
            let s1 : State = record { dedupe = kept.0; wal = logged.1; memtable = kept.1 } in
            inr (finish_error config a n sorted s1 s' e (ground arith)))
      | inr (x, q) ↦ inl (
        ground (arith, log_batch_error env config.durability_mode a sorted.new_events s.wal x q),
        ground arith,
        ground arith,
      )
    ]

-- Everything that was in a file and its buffer, with the lines of some events behind it.
abbrev pub logged_lines : Env → List Classified → Wal → List Fragment
logged_lines env cs w =
    let f = file_at w.writer_id w.dir in
    f.durable
    ++ (f.cached ++ (w.buffer ++ lines_of env.to_json (map (λ (c : Classified). c.event) cs)))

-- The state of the log after a batch is durable: nothing in the buffer or in the kernel.
record IsSynced (lines : List Fragment) (w w' : Wal) : Type 0 where
  file : file_at w.writer_id w'.dir ≡ record { durable = lines; cached = [] }
  buffer : w'.buffer ≡ []
  writer : w'.writer_id ≡ w.writer_id
  active : w'.active_id ≡ w.active_id

with_first : (r : Bool × Wal) → r.0 ≡ true → r ≡ (true, r.1)
with_first r e = λ i. (e i, r.1)

-- A sync of the log with some lines in its buffer.
sync_lines :
    (f y : Bool) (w w1 : Wal) (lines : List Fragment)
    → w1 ≡ record w { buffer = lines }
    → (sync f y w1).0 ≡ true
    → (let old = file_at w.writer_id w.dir in
        IsSynced (old.durable ++ (old.cached ++ lines)) w (sync f y w1).1)
sync_lines f y w w1 lines a =
    let filled : Wal = record w { buffer = lines } in
    let old = file_at w.writer_id w.dir in
    subst
      (λ v.
        (sync f y v).0 ≡ true → IsSynced (old.durable ++ (old.cached ++ lines)) w (sync f y v).1)
      (sym a)
      (λ q.
        let d = sync_durable f y filled (sync f y filled).1 (with_first (sync f y filled) q) in
        let ids = sync_ids f y filled in
        record { file = d.0; buffer = d.1; writer = ids.0; active = ids.1 })

log_batch_strict :
    (env : Env) (a : Answers) (c : Classified) (cs : List Classified) (w w' : Wal)
    → (log_batch env strict a (c ∷ cs) w).0 ≡ ok w'
    → IsSynced (logged_lines env (c ∷ cs) w) w (log_batch env strict a (c ∷ cs) w).1
unfolding log_batch make_durable
log_batch_strict env a c cs w w' h =
    let es = map (λ (c : Classified). c.event) (c ∷ cs) in
    let r = append_batch env.to_json a.written 0 es w in
    let p : r.0 ≡ true = ground arith in
    let q : (sync a.flushed a.synced r.1).0 ≡ true = ground arith in
    let filled = append_batch_buffer env.to_json a.written 0 es w r.1 (with_first r p) in
    rw p (sync_lines a.flushed a.synced w r.1 _ filled q)

-- A rotation, failing or not, loses no durable line of the file that it seals.
rotate_durable :
    (f y o : Bool) (w : Wal) (lines : List Fragment)
    → w.buffer ≡ []
    → file_at w.writer_id w.dir ≡ record { durable = lines; cached = [] }
    → file_at w.writer_id (rotate f y o w).1.dir ≡ record { durable = lines; cached = [] }
unfolding rotate open_next
rotate_durable f y o w lines empty h = elim (Bool-cases (sync f y w).0) [
  | inl done ↦ rw done (opened o)
  | inr failed ↦ rw failed (sync_keeps f y w lines empty h)
]
  where
    opened :
        (o : Bool)
        → file_at w.writer_id (open_next o (sync f y w).1).1.dir
          ≡ record { durable = lines; cached = [] }
    opened false = sync_keeps f y w lines empty h
    opened true = file_at-create _ w.writer_id _ ∙ sync_keeps f y w lines empty h

finish_wal :
    (config : Config) (a : Answers) (n : ℕ) (r : Sorted) (s s' : State) (x : Result IngestOutcome)
    → finish config a n r s ≡ (x, s')
    → (s'.wal ≡ s.wal)
      ⊎ (s'.wal ≡ (rotate a.rotate_flushed a.rotate_synced a.rotate_opened s.wal).1)
unfolding finish drain drain_all
finish_wal config a n r s s' x h =
    elim (Bool-cases (ltb config.max_memtable_size_bytes s.memtable.approx_size_bytes)) [
      | inl over ↦ inr (ground arith)
      | inr fits ↦ inl (ground arith)
    ]

log-IsSynced :
    (env : Env) (a : Answers) (mode : DurabilityMode) (cs : List Classified) (w w' : Wal)
    → mode ≡ strict
    → 0 < length cs
    → (log_batch env mode a cs w).0 ≡ ok w'
    → IsSynced (logged_lines env cs w) w (log_batch env mode a cs w).1
log-IsSynced env a mode [] w w' m some_new h = absurd (omega arith)
log-IsSynced env a strict (c ∷ cs) w w' m some_new h = log_batch_strict env a c cs w w' h
log-IsSynced env a fast (c ∷ cs) w w' m some_new h = cc

-- In Strict mode a call that succeeds has made every line of the batch's new events durable, behind
-- all that was in the active file before, whether or not it went on to rotate the log.
pub strict_durable :
    (env : Env) (config : Config) (a : Answers) (cs : List Classified) (n : ℕ) (s s' : State)
    (o : IngestOutcome)
    → config.durability_mode ≡ strict
    → ingest_critical_section env config a cs n s ≡ (ok o, s')
    → 0 < o.accepted
    → file_at s.wal.writer_id s'.wal.dir ≡ record {
      durable = logged_lines env (sort_batch s.dedupe [] cs).new_events s.wal;
      cached = [];
    }
strict_durable env config a cs n s s' o mode h some_new =
    let new = (sort_batch s.dedupe [] cs).new_events in
    let f = finished env config a cs n s s' o h in
    let counts = finish_count config a n _ _ s' o f.2 in
    let w1 = (log_batch env config.durability_mode a new s.wal).1 in
    let synced =
      log-IsSynced env a config.durability_mode new s.wal f.0 mode (omega (arith, counts)) f.1 in
    elim (finish_wal config a n _ _ s' (ok o) f.2) [
      | inl same ↦ rw same synced.file
      | inr rotated ↦ rw rotated (
          subst
            (λ id.
              file_at id (rotate a.rotate_flushed a.rotate_synced a.rotate_opened w1).1.dir
              ≡ record { durable = logged_lines env new s.wal; cached = [] })
            synced.writer
            (rotate_durable a.rotate_flushed a.rotate_synced a.rotate_opened w1 _ synced.buffer
              (rw synced.writer synced.file)))
    ]
