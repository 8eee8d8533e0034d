-- ===== src/Ingest/Handler/Counts.antt =====
-- `handle_ingest` of src/api/http_server.rs: the counts of its outcome, and where events go.
use usagedb.Prelude.{
  ℕ, ◌+◌, ◌≡◌, refl, sym, ◌∙◌, subst, ◌⊎◌, inl, inr, none, some, List, [], ◌∷◌, ◌++◌, ℕ_discrete,
  arith, length, map, Option-cases, append_assoc, append-nil,
}
use usagedb.Prelude.Int.{ℤ}
use usagedb.Prelude.Map.{insert}
use usagedb.Model.{UsageEvent}
use usagedb.Ingest.Dedupe.{HotDedupe}
use usagedb.Ingest.Memtable
use usagedb.Ingest.Memtable.{Memtable, drain_all}
use usagedb.Ingest.Wal.{Wal}
use usagedb.Storage.Manifest.{ClosedPeriod}
use usagedb.Ingest.Handler.{
  Env, Answers, Config, State, FlushMessage, Classified, IngestOutcome, AppError, Result, ok, err,
  admit_all, Sorted, Seen, sort_batch, commit_all, drain, finish, ingest_critical_section,
  handle_ingest, log_batch,
}

pub admit_all_count :
    (env : Env) (closed : List ClosedPeriod) (t : ℤ) (es : List UsageEvent)
    → (admit_all env closed t es).0 + length (admit_all env closed t es).1 ≡ length es
unfolding admit_all
admit_all_count env closed t [] = refl
admit_all_count env closed t (e ∷ es) = ground (arith, admit_all_count env closed t es)

pub sort_batch_count :
    (d : HotDedupe) (seen : Seen) (cs : List Classified)
    → (let r = sort_batch d seen cs in length r.new_events + r.duplicates + r.conflicts) ≡ length cs
unfolding sort_batch
sort_batch_count d seen [] = refl
sort_batch_count d seen (c ∷ cs) = ground (
  arith,
  sort_batch_count d seen cs,
  sort_batch_count d (insert ℕ_discrete c.event_id_hash c.payload_hash seen) cs,
)

pub finish_count :
    (config : Config) (a : Answers) (rejected : ℕ) (r : Sorted) (s s' : State) (o : IngestOutcome)
    → finish config a rejected r s ≡ (ok o, s')
    → (o.accepted ≡ length r.new_events)
      × (o.duplicates ≡ r.duplicates)
      × (o.conflicts ≡ r.conflicts)
      × (o.rejected ≡ rejected)
unfolding finish
finish_count config a rejected r s s' o h = ground arith

pub Result-cases :
    {A : Type 0} (r : Result A) → ((a : A) × (r ≡ ok a)) ⊎ ((e : AppError) × (r ≡ err e))
Result-cases (ok a) = inl (a, refl)
Result-cases (err e) = inr (e, refl)

-- A call that succeeds went through the log, and then through `finish`.
pub finished :
    (env : Env) (config : Config) (a : Answers) (cs : List Classified) (n : ℕ) (s s' : State)
    (o : IngestOutcome)
    → ingest_critical_section env config a cs n s ≡ (ok o, s')
    → (let sorted = sort_batch s.dedupe [] cs in
        let logged = log_batch env config.durability_mode a sorted.new_events s.wal in
        let kept = commit_all env a.clock 0 sorted.new_events (s.dedupe, s.memtable) in
        (w : Wal) × (logged.0 ≡ ok w)
        × (finish config a n sorted (record { dedupe = kept.0; wal = logged.1; memtable = kept.1 })
            ≡ (ok o, s')))
unfolding ingest_critical_section
finished env config a cs n s s' o h =
    elim (Result-cases
      (log_batch env config.durability_mode a (sort_batch s.dedupe [] cs).new_events s.wal).0) [
        | inl (w, e) ↦ (w, e, ground arith)
        | inr (x, e) ↦ ground arith
      ]

-- If the call succeeds then every event of the batch is counted exactly once: as accepted, as a
-- duplicate, as a conflict or as rejected.
pub handle_ingest_count :
    (env : Env) (config : Config) (a : Answers) (closed : List ClosedPeriod) (es : List UsageEvent)
    (s s' : State) (o : IngestOutcome)
    → handle_ingest env config a closed es s ≡ (ok o, s')
    → o.accepted + o.duplicates + o.conflicts + o.rejected ≡ length es
unfolding handle_ingest
handle_ingest_count env config a closed es s s' o h =
    let admitted = admit_all env closed a.ingest_now es in
    let sorted = sort_batch s.dedupe [] admitted.1 in
    let f = finished env config a admitted.1 admitted.0 s s' o h in
    let counts = finish_count config a admitted.0 sorted _ s' o f.2 in
    omega (
      arith,
      counts,
      sort_batch_count s.dedupe [] admitted.1,
      admit_all_count env closed a.ingest_now es,
    )

commit_all_events :
    (env : Env) (clock : ℕ → ℤ) (i : ℕ) (cs : List Classified) (d : HotDedupe) (m : Memtable)
    → (commit_all env clock i cs (d, m)).1.events ≡ m.events ++ map (λ c. c.event) cs
unfolding commit_all Memtable.insert
commit_all_events env clock i [] d m = sym (append-nil m.events)
commit_all_events env clock i (c ∷ cs) d m =
    commit_all_events env clock (i + 3) cs _ _ ∙ append_assoc m.events (c.event ∷ []) _

-- Where the buffered events are after a call that succeeds: in the memtable, or in the message to the
-- flusher with the memtable empty.
abbrev pub Buffered : IngestOutcome → State → List UsageEvent → Type 0
Buffered o s' es =
    ((o.drained ≡ none) × (s'.memtable.events ≡ es))
    ⊎ ((msg : FlushMessage) × (o.drained ≡ some msg)
        × (msg.events ≡ es)
        × (s'.memtable.events ≡ []))

finish_events :
    (config : Config) (a : Answers) (n : ℕ) (r : Sorted) (s s' : State) (o : IngestOutcome)
    → finish config a n r s ≡ (ok o, s')
    → Buffered o s' s.memtable.events
unfolding finish drain drain_all
finish_events config a n r s s' o h = elim (Option-cases o.drained) [
  | inl e ↦ inl (e, ground arith)
  | inr (msg, e) ↦ inr (msg, e, ground arith, ground arith)
]

-- A call that succeeds keeps the old events and adds the new ones of the batch in order, and drops
-- none: all are in the memtable, or all are in the message for the flusher.
pub critical_section_events :
    (env : Env) (config : Config) (a : Answers) (cs : List Classified) (n : ℕ) (s s' : State)
    (o : IngestOutcome)
    → ingest_critical_section env config a cs n s ≡ (ok o, s')
    → Buffered o s' (s.memtable.events ++ map (λ c. c.event) (sort_batch s.dedupe [] cs).new_events)
critical_section_events env config a cs n s s' o h =
    let new = (sort_batch s.dedupe [] cs).new_events in
    let f = finished env config a cs n s s' o h in
    subst (λ es. Buffered o s' es) (commit_all_events env a.clock 0 new s.dedupe s.memtable)
      (finish_events config a n _ _ s' o f.2)
