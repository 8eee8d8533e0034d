-- ===== src/Ingest/Handler/Retry.antt =====
-- `handle_ingest` of src/api/http_server.rs, called twice with the same batch.
use usagedb.Prelude.{
  ℕ, suc, ◌+◌, ◌≡◌, ◌≢◌, refl, sym, ◌∙◌, ap, subst, inl, inr, Option, none, some, List, [], ◌∷◌,
  ℕ_discrete, arith, length, Option-cases, All,
}
use usagedb.Prelude.Int.{ℤ}
use usagedb.Prelude.Map.{get, insert, get-insert}
use usagedb.Model.{UsageEvent}
use usagedb.Storage.Manifest.{ClosedPeriod}
use usagedb.Ingest.Dedupe.{HotDedupe, commit, new_event}
use usagedb.Ingest.Dedupe.Room.{known, judge, classify-judge, HasRoom, commit-HasRoom, known-commit}
use usagedb.Ingest.Memtable.{Memtable}
use usagedb.Ingest.Handler.{
  Env, Answers, Config, State, Classified, IngestOutcome, Result, ok, Sorted, Seen, sort_batch,
  compute_event_hashes, commit_all, handle_ingest, admit_all, finish, drain,
}
use usagedb.Ingest.Handler.Counts.{finished, finish_count, admit_all_count, sort_batch_count}

-- The new events of a batch: unknown to the cache, and each hash once.
abbrev NotAmong : ℕ → List Classified → Type 0
NotAmong h cs = All (λ (c : Classified). h ≢ c.event_id_hash) cs

abbrev AreNew : HotDedupe → List Classified → Type 0
AreNew d [] = Unit {0}
AreNew d (c ∷ cs) = (known d c.event_id_hash ≡ none) × NotAmong c.event_id_hash cs × AreNew d cs

sort_batch_seen :
    (d : HotDedupe) (seen : Seen) (cs : List Classified) (h p : ℕ)
    → get ℕ_discrete h seen ≡ some p
    → NotAmong h (sort_batch d seen cs).new_events
unfolding sort_batch
sort_batch_seen d seen [] h p e = tt
sort_batch_seen d seen (c ∷ cs) h p e = ground (
  arith,
  sort_batch_seen d seen cs h p e,
  sort_batch_seen d (insert ℕ_discrete c.event_id_hash c.payload_hash seen) cs h p,
  get-insert ℕ_discrete c.event_id_hash h c.payload_hash seen,
)

judge_new : (o : Option ℕ) (p : ℕ) → judge o p ≡ new_event → o ≡ none
unfolding judge
judge_new none p h = refl
judge_new (some q) p h = ground arith

sort_batch-AreNew :
    (d : HotDedupe) (seen : Seen) (cs : List Classified)
    → AreNew d (sort_batch d seen cs).new_events
unfolding sort_batch
sort_batch-AreNew d seen [] = tt
sort_batch-AreNew d seen (c ∷ cs) = ground (
  arith,
  classify-judge d c.event_id_hash c.payload_hash,
  judge_new (known d c.event_id_hash) c.payload_hash,
  sort_batch-AreNew d seen cs,
  sort_batch-AreNew d (insert ℕ_discrete c.event_id_hash c.payload_hash seen) cs,
  sort_batch_seen d (insert ℕ_discrete c.event_id_hash c.payload_hash seen) cs c.event_id_hash
      c.payload_hash,
  get-insert ℕ_discrete c.event_id_hash c.event_id_hash c.payload_hash seen,
)

module _ (clock : ℕ → ℤ) where
  AreNew-commit :
      (i n : ℕ) (c : Classified) (d : HotDedupe) (cs : List Classified)
      → HasRoom clock (suc n) d
      → known d c.event_id_hash ≡ none
      → NotAmong c.event_id_hash cs
      → AreNew d cs
      → AreNew (commit (clock i) (clock (i + 1)) c.event_id_hash c.payload_hash d) cs
  AreNew-commit i n c d [] r k other new = tt
  AreNew-commit i n c d (b ∷ cs) r k other new = (
    ground (
      arith,
      known-commit clock n i (i + 1) c.event_id_hash c.payload_hash d r k b.event_id_hash,
    ),
    new.1,
    AreNew-commit i n c d cs r k other.1 new.2,
  )

  -- What the third phase does to the cache: nothing known is lost, and the new events are known.
  record Remembers (cs : List Classified) (d d' : HotDedupe) : Type 0 where
    old : (h p : ℕ) → known d h ≡ some p → known d' h ≡ some p
    new : All (λ (c : Classified). known d' c.event_id_hash ≡ some c.payload_hash) cs

  commit_all-Remembers :
      (env : Env) (i : ℕ) (cs : List Classified) (d : HotDedupe) (m : Memtable)
      → HasRoom clock (length cs) d
      → AreNew d cs
      → Remembers cs d (commit_all env clock i cs (d, m)).0
  unfolding commit_all
  commit_all-Remembers env i [] d m r new = record { old = λ h p e. e; new = tt }
  commit_all-Remembers env i (c ∷ cs) d m r new =
      let h = c.event_id_hash in
      let d1 = commit (clock i) (clock (i + 1)) h c.payload_hash d in
      let k = known-commit clock (length cs) i (i + 1) h c.payload_hash d r new.0 in
      let rest =
        commit_all-Remembers env (i + 3) cs d1 _
          (commit-HasRoom clock (length cs) i (i + 1) h c.payload_hash d r new.0)
          (AreNew-commit i (length cs) c d cs r new.0 new.1 new.2) in
      record {
        old = λ j p e. rest.old j p (ground (arith, k j));
        new = (rest.old h c.payload_hash (ground (arith, k h)), rest.new);
      }

-- Two batches with the same hashes.
abbrev SameHashes : List Classified → List Classified → Type 0
SameHashes [] [] = Unit {0}
SameHashes [] (_ ∷ _) = ⊥
SameHashes (_ ∷ _) [] = ⊥
SameHashes (b ∷ bs) (c ∷ cs) =
    (b.event_id_hash ≡ c.event_id_hash) × (b.payload_hash ≡ c.payload_hash) × SameHashes bs cs

-- The counts of a batch whose new events have become known.
abbrev once_known : Sorted → Sorted
once_known r = record {
  new_events = [];
  duplicates = length r.new_events + r.duplicates;
  conflicts = r.conflicts;
}

sort_again :
    (d d' : HotDedupe) (seen : Seen) (cs again : List Classified)
    → SameHashes cs again
    → ((h p : ℕ) → known d h ≡ some p → known d' h ≡ some p)
    → ((h p : ℕ) → get ℕ_discrete h seen ≡ some p → known d' h ≡ some p)
    → All
        (λ (c : Classified). known d' c.event_id_hash ≡ some c.payload_hash)
        (sort_batch d seen cs).new_events
    → sort_batch d' [] again ≡ once_known (sort_batch d seen cs)
unfolding sort_batch get judge
sort_again d d' seen [] [] same old before new = refl
sort_again d d' seen [] (_ ∷ _) same old before new = absurd same
sort_again d d' seen (_ ∷ _) [] same old before new = absurd same
sort_again d d' seen (b ∷ cs) (c ∷ again) same old before new =
    let h = b.event_id_hash in
    let p = b.payload_hash in
    let first = classify-judge d h p in
    let second = classify-judge d' c.event_id_hash c.payload_hash in
    elim (Option-cases (get ℕ_discrete h seen)) [
      | inr (q, e) ↦
          ground
            (arith, same, before h q e, second, sort_again d d' seen cs again same.2 old before)
      | inl e ↦ elim (Option-cases (known d h)) [
        | inr (q, k) ↦
            ground (
              arith,
              same,
              old h q k,
              first,
              second,
              sort_again d d' seen cs again same.2 old before,
            )
        | inl k ↦
            let head : known d' h ≡ some p = ground (arith, first) in
            ground (
              arith,
              same,
              head,
              first,
              second,
              sort_again d d' (insert ℕ_discrete h p seen) cs again same.2 old
                  (λ j q f. ground (arith, get-insert ℕ_discrete h j p seen, before j q, head)),
            )
      ]
    ]

same_hashes :
    (env : Env) (e : UsageEvent) (t u : ℤ)
    → compute_event_hashes env (record e { ingested_at_ms = t })
      ≡ compute_event_hashes env (record e { ingested_at_ms = u })
unfolding compute_event_hashes
same_hashes env e t u = refl

finish_dedupe :
    (config : Config) (a : Answers) (n : ℕ) (r : Sorted) (s s' : State) (x : Result IngestOutcome)
    → finish config a n r s ≡ (x, s')
    → s'.dedupe ≡ s.dedupe
unfolding finish drain
finish_dedupe config a n r s s' x h = ground arith

commit_all_dedupe_nil :
    (env : Env) (clock : ℕ → ℤ) (cs : List Classified) (d : HotDedupe) (m : Memtable)
    → cs ≡ []
    → (commit_all env clock 0 cs (d, m)).0 ≡ d
unfolding commit_all
commit_all_dedupe_nil env clock cs d m e = rw e

-- A second admission of the batch, at another time, finds the same hashes.
admit_all-SameHashes :
    (env : Env) (closed : List ClosedPeriod) (t u : ℤ) (es : List UsageEvent)
    → SameHashes (admit_all env closed t es).1 (admit_all env closed u es).1
      × ((admit_all env closed t es).0 ≡ (admit_all env closed u es).0)
unfolding admit_all compute_event_hashes
admit_all-SameHashes env closed t u [] = (tt, refl)
admit_all-SameHashes env closed t u (e ∷ es) =
    ground (arith, admit_all-SameHashes env closed t u es, same_hashes env e t u)

-- A retry of a whole batch accepts nothing. If the first call succeeded and the cache had room for the
-- batch with nothing going stale meanwhile, then a second call with the same events that succeeds
-- counts as duplicates all that the first accepted or found to be duplicates, the same conflicts and
-- the same rejections, and leaves the dedupe cache as it was.
pub retry_accepts_nothing :
    (env : Env) (config : Config) (a b : Answers) (closed : List ClosedPeriod)
    (es : List UsageEvent) (s s1 s2 : State) (o o2 : IngestOutcome)
    → HasRoom a.clock (length es) s.dedupe
    → handle_ingest env config a closed es s ≡ (ok o, s1)
    → handle_ingest env config b closed es s1 ≡ (ok o2, s2)
    → (o2.accepted ≡ 0)
      × (o2.duplicates ≡ o.accepted + o.duplicates)
      × (o2.conflicts ≡ o.conflicts)
      × (o2.rejected ≡ o.rejected)
      × (s2.dedupe ≡ s1.dedupe)
unfolding handle_ingest
retry_accepts_nothing env config a b closed es s s1 s2 o o2 r h k =
    let first = admit_all env closed a.ingest_now es in
    let second = admit_all env closed b.ingest_now es in
    let same = admit_all-SameHashes env closed a.ingest_now b.ingest_now es in
    let sorted = sort_batch s.dedupe [] first.1 in
    let f1 = finished env config a first.1 first.0 s s1 o h in
    let f2 = finished env config b second.1 second.0 s1 s2 o2 k in
    let c1 = finish_count config a first.0 sorted _ s1 o f1.2 in
    let c2 = finish_count config b second.0 _ _ s2 o2 f2.2 in
    let d1 = (commit_all env a.clock 0 sorted.new_events (s.dedupe, s.memtable)).0 in
    let kept : s1.dedupe ≡ d1 = finish_dedupe config a first.0 sorted _ s1 (ok o) f1.2 in
    let room : HasRoom a.clock (length sorted.new_events) s.dedupe = record {
      valid = r.valid;
      room = omega (
        arith,
        r.room,
        sort_batch_count s.dedupe [] first.1,
        admit_all_count env closed a.ingest_now es,
      );
      fresh = r.fresh;
      quick = r.quick;
    } in
    let remembers =
      commit_all-Remembers a.clock env 0 sorted.new_events s.dedupe s.memtable room
        (sort_batch-AreNew s.dedupe [] first.1) in
    let again =
      sort_again s.dedupe d1 [] first.1 second.1 same.0 remembers.old (unfold get in λ j q e. cc)
        remembers.new in
    let again' = subst (λ d. sort_batch d [] second.1 ≡ once_known sorted) (sym kept) again in
    (
      c2.0 ∙ ap (λ (r : Sorted). length r.new_events) again',
      omega (arith, c1, c2, ap (λ (r : Sorted). r.duplicates) again'),
      omega (arith, c1, c2, ap (λ (r : Sorted). r.conflicts) again'),
      omega (arith, c1, c2, same.1),
      finish_dedupe config b second.0 _ _ s2 (ok o2) f2.2
          ∙ commit_all_dedupe_nil env b.clock _ s1.dedupe s1.memtable
              (ap (λ (r : Sorted). r.new_events) again'),
    )
