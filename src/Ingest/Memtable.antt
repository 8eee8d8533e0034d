-- ===== src/Ingest/Memtable.antt =====
-- src/ingest/memtable.rs: the buffer of events that no segment holds yet. The clock is an argument of
-- `insert`. `base` is the size of the event structure itself, which the compiler chooses.
use usagedb.Prelude.{
  ℕ, ◌+◌, ◌≡◌, refl, Option, none, some, List, [], ◌∷◌, ◌++◌, String, length, arith, ap,
}
use usagedb.Prelude.Int.{ℤ, min_ℤ}
use usagedb.Model.{UsageEvent, CorrectionRef, as_bytes}

pub record Memtable : Type 0 where
  pub events : List UsageEvent
  pub approx_size_bytes : ℕ
  pub oldest_insert_at_ms : Option ℤ

unfoldable pub new : Memtable
new = record { events = []; approx_size_bytes = 0; oldest_insert_at_ms = none }

-- `String::len`.
unfoldable pub str_len : String → ℕ
str_len s = length (as_bytes s)

unfoldable pub optional_len : Option String → ℕ
unfolding str_len
optional_len none = 0
optional_len (some s) = str_len s

unfoldable pub correction_len : Option CorrectionRef → ℕ
unfolding str_len
correction_len none = 0
correction_len (some c) = str_len c.original_event_id + str_len c.reason

unfoldable pub dimensions_len : List (String × String) → ℕ
unfolding str_len
dimensions_len [] = 0
dimensions_len ((k, v) ∷ rest) = str_len k + str_len v + 64 + dimensions_len rest

unfoldable pub estimate_event_size : ℕ → UsageEvent → ℕ
unfolding optional_len correction_len dimensions_len
estimate_event_size base event =
    let strings =
      str_len event.event_id
      + str_len event.account_id
      + optional_len event.subscription_id
      + str_len event.product_id
      + str_len event.meter_id
      + str_len event.source
      + str_len event.unit
      + optional_len event.model_id
      + correction_len event.correction_ref in
    let dims = dimensions_len event.dimensions.inner in base + strings + dims

unfoldable pub oldest_after : ℤ → List UsageEvent → Option ℤ → Option ℤ
oldest_after now [] oldest = some now
oldest_after now (_ ∷ _) oldest = oldest

unfoldable pub insert : ℕ → ℤ → UsageEvent → Memtable → Memtable
unfolding oldest_after
insert base now event m = record {
  events = m.events ++ event ∷ [];
  approx_size_bytes = m.approx_size_bytes + estimate_event_size base event;
  oldest_insert_at_ms = oldest_after now m.events m.oldest_insert_at_ms;
}

unfoldable pub min_timestamp : List UsageEvent → Option ℤ
min_timestamp [] = none
min_timestamp (e ∷ es) = elim (min_timestamp es) [
  | none ↦ some e.timestamp_ms
  | some t ↦ some (min_ℤ e.timestamp_ms t)
]

unfoldable pub min_event_timestamp_ms : Memtable → Option ℤ
unfolding min_timestamp
min_event_timestamp_ms m = min_timestamp m.events

unfoldable pub drain_all : Memtable → List UsageEvent × Memtable
drain_all m = (m.events, record { events = []; approx_size_bytes = 0; oldest_insert_at_ms = none })

unfoldable pub snapshot : Memtable → List UsageEvent
snapshot m = m.events

-- The size of a list of events.
unfoldable pub total_size : ℕ → List UsageEvent → ℕ
total_size base [] = 0
total_size base (e ∷ es) = estimate_event_size base e + total_size base es

-- The counters describe the buffered events.
abbrev pub OldestFits : List UsageEvent → Option ℤ → Type 0
OldestFits [] oldest = oldest ≡ none
OldestFits (_ ∷ _) oldest = (t : ℤ) × (oldest ≡ some t)

pub record IsValid (base : ℕ) (m : Memtable) : Type 0 where
  pub size : m.approx_size_bytes ≡ total_size base m.events
  pub oldest : OldestFits m.events m.oldest_insert_at_ms

total_size-append :
    (base : ℕ) (es : List UsageEvent) (e : UsageEvent)
    → total_size base (es ++ e ∷ []) ≡ total_size base es + estimate_event_size base e
unfolding total_size
total_size-append base [] e = omega arith
total_size-append base (d ∷ es) e = omega (arith, total_size-append base es e)

OldestFits-insert :
    (now : ℤ) (es : List UsageEvent) (o : Option ℤ) (e : UsageEvent)
    → OldestFits es o
    → OldestFits (es ++ e ∷ []) (oldest_after now es o)
unfolding oldest_after
OldestFits-insert now [] o e h = (now, refl)
OldestFits-insert now (d ∷ es) o e h = h

pub new-IsValid : (base : ℕ) → IsValid base new
unfolding new total_size
new-IsValid base = record { size = refl; oldest = refl }

-- Inserting an event keeps the size of the memtable the sum of the sizes of its events, and the time of
-- the oldest insertion present exactly when there are events.
pub insert-IsValid :
    (base : ℕ) (now : ℤ) (e : UsageEvent) (m : Memtable)
    → IsValid base m
    → IsValid base (insert base now e m)
unfolding insert
insert-IsValid base now e m v = record {
  size = rw (total_size-append base m.events e) (ap (λ n. n + estimate_event_size base e) v.size);
  oldest = OldestFits-insert now m.events m.oldest_insert_at_ms e v.oldest;
}

pub drain_all-IsValid : (base : ℕ) (m : Memtable) → IsValid base (drain_all m).1
unfolding drain_all total_size
drain_all-IsValid base m = record { size = refl; oldest = refl }
