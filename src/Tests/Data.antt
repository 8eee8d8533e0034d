-- ===== src/Tests/Data.antt =====
-- Sample events and the answers of a friendly machine.
use usagedb.Prelude.{ℕ, true, none, some, List, [], ◌∷◌, String}
use usagedb.Prelude.Int.{pos, pos_part}
use usagedb.Model.{UsageEvent, usage}
use usagedb.Ingest.Dedupe.{HotDedupe}
use usagedb.Ingest.Wal.{line_written}
use usagedb.Ingest.Handler.{Env, Answers, Config, State, strict}
use usagedb.Storage.Generations.{SaveAnswers, saved, ManifestDir}

abbrev pub event_of : String → String → ℕ → ℕ → UsageEvent
event_of id account t q = record {
  event_id = id;
  kind = usage;
  correction_ref = none;
  account_id = account;
  subscription_id = none;
  product_id = "api";
  meter_id = "calls";
  timestamp_ms = pos t;
  quantity = pos q;
  unit = "call";
  source = "edge";
  model_id = some "m1";
  dimensions = record { inner = [] };
  ingested_at_ms = pos 0;
}

abbrev pub first : UsageEvent
first = event_of "a" "x" 1000 5

abbrev pub second : UsageEvent
second = event_of "b" "y" 2000 7

abbrev pub batch : List UsageEvent
batch = first ∷ second ∷ first ∷ []

abbrev pub sample_env : Env
sample_env = record {
  blake3 = λ bs. bs;
  serialize = λ (e : UsageEvent). some (pos_part e.quantity ∷ []);
  to_json = λ (e : UsageEvent). some e.event_id;
  calendar = λ t. some (pos 2024, 5);
  event_base_size = 200;
}

abbrev pub answers : Answers
answers = record {
  ingest_now = pos 50;
  clock = λ i. pos 60;
  written = λ i. line_written;
  flushed = true;
  synced = true;
  rotate_flushed = true;
  rotate_synced = true;
  rotate_opened = true;
}

abbrev pub config : Config
config = record { max_memtable_size_bytes = 100000; durability_mode = strict }

abbrev pub empty_cache : HotDedupe
empty_cache = record { cache = []; order = []; max_capacity = 10; ttl_ms = pos 604800000 }

abbrev pub empty_state : State
empty_state = record {
  dedupe = empty_cache;
  wal = record {
    dir = (1, record { durable = []; cached = [] }) ∷ [];
    active_id = 1;
    writer_id = 1;
    buffer = [];
  };
  memtable = record { events = []; approx_size_bytes = 0; oldest_insert_at_ms = none };
}

abbrev pub save_answers : SaveAnswers
save_answers = record { steps = saved; prunes = λ g. true }

abbrev pub empty_dir : ManifestDir
empty_dir = record { generations = []; current = none; legacy = none }
