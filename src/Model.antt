-- ===== src/Model.antt =====
-- src/model/*.rs: the event schema, the identifiers and the bucket of an account.
-- An identifier newtype (`AccountId(String)` and the like) is its text; an `i64` or `i128` is the
-- integer that it stands for. The hash function (the blake3 crate) is a parameter.
use usagedb.Prelude.{
  ℕ, ◌+◌, ◌*◌, ◌%◌, ◌<◌, String, Option, List, [], ◌∷◌, ◌==◌, if◌then◌else◌, take, arith,
}
use usagedb.Prelude.Int.{ℤ}
use usagedb.Prelude.Text.{utf8, codes}

-- event.rs
pub data EventKind : Type 0 where
  usage correction retraction : EventKind

pub record CorrectionRef : Type 0 where
  pub original_event_id : String
  pub reason : String

-- dimensions.rs: a `BTreeMap<String, String>`.
pub record SmallDimensions : Type 0 where
  pub inner : List (String × String)

pub record UsageEvent : Type 0 where
  pub event_id : String
  pub kind : EventKind
  pub correction_ref : Option CorrectionRef
  pub account_id : String
  pub subscription_id : Option String
  pub product_id : String
  pub meter_id : String
  pub timestamp_ms : ℤ
  pub quantity : ℤ
  pub unit : String
  pub source : String
  pub model_id : Option String
  pub dimensions : SmallDimensions
  pub ingested_at_ms : ℤ

-- `uN::from_le_bytes`, and `String::as_bytes`.
unfoldable pub from_le_bytes : List ℕ → ℕ
from_le_bytes [] = 0
from_le_bytes (b ∷ bs) = b + 256 * from_le_bytes bs

unfoldable pub as_bytes : String → List ℕ
unfolding utf8
as_bytes s = utf8 (codes s)

-- ids.rs
unfoldable pub bucket_for_account : (List ℕ → List ℕ) → String → ℕ → ℕ
unfolding as_bytes from_le_bytes
bucket_for_account blake3 account_id bucket_count =
    if bucket_count == 0
    then 0
    else from_le_bytes (take 4 (blake3 (as_bytes account_id))) % bucket_count

-- The bucket is a valid index for every positive bucket count.
pub bucket_for_account-lt :
    (blake3 : List ℕ → List ℕ) (a : String) (n : ℕ) → 0 < n → bucket_for_account blake3 a n < n
unfolding bucket_for_account
bucket_for_account-lt blake3 a n h = ground arith

-- `bucket_count.max(1)`.
unfoldable pub at_least_one : ℕ → ℕ
at_least_one n = if n == 0 then 1 else n
