-- ===== src/Journal/RateLimiter.antt =====
-- crates/pact-journal/src/rate_limiter.rs: the token buckets. An instant is a count of nanoseconds, and
-- the operations of `f64` are the record Floats.
use pact.Base.{
  ℕ, ◌-◌, ◌/◌, String, String_eq, Bool, true, false, none, some, [], if◌then◌else◌, ltb, select,
}
use pact.Base.Map.{Map, lookup, insert}
use pact.Types.{DateTime, F64, seconds}

pub record Floats : Type 0 where
  pub as_secs_f64 : ℕ → F64
  pub from_u32 : ℕ → F64
  pub mul_add : F64 → F64 → F64 → F64
  pub min : F64 → F64 → F64
  pub max : F64 → F64 → F64
  pub divide : F64 → F64 → F64
  pub minus : F64 → F64 → F64
  pub at_least : F64 → F64 → Bool

-- The bit patterns of 1.0, 5.0, 10.0 and 60.0.
abbrev pub one : F64
one = 0x3FF0000000000000

abbrev pub five : F64
five = 0x4014000000000000

abbrev pub ten : F64
ten = 0x4024000000000000

abbrev pub sixty : F64
sixty = 0x404E000000000000

pub record Bucket : Type 0 where
  pub tokens : F64
  pub max_tokens : F64
  pub refill_rate : F64
  pub last_refill : DateTime

-- `IpAddr` is a key, spelt as text.
pub record RateLimiter : Type 0 where
  pub bucket : Bucket  -- `global`
  pub per_ip : Map String Bucket
  pub per_ip_max : F64

module _ (fl : Floats) where
  unfoldable pub new_bucket : F64 → DateTime → Bucket
  new_bucket max_per_minute now = record {
    tokens = max_per_minute;
    max_tokens = max_per_minute;
    refill_rate = fl.divide max_per_minute sixty;
    last_refill = now;
  }

  unfoldable pub refilled : DateTime → Bucket → F64
  refilled now b =
      fl.min (fl.mul_add (fl.as_secs_f64 (now - b.last_refill)) b.refill_rate b.tokens) b.max_tokens

  unfoldable pub take_token : DateTime → Bucket → Bucket × Bool
  take_token now b =
      if fl.at_least (refilled now b) one
      then (record b { tokens = fl.minus (refilled now b) one; last_refill = now }, true)
      else (record b { tokens = refilled now b; last_refill = now }, false)

  unfoldable pub new_limiter : ℕ → DateTime → RateLimiter
  new_limiter global_per_minute now = record {
    bucket = new_bucket (fl.from_u32 global_per_minute) now;
    per_ip = [];
    per_ip_max = fl.max (fl.divide (fl.from_u32 global_per_minute) ten) five;
  }

  unfoldable pub try_acquire : DateTime → RateLimiter → RateLimiter × Bool
  try_acquire now r =
      (record r { bucket = (take_token now r.bucket).0 }, (take_token now r.bucket).1)

  -- The bucket of an address, a new one at its first request.
  unfoldable pub ip_bucket : String → DateTime → RateLimiter → Bucket
  ip_bucket ip now r = elim (lookup ip r.per_ip) [ none ↦ new_bucket r.per_ip_max now | some b ↦ b ]

  unfoldable pub try_acquire_for_ip : String → DateTime → RateLimiter → RateLimiter × Bool
  try_acquire_for_ip ip now r =
      let r' = (try_acquire now r).0 in
      if (try_acquire now r).1
      then (
        record r' { per_ip = insert ip (take_token now (ip_bucket ip now r')).0 r'.per_ip },
        (take_token now (ip_bucket ip now r')).1,
      )
      else (r', false)

unfoldable pub cleanup_stale : DateTime → RateLimiter → RateLimiter
cleanup_stale now r = record r {
  per_ip = select (λ b. ltb ((now - b.1.last_refill) / seconds 1) 300) r.per_ip;
}
