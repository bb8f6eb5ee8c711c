-- ===== src/Common.antt =====
-- What the code takes from aws-c-common: saturating and clamping arithmetic and the conversion of
-- time units (aws/common/math.h, aws/common/clock.h). They are parameters; the laws are what the
-- headers document.
use aws_c_io.Base.{ℕ, ◌+◌, ◌*◌, ◌/◌, ◌≡◌, refl, min, max, u64_max}

pub record Common : Type 0 where
  pub min_u64 : ℕ → ℕ → ℕ
  pub max_u64 : ℕ → ℕ → ℕ
  pub mul_u64_saturating : ℕ → ℕ → ℕ
  pub add_size_saturating : ℕ → ℕ → ℕ
  pub millis_to_nanos : ℕ → ℕ
  pub secs_to_nanos : ℕ → ℕ
  pub nanos_to_millis : ℕ → ℕ
  pub nanos_to_secs : ℕ → ℕ
  pub min_u64_lem : (a b : ℕ) → min_u64 a b ≡ min a b
  pub max_u64_lem : (a b : ℕ) → max_u64 a b ≡ max a b
  pub mul_u64_saturating_lem : (a b : ℕ) → mul_u64_saturating a b ≡ min (a * b) u64_max
  pub add_size_saturating_lem : (a b : ℕ) → add_size_saturating a b ≡ min (a + b) u64_max
  pub millis_to_nanos_lem : (a : ℕ) → millis_to_nanos a ≡ min (a * 1000000) u64_max
  pub secs_to_nanos_lem : (a : ℕ) → secs_to_nanos a ≡ min (a * 1000000000) u64_max
  pub nanos_to_millis_lem : (a : ℕ) → nanos_to_millis a ≡ a / 1000000
  pub nanos_to_secs_lem : (a : ℕ) → nanos_to_secs a ≡ a / 1000000000

-- A library that meets the laws.
abbrev pub common : Common
common = record {
  min_u64 = λ a b. min a b;
  max_u64 = λ a b. max a b;
  mul_u64_saturating = λ a b. min (a * b) u64_max;
  add_size_saturating = λ a b. min (a + b) u64_max;
  millis_to_nanos = λ a. min (a * 1000000) u64_max;
  secs_to_nanos = λ a. min (a * 1000000000) u64_max;
  nanos_to_millis = λ a. a / 1000000;
  nanos_to_secs = λ a. a / 1000000000;
  min_u64_lem = λ a b. refl;
  max_u64_lem = λ a b. refl;
  mul_u64_saturating_lem = λ a b. refl;
  add_size_saturating_lem = λ a b. refl;
  millis_to_nanos_lem = λ a. refl;
  secs_to_nanos_lem = λ a. refl;
  nanos_to_millis_lem = λ a. refl;
  nanos_to_secs_lem = λ a. refl;
}
