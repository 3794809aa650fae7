-- ===== src/Sampler.antt =====
-- `Sampler` of src/sampler.h and src/sampler.cc, which picks the allocations to sample. Its counter
-- of bytes is a word of 64 bits, negative from 2^63 on. The interval that the code computes from the
-- random number in floating point is a parameter, as is the flag of the sample period.
use gperftools.Base.{
  ℕ, zero, suc, ◌+◌, ◌-◌, ◌*◌, ◌%◌, ◌^◌, ◌<◌, ◌≡◌, refl, bit_and, Bool, true, false, not, ltb, leb,
  if◌then◌else◌, arith, inl, inr, Bool-cases,
}

pub record Sampler : Type 0 where
  pub bytes_until_sample : ℕ
  pub rnd : ℕ
  pub initialized : Bool

-- Whether the sample period is above 0, and the interval for a random number.
pub record Period : Type 0 where
  pub is_positive : Bool
  pub interval : ℕ → ℕ

-- `NextRandom`
unfoldable pub next_random : ℕ → ℕ
next_random rnd = bit_and ((25214903917 * rnd + 11) % 2 ^ 64) (2 ^ 48 - 1)

-- The loop of `Init`.
unfoldable pub warm_up : ℕ → ℕ → ℕ
warm_up zero rnd = rnd
warm_up (suc rounds) rnd = warm_up rounds (next_random rnd)

module _ (period : Period) where
  -- `PickNextSamplingPoint`: the new value of the counter, and the sampler.
  unfoldable pub pick_next_sampling_point : Sampler → ℕ × Sampler
  pick_next_sampling_point s =
      let rnd = next_random s.rnd in
      if period.is_positive then (period.interval rnd, record s { rnd = rnd }) else (16 * 2 ^ 20, s)

  -- The counter starts anew.
  abbrev pub restart : Sampler → Sampler
  restart s =
      let (bytes, s') = pick_next_sampling_point s in record s' { bytes_until_sample = bytes }

  -- `Init`
  unfoldable pub init_sampler : Sampler → ℕ → Sampler
  unfolding pick_next_sampling_point
  init_sampler s seed = restart (record s { rnd = warm_up 20 seed })

  -- `RecordAllocationSlow` of the sampler at the address `this`: true if nothing is to be sampled.
  unfoldable pub record_allocation_slow : ℕ → Sampler → ℕ → Bool × Sampler
  unfolding pick_next_sampling_point init_sampler
  record_allocation_slow this s k =
      let s₁ = if s.initialized then s else init_sampler (record s { initialized = true }) this in
      if not s.initialized
      then if leb k s₁.bytes_until_sample
        then (true, record s₁ { bytes_until_sample = s₁.bytes_until_sample - k })
        else (not period.is_positive, restart s₁)
      else (not period.is_positive, restart s₁)

  -- `RecordAllocation`
  unfoldable pub record_allocation : ℕ → Sampler → ℕ → Bool × Sampler
  unfolding record_allocation_slow
  record_allocation this s k =
      if ltb s.bytes_until_sample k
      then record_allocation_slow this s k
      else (true, record s { bytes_until_sample = s.bytes_until_sample - k })

-- `TryRecordAllocationFast`: the counter goes down, and back up if it became negative.
unfoldable pub try_record_allocation_fast : Sampler → ℕ → Bool × Sampler
try_record_allocation_fast s k =
    let left = (s.bytes_until_sample + 2 ^ 64 - k) % 2 ^ 64 in
    if leb (2 ^ 63) left
    then (false, record s { bytes_until_sample = (left + k) % 2 ^ 64 })
    else (true, record s { bytes_until_sample = left })

-- For a counter and an allocation below 2^63 bytes, `TryRecordAllocationFast` does what
-- `RecordAllocation` does if the counter reaches, and else returns false and changes nothing.
pub try_record_allocation_fast_lem :
    (period : Period) (this : ℕ) (s : Sampler) (k : ℕ)
    → s.bytes_until_sample < 2 ^ 63
    → k < 2 ^ 63
    → try_record_allocation_fast s k
      ≡ (if ltb s.bytes_until_sample k then (false, s) else record_allocation period this s k)
unfolding try_record_allocation_fast record_allocation
try_record_allocation_fast_lem period this s k counter small =
    elim (Bool-cases (ltb s.bytes_until_sample k)) [
      | inl e ↦
          let back : ((s.bytes_until_sample + 2 ^ 64 - k) % 2 ^ 64 + k) % 2 ^ 64
              ≡ s.bytes_until_sample =
            ground arith in
          let negative : leb (2 ^ 63) ((s.bytes_until_sample + 2 ^ 64 - k) % 2 ^ 64) ≡ true =
            ground arith in
          rw (negative, e, back) refl
      | inr e ↦
          let left : (s.bytes_until_sample + 2 ^ 64 - k) % 2 ^ 64 ≡ s.bytes_until_sample - k =
            ground arith in
          let reaches : leb (2 ^ 63) (s.bytes_until_sample - k) ≡ false = ground arith in
          rw (left, reaches, e) refl
    ]
