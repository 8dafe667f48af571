-- ===== src/Ps2/Waiting.antt =====
-- The polling loops end: with the first status that allows the access, or after 1000 polls.
use maizono_os.Base.{
  ℕ, zero, suc, ◌≤◌, ◌<◌, ◌≡◌, refl, true, false, arith, ◌==◌, if◌then◌else◌, ◌⊎◌,
}
use maizono_os.Base.Exec.{done, fail}
use maizono_os.Ps2.Port.{Device}
use maizono_os.Ps2.Bits.{is_output_full, is_input_full}
use maizono_os.Ps2.Controller.{
  timeout, wait_for_read_from, wait_for_read, wait_for_write_from, wait_for_write, read_data,
  write_data,
}

module _ (device : Device) where
  open device use {State, status, after_status, data_byte, after_data}

  -- The device after `n` reads of the status port.
  unfoldable pub polls : ℕ → State → State
  polls zero s = s
  polls (suc n) s = polls n (after_status s)

  wait_for_read_from_lem :
      (n k : ℕ) (s : State)
      → k ≤ n
      → ((j : ℕ) → j < k → is_output_full (status (polls j s)) ≡ false)
      → (k ≡ n) ⊎ (is_output_full (status (polls k s)) ≡ true)
      → wait_for_read_from device n s
        ≡ (if k == n then fail timeout (polls n s) else done tt (polls (suc k) s))
  unfolding polls wait_for_read_from
  wait_for_read_from_lem zero zero s h busy ends = refl
  wait_for_read_from_lem zero (suc k) s h busy ends = absurd (omega arith)
  wait_for_read_from_lem (suc n) zero s h busy ends = ground arith
  wait_for_read_from_lem (suc n) (suc k) s h busy ends = ground (
    arith,
    busy 0,
    wait_for_read_from_lem n k (after_status s) (omega arith) (λ j l. busy (suc j) (omega arith)),
  )

  wait_for_write_from_lem :
      (n k : ℕ) (s : State)
      → k ≤ n
      → ((j : ℕ) → j < k → is_input_full (status (polls j s)) ≡ true)
      → (k ≡ n) ⊎ (is_input_full (status (polls k s)) ≡ false)
      → wait_for_write_from device n s
        ≡ (if k == n then fail timeout (polls n s) else done tt (polls (suc k) s))
  unfolding polls wait_for_write_from
  wait_for_write_from_lem zero zero s h busy ends = refl
  wait_for_write_from_lem zero (suc k) s h busy ends = absurd (omega arith)
  wait_for_write_from_lem (suc n) zero s h busy ends = ground arith
  wait_for_write_from_lem (suc n) (suc k) s h busy ends = ground (
    arith,
    busy 0,
    wait_for_write_from_lem n k (after_status s) (omega arith) (λ j l. busy (suc j) (omega arith)),
  )

  -- Poll `k` is the first at which the output buffer is full; or all 1000 polls found it empty.
  abbrev pub IsFirstFull : ℕ → State → Type 0
  IsFirstFull k s =
      (k ≤ 1000)
      × ((j : ℕ) → j < k → is_output_full (status (polls j s)) ≡ false)
      × ((k ≡ 1000) ⊎ (is_output_full (status (polls k s)) ≡ true))

  -- Poll `k` is the first at which the input buffer is empty; or all 1000 polls found it full.
  abbrev pub IsFirstEmpty : ℕ → State → Type 0
  IsFirstEmpty k s =
      (k ≤ 1000)
      × ((j : ℕ) → j < k → is_input_full (status (polls j s)) ≡ true)
      × ((k ≡ 1000) ⊎ (is_input_full (status (polls k s)) ≡ false))

  -- If poll `k` is the first of at most 1000 at which the output buffer is full, `read_data` returns
  -- the byte that the data port has after it; if there is none, it fails with a timeout after 1000
  -- polls and does not read the data port.
  pub read_data_lem :
      (k : ℕ) (s : State)
      → IsFirstFull k s
      → read_data device s ≡ (
          if k == 1000
          then fail timeout (polls 1000 s)
          else done (data_byte (polls (suc k) s)) (after_data (polls (suc k) s)))
  unfolding read_data wait_for_read
  read_data_lem k s (small, busy, ends) =
      rw (wait_for_read_from_lem 1000 k s small busy ends) (ground arith)

  -- If poll `k` is the first of at most 1000 at which the input buffer is empty, `write_data` writes
  -- the byte after it; if there is none, it fails with a timeout after 1000 polls and writes nothing.
  pub write_data_lem :
      (k byte : ℕ) (s : State)
      → IsFirstEmpty k s
      → write_data device byte s ≡ (
          if k == 1000
          then fail timeout (polls 1000 s)
          else done tt (device.write_data byte (polls (suc k) s)))
  unfolding write_data wait_for_write
  write_data_lem k byte s (small, busy, ends) =
      rw (wait_for_write_from_lem 1000 k s small busy ends) (ground arith)
