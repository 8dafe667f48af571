-- ===== src/Arch/Hardware.antt =====
-- The hardware behind the instructions that the kernel executes.
use maizono_os.Base.{ℕ}

-- Loads and stores of 32-bit words that are volatile, the model specific registers, and the bytes
-- that are written to ports. A load may change the machine.
pub record Machine : Type 1 where
  pub State : Type 0
  pub load : ℕ → State → ℕ
  pub after_load : ℕ → State → State
  pub store : ℕ → ℕ → State → State
  pub msr_high : ℕ → State → ℕ
  pub msr_low : ℕ → State → ℕ
  pub wrmsr : ℕ → ℕ → ℕ → State → State
  pub out_u8 : ℕ → ℕ → State → State
