-- ===== src/Ps2/Port.antt =====
-- The hardware behind the ports: what the `Port` types of the `x86_64` crate read and write.
use maizono_os.Base.{ℕ}

-- Port 0x60 is the data port; port 0x64 is the status port when it is read and the command port
-- when it is written. A read may change the device.
pub record Device : Type 1 where
  pub State : Type 0
  pub status : State → ℕ
  pub after_status : State → State
  pub data_byte : State → ℕ
  pub after_data : State → State
  pub write_data : ℕ → State → State
  pub write_command : ℕ → State → State
