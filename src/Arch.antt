-- ===== src/Arch.antt =====
-- kernel/src/arch.rs: model specific registers, the interfaces of the two APICs below.
pub mod Hardware
pub mod LocalApic
pub mod IoApic
pub mod IoTable
use maizono_os.Base.{ℕ, ◌*◌, ◌/◌, bit_or}
use maizono_os.Base.Exec.{Exec, done, fail, panic, M, pure, lift, ◌>>=◌, ◌>>◌}
use maizono_os.Word.{u8, u32, ◌<<<◌, ◌>>>◌}
use Hardware.{Machine}

-- The code here has no error. A loop of the model that has used up its fuel fails.
pub data Stuck : Type 0 where
  out_of_fuel : Stuck

module _ (machine : Machine) where
  open machine use {State}

  abbrev pub Io : Type 0 → Type 0
  Io A = M State Stuck A

  unfoldable pub write_volatile : ℕ → ℕ → Io (Unit {0})
  write_volatile addr value s = done tt (machine.store addr value s)

  unfoldable pub read_volatile : ℕ → Io ℕ
  read_volatile addr s = done (machine.load addr s) (machine.after_load addr s)

  -- `rdmsr` gives the halves in edx and eax.
  unfoldable pub read_msr : ℕ → Io ℕ
  read_msr msr s = done (bit_or (machine.msr_high msr s <<< 32) (machine.msr_low msr s)) s

  unfoldable pub write_msr : ℕ → ℕ → Io (Unit {0})
  write_msr msr value s =
      let low = u32 value in let high = u32 (value >>> 32) in done tt (machine.wrmsr msr high low s)
