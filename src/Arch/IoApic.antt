-- ===== src/Arch/IoApic.antt =====
-- kernel/src/arch.rs: `IoApic`. Its `ptr` is the base address of `IoApicMmioInterface`: the register
-- that is selected stands at the base, and the window to it 16 bytes further.
use maizono_os.Base.{ℕ, ◌+◌, bit_and}
use maizono_os.Base.Checked.{add_u32, mul_u32}
use maizono_os.Base.Exec.{pure, lift, ◌>>=◌, ◌>>◌}
use maizono_os.Word.{u8, u32, ◌>>>◌}
use maizono_os.Arch.{Io, write_volatile, read_volatile}
use maizono_os.Arch.Hardware.{Machine}

pub record IoApic : Type 0 where
  pub ptr : ℕ

unfoldable pub new : ℕ → IoApic
new base_addr = record { ptr = base_addr }

module _ (machine : Machine) where
  unfoldable pub read : IoApic → ℕ → Io machine ℕ
  unfolding write_volatile read_volatile
  read apic reg = write_volatile machine apic.ptr reg >> read_volatile machine (apic.ptr + 16)

  unfoldable pub write : IoApic → ℕ → ℕ → Io machine (Unit {0})
  unfolding write_volatile
  write apic reg value =
      write_volatile machine apic.ptr reg >> write_volatile machine (apic.ptr + 16) value

  unfoldable pub set_redirection_entry_at : IoApic → ℕ → ℕ → Io machine (Unit {0})
  set_redirection_entry_at apic index value = do
    double ← lift (mul_u32 2 index)
    reg ← lift (add_u32 0x10 double)
    write apic reg (u32 value)
    double ← lift (mul_u32 2 index)
    reg ← lift (add_u32 0x10 double)
    reg ← lift (add_u32 reg 1)
    write apic reg (u32 (value >>> 32))

  unfoldable pub get_max_amount_of_redirection_entries : IoApic → Io machine ℕ
  get_max_amount_of_redirection_entries apic = do
    version ← read apic 0x1
    pure (bit_and (version >>> 16) 0xff)

  unfoldable pub get_id : IoApic → Io machine ℕ
  get_id apic = do id ← read apic 0x0; pure (u8 (bit_and (id >>> 24) 0xf))
