-- ===== src/Interrupts/Sample.antt =====
-- A machine with one I/O APIC and one local APIC, for the tests.
use maizono_os.Base.{ℕ, ◌+◌, ◌-◌, refl, arith, if◌then◌else◌, ◌==◌, leb, update, bit_or}
use maizono_os.Acpi.{ApicInfo}
use maizono_os.Arch.Hardware.{Machine}
use maizono_os.Arch.IoTable.{IsIoApic}
use maizono_os.Interrupts.Ready.{IsMatching, IsDelivered}
use maizono_os.Interrupts.Enabled.{polls, IsLocalApic}

abbrev pub io_base : ℕ
io_base = 0xfec00000

abbrev pub local_base : ℕ
local_base = 0xfee00000

-- An I/O APIC of id 0, and a local APIC that needs some reads until a command is delivered.
pub record Registers : Type 0 where
  pub selected : ℕ
  pub io : ℕ → ℕ
  pub local : ℕ → ℕ
  pub pending : ℕ

abbrev pub reads : Registers → ℕ → ℕ
reads s k = if k == 0 then 0 else s.io k

abbrev pub pc_load : ℕ → Registers → ℕ
pc_load addr s =
    if addr == io_base + 16
    then reads s s.selected
    else if addr == local_base + 0x300
    then (if s.pending == 0 then s.local 0x300 else bit_or 0x1000 (s.local 0x300))
    else s.local (addr - local_base)

abbrev pub pc_store : ℕ → ℕ → Registers → Registers
pc_store addr value s =
    if addr == io_base
    then record s { selected = value }
    else if addr == io_base + 16
    then record s { io = (if leb 16 s.selected then update s.io s.selected value else s.io) }
    else record s { local = update s.local (addr - local_base) value; pending = 2 }

abbrev pub pc : Machine
pc = record {
  State = Registers;
  load = pc_load;
  after_load =
      λ addr s. (if addr == local_base + 0x300 then record s { pending = s.pending - 1 } else s);
  store = pc_store;
  msr_high = λ msr s. 0;
  msr_low = λ msr s. 0;
  wrmsr = λ msr high low s. s;
  out_u8 = λ port value s. s;
}

abbrev pub pc_io_apic : IsIoApic pc io_base
pc_io_apic = record {
  selected = λ s. s.selected;
  register = reads;
  selects = λ reg s. refl;
  keeps = λ reg k s. refl;
  stores = λ value k s h. ground arith;
  loads = λ s. refl;
  loading = λ k s. refl;
}

-- An I/O APIC whose last entry is number 23.
abbrev pub start : Registers
start = record {
  selected = 0;
  io = λ k. (if k == 1 then 0x170020 else 0);
  local = λ k. 0;
  pending = 0;
}

abbrev pub info : ApicInfo
info = record {
  local_apic_base = local_base;
  local_apic = record { processor_id = 0 };
  io_apic = record { io_apic_id = 0; io_apic_address = io_base };
}

abbrev pub pc_local_apic : IsLocalApic pc local_base
pc_local_apic = record {
  register = λ s. s.local;
  stores = λ offset value k s h. ground arith;
  loads = λ offset k s. ground arith;
}

pub pc-IsMatching : IsMatching info pc_io_apic pc_local_apic
pc-IsMatching s = refl

pub pc-IsDelivered : IsDelivered info pc_io_apic pc_local_apic 5
unfolding polls
pc-IsDelivered s = (2, omega arith, refl)
