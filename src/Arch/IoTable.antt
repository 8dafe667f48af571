-- ===== src/Arch/IoTable.antt =====
-- What the I/O APIC does with the accesses of the kernel, and the redirection entries that it holds.
use maizono_os.Base.{
  ℕ, ◌+◌, ◌*◌, ◌/◌, ◌%◌, ◌^◌, ◌≤◌, ◌<◌, ◌≡◌, refl, ◌∙◌, arith, ◌==◌, if◌then◌else◌,
}
use maizono_os.Base.Checked.{add_u32_fits, mul_u32_fits}
use maizono_os.Base.Exec.{Exec, done}
use maizono_os.Arch.{Stuck, write_volatile, read_volatile}
use maizono_os.Arch.Hardware.{Machine}
use maizono_os.Arch.IoApic
use maizono_os.Arch.IoApic.{IoApic}

-- The data sheet: a store at the base selects a register; the window reads the selected register, and
-- writes it if it is one of the redirection table, whose registers start at 0x10. `register` is the
-- writable part of a register, and `base` the address of the interface.
pub record IsIoApic (machine : Machine) (base : ℕ) : Type 0 where
  pub selected : machine.State → ℕ
  pub register : machine.State → ℕ → ℕ
  pub selects : (reg : ℕ) (s : machine.State) → selected (machine.store base reg s) ≡ reg
  pub keeps : (reg k : ℕ) (s : machine.State) → register (machine.store base reg s) k ≡ register s k
  pub stores :
      (value k : ℕ) (s : machine.State)
      → 0x10 ≤ selected s
      → register (machine.store (base + 16) value s) k
        ≡ (if selected s == k then value else register s k)
  pub loads : (s : machine.State) → machine.load (base + 16) s ≡ register s (selected s)
  pub loading :
      (k : ℕ) (s : machine.State) → register (machine.after_load (base + 16) s) k ≡ register s k

module _ {machine : Machine} {base : ℕ} (io : IsIoApic machine base) where
  open machine use {State, store}

  abbrev apic : IoApic
  apic = record { ptr = base }

  -- The 64-bit entry `i` of the table, in two registers.
  abbrev pub entry : State → ℕ → ℕ
  entry s i = io.register s (0x10 + 2 * i) + io.register s (0x10 + 2 * i + 1) * 2 ^ 32

  -- `result` is a normal return with entry `i` set to `value`, and all else kept.
  pub record IsStored (i value : ℕ) (s : State) (result : Exec State Stuck (Unit {0}))
      : Type 0 where
    pub out : State
    pub returns : result ≡ done tt out
    pub entries : (j : ℕ) → entry out j ≡ (if i == j then value else entry s j)
    pub others : (k : ℕ) → k < 0x10 → io.register out k ≡ io.register s k

  register-write :
      (reg value k : ℕ) (s : State)
      → 0x10 ≤ reg
      → io.register (store (base + 16) value (store base reg s)) k
        ≡ (if reg == k then value else io.register s k)
  register-write reg value k s h =
      ground (arith, io.selects reg s, io.keeps reg k s, io.stores value k (store base reg s))

  -- The table after a low and a high half are written.
  abbrev halves : ℕ → ℕ → State → State
  halves i value s = store (base + 16) (value / 2 ^ 32 % 2 ^ 32) (
      store base (0x10 + 2 * i + 1)
        (store (base + 16) (value % 2 ^ 32) (store base (0x10 + 2 * i) s)))

  register-halves :
      (i value k : ℕ) (s : State)
      → io.register (halves i value s) k ≡ (
          if 0x10 + 2 * i + 1 == k
          then value / 2 ^ 32 % 2 ^ 32
          else if 0x10 + 2 * i == k
          then value % 2 ^ 32
          else io.register s k)
  register-halves i value k s =
      register-write (0x10 + 2 * i + 1) (value / 2 ^ 32 % 2 ^ 32) k _ (omega arith)
      ∙ ground (arith, register-write (0x10 + 2 * i) (value % 2 ^ 32) k s)

  pub set_redirection_entry_at-IsStored :
      (i value : ℕ) (s : State)
      → i < 2 ^ 30
      → value < 2 ^ 64
      → IsStored i value s (IoApic.set_redirection_entry_at machine apic i value s)
  unfolding IoApic.set_redirection_entry_at IoApic.write write_volatile
  set_redirection_entry_at-IsStored i value s small word = record {
    out = halves i value s;
    returns =
        unfold write_volatile in
        rw (mul_u32_fits 2 i (omega arith)) (
          rw (add_u32_fits 0x10 (2 * i) (omega arith)) (
            rw (add_u32_fits 0x10 (2 * i) (omega arith))
              (rw (add_u32_fits (0x10 + 2 * i) 1 (omega arith)) refl)));
    entries = λ j. ground (
      arith,
      register-halves i value (0x10 + 2 * j) s,
      register-halves i value (0x10 + 2 * j + 1) s,
    );
    others = λ k h. ground (arith, register-halves i value k s);
  }

  pub read-register :
      (reg : ℕ) (s : State)
      → IoApic.read machine apic reg s
        ≡ done (io.register s reg) (machine.after_load (base + 16) (store base reg s))
  unfolding IoApic.read read_volatile write_volatile
  read-register reg s = rw (io.loads (store base reg s), io.selects reg s, io.keeps reg reg s) refl

  pub after_read :
      (reg k : ℕ) (s : State)
      → io.register (machine.after_load (base + 16) (store base reg s)) k ≡ io.register s k
  after_read reg k s = io.loading k (store base reg s) ∙ io.keeps reg k s
