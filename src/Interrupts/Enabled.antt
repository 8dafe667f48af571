-- ===== src/Interrupts/Enabled.antt =====
-- What `init` leaves in the registers of the local APIC, and when it gets that far.
use maizono_os.Base.{
  ℕ, zero, suc, ◌+◌, ◌<◌, ◌≡◌, refl, ◌∙◌, Bool, true, arith, bit_and, ◌==◌, if◌then◌else◌, inl, inr,
  Bool-cases, ltb,
}
use maizono_os.Base.Exec.{Exec, done}
use maizono_os.Arch.{Stuck, write_volatile, read_volatile}
use maizono_os.Arch.Hardware.{Machine}
use maizono_os.Arch.LocalApic
use maizono_os.Interrupts.{as_u8}
use maizono_os.Interrupts.Setup.{delivery_status, wait_delivered, write_local_apic, init_local_apic}

-- The registers of the local APIC lie at their offsets from the base; `register` is what was last
-- written there.
pub record IsLocalApic (machine : Machine) (base : ℕ) : Type 0 where
  pub register : machine.State → ℕ → ℕ
  pub stores :
      (offset value k : ℕ) (s : machine.State)
      → offset < 0x400
      → register (machine.store (base + offset) value s) k
        ≡ (if offset == k then value else register s k)
  pub loads :
      (offset k : ℕ) (s : machine.State)
      → register (machine.after_load (base + offset) s) k ≡ register s k

module _ {machine : Machine} {base : ℕ} (local : IsLocalApic machine base) where
  open machine use {State, store, after_load, load}

  -- The machine after `n` reads of the interrupt command register.
  unfoldable pub polls : ℕ → State → State
  polls zero s = s
  polls (suc n) s = polls n (after_load (base + 0x300) s)

  -- The next read finds that the last command has been delivered.
  abbrev pub is_delivered : State → Bool
  is_delivered s = bit_and (load (base + 0x300) s) delivery_status == 0

  -- If a read within the fuel finds the command delivered, the loop returns after some reads.
  wait_delivered-returns :
      (fuel k : ℕ) (s : State)
      → k < fuel
      → is_delivered (polls k s) ≡ true
      → (n : ℕ) × (wait_delivered machine fuel (record { ptr = base }) s ≡ done tt (polls n s))
  unfolding wait_delivered polls LocalApic.read read_volatile
  wait_delivered-returns zero k s h delivered = absurd (omega arith)
  wait_delivered-returns (suc fuel) zero s h delivered = (1, ground arith)
  wait_delivered-returns (suc fuel) (suc k) s h delivered =
      let s' = after_load (base + 0x300) s in
      let (n, e) = wait_delivered-returns fuel k s' (omega arith) delivered in
      elim (Bool-cases (is_delivered s)) [
        | inl now ↦ (1, rw now refl)
        | inr pending ↦ (suc n, rw pending e)
      ]

  -- The machine after the writes.
  abbrev pub written : State → State
  written s = store (base + 0x300) 0x88500 (
      store (base + 0x310) 0 (
        store (base + 0xb0) 0 (
          store (base + 0x280) 0 (
            store (base + 0x280) 0 (
              store (base + 0x370) 51 (
                store (base + 0x340) 0x10000 (
                  store (base + 0x360) 0x10000
                    (store (base + 0x350) 0x10000 (store (base + 0xf0) 0x1ff s)))))))))

  write_local_apic-eq :
      (s : State) → write_local_apic machine (record { ptr = base }) s ≡ done tt (written s)
  unfolding write_local_apic as_u8 LocalApic.write write_volatile
  write_local_apic-eq s = refl

  init_local_apic-eq :
      (fuel n : ℕ) (s : State)
      → wait_delivered machine fuel (record { ptr = base }) (written s)
        ≡ done tt (polls n (written s))
      → init_local_apic machine fuel (record { ptr = base }) s
        ≡ done tt (store (base + 0x80) 0 (polls n (written s)))
  unfolding init_local_apic write_local_apic as_u8 LocalApic.write write_volatile
  init_local_apic-eq fuel n s e = rw e refl

  polls-register : (n k : ℕ) (s : State) → local.register (polls n s) k ≡ local.register s k
  unfolding polls
  polls-register zero k s = refl
  polls-register (suc n) k s =
      polls-register n k (after_load (base + 0x300) s) ∙ local.loads 0x300 k s

  -- The registers after `init`.
  abbrev pub final_register : State → ℕ → ℕ
  final_register s k =
      if 0x80 == k
      then 0
      else if 0x300 == k
      then 0x88500
      else if 0x310 == k
      then 0
      else if 0xb0 == k
      then 0
      else if 0x280 == k
      then 0
      else if 0x370 == k
      then 51
      else if 0x340 == k
      then 0x10000
      else if 0x360 == k
      then 0x10000
      else if 0x350 == k
      then 0x10000
      else if 0xf0 == k
      then 0x1ff
      else local.register s k

  register-store :
      (offset value k : ℕ) (s : State)
      → ltb offset 0x400 ≡ true
      → local.register (store (base + offset) value s) k
        ≡ (if offset == k then value else local.register s k)
  register-store offset value k s h = local.stores offset value k s (ground arith)

  written-register :
      (s : State) (k : ℕ)
      → (if 0x80 == k then 0 else local.register (written s) k) ≡ final_register s k
  written-register s k =
      rw
        (
          register-store 0x300 0x88500 k _ refl,
          register-store 0x310 0 k _ refl,
          register-store 0xb0 0 k _ refl,
          register-store 0x280 0 k _ refl,
          register-store 0x280 0 k _ refl,
          register-store 0x370 51 k _ refl,
          register-store 0x340 0x10000 k _ refl,
          register-store 0x360 0x10000 k _ refl,
          register-store 0x350 0x10000 k _ refl,
          register-store 0xf0 0x1ff k _ refl,
        )
        (elim (Bool-cases (0x280 == k)) [ inl e ↦ rw e refl | inr e ↦ rw e refl ])

  -- `result` is a normal return with these registers.
  pub record IsEnabled (s : State) (result : Exec State Stuck (Unit {0})) : Type 0 where
    pub out : State
    pub returns : result ≡ done tt out
    pub registers : (k : ℕ) → local.register out k ≡ final_register s k

  -- If the interrupt command is delivered within `fuel` reads of the command register, the
  -- initialisation of the local APIC returns: it is enabled with spurious vector 255, both local
  -- interrupt pins and the performance counters are masked, errors raise vector 51, the task priority
  -- is 0, and the registers that it does not write are as before.
  pub init_local_apic-IsEnabled :
      (fuel k : ℕ) (s : State)
      → k < fuel
      → is_delivered (polls k (written s)) ≡ true
      → IsEnabled s (init_local_apic machine fuel (record { ptr = base }) s)
  init_local_apic-IsEnabled fuel k s h delivered =
      let (n, e) = wait_delivered-returns fuel k (written s) h delivered in
      record {
        out = store (base + 0x80) 0 (polls n (written s));
        returns = init_local_apic-eq fuel n s e;
        registers = λ r. ground (
          arith,
          local.stores 0x80 0 r (polls n (written s)),
          polls-register n r (written s),
          written-register s r,
        );
      }
