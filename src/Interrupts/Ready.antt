-- ===== src/Interrupts/Ready.antt =====
-- `init` as a whole: both APICs are set up, and the handlers are loaded.
use maizono_os.Base.{ℕ, ◌<◌, ◌≡◌, refl, true, none, some, inl, inr}
use maizono_os.Base.Exec.{Exec, done}
use maizono_os.Acpi.{ApicInfo, io_apic_base, io_apic_id, processor_id}
use maizono_os.Arch.{Stuck, write_msr}
use maizono_os.Arch.Hardware.{Machine}
use maizono_os.Arch.LocalApic
use maizono_os.Arch.LocalApic.{LocalApic}
use maizono_os.Arch.IoTable.{IsIoApic, entry}
use maizono_os.Interrupts.{idt}
use maizono_os.Interrupts.Setup
use maizono_os.Interrupts.Setup.{
  Kernel, init_idt, init_apic, disable_pic_8259, enable_apic, init_local_apic, init_io_apic,
}
use maizono_os.Interrupts.Enabled.{
  IsLocalApic, polls, written, is_delivered, init_local_apic-IsEnabled,
}
use maizono_os.Interrupts.Routing.{IsRouted, final_entry, id_of, init_io_apic-IsRouted}

module _ {machine : Machine} (info : ApicInfo) (io : IsIoApic machine (io_apic_base info))
    (local : IsLocalApic machine info.local_apic_base) where
  -- The id register of the I/O APIC holds the id of the MADT, whatever else was written.
  abbrev pub IsMatching : Type 0
  IsMatching = (s : machine.State) → id_of io s ≡ io_apic_id info

  -- From every state, the interrupt command is delivered within the fuel.
  abbrev pub IsDelivered : ℕ → Type 0
  IsDelivered fuel =
      (s : machine.State)
      → (k : ℕ) × (k < fuel) × (is_delivered local (polls local k (written local s)) ≡ true)

  -- `result` is a normal return with the handlers loaded, the local APIC known, and the redirection
  -- entries routed.
  pub record IsServing (result : Exec (Kernel machine) Stuck (Unit {0})) : Type 0 where
    pub out : Kernel machine
    pub returns : result ≡ done tt out
    pub loaded : out.loaded ≡ some idt
    pub local_apic : out.local_apic ≡ some (LocalApic.new info.local_apic_base)
    pub before : machine.State
    pub entries : (j : ℕ) → entry io out.state j ≡ final_entry io info before j

  routed :
      IsMatching
      → processor_id info < 256
      → (s : machine.State) → IsRouted io info s (init_io_apic machine info s)
  routed same small s = elim (init_io_apic-IsRouted info io s small) [
    | inl (e, r) ↦ r
    | inr (other, stopped) ↦ absurd (other (same s))
  ]

  disable_pic-returns :
      (s : machine.State) → (u : machine.State) × (disable_pic_8259 machine s ≡ done tt u)
  unfolding disable_pic_8259
  disable_pic-returns s = (_, refl)

  enable_apic-returns :
      (s : machine.State) → (u : machine.State) × (enable_apic machine info s ≡ done tt u)
  unfolding enable_apic write_msr
  enable_apic-returns s = (_, refl)

  -- If the two APICs answer as their data sheets say, `init` on a kernel without a local APIC returns.
  pub init-IsServing :
      (fuel : ℕ) (k : Kernel machine)
      → IsMatching
      → IsDelivered fuel
      → processor_id info < 256
      → k.local_apic ≡ none
      → IsServing (Setup.init machine fuel info k)
  unfolding Setup.init init_idt init_apic LocalApic.new
  init-IsServing fuel k same delivered small fresh =
      let (s1, e1) = disable_pic-returns k.state in
      let (s2, e2) = enable_apic-returns s1 in
      let (n, h, d) = delivered s2 in
      let enabled = init_local_apic-IsEnabled local fuel n s2 h d in
      let io_routed = routed same small enabled.out in
      record {
        out = record {
          loaded = some idt;
          local_apic = some (LocalApic.new info.local_apic_base);
          state = io_routed.out;
        };
        returns = rw e1 (rw e2 (rw fresh (rw enabled.returns (rw io_routed.returns refl))));
        loaded = refl;
        local_apic = refl;
        before = enabled.out;
        entries = io_routed.entries;
      }
