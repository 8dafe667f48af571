-- ===== src/Interrupts/Routing.antt =====
-- What `init` leaves in the redirection table of the I/O APIC.
use native.Mathlib.Decide.{ℕ_discrete}
use maizono_os.Base.{
  ℕ, zero, suc, ◌+◌, ◌*◌, ◌/◌, ◌%◌, ◌^◌, ◌≤◌, ◌<◌, ◌≡◌, ◌≢◌, refl, sym, ap, ◌∙◌, true, false, ◌&&◌,
  ◌⊎◌, some, arith, ltb, leb, ◌==◌, if◌then◌else◌, bit_and, bit_or, inl, inr,
}
use maizono_os.Base.Exec.{Exec, done, panic, for_range}
use maizono_os.Word.Masks.{and_mask, or_fields_below}
use maizono_os.Acpi.{ApicInfo, io_apic_base, io_apic_id, processor_id}
use maizono_os.Arch.{Stuck}
use maizono_os.Arch.Hardware.{Machine}
use maizono_os.Arch.IoApic
use maizono_os.Arch.IoTable.{
  IsIoApic, entry, IsStored, set_redirection_entry_at-IsStored, read-register, after_read,
}
use maizono_os.Interrupts.{
  as_u8, vector_number, idt, Handler, keyboard_interrupt_handler, mouse_interrupt_handler,
}
use maizono_os.Interrupts.Setup.{mask_entry, route, init_io_apic}

-- A masked entry without a processor, as the loop writes it.
abbrev pub masked_entry : ℕ → ℕ
masked_entry i = 2 ^ 16 + (32 + i)

-- The entry that sends a vector to a processor.
abbrev pub routed_entry : ℕ → ℕ → ℕ
routed_entry processor vector = processor * 2 ^ 56 + vector

module _ {machine : Machine} {base : ℕ} (io : IsIoApic machine base) where
  open machine use {State}

  -- `result` is a normal return of a table with the entries `f`, and the other registers of `s`.
  record HasTable (f : ℕ → ℕ) (s : State) (result : Exec State Stuck (Unit {0})) : Type 0 where
    out : State
    returns : result ≡ done tt out
    entries : (j : ℕ) → entry io out j ≡ f j
    others : (k : ℕ) → k < 0x10 → io.register out k ≡ io.register s k

  mask_entry-IsStored :
      (i : ℕ) (s : State)
      → i < 256
      → IsStored io i (masked_entry i) s (mask_entry machine (record { ptr = base }) i s)
  unfolding mask_entry
  mask_entry-IsStored i s h =
      let e : bit_or (32 + i) (1 * 2 ^ 16) ≡ masked_entry i =
        or_fields_below 16 1 (32 + i) (omega arith) in
      let index : i % 2 ^ 32 ≡ i = omega arith in
      rw (e, index)
        (set_redirection_entry_at-IsStored io i (masked_entry i) s (omega arith) (omega arith))

  mask_entries-HasTable :
      (left i : ℕ) (s : State)
      → i + left ≤ 256
      → HasTable
          (λ j. if leb i j && ltb j (i + left) then masked_entry j else entry io s j)
          s
          (for_range i left (mask_entry machine (record { ptr = base })) s)
  unfolding for_range
  mask_entries-HasTable zero i s h = record {
    out = s;
    returns = refl;
    entries = λ j. ground arith;
    others = λ k l. refl;
  }
  mask_entries-HasTable (suc left) i s h =
      let first = mask_entry-IsStored i s (omega arith) in
      let rest = mask_entries-HasTable left (i + 1) first.out (omega arith) in
      record {
        out = rest.out;
        returns = rw first.returns rest.returns;
        entries = λ j. ground (arith, rest.entries j, first.entries j);
        others = λ k l. rest.others k l ∙ first.others k l;
      }

  route_entry-IsStored :
      (irq vector processor : ℕ) (s : State)
      → irq < 16
      → vector < 256
      → processor < 256
      → IsStored io irq (routed_entry processor vector) s (
          IoApic.set_redirection_entry_at machine
            (record { ptr = base })
            irq
            (bit_or vector (processor * 2 ^ 56))
            s)
  route_entry-IsStored irq vector processor s h k l =
      rw (or_fields_below 56 processor vector (omega arith)) (
        set_redirection_entry_at-IsStored io irq (routed_entry processor vector) s (omega arith)
          (omega arith))

  route-HasTable :
      (processor : ℕ) (s : State)
      → processor < 256
      → HasTable
          (λ j.
            if j == 12
            then routed_entry processor 44
            else if j == 1
            then routed_entry processor 33
            else entry io s j)
          s
          (route machine (record { ptr = base }) (processor * 2 ^ 56) s)
  unfolding route as_u8 vector_number
  route-HasTable processor s small =
      let first = route_entry-IsStored 1 33 processor s (omega arith) (omega arith) small in
      let second =
        route_entry-IsStored 12 44 processor first.out (omega arith) (omega arith) small in
      record {
        out = second.out;
        returns = rw first.returns second.returns;
        entries = λ j. ground (arith, second.entries j, first.entries j);
        others = λ r l. second.others r l ∙ first.others r l;
      }

  -- The number that the version register gives.
  abbrev pub last_entry : State → ℕ
  last_entry s = io.register s 1 / 2 ^ 16 % 2 ^ 8

  -- The id in the id register.
  abbrev pub id_of : State → ℕ
  id_of s = io.register s 0 / 2 ^ 24 % 2 ^ 4

  -- What the table holds after `init` on a machine in state `s`.
  abbrev pub final_entry : ApicInfo → State → ℕ → ℕ
  final_entry info s j =
      if j == 12
      then routed_entry (processor_id info) 44
      else if j == 1
      then routed_entry (processor_id info) 33
      else if ltb j (last_entry s)
      then masked_entry j
      else entry io s j

  -- `result` is a normal return with that table.
  pub record IsRouted (info : ApicInfo) (s : State) (result : Exec State Stuck (Unit {0}))
      : Type 0 where
    pub out : State
    pub returns : result ≡ done tt out
    pub entries : (j : ℕ) → entry io out j ≡ final_entry info s j

  entry-eq :
      (s u : State)
      → ((k : ℕ) → io.register u k ≡ io.register s k)
      → (j : ℕ) → entry io u j ≡ entry io s j
  entry-eq s u h j = ground (arith, h (0x10 + 2 * j), h (0x10 + 2 * j + 1))

  get_id-eq :
      (s : State)
      → IoApic.get_id machine (record { ptr = base }) s
        ≡ done (id_of s) (machine.after_load (base + 16) (machine.store base 0 s))
  unfolding IoApic.get_id
  get_id-eq s =
      let e : bit_and (io.register s 0 / 2 ^ 24) 0xf % 2 ^ 8 ≡ id_of s =
        omega (arith, and_mask 4 (io.register s 0 / 2 ^ 24)) in
      rw (read-register io 0 s) (rw e refl)

  get_max-eq :
      (s : State)
      → IoApic.get_max_amount_of_redirection_entries machine (record { ptr = base }) s
        ≡ done (last_entry s) (machine.after_load (base + 16) (machine.store base 1 s))
  unfolding IoApic.get_max_amount_of_redirection_entries
  get_max-eq s = rw (read-register io 1 s) (rw (and_mask 8 (io.register s 1 / 2 ^ 16)) refl)

module _ {machine : Machine} (info : ApicInfo) (io : IsIoApic machine (io_apic_base info)) where
  open machine use {State}

  abbrev after_id : State → State
  after_id s = machine.after_load (io_apic_base info + 16) (machine.store (io_apic_base info) 0 s)

  abbrev after_version : State → State
  after_version s =
      machine.after_load (io_apic_base info + 16) (machine.store (io_apic_base info) 1 (after_id s))

  unchanged : (s : State) (k : ℕ) → io.register (after_version s) k ≡ io.register s k
  unchanged s k = after_read io 1 k (after_id s) ∙ after_read io 0 k s

  init-matching :
      (s : State)
      → processor_id info < 256
      → id_of io s ≡ io_apic_id info
      → IsRouted io info s (init_io_apic machine info s)
  unfolding init_io_apic IoApic.new
  init-matching s small same =
      let test : (id_of io s == io_apic_id info) ≡ true = ground arith in
      let n = last_entry io (after_id s) in
      let loop = mask_entries-HasTable io n 0 (after_version s) (omega arith) in
      let last = route-HasTable io (processor_id info) loop.out small in
      record {
        out = last.out;
        returns =
            rw (get_id-eq io s, test)
              (rw (get_max-eq io (after_id s)) (rw loop.returns last.returns));
        entries = λ j. ground (
          arith,
          last.entries j,
          loop.entries j,
          entry-eq io s (after_version s) (unchanged s) j,
          after_read io 0 1 s,
        );
      }

  -- If the MADT names this I/O APIC by its address and a processor by an 8-bit id, then `init_io_apic`
  -- panics unless the id of the MADT is that of the id register. Otherwise it returns, and every
  -- redirection entry below the one that the version register names as the last is masked, with vector
  -- 32 plus its number, but those of the keyboard and of the mouse, which are sent to the processor with
  -- vectors 33 and 44. All other entries, the last one too, are as before.
  pub init_io_apic-IsRouted :
      (s : State)
      → processor_id info < 256
      → (id_of io s ≡ io_apic_id info × IsRouted io info s (init_io_apic machine info s))
        ⊎ (id_of io s ≢ io_apic_id info × (init_io_apic machine info s ≡ panic))
  unfolding init_io_apic IoApic.new
  init_io_apic-IsRouted s small = elim (ℕ_discrete (id_of io s) (io_apic_id info)) [
    | yes same ↦ inl (same, init-matching s small same)
    | no other ↦
        (let test : (id_of io s == io_apic_id info) ≡ false = ground arith in
          inr (other, rw (get_id-eq io s, test) refl))
  ]

  unmasked-vector :
      (s : State) (j : ℕ)
      → processor_id info < 256
      → (j < last_entry io s) ⊎ ((j ≡ 1) ⊎ (j ≡ 12))
      → final_entry io info s j / 2 ^ 16 % 2 ≡ 0
      → (final_entry io info s j % 2 ^ 8 ≡ 33) ⊎ (final_entry io info s j % 2 ^ 8 ≡ 44)
  unmasked-vector s j small written unmasked = elim (ℕ_discrete j 12) [
    | yes mouse ↦ inr (ground arith)
    | no a ↦ elim (ℕ_discrete j 1) [
      | yes keyboard ↦ inl (ground arith)
      | no b ↦ absurd (ground arith)
    ]
  ]

  -- The two vectors have handlers.
  vector-handled : (v : ℕ) → (v ≡ 33) ⊎ (v ≡ 44) → (h : Handler) × (idt v ≡ some h)
  unfolding idt
  vector-handled v (inl e) = (keyboard_interrupt_handler, rw e refl)
  vector-handled v (inr e) = (mouse_interrupt_handler, rw e refl)

  -- After `init_io_apic` has returned, every redirection entry that it wrote and left unmasked has a
  -- vector for which the handler table has a handler.
  pub routed-handled :
      (s out : State) (j : ℕ)
      → processor_id info < 256
      → init_io_apic machine info s ≡ done tt out
      → (j < last_entry io s) ⊎ ((j ≡ 1) ⊎ (j ≡ 12))
      → entry io out j / 2 ^ 16 % 2 ≡ 0
      → (h : Handler) × (idt (entry io out j % 2 ^ 8) ≡ some h)
  routed-handled s out j small returns written unmasked = elim (init_io_apic-IsRouted s small) [
    | inl (same, r) ↦
        (let e : out ≡ r.out = cc (sym returns ∙ r.returns) in
          let f : entry io out j ≡ final_entry io info s j =
            ap (λ u. entry io u j) e ∙ r.entries j in
          vector-handled (entry io out j % 2 ^ 8)
            (rw f (unmasked-vector s j small written (rw (← f) unmasked))))
    | inr (other, stopped) ↦ absurd (cc (sym returns ∙ stopped))
  ]
