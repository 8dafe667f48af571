-- ===== src/Pci/Bar.antt =====
-- What `read_base_addr` reads.
use maizono_os.Base.{
  ℕ, ◌+◌, ◌*◌, ◌/◌, ◌%◌, ◌^◌, ◌<◌, ◌≡◌, arith, leb, ltb, ◌==◌, if◌then◌else◌, Bool-cases, inl, inr,
}
use maizono_os.Word.Masks.{or_fields, and_field}
use maizono_os.Error.{pci_error, base_address_register_index_out_of_range_error}
use maizono_os.Pci.{Device, ok, err, make_address, read_base_addr, read_pci_config_space}

-- The word of base address register `index`.
abbrev pub register : (ℕ → ℕ) → Device → ℕ → ℕ
register config d index = config (make_address d.bus d.device d.func (0x10 + 4 * index))

-- If the configuration space holds 32-bit words, `read_base_addr` refuses an index past 5; returns the
-- register of a 32-bit address; and for a 64-bit one, which bit 2 tells, puts the next register above
-- it, or refuses it in register 5, which has no next.
pub read_base_addr_lem :
    (config : ℕ → ℕ) (d : Device) (index : ℕ)
    → ((addr : ℕ) → config addr < 2 ^ 32)
    → read_base_addr config d index ≡ (
        if ltb 5 index
        then err (pci_error base_address_register_index_out_of_range_error)
        else if register config d index / 4 % 2 == 0
        then ok (register config d index)
        else if index == 5
        then err (pci_error base_address_register_index_out_of_range_error)
        else ok (register config d index + register config d (index + 1) * 2 ^ 32))
unfolding read_base_addr read_pci_config_space
read_base_addr_lem config d index words = elim (Bool-cases (leb 6 index)) [
  | inl past ↦ ground arith
  | inr inside ↦
      let small : index < 6 = ground arith in
      let e : (0x10 + 4 * index) % 2 ^ 8 ≡ 0x10 + 4 * index = omega arith in
      let next : 0x10 + 4 * index + 4 ≡ 0x10 + 4 * (index + 1) = omega arith in
      rw
        (
          e,
          next,
          and_field 2 1 (register config d index),
          or_fields 32 (register config d (index + 1)) (register config d index) (words _),
        )
        (ground arith)
]
