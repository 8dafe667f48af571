-- ===== src/Gdt.antt =====
-- kernel/src/gdt.rs: segment descriptors and the table that `init` loads. A `SegmentDescriptor` is
-- its 64-bit word. The values are `u8` and `u16`, so no shift below drops a bit.
pub mod Fields
pub mod Setters
pub mod Flags
pub mod Encodes
pub mod Segment
mod Examples
use maizono_os.Base.{
  ℕ, ◌+◌, ◌-◌, ◌*◌, ◌≡◌, Bool, true, false, List, [], ◌∷◌, bit_and, bit_or, if◌then◌else◌,
}
use maizono_os.Word.{u8, u16, ◌<<<◌, ◌>>>◌, complement}

pub data DescriptorType : Type 0 where
  upper_8_bytes ldt tss_available tss_busy call_gate interrupt_gate trap_gate : DescriptorType
  read_write execute_read : DescriptorType

pub get : DescriptorType → ℕ
get upper_8_bytes = 0
get ldt = 2
get tss_available = 9
get tss_busy = 11
get call_gate = 12
get interrupt_gate = 14
get trap_gate = 15
get read_write = 2
get execute_read = 10

pub set_limit_low : ℕ → ℕ → ℕ
set_limit_low descriptor value = bit_or (bit_and descriptor (complement 64 0xffff)) value

pub set_base_low : ℕ → ℕ → ℕ
set_base_low descriptor value =
    bit_or (bit_and descriptor (complement 64 (0xffff <<< 16))) (value <<< 16)

pub set_base_middle : ℕ → ℕ → ℕ
set_base_middle descriptor value =
    bit_or (bit_and descriptor (complement 64 (0xff <<< 32))) (value <<< 32)

pub set_descriptor_privilege_level : ℕ → ℕ → ℕ
set_descriptor_privilege_level descriptor value =
    bit_or (bit_and descriptor (complement 64 (0b11 <<< 45))) (value <<< 45)

pub set_limit_high : ℕ → ℕ → ℕ
set_limit_high descriptor value =
    bit_or (bit_and descriptor (complement 64 (0xf <<< 48))) (value <<< 48)

pub set_base_high : ℕ → ℕ → ℕ
set_base_high descriptor value =
    bit_or (bit_and descriptor (complement 64 (0xff <<< 56))) (value <<< 56)

pub set_descriptor_type : ℕ → DescriptorType → ℕ
unfolding get
set_descriptor_type descriptor value =
    bit_or (bit_and descriptor (complement 64 (0xf <<< 40))) (get value <<< 40)

pub set_system_segment : ℕ → Bool → ℕ
set_system_segment descriptor value =
    bit_or (bit_and descriptor (complement 64 (0b1 <<< 44)))
      (if value then 0b1 <<< 44 else 0b0 <<< 44)

pub set_present : ℕ → Bool → ℕ
set_present descriptor value =
    bit_or (bit_and descriptor (complement 64 (0b1 <<< 47)))
      (if value then 0b1 <<< 47 else 0b0 <<< 47)

pub set_available : ℕ → Bool → ℕ
set_available descriptor value =
    bit_or (bit_and descriptor (complement 64 (0b1 <<< 52)))
      (if value then 0b1 <<< 52 else 0b0 <<< 52)

pub set_long_mode : ℕ → Bool → ℕ
set_long_mode descriptor value =
    bit_or (bit_and descriptor (complement 64 (0b1 <<< 53)))
      (if value then 0b1 <<< 53 else 0b0 <<< 53)

pub set_default_operation_size : ℕ → Bool → ℕ
set_default_operation_size descriptor value =
    bit_or (bit_and descriptor (complement 64 (0b1 <<< 54)))
      (if value then 0b1 <<< 54 else 0b0 <<< 54)

pub granularity : ℕ → Bool → ℕ
granularity descriptor value =
    bit_or (bit_and descriptor (complement 64 (0b1 <<< 55)))
      (if value then 0b1 <<< 55 else 0b0 <<< 55)

-- The assignments of `set_code_segment`, in order.
pub set_code_segment : ℕ → DescriptorType → ℕ → ℕ → ℕ → ℕ
set_code_segment descriptor descriptor_type descriptor_privilege_level base limit =
    let d : ℕ = 0 in
    let d = set_base_low d (u16 (bit_and base 0xffff)) in
    let d = set_base_middle d (u8 (bit_and (base >>> 16) 0xff)) in
    let d = set_base_high d (u8 (bit_and (base >>> 24) 0xff)) in
    let d = set_limit_low d (u16 (bit_and limit 0xffff)) in
    let d = set_limit_high d (u8 (bit_and (limit >>> 16) 0xff)) in
    let d = set_descriptor_type d descriptor_type in
    let d = set_system_segment d true in
    let d = set_descriptor_privilege_level d descriptor_privilege_level in
    let d = set_present d true in
    let d = set_available d false in
    let d = set_long_mode d true in let d = set_default_operation_size d false in granularity d true

pub set_data_segment : ℕ → DescriptorType → ℕ → ℕ → ℕ → ℕ
set_data_segment descriptor descriptor_type descriptor_privilege_level base limit =
    let d = set_code_segment descriptor descriptor_type descriptor_privilege_level base limit in
    let d = set_long_mode d true in set_default_operation_size d true

-- The words that `init` stores, and what it loads into the processor: the operand of `lgdt` and the
-- selectors. `selector` is `SegmentSelector::new` of the `x86_64` crate at ring 0.
pub record Loaded : Type 0 where
  pub gdt : List ℕ
  pub limit : ℕ
  pub offset : ℕ
  pub ds : ℕ
  pub es : ℕ
  pub fs : ℕ
  pub gs : ℕ
  pub cs : ℕ
  pub ss : ℕ

-- The operand of `lgdt`.
pub record GlobalDescriptorTableArgs : Type 0 where
  pub limit : ℕ
  pub offset : ℕ

abbrev load_gdt : ℕ → ℕ → GlobalDescriptorTableArgs
load_gdt limit offset = record { limit = limit; offset = offset }

-- `SegmentDescriptor::new`
abbrev new : ℕ
new = 0

pub init : (ℕ → ℕ) → ℕ → Loaded
init selector gdt_ptr = record {
  gdt =
      0
      ∷ set_code_segment new execute_read 0 0 0xfffff
      ∷ set_data_segment new read_write 0 0 0xfffff
      ∷ [];
  limit = (load_gdt (u16 (3 * 8) - 1) gdt_ptr).limit;
  offset = (load_gdt (u16 (3 * 8) - 1) gdt_ptr).offset;
  ds = selector 0;
  es = selector 0;
  fs = selector 0;
  gs = selector 0;
  cs = selector 1;
  ss = selector 2;
}
