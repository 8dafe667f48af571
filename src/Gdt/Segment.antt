-- ===== src/Gdt/Segment.antt =====
-- The descriptors that `set_code_segment` and `set_data_segment` build, read by the processor manual.
use maizono_os.Base.{ℕ, ◌+◌, ◌*◌, ◌/◌, ◌%◌, ◌^◌, ◌<◌, ◌≡◌, refl, true, false, arith, bit_and}
use maizono_os.Word.{u8, u16, ◌>>>◌}
use maizono_os.Word.Masks.{and_mask}
use maizono_os.Gdt.{DescriptorType, get, set_code_segment, set_data_segment}
use maizono_os.Gdt.Fields.{Fields}
use maizono_os.Gdt.Encodes.{
  Encodes, set_limit_low-Encodes, set_base_low-Encodes, set_base_middle-Encodes,
  set_descriptor_privilege_level-Encodes, set_limit_high-Encodes, set_base_high-Encodes,
  set_descriptor_type-Encodes, set_system_segment-Encodes, set_present-Encodes,
  set_available-Encodes, set_long_mode-Encodes, set_default_operation_size-Encodes,
  granularity-Encodes,
}

-- `d`, read at the bit positions of the processor manual, is a present code or data segment of 4 KiB
-- granularity, that is not marked available, with these attributes.
pub record IsSegment (d : ℕ) (descriptor_type : DescriptorType) (privilege_level base limit : ℕ)
    (long_mode default_operation_size : ℕ) : Type 0 where
  pub word : d < 2 ^ 64
  pub base_split : d / 2 ^ 16 % 2 ^ 24 + d / 2 ^ 56 * 2 ^ 24 ≡ base
  pub limit_split : d % 2 ^ 16 + d / 2 ^ 48 % 2 ^ 4 * 2 ^ 16 ≡ limit
  pub kind : d / 2 ^ 40 % 2 ^ 4 ≡ get descriptor_type
  pub not_system : d / 2 ^ 44 % 2 ≡ 1
  pub privilege : d / 2 ^ 45 % 2 ^ 2 ≡ privilege_level
  pub present : d / 2 ^ 47 % 2 ≡ 1
  pub available : d / 2 ^ 52 % 2 ≡ 0
  pub long : d / 2 ^ 53 % 2 ≡ long_mode
  pub size : d / 2 ^ 54 % 2 ≡ default_operation_size
  pub pages : d / 2 ^ 55 % 2 ≡ 1

-- The fields of a segment.
abbrev fields : DescriptorType → ℕ → ℕ → ℕ → ℕ → ℕ → Fields
fields descriptor_type privilege_level base limit long_mode default_operation_size = record {
  limit_low = u16 (bit_and limit 0xffff);
  base_low = u16 (bit_and base 0xffff);
  base_middle = u8 (bit_and (base >>> 16) 0xff);
  descriptor_type = get descriptor_type;
  system_segment = 1;
  privilege_level = privilege_level;
  present = 1;
  limit_high = u8 (bit_and (limit >>> 16) 0xff);
  available = 0;
  long_mode = long_mode;
  default_operation_size = default_operation_size;
  granularity = 1;
  base_high = u8 (bit_and (base >>> 24) 0xff);
}

abbrev blank : Fields
blank = record {
  limit_low = 0;
  base_low = 0;
  base_middle = 0;
  descriptor_type = 0;
  system_segment = 0;
  privilege_level = 0;
  present = 0;
  limit_high = 0;
  available = 0;
  long_mode = 0;
  default_operation_size = 0;
  granularity = 0;
  base_high = 0;
}

blank-Encodes : Encodes 0 blank
blank-Encodes = record { word = refl; fit = omega arith }

module _ (descriptor : ℕ) (descriptor_type : DescriptorType) (privilege_level base limit : ℕ)
    (ring : privilege_level < 4) (base_fits : base < 2 ^ 32) (limit_fits : limit < 2 ^ 20) where
  set_code_segment-Encodes :
      Encodes
        (set_code_segment descriptor descriptor_type privilege_level base limit)
        (fields descriptor_type privilege_level base limit 1 0)
  unfolding set_code_segment
  set_code_segment-Encodes =
      let e = set_base_low-Encodes blank-Encodes (u16 (bit_and base 0xffff)) (omega arith) in
      let e = set_base_middle-Encodes e (u8 (bit_and (base >>> 16) 0xff)) (omega arith) in
      let e = set_base_high-Encodes e (u8 (bit_and (base >>> 24) 0xff)) (omega arith) in
      let e = set_limit_low-Encodes e (u16 (bit_and limit 0xffff)) (omega arith) in
      let high : u8 (bit_and (limit >>> 16) 0xff) < 2 ^ 4 =
        omega (arith, and_mask 8 (limit / 65536)) in
      let e = set_limit_high-Encodes e (u8 (bit_and (limit >>> 16) 0xff)) high in
      let e = set_descriptor_type-Encodes e descriptor_type in
      let e = set_system_segment-Encodes e true in
      let e = set_descriptor_privilege_level-Encodes e privilege_level ring in
      let e = set_present-Encodes e true in
      let e = set_available-Encodes e false in
      let e = set_long_mode-Encodes e true in
      let e = set_default_operation_size-Encodes e false in granularity-Encodes e true

  set_data_segment-Encodes :
      Encodes
        (set_data_segment descriptor descriptor_type privilege_level base limit)
        (fields descriptor_type privilege_level base limit 1 1)
  unfolding set_data_segment
  set_data_segment-Encodes =
      set_default_operation_size-Encodes (set_long_mode-Encodes set_code_segment-Encodes true) true

  fields-IsSegment :
      {d : ℕ} (long_mode default_operation_size : ℕ)
      → Encodes d
          (fields descriptor_type privilege_level base limit long_mode default_operation_size)
      → IsSegment d descriptor_type privilege_level base limit long_mode default_operation_size
  fields-IsSegment long_mode default_operation_size e = omega (
    arith,
    e.word,
    e.fit,
    and_mask 16 base,
    and_mask 8 (base / 65536),
    and_mask 8 (base / 16777216),
    and_mask 16 limit,
    and_mask 8 (limit / 65536),
  )

  -- For a ring below 4, a 32-bit base and a 20-bit limit, `set_code_segment` builds from any earlier
  -- word the descriptor of a present long-mode segment with that type, ring, base and limit.
  pub set_code_segment-IsSegment :
      IsSegment
        (set_code_segment descriptor descriptor_type privilege_level base limit)
        descriptor_type
        privilege_level
        base
        limit
        1
        0
  set_code_segment-IsSegment = fields-IsSegment 1 0 set_code_segment-Encodes

  -- For a ring below 4, a 32-bit base and a 20-bit limit, `set_data_segment` builds from any earlier
  -- word the descriptor of a present segment with that type, ring, base and limit, counted in pages,
  -- in which the long-mode bit and the size bit are both 1.
  pub set_data_segment-IsSegment :
      IsSegment
        (set_data_segment descriptor descriptor_type privilege_level base limit)
        descriptor_type
        privilege_level
        base
        limit
        1
        1
  set_data_segment-IsSegment = fields-IsSegment 1 1 set_data_segment-Encodes
