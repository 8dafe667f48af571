-- ===== src/Gdt/Flags.antt =====
-- The setters of single bits of a descriptor, on the layout of the fields.
use maizono_os.Base.{
  ℕ, ◌+◌, ◌-◌, ◌*◌, ◌^◌, ◌<◌, ◌≡◌, ◌∙◌, Bool, true, false, arith, bit_and, bit_or,
}
use maizono_os.Gdt.{
  set_system_segment, set_present, set_available, set_long_mode, set_default_operation_size,
  granularity,
}
use maizono_os.Gdt.Fields.{Fields, encode, Fit, replace_field}
use maizono_os.Gdt.Setters.{bit}

module _ (f : Fields) (fit : Fit f) where
  system_segment_replaced :
      (v : ℕ)
      → v < 2
      → bit_or (bit_and (encode f) (2 ^ 64 - 1 - 2 ^ 44)) (v * 2 ^ 44)
        ≡ encode (record f { system_segment = v })
  system_segment_replaced v fits =
      replace_field 44 1 19 (encode f)
        (f.privilege_level
          + f.present * 2 ^ 2
          + f.limit_high * 2 ^ 3
          + f.available * 2 ^ 7
          + f.long_mode * 2 ^ 8
          + f.default_operation_size * 2 ^ 9
          + f.granularity * 2 ^ 10
          + f.base_high * 2 ^ 11)
        f.system_segment
        (f.limit_low + f.base_low * 2 ^ 16 + f.base_middle * 2 ^ 32 + f.descriptor_type * 2 ^ 40) v
        (omega arith) (omega (arith, fit)) (omega (arith, fit)) (omega (arith, fit)) fits
      ∙ omega arith

  present_replaced :
      (v : ℕ)
      → v < 2
      → bit_or (bit_and (encode f) (2 ^ 64 - 1 - 2 ^ 47)) (v * 2 ^ 47)
        ≡ encode (record f { present = v })
  present_replaced v fits =
      replace_field 47 1 16 (encode f)
        (f.limit_high
          + f.available * 2 ^ 4
          + f.long_mode * 2 ^ 5
          + f.default_operation_size * 2 ^ 6
          + f.granularity * 2 ^ 7
          + f.base_high * 2 ^ 8)
        f.present
        (f.limit_low
          + f.base_low * 2 ^ 16
          + f.base_middle * 2 ^ 32
          + f.descriptor_type * 2 ^ 40
          + f.system_segment * 2 ^ 44
          + f.privilege_level * 2 ^ 45)
        v (omega arith) (omega (arith, fit)) (omega (arith, fit)) (omega (arith, fit)) fits
      ∙ omega arith

  available_replaced :
      (v : ℕ)
      → v < 2
      → bit_or (bit_and (encode f) (2 ^ 64 - 1 - 2 ^ 52)) (v * 2 ^ 52)
        ≡ encode (record f { available = v })
  available_replaced v fits =
      replace_field 52 1 11 (encode f)
        (f.long_mode
          + f.default_operation_size * 2 ^ 1
          + f.granularity * 2 ^ 2
          + f.base_high * 2 ^ 3)
        f.available
        (f.limit_low
          + f.base_low * 2 ^ 16
          + f.base_middle * 2 ^ 32
          + f.descriptor_type * 2 ^ 40
          + f.system_segment * 2 ^ 44
          + f.privilege_level * 2 ^ 45
          + f.present * 2 ^ 47
          + f.limit_high * 2 ^ 48)
        v (omega arith) (omega (arith, fit)) (omega (arith, fit)) (omega (arith, fit)) fits
      ∙ omega arith

  long_mode_replaced :
      (v : ℕ)
      → v < 2
      → bit_or (bit_and (encode f) (2 ^ 64 - 1 - 2 ^ 53)) (v * 2 ^ 53)
        ≡ encode (record f { long_mode = v })
  long_mode_replaced v fits =
      replace_field 53 1 10 (encode f)
        (f.default_operation_size + f.granularity * 2 ^ 1 + f.base_high * 2 ^ 2) f.long_mode
        (f.limit_low
          + f.base_low * 2 ^ 16
          + f.base_middle * 2 ^ 32
          + f.descriptor_type * 2 ^ 40
          + f.system_segment * 2 ^ 44
          + f.privilege_level * 2 ^ 45
          + f.present * 2 ^ 47
          + f.limit_high * 2 ^ 48
          + f.available * 2 ^ 52)
        v (omega arith) (omega (arith, fit)) (omega (arith, fit)) (omega (arith, fit)) fits
      ∙ omega arith

  default_operation_size_replaced :
      (v : ℕ)
      → v < 2
      → bit_or (bit_and (encode f) (2 ^ 64 - 1 - 2 ^ 54)) (v * 2 ^ 54)
        ≡ encode (record f { default_operation_size = v })
  default_operation_size_replaced v fits =
      replace_field 54 1 9 (encode f) (f.granularity + f.base_high * 2 ^ 1) f.default_operation_size
        (f.limit_low
          + f.base_low * 2 ^ 16
          + f.base_middle * 2 ^ 32
          + f.descriptor_type * 2 ^ 40
          + f.system_segment * 2 ^ 44
          + f.privilege_level * 2 ^ 45
          + f.present * 2 ^ 47
          + f.limit_high * 2 ^ 48
          + f.available * 2 ^ 52
          + f.long_mode * 2 ^ 53)
        v (omega arith) (omega (arith, fit)) (omega (arith, fit)) (omega (arith, fit)) fits
      ∙ omega arith

  granularity_replaced :
      (v : ℕ)
      → v < 2
      → bit_or (bit_and (encode f) (2 ^ 64 - 1 - 2 ^ 55)) (v * 2 ^ 55)
        ≡ encode (record f { granularity = v })
  granularity_replaced v fits =
      replace_field 55 1 8 (encode f) (f.base_high) f.granularity
        (f.limit_low
          + f.base_low * 2 ^ 16
          + f.base_middle * 2 ^ 32
          + f.descriptor_type * 2 ^ 40
          + f.system_segment * 2 ^ 44
          + f.privilege_level * 2 ^ 45
          + f.present * 2 ^ 47
          + f.limit_high * 2 ^ 48
          + f.available * 2 ^ 52
          + f.long_mode * 2 ^ 53
          + f.default_operation_size * 2 ^ 54)
        v (omega arith) (omega (arith, fit)) (omega (arith, fit)) (omega (arith, fit)) fits
      ∙ omega arith

  pub set_system_segment-encode :
      (value : Bool)
      → set_system_segment (encode f) value ≡ encode (record f { system_segment = bit value })
  unfolding set_system_segment
  set_system_segment-encode true = system_segment_replaced 1 (omega arith)
  set_system_segment-encode false = system_segment_replaced 0 (omega arith)

  pub set_present-encode :
      (value : Bool) → set_present (encode f) value ≡ encode (record f { present = bit value })
  unfolding set_present
  set_present-encode true = present_replaced 1 (omega arith)
  set_present-encode false = present_replaced 0 (omega arith)

  pub set_available-encode :
      (value : Bool) → set_available (encode f) value ≡ encode (record f { available = bit value })
  unfolding set_available
  set_available-encode true = available_replaced 1 (omega arith)
  set_available-encode false = available_replaced 0 (omega arith)

  pub set_long_mode-encode :
      (value : Bool) → set_long_mode (encode f) value ≡ encode (record f { long_mode = bit value })
  unfolding set_long_mode
  set_long_mode-encode true = long_mode_replaced 1 (omega arith)
  set_long_mode-encode false = long_mode_replaced 0 (omega arith)

  pub set_default_operation_size-encode :
      (value : Bool)
      → set_default_operation_size (encode f) value
        ≡ encode (record f { default_operation_size = bit value })
  unfolding set_default_operation_size
  set_default_operation_size-encode true = default_operation_size_replaced 1 (omega arith)
  set_default_operation_size-encode false = default_operation_size_replaced 0 (omega arith)

  pub granularity-encode :
      (value : Bool) → granularity (encode f) value ≡ encode (record f { granularity = bit value })
  unfolding granularity
  granularity-encode true = granularity_replaced 1 (omega arith)
  granularity-encode false = granularity_replaced 0 (omega arith)
