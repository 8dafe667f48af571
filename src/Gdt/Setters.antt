-- ===== src/Gdt/Setters.antt =====
-- Each setter replaces its own field of the descriptor and keeps the others.
use native.Mathlib.Nat.{mul-one}
use maizono_os.Base.{ℕ, ◌+◌, ◌*◌, ◌^◌, ◌<◌, ◌≡◌, ◌∙◌, Bool, arith, if◌then◌else◌}
use maizono_os.Gdt.{
  DescriptorType, get, set_limit_low, set_base_low, set_base_middle, set_descriptor_privilege_level,
  set_limit_high, set_base_high, set_descriptor_type,
}
use maizono_os.Gdt.Fields.{Fields, encode, Fit, replace_field}

abbrev pub bit : Bool → ℕ
bit b = if b then 1 else 0

pub get-lt : (t : DescriptorType) → get t < 2 ^ 4
unfolding get
get-lt t = ground arith

module _ (f : Fields) (fit : Fit f) where
  pub set_limit_low-encode :
      (value : ℕ)
      → value < 2 ^ 16
      → set_limit_low (encode f) value ≡ encode (record f { limit_low = value })
  unfolding set_limit_low
  set_limit_low-encode value fits =
      rw mul-one at (
        replace_field 0 16 48 (encode f)
          (f.base_low
            + f.base_middle * 2 ^ 16
            + f.descriptor_type * 2 ^ 24
            + f.system_segment * 2 ^ 28
            + f.privilege_level * 2 ^ 29
            + f.present * 2 ^ 31
            + f.limit_high * 2 ^ 32
            + f.available * 2 ^ 36
            + f.long_mode * 2 ^ 37
            + f.default_operation_size * 2 ^ 38
            + f.granularity * 2 ^ 39
            + f.base_high * 2 ^ 40)
          f.limit_low 0 value (omega arith) (omega (arith, fit)) (omega (arith, fit)) (omega arith)
          fits)
      ∙ omega arith

  pub set_base_low-encode :
      (value : ℕ)
      → value < 2 ^ 16
      → set_base_low (encode f) value ≡ encode (record f { base_low = value })
  unfolding set_base_low
  set_base_low-encode value fits =
      replace_field 16 16 32 (encode f)
        (f.base_middle
          + f.descriptor_type * 2 ^ 8
          + f.system_segment * 2 ^ 12
          + f.privilege_level * 2 ^ 13
          + f.present * 2 ^ 15
          + f.limit_high * 2 ^ 16
          + f.available * 2 ^ 20
          + f.long_mode * 2 ^ 21
          + f.default_operation_size * 2 ^ 22
          + f.granularity * 2 ^ 23
          + f.base_high * 2 ^ 24)
        f.base_low (f.limit_low) (value) (omega arith) (omega (arith, fit)) (omega (arith, fit))
        (omega (arith, fit)) (fits)
      ∙ omega arith

  pub set_base_middle-encode :
      (value : ℕ)
      → value < 2 ^ 8
      → set_base_middle (encode f) value ≡ encode (record f { base_middle = value })
  unfolding set_base_middle
  set_base_middle-encode value fits =
      replace_field 32 8 24 (encode f)
        (f.descriptor_type
          + f.system_segment * 2 ^ 4
          + f.privilege_level * 2 ^ 5
          + f.present * 2 ^ 7
          + f.limit_high * 2 ^ 8
          + f.available * 2 ^ 12
          + f.long_mode * 2 ^ 13
          + f.default_operation_size * 2 ^ 14
          + f.granularity * 2 ^ 15
          + f.base_high * 2 ^ 16)
        f.base_middle (f.limit_low + f.base_low * 2 ^ 16) (value) (omega arith) (omega (arith, fit))
        (omega (arith, fit)) (omega (arith, fit)) (fits)
      ∙ omega arith

  pub set_descriptor_privilege_level-encode :
      (value : ℕ)
      → value < 2 ^ 2
      → set_descriptor_privilege_level (encode f) value
        ≡ encode (record f { privilege_level = value })
  unfolding set_descriptor_privilege_level
  set_descriptor_privilege_level-encode value fits =
      replace_field 45 2 17 (encode f)
        (f.present
          + f.limit_high * 2 ^ 1
          + f.available * 2 ^ 5
          + f.long_mode * 2 ^ 6
          + f.default_operation_size * 2 ^ 7
          + f.granularity * 2 ^ 8
          + f.base_high * 2 ^ 9)
        f.privilege_level
        (f.limit_low
          + f.base_low * 2 ^ 16
          + f.base_middle * 2 ^ 32
          + f.descriptor_type * 2 ^ 40
          + f.system_segment * 2 ^ 44)
        (value) (omega arith) (omega (arith, fit)) (omega (arith, fit)) (omega (arith, fit)) (fits)
      ∙ omega arith

  pub set_limit_high-encode :
      (value : ℕ)
      → value < 2 ^ 4
      → set_limit_high (encode f) value ≡ encode (record f { limit_high = value })
  unfolding set_limit_high
  set_limit_high-encode value fits =
      replace_field 48 4 12 (encode f)
        (f.available
          + f.long_mode * 2 ^ 1
          + f.default_operation_size * 2 ^ 2
          + f.granularity * 2 ^ 3
          + f.base_high * 2 ^ 4)
        f.limit_high
        (f.limit_low
          + f.base_low * 2 ^ 16
          + f.base_middle * 2 ^ 32
          + f.descriptor_type * 2 ^ 40
          + f.system_segment * 2 ^ 44
          + f.privilege_level * 2 ^ 45
          + f.present * 2 ^ 47)
        (value) (omega arith) (omega (arith, fit)) (omega (arith, fit)) (omega (arith, fit)) (fits)
      ∙ omega arith

  pub set_base_high-encode :
      (value : ℕ)
      → value < 2 ^ 8
      → set_base_high (encode f) value ≡ encode (record f { base_high = value })
  unfolding set_base_high
  set_base_high-encode value fits =
      replace_field 56 8 0 (encode f) 0 f.base_high
        (f.limit_low
          + f.base_low * 2 ^ 16
          + f.base_middle * 2 ^ 32
          + f.descriptor_type * 2 ^ 40
          + f.system_segment * 2 ^ 44
          + f.privilege_level * 2 ^ 45
          + f.present * 2 ^ 47
          + f.limit_high * 2 ^ 48
          + f.available * 2 ^ 52
          + f.long_mode * 2 ^ 53
          + f.default_operation_size * 2 ^ 54
          + f.granularity * 2 ^ 55)
        (value) (omega arith) (omega (arith, fit)) (omega (arith, fit)) (omega (arith, fit)) (fits)
      ∙ omega arith

  pub set_descriptor_type-encode :
      (value : DescriptorType)
      → set_descriptor_type (encode f) value ≡ encode (record f { descriptor_type = get value })
  unfolding set_descriptor_type
  set_descriptor_type-encode value =
      replace_field 40 4 20 (encode f)
        (f.system_segment
          + f.privilege_level * 2 ^ 1
          + f.present * 2 ^ 3
          + f.limit_high * 2 ^ 4
          + f.available * 2 ^ 8
          + f.long_mode * 2 ^ 9
          + f.default_operation_size * 2 ^ 10
          + f.granularity * 2 ^ 11
          + f.base_high * 2 ^ 12)
        f.descriptor_type (f.limit_low + f.base_low * 2 ^ 16 + f.base_middle * 2 ^ 32) (get value)
        (omega arith) (omega (arith, fit)) (omega (arith, fit)) (omega (arith, fit)) (get-lt value)
      ∙ omega arith
