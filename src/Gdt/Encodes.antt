-- ===== src/Gdt/Encodes.antt =====
-- A word together with the fields that it encodes, under each setter.
use maizono_os.Base.{ℕ, ◌^◌, ◌<◌, ◌≡◌, ◌∙◌, ap, Bool, arith}
use maizono_os.Gdt.{
  DescriptorType, get, set_limit_low, set_base_low, set_base_middle, set_descriptor_privilege_level,
  set_limit_high, set_base_high, set_descriptor_type, set_system_segment, set_present,
  set_available, set_long_mode, set_default_operation_size, granularity,
}
use maizono_os.Gdt.Fields.{Fields, encode, Fit}
use maizono_os.Gdt.Setters.{
  bit, get-lt, set_limit_low-encode, set_base_low-encode, set_base_middle-encode,
  set_descriptor_privilege_level-encode, set_limit_high-encode, set_base_high-encode,
  set_descriptor_type-encode,
}
use maizono_os.Gdt.Flags.{
  set_system_segment-encode, set_present-encode, set_available-encode, set_long_mode-encode,
  set_default_operation_size-encode, granularity-encode,
}

pub record Encodes (d : ℕ) (f : Fields) : Type 0 where
  pub word : d ≡ encode f
  pub fit : Fit f

bit-lt : (b : Bool) → bit b < 2
bit-lt b = ground arith

module _ {d : ℕ} {f : Fields} (e : Encodes d f) where
  pub set_limit_low-Encodes :
      (value : ℕ)
      → value < 2 ^ 16
      → Encodes (set_limit_low d value) (record f { limit_low = value })
  set_limit_low-Encodes value fits = record {
    word = ap (λ (x : ℕ). set_limit_low x value) e.word ∙ set_limit_low-encode f e.fit value fits;
    fit = omega (arith, e.fit);
  }

  pub set_base_low-Encodes :
      (value : ℕ) → value < 2 ^ 16 → Encodes (set_base_low d value) (record f { base_low = value })
  set_base_low-Encodes value fits = record {
    word = ap (λ (x : ℕ). set_base_low x value) e.word ∙ set_base_low-encode f e.fit value fits;
    fit = omega (arith, e.fit);
  }

  pub set_base_middle-Encodes :
      (value : ℕ)
      → value < 2 ^ 8
      → Encodes (set_base_middle d value) (record f { base_middle = value })
  set_base_middle-Encodes value fits = record {
    word =
        ap (λ (x : ℕ). set_base_middle x value) e.word ∙ set_base_middle-encode f e.fit value fits;
    fit = omega (arith, e.fit);
  }

  pub set_descriptor_privilege_level-Encodes :
      (value : ℕ)
      → value < 2 ^ 2
      → Encodes (set_descriptor_privilege_level d value) (record f { privilege_level = value })
  set_descriptor_privilege_level-Encodes value fits = record {
    word =
        ap (λ (x : ℕ). set_descriptor_privilege_level x value) e.word
        ∙ set_descriptor_privilege_level-encode f e.fit value fits;
    fit = omega (arith, e.fit);
  }

  pub set_limit_high-Encodes :
      (value : ℕ)
      → value < 2 ^ 4
      → Encodes (set_limit_high d value) (record f { limit_high = value })
  set_limit_high-Encodes value fits = record {
    word = ap (λ (x : ℕ). set_limit_high x value) e.word ∙ set_limit_high-encode f e.fit value fits;
    fit = omega (arith, e.fit);
  }

  pub set_base_high-Encodes :
      (value : ℕ) → value < 2 ^ 8 → Encodes (set_base_high d value) (record f { base_high = value })
  set_base_high-Encodes value fits = record {
    word = ap (λ (x : ℕ). set_base_high x value) e.word ∙ set_base_high-encode f e.fit value fits;
    fit = omega (arith, e.fit);
  }

  pub set_descriptor_type-Encodes :
      (value : DescriptorType)
      → Encodes (set_descriptor_type d value) (record f { descriptor_type = get value })
  set_descriptor_type-Encodes value = record {
    word =
        ap (λ (x : ℕ). set_descriptor_type x value) e.word
        ∙ set_descriptor_type-encode f e.fit value;
    fit = omega (arith, e.fit, get-lt value);
  }

  pub set_system_segment-Encodes :
      (value : Bool)
      → Encodes (set_system_segment d value) (record f { system_segment = bit value })
  set_system_segment-Encodes value = record {
    word =
        ap (λ (x : ℕ). set_system_segment x value) e.word ∙ set_system_segment-encode f e.fit value;
    fit = omega (arith, e.fit, bit-lt value);
  }

  pub set_present-Encodes :
      (value : Bool) → Encodes (set_present d value) (record f { present = bit value })
  set_present-Encodes value = record {
    word = ap (λ (x : ℕ). set_present x value) e.word ∙ set_present-encode f e.fit value;
    fit = omega (arith, e.fit, bit-lt value);
  }

  pub set_available-Encodes :
      (value : Bool) → Encodes (set_available d value) (record f { available = bit value })
  set_available-Encodes value = record {
    word = ap (λ (x : ℕ). set_available x value) e.word ∙ set_available-encode f e.fit value;
    fit = omega (arith, e.fit, bit-lt value);
  }

  pub set_long_mode-Encodes :
      (value : Bool) → Encodes (set_long_mode d value) (record f { long_mode = bit value })
  set_long_mode-Encodes value = record {
    word = ap (λ (x : ℕ). set_long_mode x value) e.word ∙ set_long_mode-encode f e.fit value;
    fit = omega (arith, e.fit, bit-lt value);
  }

  pub set_default_operation_size-Encodes :
      (value : Bool)
      → Encodes
          (set_default_operation_size d value)
          (record f { default_operation_size = bit value })
  set_default_operation_size-Encodes value = record {
    word =
        ap (λ (x : ℕ). set_default_operation_size x value) e.word
        ∙ set_default_operation_size-encode f e.fit value;
    fit = omega (arith, e.fit, bit-lt value);
  }

  pub granularity-Encodes :
      (value : Bool) → Encodes (granularity d value) (record f { granularity = bit value })
  granularity-Encodes value = record {
    word = ap (λ (x : ℕ). granularity x value) e.word ∙ granularity-encode f e.fit value;
    fit = omega (arith, e.fit, bit-lt value);
  }
