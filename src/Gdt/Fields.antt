-- ===== src/Gdt/Fields.antt =====
-- A descriptor as its fields, at the bit positions of the processor manual.
use maizono_os.Base.{ℕ, ◌+◌, ◌-◌, ◌*◌, ◌^◌, ◌<◌, ◌≡◌, bit_and, bit_or}
use maizono_os.Word.Field.{clear_field, put_field}

pub record Fields : Type 0 where
  pub limit_low : ℕ
  pub base_low : ℕ
  pub base_middle : ℕ
  pub descriptor_type : ℕ
  pub system_segment : ℕ
  pub privilege_level : ℕ
  pub present : ℕ
  pub limit_high : ℕ
  pub available : ℕ
  pub long_mode : ℕ
  pub default_operation_size : ℕ
  pub granularity : ℕ
  pub base_high : ℕ

-- The word whose fields these are.
abbrev pub encode : Fields → ℕ
encode f =
    f.limit_low
    + f.base_low * 2 ^ 16
    + f.base_middle * 2 ^ 32
    + f.descriptor_type * 2 ^ 40
    + f.system_segment * 2 ^ 44
    + f.privilege_level * 2 ^ 45
    + f.present * 2 ^ 47
    + f.limit_high * 2 ^ 48
    + f.available * 2 ^ 52
    + f.long_mode * 2 ^ 53
    + f.default_operation_size * 2 ^ 54
    + f.granularity * 2 ^ 55
    + f.base_high * 2 ^ 56

-- Each field fits its bits.
pub record Fit (f : Fields) : Type 0 where
  pub limit_low_fits : f.limit_low < 2 ^ 16
  pub base_low_fits : f.base_low < 2 ^ 16
  pub base_middle_fits : f.base_middle < 2 ^ 8
  pub descriptor_type_fits : f.descriptor_type < 2 ^ 4
  pub system_segment_fits : f.system_segment < 2 ^ 1
  pub privilege_level_fits : f.privilege_level < 2 ^ 2
  pub present_fits : f.present < 2 ^ 1
  pub limit_high_fits : f.limit_high < 2 ^ 4
  pub available_fits : f.available < 2 ^ 1
  pub long_mode_fits : f.long_mode < 2 ^ 1
  pub default_operation_size_fits : f.default_operation_size < 2 ^ 1
  pub granularity_fits : f.granularity < 2 ^ 1
  pub base_high_fits : f.base_high < 2 ^ 8

-- Clearing and writing one field of a word that is given in three parts.
pub replace_field :
    (k w n x hi mid lo v : ℕ)
    → x ≡ (hi * 2 ^ w + mid) * 2 ^ k + lo
    → hi < 2 ^ n
    → mid < 2 ^ w
    → lo < 2 ^ k
    → v < 2 ^ w
    → bit_or (bit_and x ((2 ^ n - 1) * 2 ^ w * 2 ^ k + (2 ^ k - 1))) (v * 2 ^ k)
      ≡ (hi * 2 ^ w + v) * 2 ^ k + lo
replace_field k w n x hi mid lo v e p q r s =
    rw (e, clear_field k w n hi mid lo p q r) (put_field k w n hi mid lo p q r v s)
