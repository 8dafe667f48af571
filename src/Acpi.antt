-- ===== src/Acpi.antt =====
-- kernel/src/acpi.rs: the search for the FADT and the MADT. A table is its address. The tables in
-- memory, and the checks and parsers of the `acpi` crate, are a parameter. `none` is a panic. What
-- is printed is left out.
pub mod Search
mod Examples
pub mod Sample
use maizono_os.Base.{
  ℕ, zero, suc, ◌+◌, ◌*◌, ◌/◌, Bool, true, false, not, Option, none, some, List, [], ◌∷◌, ◌==◌,
  if◌then◌else◌,
}
use maizono_os.Base.Checked.{◌>>=◌, sub_usize}

-- The errors of the crate that the code tells apart.
pub data AcpiError : Type 0 where
  rsdp_incorrect_signature rsdp_invalid_oem_id rsdp_invalid_checksum : AcpiError
  sdt_invalid_signature sdt_invalid_oem_id sdt_invalid_table_id sdt_invalid_checksum : AcpiError
  other_error : AcpiError

pub data Signature : Type 0 where
  xsdt fadt madt : Signature

pub record LocalApicEntry : Type 0 where
  pub processor_id : ℕ

pub record IoApicEntry : Type 0 where
  pub io_apic_id : ℕ
  pub io_apic_address : ℕ

pub data MadtEntry : Type 0 where
  local_apic : LocalApicEntry → MadtEntry
  io_apic : IoApicEntry → MadtEntry
  other_entry : MadtEntry

-- What the crate and the memory say of the table at an address: `none` is a passed check.
pub record Tables : Type 0 where
  pub rsdp_validate : ℕ → Option AcpiError
  pub revision : ℕ → ℕ
  pub xsdt_address : ℕ → ℕ
  pub header_size : ℕ
  pub header_length : ℕ → ℕ
  pub validate : ℕ → Signature → Option AcpiError
  pub load_u64 : ℕ → ℕ
  pub entries : ℕ → List MadtEntry
  pub local_apic_address : ℕ → ℕ

pub record ApicInfo : Type 0 where
  pub local_apic_base : ℕ
  pub local_apic : LocalApicEntry
  pub io_apic : IoApicEntry

abbrev pub io_apic_base : ApicInfo → ℕ
io_apic_base info = info.io_apic.io_apic_address

abbrev pub io_apic_id : ApicInfo → ℕ
io_apic_id info = info.io_apic.io_apic_id

abbrev pub processor_id : ApicInfo → ℕ
processor_id info = info.local_apic.processor_id

-- The statics `FADT` and `APIC_INFO`, which are written once. Of the FADT, its address.
pub record Statics : Type 0 where
  pub fadt : Option ℕ
  pub apic_info : Option ApicInfo

-- `Once::call_once`
abbrev pub call_once : {A : Type 0} → Option A → A → Option A
call_once (some old) new = some old
call_once none new = some new

abbrev pub is_ok : Option AcpiError → Bool
is_ok none = true
is_ok (some e) = false

-- The closures of the two calls of `find_map`.
abbrev pub as_io_apic : MadtEntry → Option IoApicEntry
as_io_apic (io_apic o) = some o
as_io_apic _ = none

abbrev pub as_local_apic : MadtEntry → Option LocalApicEntry
as_local_apic (local_apic o) = some o
as_local_apic _ = none

abbrev or_else : {A : Type 0} → Option A → Option A → Option A
or_else (some a) rest = some a
or_else none rest = rest

-- `Iterator::find_map`
unfoldable pub find_map : {A B : Type 0} → (A → Option B) → List A → Option B
find_map f [] = none
find_map f (x ∷ rest) = or_else (f x) (find_map f rest)

-- `Rsdp::is_valid`; an error of another kind panics.
abbrev rsdp_error : AcpiError → Option Bool
rsdp_error rsdp_incorrect_signature = some false
rsdp_error rsdp_invalid_oem_id = some false
rsdp_error rsdp_invalid_checksum = some false
rsdp_error _ = none

-- `Xsdt::is_valid`
abbrev xsdt_error : AcpiError → Option Bool
xsdt_error sdt_invalid_signature = some false
xsdt_error sdt_invalid_oem_id = some false
xsdt_error sdt_invalid_table_id = some false
xsdt_error sdt_invalid_checksum = some false
xsdt_error _ = none

abbrev pub check : Bool → Option (Unit {0})
check true = some tt
check false = none

abbrev pub rsdp_verdict : Option AcpiError → Bool → Option Bool
rsdp_verdict (some e) supported = rsdp_error e
rsdp_verdict none supported = some supported

abbrev pub xsdt_verdict : Option AcpiError → Option Bool
xsdt_verdict (some e) = xsdt_error e
xsdt_verdict none = some true

-- A null pointer is the address 0.
abbrev pub non_null : ℕ → Option ℕ
non_null ptr = if ptr == 0 then none else some ptr

module _ (t : Tables) where
  pub rsdp_is_valid : ℕ → Option Bool
  rsdp_is_valid rsdp = rsdp_verdict (t.rsdp_validate rsdp) (t.revision rsdp == 2)

  pub xsdt_is_valid : ℕ → Option Bool
  xsdt_is_valid xsdt_ptr = xsdt_verdict (t.validate xsdt_ptr xsdt)

  pub count : ℕ → Option ℕ
  count xsdt_ptr = sub_usize (t.header_length xsdt_ptr) t.header_size >>= λ bytes. some (bytes / 8)

  unfoldable pub get : ℕ → ℕ → ℕ
  get xsdt_ptr i = t.load_u64 (xsdt_ptr + t.header_size + 8 * i)

  -- One pointer in the body of the loop of `init`.
  abbrev pub latest : Signature → ℕ → ℕ → ℕ
  latest signature entry ptr = if is_ok (t.validate entry signature) then entry else ptr

  -- `for i in i..i + left`, with the two pointers
  pub find_tables : ℕ → ℕ → ℕ → ℕ → ℕ → ℕ × ℕ
  find_tables xsdt_ptr i zero fadt_ptr madt_ptr = (fadt_ptr, madt_ptr)
  find_tables xsdt_ptr i (suc left) fadt_ptr madt_ptr =
      let entry = get xsdt_ptr i in
      find_tables xsdt_ptr (i + 1) left (latest fadt entry fadt_ptr) (latest madt entry madt_ptr)

  unfoldable pub from_madt : ℕ → Option ApicInfo
  unfolding find_map
  from_madt madt_ptr = find_map as_io_apic (t.entries madt_ptr) >>= λ io_apic_entry.
      find_map as_local_apic (t.entries madt_ptr) >>= λ local_apic_entry. some (record {
        local_apic_base = t.local_apic_address madt_ptr;
        local_apic = local_apic_entry;
        io_apic = io_apic_entry;
      })

  -- The closure of `call_once` runs only if the static is not yet written.
  abbrev set_apic_info : Statics → ℕ → Option Statics
  set_apic_info s madt_ptr = elim s.apic_info [
    | some old ↦ some s
    | none ↦ from_madt madt_ptr >>= λ info. some (record s { apic_info = some info })
  ]

  pub init : ℕ → Statics → Option Statics
  unfolding rsdp_is_valid xsdt_is_valid count find_tables
  init rsdp s = rsdp_is_valid rsdp >>= λ valid. check valid >>= λ _.
      let xsdt_ptr = t.xsdt_address rsdp in
      xsdt_is_valid xsdt_ptr >>= λ valid. check valid >>= λ _. count xsdt_ptr >>= λ entries.
      let (fadt_ptr, madt_ptr) = find_tables xsdt_ptr 0 entries 0 0 in
      non_null fadt_ptr >>= λ fadt_ptr. non_null madt_ptr >>= λ madt_ptr.
      set_apic_info (record s { fadt = call_once s.fadt fadt_ptr }) madt_ptr

abbrev pub get_fadt : Statics → Option ℕ
get_fadt s = s.fadt

abbrev pub get_apic_info : Statics → Option ApicInfo
get_apic_info s = s.apic_info
