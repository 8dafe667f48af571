-- ===== src/Acpi/Sample.antt =====
-- ACPI tables in memory, for the tests.
use maizono_os.Base.{ℕ, ◌+◌, ◌≡◌, refl, Bool, true, ◌||◌, none, some, [], ◌∷◌, ◌==◌, if◌then◌else◌}
use maizono_os.Acpi.{
  Tables, Signature, xsdt, fadt, madt, sdt_invalid_signature, rsdp_invalid_checksum, local_apic,
  io_apic,
}
use maizono_os.Acpi.Search.{passes, found, NotAtNull, last_valid, first_io_apic, first_local_apic}

-- The XSDT at 0x1000 lists three tables, at 0x2000, 0x3000 and 0x4000: an FADT and two MADTs.
abbrev pub holds : ℕ → Signature → Bool
holds addr xsdt = addr == 0x1000
holds addr fadt = addr == 0x2000
holds addr madt = addr == 0x3000 || addr == 0x4000

abbrev pub tables : Tables
tables = record {
  rsdp_validate = λ addr. (if addr == 0x500 then none else some rsdp_invalid_checksum);
  revision = λ addr. 2;
  xsdt_address = λ addr. 0x1000;
  header_size = 36;
  header_length = λ addr. 60;
  validate = λ addr signature. (if holds addr signature then none else some sdt_invalid_signature);
  load_u64 = λ addr.
      (if addr == 0x1000 + 36 then 0x2000 else if addr == 0x1000 + 44 then 0x3000 else 0x4000);
  entries = λ addr.
      local_apic (record { processor_id = 0 })
      ∷ io_apic (record { io_apic_id = 0; io_apic_address = 0xfec00000 })
      ∷ [];
  local_apic_address = λ addr. 0xfee00000;
}

pub tables-NotAtNull : NotAtNull tables
tables-NotAtNull xsdt = refl
tables-NotAtNull fadt = refl
tables-NotAtNull madt = refl

pub tables-pass : passes tables 0x500 ≡ true
tables-pass = refl

pub tables-found :
    found tables 0x500
    ≡ some (record {
      fadt = some 0x2000;
      apic_info = some (record {
        local_apic_base = 0xfee00000;
        local_apic = record { processor_id = 0 };
        io_apic = record { io_apic_id = 0; io_apic_address = 0xfec00000 };
      });
    })
unfolding found last_valid first_io_apic first_local_apic
tables-found = refl
