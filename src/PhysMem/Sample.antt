-- ===== src/PhysMem/Sample.antt =====
-- A memory map, for the tests.
use maizono_os.Base.{refl, List, [], ◌∷◌, arith}
use maizono_os.PhysMem.{MemoryTypes, Descriptor}
use maizono_os.PhysMem.Init.{IsMap}

-- The numbers of the UEFI specification.
abbrev pub uefi_types : MemoryTypes
uefi_types = record { boot_services_code = 3; boot_services_data = 4; conventional = 7 }

-- A loader's pages, a gap, and two available areas around a reserved one.
abbrev pub memory_map : List Descriptor
memory_map =
    record { ty = 1; phys_start = 0; page_count = 2 }
    ∷ record { ty = 7; phys_start = 16384; page_count = 4 }
    ∷ record { ty = 0; phys_start = 32768; page_count = 1 }
    ∷ record { ty = 3; phys_start = 36864; page_count = 3 }
    ∷ []

pub memory_map-IsMap : IsMap 0 memory_map
memory_map-IsMap =
    (refl, omega arith, (refl, omega arith, (refl, omega arith, (refl, omega arith, omega arith))))
