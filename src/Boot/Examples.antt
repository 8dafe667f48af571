-- ===== src/Boot/Examples.antt =====
-- The theorems on the bootloader, with a firmware that holds a small file.
use maizono_os.Base.{◌≡◌, refl, arith, inr}
use maizono_os.Base.Exec.{panic}
use maizono_os.Boot.Loader.{load_elf}
use maizono_os.Boot.Loaded.{IsLoaded, load_elf-IsLoaded, load_elf-panics}
use maizono_os.Boot.Sample.{file, elf, broken, firmware, start}

load_elf-IsLoaded_example :
    IsLoaded (firmware elf) file elf (start elf) 1 (load_elf (firmware elf) file (start elf))
load_elf-IsLoaded_example =
    load_elf-IsLoaded (firmware elf) file elf (start elf) 1 (omega arith) refl refl refl refl

load_elf-panics_example : load_elf (firmware broken) file (start broken) ≡ panic
load_elf-panics_example =
    load_elf-panics (firmware broken) file broken (start broken) 1 (omega arith) refl
      (inr (refl, (refl, refl)))
