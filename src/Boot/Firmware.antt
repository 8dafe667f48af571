-- ===== src/Boot/Firmware.antt =====
-- What the bootloader takes from UEFI and from the ELF parser of `goblin`.
use maizono_os.Base.{ℕ, Option, List}
use maizono_os.Graphic.Pixel.{GopFormats, Gop}
use maizono_os.Boot.Image.{ProgramHeader, Memory}

pub record Elf : Type 0 where
  pub entry : ℕ
  pub program_headers : List ProgramHeader

pub data FileType : Type 0 where
  regular dir : FileType

pub record ConfigEntry : Type 0 where
  pub guid : ℕ
  pub address : ℕ

-- The parser, and the calls of UEFI, which change its state. A call that gives `none` has failed.
-- `effect` is what a call from one state to the next does to the memory, the heap of the bootloader
-- and what is read into it included; the addresses of the kernel are not spared.
pub record Firmware : Type 1 where
  pub pt_load : ℕ
  pub parse : List ℕ → Option Elf
  pub State : Type 0
  pub effect : State → State → Memory → Memory
  pub formats : GopFormats
  pub get_gop_handle : State → Option (Unit {0}) × State
  pub open_gop_exclusive : State → Option (Gop formats) × State
  pub get_image_file_system : State → Option (Unit {0}) × State
  pub open_volume : State → Option (Unit {0}) × State
  pub open_kernel_file : State → Option (Unit {0}) × State
  pub into_type : State → Option FileType × State
  pub get_info : ℕ → State → Option ℕ × State
  pub read : ℕ → State → Option (List ℕ) × State
  pub allocate_pages : ℕ → State → Option (Unit {0}) × State
  pub config_table : State → List ConfigEntry
  pub acpi2_guid : ℕ
  pub MemoryMap : Type 0
  pub exit_boot_services : State → MemoryMap × State
  pub time_size : ℕ
  pub attribute_size : ℕ
  pub kernel_file_name_bytes : ℕ
