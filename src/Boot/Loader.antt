-- ===== src/Boot/Loader.antt =====
-- bootloader/src/kernel.rs: `load_kernel` and `load_elf`; bootloader/src/main.rs: `main_inner`. What
-- is logged, and the logger, are left out. A sum of field sizes is far below the word size.
use maizono_os.Base.{ℕ, zero, suc, ◌+◌, Option, none, some, List, [], ◌∷◌, ◌==◌, if◌then◌else◌}
use maizono_os.Base.Exec.{Exec, done, fail, panic, M, pure, throw, lift, ◌>>=◌, ◌>>◌}
use maizono_os.Graphic.Pixel.{Gop, GraphicInfo, from_gop, InfoResult, ok, err}
use maizono_os.Boot.Image.{Memory, dest_range, page_count, copy_load_segment}
use maizono_os.Boot.Firmware.{Elf, FileType, regular, dir, ConfigEntry, Firmware}

-- The contexts of the errors.
pub data BootError : Type 0 where
  gop_handle_error gop_open_error : BootError
  open_error into_type_error directory_error info_error read_error : BootError
  parse_error allocate_error : BootError

-- common/src/boot.rs
pub record Kernel : Type 0 where
  pub base_addr : ℕ
  pub entry_point_addr : ℕ

-- The entry point is the function at its address.
abbrev new_kernel : ℕ → ℕ → Kernel
new_kernel base_addr entry_point_addr = record {
  base_addr = base_addr;
  entry_point_addr = entry_point_addr;
}

-- The buffer of `size` zeros after a read into its front.
unfoldable pub read_into : ℕ → List ℕ → List ℕ
read_into zero bytes = []
read_into (suc size) [] = 0 ∷ read_into size []
read_into (suc size) (b ∷ rest) = b ∷ read_into size rest

module _ (fw : Firmware) where
  open fw use {State, MemoryMap}

  -- The firmware and the memory.
  pub record World : Type 0 where
    pub firmware : State
    pub memory : Memory

  -- The world after UEFI has come to a new state.
  abbrev pub reached : World → State → World
  reached w s = record { firmware = s; memory = fw.effect w.firmware s w.memory }

  abbrev pub Boot : Type 0 → Type 0
  Boot A = M World BootError A

  abbrev pub answer : {A : Type 0} → BootError → World → Option A × State → Exec World BootError A
  answer e w (some a, s) = done a (reached w s)
  answer e w (none, s) = fail e (reached w s)

  -- A call of UEFI, whose failure is an error.
  abbrev pub call : {A : Type 0} → (State → Option A × State) → BootError → Boot A
  call f e w = answer e w (f w.firmware)

  abbrev pub unwrapped : {A : Type 0} → World → Option A × State → Exec World BootError A
  unwrapped w (some a, s) = done a (reached w s)
  unwrapped w (none, s) = panic

  abbrev pub call_unwrap : {A : Type 0} → (State → Option A × State) → Boot A
  call_unwrap f w = unwrapped w (f w.firmware)

  abbrev pub parsed : Option Elf → Boot Elf
  parsed (some elf) = pure elf
  parsed none = throw parse_error

  abbrev store_memory : World → Option Memory → Exec World BootError (Unit {0})
  store_memory w (some m) = done tt (record w { memory = m })
  store_memory w none = panic

  abbrev pub copy : List ℕ → Elf → Boot (Unit {0})
  copy src elf w = store_memory w (copy_load_segment fw.pt_load src elf.program_headers w.memory)

  unfoldable pub load_elf : List ℕ → Boot Kernel
  load_elf src = do
    elf ← parsed (fw.parse src)
    range ← lift (dest_range fw.pt_load elf.program_headers)
    pages ← lift (page_count range.0)
    call (fw.allocate_pages pages) allocate_error
    copy src elf
    pure (new_kernel range.1 elf.entry)

  unfoldable pub open_root_dir : Boot (Unit {0})
  open_root_dir = call_unwrap fw.get_image_file_system >> call_unwrap fw.open_volume

  -- The sum of the sizes of the fields of `FileInfo`.
  unfoldable pub file_info_size : ℕ
  file_info_size =
      8 + 8 + 8 + fw.time_size + fw.time_size + fw.time_size + fw.attribute_size
      + fw.kernel_file_name_bytes

  abbrev pub is_regular : FileType → Boot (Unit {0})
  is_regular regular = pure tt
  is_regular dir = throw directory_error

  unfoldable pub load_kernel : Boot Kernel
  unfolding load_elf open_root_dir file_info_size read_into
  load_kernel = do
    open_root_dir
    call fw.open_kernel_file open_error
    file ← call fw.into_type into_type_error
    is_regular file
    size ← call (fw.get_info file_info_size) info_error
    bytes ← call (fw.read size) read_error
    load_elf (read_into size bytes)

  unfoldable pub open_gop : Boot (Gop fw.formats)
  open_gop = call fw.get_gop_handle gop_handle_error >> call fw.open_gop_exclusive gop_open_error

  -- A failed call of `main_inner` is printed and panics.
  abbrev pub or_panic : {A : Type 0} → Exec World BootError A → Exec World BootError A
  or_panic (done a w) = done a w
  or_panic (fail e w) = panic
  or_panic panic = panic

  abbrev pub checked : {A : Type 0} → Boot A → Boot A
  checked m w = or_panic (m w)

  abbrev pub info_of : InfoResult → Option GraphicInfo
  info_of (ok info) = some info
  info_of (err e) = none

  -- `iter().find(..)`, and the address
  unfoldable pub find_rsdp : List ConfigEntry → Option ℕ
  find_rsdp [] = none
  find_rsdp (e ∷ rest) = if e.guid == fw.acpi2_guid then some e.address else find_rsdp rest

  pub record BootInfo : Type 0 where
    pub graphic_info : GraphicInfo
    pub memory_map : MemoryMap
    pub rsdp_addr : Option ℕ

  abbrev new_boot_info : GraphicInfo → MemoryMap → Option ℕ → BootInfo
  new_boot_info graphic_info memory_map rsdp_addr = record {
    graphic_info = graphic_info;
    memory_map = memory_map;
    rsdp_addr = rsdp_addr;
  }

  abbrev pub exited : World → MemoryMap × State → Exec World BootError MemoryMap
  exited w (map, s) = done map (reached w s)

  abbrev pub exit_boot_services : Boot MemoryMap
  exit_boot_services w = exited w (fw.exit_boot_services w.firmware)

  abbrev pub config_table : Boot (List ConfigEntry)
  config_table w = done (fw.config_table w.firmware) w

  -- A normal return is the call of `kernel.run` with the boot information.
  unfoldable pub main_inner : Boot (Kernel × BootInfo)
  unfolding open_gop load_kernel find_rsdp
  main_inner = do
    gop ← checked open_gop
    graphic_info ← lift (info_of (from_gop fw.formats gop))
    kernel ← checked load_kernel
    table ← config_table
    let rsdp_addr = find_rsdp table
    memory_map ← exit_boot_services
    pure (kernel, new_boot_info graphic_info memory_map rsdp_addr)
