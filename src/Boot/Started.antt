-- ===== src/Boot/Started.antt =====
-- What holds whenever the bootloader starts the kernel.
use maizono_os.Base.{ℕ, ◌<◌, ◌≡◌, some, List}
use maizono_os.Base.Checked.{word_limit}
use maizono_os.Base.Exec.{Exec, done}
use maizono_os.Boot.Firmware.{Firmware}
use maizono_os.Boot.Loader.{
  World, exit_boot_services, Kernel, read_into, open_gop, BootInfo, find_rsdp,
}
use maizono_os.Graphic.Pixel.{Gop, GraphicInfo, from_gop, ok}
use maizono_os.Boot.File.{HasLoaded}

module _ (fw : Firmware) where
  -- UEFI gives the size of a file as a 64-bit word.
  abbrev pub GivesWords : Type 0
  GivesWords =
      (n size : ℕ) (s s' : fw.State) → fw.get_info n s ≡ (some size, s') → size < word_limit

  -- The kernel file was read when the world was `reading`, and its segments were copied, after the
  -- pages had been allocated, when it was `ready`.
  pub record IsCopied (k : Kernel) (out : World fw) : Type 0 where
    pub reading : World fw
    pub ready : World fw
    pub size : ℕ
    pub bytes : List ℕ
    pub reads : fw.read size reading.firmware ≡ (some bytes, ready.firmware)
    pub copied :
        HasLoaded fw
          (read_into size bytes)
          (fw.effect ready.firmware out.firmware ready.memory)
          out.memory
          k

  -- What the kernel is started with: a file that was read and copied, the frame buffer of UEFI, and the
  -- tables and the memory map at the exit from the boot services, which comes right after the copy.
  pub record IsStarted (w : World fw) (k : Kernel) (info : BootInfo fw) (out : World fw)
      : Type 0 where
    pub gop : Gop fw.formats
    pub opened : World fw
    pub opens : open_gop fw w ≡ done gop opened
    pub graphic : from_gop fw.formats gop ≡ ok info.graphic_info
    pub placed : World fw
    pub kernel : IsCopied k placed
    pub rsdp : info.rsdp_addr ≡ find_rsdp fw (fw.config_table placed.firmware)
    pub exits : fw.exit_boot_services placed.firmware ≡ (info.memory_map, out.firmware)
    pub memory : out.memory ≡ fw.effect placed.firmware out.firmware placed.memory

  abbrev boot_info : World fw → GraphicInfo → fw.MemoryMap → BootInfo fw
  boot_info w graphic_info memory_map = record {
    graphic_info = graphic_info;
    memory_map = memory_map;
    rsdp_addr = find_rsdp fw (fw.config_table w.firmware);
  }
