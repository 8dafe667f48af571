-- ===== src/Boot/Sample.antt =====
-- A firmware that holds a small file, for the tests.
use maizono_os.Base.{ℕ, ◌+◌, ◌≡◌, refl, Bool, true, some, List, [], ◌∷◌, arith}
use maizono_os.Base.Checked.{add_usize, sub_usize}
use maizono_os.Base.Exec.{done}
use maizono_os.Graphic.Pixel.{GopFormats, Gop, bgr, from_gop}
use maizono_os.Boot.Image.{
  ProgramHeader, fill, copy_from_slice, dest_range, page_count, copy_load_segment,
}
use maizono_os.Boot.Firmware.{Elf, regular, Firmware}
use maizono_os.Boot.Loader.{World, Kernel, BootInfo, load_elf, main_inner}
use maizono_os.Boot.Started.{GivesWords}

abbrev pub file : List ℕ
file = 1 ∷ 2 ∷ 3 ∷ 4 ∷ 5 ∷ []

-- Three bytes of the file at 0x2000, then two zeros; and a header that is not loaded.
abbrev pub text : ProgramHeader
text = record {
  p_type = 1;
  p_offset = 1;
  p_vaddr = 0x2000;
  p_paddr = 0x2000;
  p_filesz = 3;
  p_memsz = 5;
}

abbrev pub note : ProgramHeader
note = record { p_type = 4; p_offset = 9; p_vaddr = 0; p_paddr = 0; p_filesz = 9; p_memsz = 9 }

abbrev pub elf : Elf
elf = record { entry = 0x2001; program_headers = text ∷ note ∷ [] }

-- The same, with a file part that is longer than the file.
abbrev pub broken : Elf
broken = record { entry = 0x2001; program_headers = record text { p_offset = 3 } ∷ [] }

abbrev pub formats : GopFormats
formats = record { Format = Bool; is_bgr = λ b. b; is_rgb = λ b. true }

abbrev pub gop : Gop formats
gop = record {
  resolution = (1200, 400);
  stride = 1200;
  pixel_format = true;
  frame_buffer_addr = 0x80000000;
  frame_buffer_size = 1920000;
}

abbrev pub firmware : Elf → Firmware
firmware image = record {
  pt_load = 1;
  parse = λ src. some image;
  State = ℕ;
  effect = λ before after m. m;
  formats = formats;
  get_gop_handle = λ s. (some tt, s + 1);
  open_gop_exclusive = λ s. (some gop, s + 1);
  get_image_file_system = λ s. (some tt, s + 1);
  open_volume = λ s. (some tt, s + 1);
  open_kernel_file = λ s. (some tt, s + 1);
  into_type = λ s. (some regular, s + 1);
  get_info = λ n s. (some 5, s + 1);
  read = λ n s. (some file, s + 1);
  allocate_pages = λ n s. (some tt, s + 1);
  config_table =
      λ s. record { guid = 3; address = 0xe0000 } ∷ record { guid = 7; address = 0x500 } ∷ [];
  acpi2_guid = 7;
  MemoryMap = ℕ;
  exit_boot_services = λ s. (s, s + 1);
  time_size = 16;
  attribute_size = 8;
  kernel_file_name_bytes = 22;
}

abbrev pub start : (image : Elf) → World (firmware image)
start image = record { firmware = 0; memory = λ a. 9 }

pub firmware-GivesWords : GivesWords (firmware elf)
firmware-GivesWords n size s s' h = let e : size ≡ 5 = cc h in omega (arith, e)

abbrev pub kernel : Kernel
kernel = record { base_addr = 0; entry_point_addr = 0x2001 }

abbrev pub info : BootInfo (firmware elf)
info = record {
  graphic_info = record {
    width = 1200;
    height = 400;
    stride = 1200;
    bytes_per_pixel = 4;
    pixel_format = bgr;
    frame_buffer_addr = 0x80000000;
    size = 1920000;
  };
  memory_map = 9;
  rsdp_addr = some 0x500;
}

abbrev pub after : World (firmware elf)
after = record {
  firmware = 10;
  memory = fill 0x2003 2 0 (copy_from_slice 0x2000 (2 ∷ 3 ∷ 4 ∷ []) (λ a. 9));
}

pub main_inner-after : main_inner (firmware elf) (start elf) ≡ done (kernel, info) after
unfolding main_inner load_elf fill copy_from_slice from_gop dest_range add_usize sub_usize
    page_count copy_load_segment
main_inner-after = refl
