-- ===== src/Boot/Loaded.antt =====
-- When `load_elf` returns, and what it has put into the memory.
use maizono_os.Base.{
  ℕ, ◌+◌, ◌/◌, ◌<◌, ◌≡◌, refl, ◌∙◌, Bool, true, false, some, List, ltb, length, arith, Bool-cases,
  inl, inr, ◌⊎◌,
}
use maizono_os.Base.Checked.{word_limit}
use maizono_os.Base.Exec.{Exec, done, panic}
use maizono_os.Boot.Image.{dest_range, page_count}
use maizono_os.Boot.Firmware.{Firmware, Elf}
use maizono_os.Boot.Loader.{World, BootError, Kernel, load_elf}
use maizono_os.Boot.Overlay.{
  image, all_copyable, memory_after, copy_load_segment_lem, memory_after_lem,
}
use maizono_os.Boot.Bounds.{top, dest_range_lem, page_count_lem}

module _ (fw : Firmware) where
  -- The segments end below the end of the address space, by a page at least.
  abbrev pub is_placeable : Elf → Bool
  is_placeable elf = ltb (top fw.pt_load elf.program_headers 0 + 0x1000) word_limit

  -- The pages from address 0 to the end of the highest segment.
  abbrev pub pages : Elf → ℕ
  pages elf = (top fw.pt_load elf.program_headers 0 + 0xfff) / 0x1000

  abbrev pub loaded_kernel : Elf → Kernel
  loaded_kernel elf = record { base_addr = 0; entry_point_addr = elf.entry }

  -- `result` is a normal return with the image of the file in memory, where `firmware` is the state of
  -- UEFI after the allocation, and all else is as the allocation left it.
  pub record IsLoaded (src : List ℕ) (elf : Elf) (w : World fw) (firmware : fw.State)
      (result : Exec (World fw) BootError Kernel) : Type 0 where
    pub out : World fw
    pub returns : result ≡ done (loaded_kernel elf) out
    pub same_firmware : out.firmware ≡ firmware
    pub loaded :
        (a : ℕ)
        → out.memory a
          ≡ image fw.pt_load src elf.program_headers (fw.effect w.firmware firmware w.memory) a

  pub range-eq :
      (elf : Elf)
      → is_placeable elf ≡ true
      → dest_range fw.pt_load elf.program_headers ≡ some (top fw.pt_load elf.program_headers 0, 0)
  range-eq elf placeable = dest_range_lem fw.pt_load elf.program_headers ∙ ground arith

  pub pages-eq :
      (elf : Elf)
      → is_placeable elf ≡ true
      → page_count (top fw.pt_load elf.program_headers 0) ≡ some (pages elf)
  pages-eq elf placeable = page_count_lem (top fw.pt_load elf.program_headers 0) ∙ ground arith

  -- If the file is shorter than the address space and parses, its segments end a page below the end of
  -- the address space, every loaded segment lies in the file, is not longer there than in memory, is
  -- not at null and has at most 2^63 - 1 bytes, and the pages are allocated, `load_elf` returns base
  -- address 0 and the entry of the file, with the memory as the allocation left it but for the image of
  -- the segments.
  pub load_elf-IsLoaded :
      (src : List ℕ) (elf : Elf) (w : World fw) (firmware : fw.State)
      → length src < word_limit
      → fw.parse src ≡ some elf
      → is_placeable elf ≡ true
      → all_copyable fw.pt_load src elf.program_headers ≡ true
      → fw.allocate_pages (pages elf) w.firmware ≡ (some tt, firmware)
      → IsLoaded src elf w firmware (load_elf fw src w)
  unfolding load_elf
  load_elf-IsLoaded src elf w firmware small parses placeable copyable allocated =
      let m = fw.effect w.firmware firmware w.memory in
      let copied = copy_load_segment_lem fw.pt_load src elf.program_headers m small in
      record {
        out = record {
          firmware = firmware;
          memory = memory_after fw.pt_load src elf.program_headers m;
        };
        returns = rw parses (
            rw (range-eq elf placeable)
              (rw (pages-eq elf placeable) (rw allocated (rw copied (rw copyable refl)))));
        same_firmware = refl;
        loaded = λ a. memory_after_lem fw.pt_load src elf.program_headers m a copyable;
      }

  -- If a file shorter than the address space parses, but a segment does not end a page below the end of
  -- the address space, or the pages are allocated and a loaded segment is at null, has more than
  -- 2^63 - 1 bytes, or does not fit the file or its memory part, `load_elf` panics.
  pub load_elf-panics :
      (src : List ℕ) (elf : Elf) (w : World fw) (firmware : fw.State)
      → length src < word_limit
      → fw.parse src ≡ some elf
      → (is_placeable elf ≡ false)
        ⊎ ((is_placeable elf ≡ true)
            × ((fw.allocate_pages (pages elf) w.firmware ≡ (some tt, firmware))
                × (all_copyable fw.pt_load src elf.program_headers ≡ false)))
      → load_elf fw src w ≡ panic
  unfolding load_elf
  load_elf-panics src elf w firmware small parses (inl high) =
      let t = top fw.pt_load elf.program_headers 0 in
      elim (Bool-cases (ltb t word_limit)) [
        | inl fits ↦
            (rw parses (
              rw (dest_range_lem fw.pt_load elf.program_headers)
                (rw fits (rw (page_count_lem t) (rw high refl)))))
        | inr large ↦ rw parses (rw (dest_range_lem fw.pt_load elf.program_headers) (rw large refl))
      ]
  load_elf-panics src elf w firmware small parses (inr (placeable, (allocated, bad))) =
      let m = fw.effect w.firmware firmware w.memory in
      let copied = copy_load_segment_lem fw.pt_load src elf.program_headers m small in
      rw parses (
        rw (range-eq elf placeable)
          (rw (pages-eq elf placeable) (rw allocated (rw copied (rw bad refl)))))
