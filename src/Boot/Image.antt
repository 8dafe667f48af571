-- ===== src/Boot/Image.antt =====
-- bootloader/src/kernel.rs: where the segments of the kernel go, and their copy. `none` is a panic.
use maizono_os.Base.{
  Bool, not, ◌^◌, ℕ, zero, suc, ◌+◌, ◌-◌, ◌/◌, ◌&&◌, Option, none, some, List, [], ◌∷◌, leb, ◌==◌,
  if◌then◌else◌, length, take, drop, update,
}
use maizono_os.Base.Checked.{◌>>=◌, add_usize, sub_usize}

-- What the code reads of a program header that `goblin` has parsed.
pub record ProgramHeader : Type 0 where
  pub p_type : ℕ
  pub p_offset : ℕ
  pub p_vaddr : ℕ
  pub p_paddr : ℕ
  pub p_filesz : ℕ
  pub p_memsz : ℕ

abbrev pub Memory : Type 0
Memory = ℕ → ℕ

abbrev pub uefi_page_size : ℕ
uefi_page_size = 0x1000

abbrev pub min : ℕ → ℕ → ℕ
min a b = if leb a b then a else b

abbrev pub max : ℕ → ℕ → ℕ
max a b = if leb a b then b else a

-- `slice[lo..hi]`
abbrev pub slice : List ℕ → ℕ → ℕ → Option (List ℕ)
slice src lo hi =
    if leb lo hi && leb hi (length src) then some (take (hi - lo) (drop lo src)) else none

-- `copy_from_slice` to the bytes at `dest`
unfoldable pub copy_from_slice : ℕ → List ℕ → Memory → Memory
copy_from_slice dest [] m = m
copy_from_slice dest (b ∷ rest) m = copy_from_slice (dest + 1) rest (update m dest b)

-- `fill` of `n` bytes at `dest`
unfoldable pub fill : ℕ → ℕ → ℕ → Memory → Memory
fill dest zero value m = m
fill dest (suc n) value m = fill (dest + 1) n value (update m dest value)

-- `slice::from_raw_parts_mut` aborts on the null address and on more bytes than an `isize` counts.
abbrev pub is_slice : ℕ → ℕ → Bool
is_slice addr size = not (addr == 0) && leb size (2 ^ 63 - 1)

-- `dest[..file_size]` panics if the file part is longer than the memory part.
unfoldable pub copy_segment : List ℕ → ProgramHeader → Memory → Option Memory
unfolding copy_from_slice fill
copy_segment src h m =
    if is_slice h.p_vaddr h.p_memsz && leb h.p_filesz h.p_memsz
    then (add_usize h.p_offset h.p_filesz >>= λ end. slice src h.p_offset end >>= λ bytes. some (
        fill (h.p_vaddr + h.p_filesz) (h.p_memsz - h.p_filesz) 0
          (copy_from_slice h.p_vaddr bytes m)))
    else none

module _ (pt_load : ℕ) where
  -- The loop of `load_elf` over the program headers, with `dest_start` and `dest_end`.
  unfoldable pub dest_bounds : List ProgramHeader → ℕ → ℕ → Option (ℕ × ℕ)
  dest_bounds [] dest_start dest_end = some (dest_start, dest_end)
  dest_bounds (h ∷ rest) dest_start dest_end =
      if h.p_type == pt_load
      then (add_usize h.p_vaddr h.p_memsz >>= λ end.
          dest_bounds rest (min dest_start h.p_paddr) (max dest_end end))
      else dest_bounds rest dest_start dest_end

  -- `dest_range` and `base_addr`
  unfoldable pub dest_range : List ProgramHeader → Option (ℕ × ℕ)
  unfolding dest_bounds
  dest_range headers = dest_bounds headers 0 0 >>= λ (dest_start, dest_end).
      sub_usize dest_end dest_start >>= λ range. some (range, dest_start)

  unfoldable pub copy_load_segment : List ℕ → List ProgramHeader → Memory → Option Memory
  unfolding copy_segment
  copy_load_segment src [] m = some m
  copy_load_segment src (h ∷ rest) m =
      if h.p_type == pt_load
      then (copy_segment src h m >>= λ m. copy_load_segment src rest m)
      else copy_load_segment src rest m

-- `page_size` of `load_elf`
unfoldable pub page_count : ℕ → Option ℕ
page_count range = add_usize range uefi_page_size >>= λ sum.
    sub_usize sum 1 >>= λ rest. some (rest / uefi_page_size)
