-- ===== src/PhysMem.antt =====
-- kernel/src/phys_mem_manager.rs and kernel/src/memory_map.rs: the bitmap of physical frames.
-- A `FrameID` is its number. `none` is a panic: an index outside `alloc_map` or an overflow.
pub mod Bitmap
pub mod Range
pub mod Alloc
pub mod Init
mod Examples
pub mod Sample
use maizono_os.Base.{
  ℕ, zero, suc, ◌+◌, ◌-◌, ◌*◌, ◌/◌, ◌%◌, ◌≡◌, Bool, true, false, not, ◌||◌, Option, none, some,
  List, [], ◌∷◌, bit_and, bit_or, ltb, leb, ◌==◌, if◌then◌else◌, update,
}
use maizono_os.Base.Checked.{◌>>=◌, add_usize, mul_usize, sub_usize}
use maizono_os.Word.{◌<<<◌, complement}

abbrev pub bytes_per_frame : ℕ
bytes_per_frame = 4 * 1024

abbrev pub frame_size : ℕ
frame_size = 4 * 1024

abbrev pub uefi_page_size : ℕ
uefi_page_size = 1024 * 4

abbrev pub max_physical_memory_bytes : ℕ
max_physical_memory_bytes = 128 * 1024 * 1024 * 1024

abbrev pub frame_count : ℕ
frame_count = max_physical_memory_bytes / frame_size

abbrev pub bits_per_map_line : ℕ
bits_per_map_line = 8 * 8

abbrev pub map_line_count : ℕ
map_line_count = frame_count / bits_per_map_line

-- `alloc_map` is an array of `map_line_count` words, as a function of the index.
pub record BitmapMemoryManager : Type 0 where
  pub alloc_map : ℕ → ℕ
  pub begin : ℕ
  pub end : ℕ

unfoldable pub new : BitmapMemoryManager
new = record { alloc_map = λ line. 0; begin = 0; end = frame_count }

set_memory_range : BitmapMemoryManager → ℕ → ℕ → BitmapMemoryManager
set_memory_range m range_begin range_end = record m { begin = range_begin; end = range_end }

-- The word that `set_bit` stores.
set_line : ℕ → ℕ → Bool → ℕ
set_line line bit_index allocated =
    if allocated
    then bit_or line (1 <<< bit_index)
    else bit_and line (complement 64 (1 <<< bit_index))

pub set_bit : BitmapMemoryManager → ℕ → Bool → Option BitmapMemoryManager
unfolding set_line
set_bit m frame_id allocated =
    let line_index = frame_id / bits_per_map_line in
    let bit_index = frame_id % bits_per_map_line in
    if ltb line_index map_line_count
    then some (record m {
      alloc_map =
          update m.alloc_map line_index (set_line (m.alloc_map line_index) bit_index allocated);
    })
    else none

pub get_bit : BitmapMemoryManager → ℕ → Option Bool
get_bit m frame_id =
    let line_index = frame_id / bits_per_map_line in
    let bit_index = frame_id % bits_per_map_line in
    if ltb line_index map_line_count
    then some (not (bit_and (m.alloc_map line_index) (1 <<< bit_index) == 0))
    else none

-- `for i in i..i + left { self.set_bit(FrameID(first + i), allocated) }`
set_bits_from : Bool → ℕ → ℕ → BitmapMemoryManager → ℕ → Option BitmapMemoryManager
set_bits_from allocated first i m zero = some m
set_bits_from allocated first i m (suc left) = add_usize first i >>= λ id.
    set_bit m id allocated >>= λ m'. set_bits_from allocated first (i + 1) m' left

pub mark_allocated : BitmapMemoryManager → ℕ → ℕ → Option BitmapMemoryManager
unfolding set_bits_from
mark_allocated m first_frame_id count = set_bits_from true first_frame_id 0 m count

pub free : BitmapMemoryManager → ℕ → ℕ → Option BitmapMemoryManager
unfolding set_bits_from
free m first_frame_id number_of_frame = set_bits_from false first_frame_id 0 m number_of_frame

-- How the inner `for` of `alloc` ends: by `return None`, or by `break` or its last round.
data ForExit : Type 0 where
  returns_none left_loop : ForExit

-- `for _ in i..number_of_frame`, with `rounds` left. The loop never changes `i`.
scan_frames : BitmapMemoryManager → ℕ → ℕ → ℕ → Option ForExit
scan_frames m start i zero = some left_loop
scan_frames m start i (suc rounds) = add_usize start i >>= λ id.
    if leb m.end id
    then some returns_none
    else (get_bit m id >>= λ b.
        let next = scan_frames m start i rounds in if b then some left_loop else next)

-- How a call of `alloc` ends. `running` is a call that has used up the fuel of the model.
pub data Outcome : Type 0 where
  running panicked : Outcome
  returned : Option ℕ → BitmapMemoryManager → Outcome

abbrev or_panic : {A : Type 0} → Option A → (A → Outcome) → Outcome
or_panic none f = panicked
or_panic (some a) f = f a

-- The `loop` of `alloc` at `start_frame_id`.
pub alloc_loop : ℕ → BitmapMemoryManager → ℕ → ℕ → Outcome
alloc_loop zero m start number_of_frame = running
alloc_loop (suc fuel) m start number_of_frame =
    let i : ℕ = 0 in
    let again =
      or_panic (add_usize start (i + 1)) (λ start'. alloc_loop fuel m start' number_of_frame) in
    let claimed =
      or_panic (mark_allocated m start number_of_frame) (λ m'. returned (some start) m') in
    or_panic (scan_frames m start i (number_of_frame - i)) (λ e. elim e [
      | returns_none ↦ returned none m
      | left_loop ↦ if i == number_of_frame then claimed else again
    ])

-- Each round raises the start by one and the loop leaves at `end`, so `end + 1` rounds are enough.
pub alloc : BitmapMemoryManager → ℕ → Outcome
unfolding alloc_loop scan_frames
alloc m number_of_frame = alloc_loop (m.end + 1) m m.begin number_of_frame

-- The constants of the `uefi` crate that `is_available` compares with.
pub record MemoryTypes : Type 0 where
  pub boot_services_code : ℕ
  pub boot_services_data : ℕ
  pub conventional : ℕ

-- An entry of the memory map of the `uefi` crate.
pub record Descriptor : Type 0 where
  pub ty : ℕ
  pub phys_start : ℕ
  pub page_count : ℕ

-- "mark a missing area as an allocated area"
mark_gap : ℕ → ℕ → BitmapMemoryManager → Option BitmapMemoryManager
mark_gap last_available_end phys_start m =
    if ltb last_available_end phys_start
    then mark_allocated m (last_available_end / bytes_per_frame)
        ((phys_start - last_available_end) / bytes_per_frame)
    else some m

module _ (types : MemoryTypes) where
  open types use {boot_services_code, boot_services_data, conventional}

  pub is_available : ℕ → Bool
  is_available memory_type =
      memory_type == boot_services_code
      || memory_type == boot_services_data
      || memory_type == conventional

  -- The body of the loop of `init`, with `last_available_end`.
  init_entry : Descriptor → ℕ → BitmapMemoryManager → Option (ℕ × BitmapMemoryManager)
  init_entry desc last_available_end m = mul_usize desc.page_count uefi_page_size >>= λ bytes.
      add_usize desc.phys_start bytes >>= λ phys_end.
      mark_gap last_available_end desc.phys_start m >>= λ m'.
      if is_available desc.ty
      then some (phys_end, m')
      else (mark_allocated m' (desc.phys_start / bytes_per_frame) (bytes / bytes_per_frame)
          >>= λ m''. some (last_available_end, m''))

  init_entries : List Descriptor → ℕ → BitmapMemoryManager → Option (ℕ × BitmapMemoryManager)
  init_entries [] last_available_end m = some (last_available_end, m)
  init_entries (desc ∷ rest) last_available_end m =
      init_entry desc last_available_end m >>= λ (last, m'). init_entries rest last m'

  pub init : BitmapMemoryManager → List Descriptor → Option BitmapMemoryManager
  unfolding set_memory_range
  init m memory_map = init_entries memory_map 0 m >>= λ (last, m').
      some (set_memory_range m' 1 (last / bytes_per_frame))
