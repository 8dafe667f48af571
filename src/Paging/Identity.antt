-- ===== src/Paging/Identity.antt =====
-- After `init` the walk is the identity on the first 64 GiB and faults above.
use maizono_os.Base.{
  ℕ, ◌+◌, ◌-◌, ◌*◌, ◌/◌, ◌%◌, ◌^◌, ◌≤◌, ◌<◌, ◌≡◌, ap, ◌&&◌, true, false, Option, none, some, bit_or,
  arith, ltb, ◌==◌, if◌then◌else◌, update,
}
use maizono_os.Base.Checked.{store_at_fits}
use maizono_os.Word.Masks.{or_fields}
use maizono_os.Paging.{Tables, Layout, new, dir_ptr, init}
use maizono_os.Paging.Entries.{page_entry, DirsFilled, fill_dirs-DirsFilled}
use maizono_os.Paging.Walk.{IsPlaced, table_at, present, large, table_of, walk}

ptr_entry : (base : ℕ) → base % 4096 ≡ 0 → bit_or base 0x003 ≡ base + 3
ptr_entry base h =
    let e : base / 4096 * 4096 ≡ base = omega arith in
    rw e at (or_fields 12 (base / 4096) 3 (omega arith))

page_entry_sum : (i j : ℕ) → page_entry i j ≡ i * 1073741824 + j * 2097152 + 131
page_entry_sum i j =
    let e : (i * 512 + j) * 2 ^ 21 ≡ i * 1073741824 + j * 2097152 = omega arith in
    rw e at (or_fields 21 (i * 512 + j) 0x83 (omega arith))

module _ (layout : Layout) (placed : IsPlaced layout) (t : Tables) where
  table_at-level4 : table_at layout t layout.level4_addr ≡ some t.page_map_level4_table
  unfolding table_at
  table_at-level4 = ground arith

  table_at-ptr_table : table_at layout t layout.ptr_table_addr ≡ some t.page_dir_ptr_table
  unfolding table_at
  table_at-ptr_table = ground (arith, placed.apart)

  table_at-dir : (i : ℕ) → i < 64 → table_at layout t (dir_ptr layout i) ≡ some (t.page_dir i)
  unfolding table_at
  table_at-dir i h =
      let e : (dir_ptr layout i - layout.dir_addr) / 4096 ≡ i = omega arith in
      rw e (ground (arith, placed.level4_apart i h, placed.ptr_table_apart i h))

-- The words of the three tables after `init`, as sums.
record AreIdentity (layout : Layout) (t : Tables) : Type 0 where
  level4 : (i : ℕ) → t.page_map_level4_table i ≡ (if 0 == i then layout.ptr_table_addr + 3 else 0)
  ptrs : (i : ℕ) → t.page_dir_ptr_table i ≡ (if ltb i 64 then dir_ptr layout i + 3 else 0)
  pages :
      (i j : ℕ)
      → t.page_dir i j ≡ (if ltb i 64 && ltb j 512 then i * 1073741824 + j * 2097152 + 131 else 0)

-- What the walk reads from an entry that points at a table.
module _ (base : ℕ) (aligned : base % 4096 ≡ 0) (fits : base < 2 ^ 52) where
  present-pointer : present (base + 3) ≡ true
  present-pointer = ground arith

  large-pointer : large (base + 3) ≡ false
  large-pointer = ground arith

  table_of-pointer : table_of (base + 3) ≡ base
  table_of-pointer = omega arith

module _ (layout : Layout) (placed : IsPlaced layout) (t : Tables) (e : AreIdentity layout t)
    (va : ℕ) where
  walk_no_level4 : 2 ^ 39 ≤ va → va < 2 ^ 48 → walk layout t layout.level4_addr va ≡ none
  unfolding walk
  walk_no_level4 h k =
      let absent : t.page_map_level4_table (va / 2 ^ 39 % 512) ≡ 0 =
        ground (arith, e.level4 (va / 2 ^ 39 % 512)) in
      rw (table_at-level4 layout placed t, absent)

  walk_no_directory : 2 ^ 36 ≤ va → va < 2 ^ 39 → walk layout t layout.level4_addr va ≡ none
  unfolding walk
  walk_no_directory h k =
      let base = layout.ptr_table_addr in
      let pointer : t.page_map_level4_table (va / 2 ^ 39 % 512) ≡ base + 3 =
        ground (arith, e.level4 (va / 2 ^ 39 % 512)) in
      let absent : t.page_dir_ptr_table (va / 2 ^ 30 % 512) ≡ 0 =
        ground (arith, e.ptrs (va / 2 ^ 30 % 512)) in
      rw (
        table_at-level4 layout placed t,
        pointer,
        present-pointer base placed.ptr_table_aligned placed.ptr_table_fits,
        table_of-pointer base placed.ptr_table_aligned placed.ptr_table_fits,
        table_at-ptr_table layout placed t,
        absent,
      )

  walk_page : va < 2 ^ 36 → walk layout t layout.level4_addr va ≡ some va
  unfolding walk
  walk_page h =
      let base = layout.ptr_table_addr in
      let i = va / 2 ^ 30 % 512 in
      let j = va / 2 ^ 21 % 512 in
      let inside : i < 64 = omega arith in
      let aligned : dir_ptr layout i % 4096 ≡ 0 = omega (arith, placed.dir_aligned) in
      let fits : dir_ptr layout i < 2 ^ 52 = omega (arith, placed.dir_fits) in
      let pointer : t.page_map_level4_table (va / 2 ^ 39 % 512) ≡ base + 3 =
        ground (arith, e.level4 (va / 2 ^ 39 % 512)) in
      let directory : t.page_dir_ptr_table i ≡ dir_ptr layout i + 3 = ground (arith, e.ptrs i) in
      let page : t.page_dir i j ≡ i * 1073741824 + j * 2097152 + 131 =
        ground (arith, e.pages i j) in
      rw
        (
          table_at-level4 layout placed t,
          pointer,
          present-pointer base placed.ptr_table_aligned placed.ptr_table_fits,
          table_of-pointer base placed.ptr_table_aligned placed.ptr_table_fits,
          table_at-ptr_table layout placed t,
          directory,
          present-pointer (dir_ptr layout i) aligned fits,
          large-pointer (dir_ptr layout i) aligned fits,
          table_of-pointer (dir_ptr layout i) aligned fits,
          table_at-dir layout placed t i inside,
          page,
        )
        (ground arith)

-- The tables with which the loops of `init` start.
abbrev start : Layout → Tables
start layout = record {
  page_map_level4_table = update (λ i. 0) 0 (bit_or layout.ptr_table_addr 0x003);
  page_dir_ptr_table = λ i. 0;
  page_dir = λ i j. 0;
}

DirsFilled-AreIdentity :
    (layout : Layout) {result : Option Tables}
    → IsPlaced layout
    → (filled : DirsFilled layout 0 64 (start layout) result) → AreIdentity layout filled.out
DirsFilled-AreIdentity layout placed filled = record {
  level4 = λ i. ground (
    arith,
    ap (λ (f : ℕ → ℕ). f i) filled.level4,
    ptr_entry layout.ptr_table_addr placed.ptr_table_aligned,
  );
  ptrs = λ i.
      ground
        (arith, filled.ptrs i, ptr_entry (dir_ptr layout i) (omega (arith, placed.dir_aligned)));
  pages = λ i j. ground (arith, filled.pages i j, page_entry_sum i j);
}

translates_every :
    (layout : Layout) (placed : IsPlaced layout) (t : Tables)
    → AreIdentity layout t
    → (va : ℕ) → va < 2 ^ 48
    → walk layout t layout.level4_addr va ≡ (if ltb va (64 * 2 ^ 30) then some va else none)
translates_every layout placed t words va h = ground (
  arith,
  walk_no_level4 layout placed t words va,
  walk_no_directory layout placed t words va,
  walk_page layout placed t words va,
)

-- `result` is a normal return of `init`, whose tables map each address below 64 GiB to itself and no
-- other 48-bit address.
pub record MapsIdentity (layout : Layout) (result : Option (Tables × ℕ)) : Type 0 where
  pub out : Tables
  pub cr3 : ℕ
  pub returns : result ≡ some (out, cr3)
  pub translates :
      (va : ℕ)
      → va < 2 ^ 48
      → walk layout out cr3 va ≡ (if ltb va (64 * 2 ^ 30) then some va else none)

-- `init` on the new tables, where the linker placed them as the source asks, returns without a
-- panic; after it the processor translates every address below 64 GiB to itself, and faults at every
-- other 48-bit address.
pub init-MapsIdentity : (layout : Layout) → IsPlaced layout → MapsIdentity layout (init layout new)
unfolding init new
init-MapsIdentity layout placed =
    let filled = fill_dirs-DirsFilled layout 0 64 (start layout) (omega arith) in
    let words = DirsFilled-AreIdentity layout placed filled in
    record {
      out = filled.out;
      cr3 = layout.level4_addr;
      returns = rw (
        store_at_fits 512 (λ i. 0) 0 (bit_or layout.ptr_table_addr 0x003) (omega arith),
        filled.returns,
      );
      translates = λ va h. translates_every layout placed filled.out words va h;
    }
