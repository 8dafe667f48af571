-- ===== src/Paging/Walk.antt =====
-- The processor's walk through the tables, and what it finds after `init`.
use maizono_os.Base.{
  ℕ, ◌+◌, ◌-◌, ◌*◌, ◌/◌, ◌%◌, ◌^◌, ◌≤◌, ◌<◌, ◌≡◌, ◌≢◌, ◌&&◌, Bool, not, Option, none, some, ltb,
  leb, ◌==◌, if◌then◌else◌,
}
use maizono_os.Base.Checked.{◌>>=◌}
use maizono_os.Paging.{Tables, Layout, dir_ptr}

-- What the `repr(align(0x1000))` of the statics and the linker give: page-aligned tables that do
-- not overlap and lie in the 52-bit physical space.
pub record IsPlaced (layout : Layout) : Type 0 where
  pub level4_aligned : layout.level4_addr % 4096 ≡ 0
  pub ptr_table_aligned : layout.ptr_table_addr % 4096 ≡ 0
  pub dir_aligned : layout.dir_addr % 4096 ≡ 0
  pub level4_fits : layout.level4_addr < 2 ^ 52
  pub ptr_table_fits : layout.ptr_table_addr < 2 ^ 52
  pub dir_fits : layout.dir_addr + 64 * 4096 ≤ 2 ^ 52
  pub apart : layout.level4_addr ≢ layout.ptr_table_addr
  pub level4_apart : (i : ℕ) → i < 64 → dir_ptr layout i ≢ layout.level4_addr
  pub ptr_table_apart : (i : ℕ) → i < 64 → dir_ptr layout i ≢ layout.ptr_table_addr

-- The table that lies at an address.
unfoldable pub table_at : Layout → Tables → ℕ → Option (ℕ → ℕ)
table_at layout t addr =
    let i = (addr - layout.dir_addr) / 4096 in
    if addr == layout.level4_addr
    then some t.page_map_level4_table
    else if addr == layout.ptr_table_addr
    then some t.page_dir_ptr_table
    else if leb layout.dir_addr addr && ltb i 64 && dir_ptr layout i == addr
    then some (t.page_dir i)
    else none

-- Bits 0 and 7 of an entry, and the addresses in its bits 12 to 51 and 21 to 51.
abbrev pub present : ℕ → Bool
present e = e % 2 == 1

abbrev pub large : ℕ → Bool
large e = e / 128 % 2 == 1

abbrev pub table_of : ℕ → ℕ
table_of e = e / 4096 % 2 ^ 40 * 4096

abbrev pub page_of : ℕ → ℕ
page_of e = e / 2 ^ 21 % 2 ^ 31 * 2 ^ 21

abbrev pub check : {A : Type 0} → Bool → Option A → Option A
check b a = if b then a else none

-- Four-level translation of a 48-bit address with pages of 2 MiB, by the processor manual.
unfoldable pub walk : Layout → Tables → ℕ → ℕ → Option ℕ
unfolding table_at
walk layout t cr3 va = table_at layout t cr3 >>= λ level4.
    let e4 = level4 (va / 2 ^ 39 % 512) in
    check (present e4) (
      table_at layout t (table_of e4) >>= λ ptrs.
      let e3 = ptrs (va / 2 ^ 30 % 512) in
      check (present e3 && not (large e3)) (
        table_at layout t (table_of e3) >>= λ dir.
        let e2 = dir (va / 2 ^ 21 % 512) in
        check (present e2 && large e2) (some (page_of e2 + va % 2 ^ 21))))
