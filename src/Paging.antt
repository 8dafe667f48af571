-- ===== src/Paging.antt =====
-- kernel/src/paging.rs: the page tables that `init` builds. The addresses that the linker gives the
-- three statics are parameters. `none` is a panic: an index out of range or an overflow.
pub mod Entries
pub mod Walk
pub mod Identity
mod Examples
pub mod Sample
use maizono_os.Base.{
  ℕ, zero, suc, ◌+◌, ◌*◌, ◌≡◌, refl, Option, none, some, bit_or, ltb, if◌then◌else◌, update,
}
use maizono_os.Base.Checked.{◌>>=◌, add_usize, mul_usize, store_at}

abbrev pub page_size_2m : ℕ
page_size_2m = 1024 * 1024 * 2

abbrev pub page_size_1g : ℕ
page_size_1g = 1024 * 1024 * 1024 * 1

abbrev pub number_of_page_dir : ℕ
number_of_page_dir = 64

-- The `[u64; 512]` of each table, as functions of the index.
pub record Tables : Type 0 where
  pub page_map_level4_table : ℕ → ℕ
  pub page_dir_ptr_table : ℕ → ℕ
  pub page_dir : ℕ → ℕ → ℕ

-- The statics before `init`: the `new` of the three tables.
unfoldable pub new : Tables
new = record { page_map_level4_table = λ i. 0; page_dir_ptr_table = λ i. 0; page_dir = λ i j. 0 }

-- Where the three statics lie.
pub record Layout : Type 0 where
  pub level4_addr : ℕ
  pub ptr_table_addr : ℕ
  pub dir_addr : ℕ

-- The address of `page_dir[i]`: a directory is 512 words of 8 bytes.
abbrev pub dir_ptr : Layout → ℕ → ℕ
dir_ptr layout i = layout.dir_addr + i * 4096

-- `page_dir[i][j] = (i * PAGE_SIZE_1G + j * PAGE_SIZE_2M | 0x083) as u64`
store_page : ℕ → ℕ → Tables → Option Tables
store_page i j t = mul_usize i page_size_1g >>= λ gigas. mul_usize j page_size_2m >>= λ megas.
    add_usize gigas megas >>= λ addr. store_at 512 (t.page_dir i) j (bit_or addr 0x083) >>= λ dir.
    store_at number_of_page_dir t.page_dir i dir >>= λ dirs. some (record t { page_dir = dirs })

-- `for j in j..j + left`
fill_dir : ℕ → ℕ → ℕ → Tables → Option Tables
fill_dir i j zero t = some t
fill_dir i j (suc left) t = store_page i j t >>= λ t'. fill_dir i (j + 1) left t'

-- `page_dir_ptr_table[i] = page_dir[i].as_ptr() as u64 | 0x003`
store_dir : Layout → ℕ → Tables → Option Tables
store_dir layout i t =
    store_at 512 t.page_dir_ptr_table i (bit_or (dir_ptr layout i) 0x003) >>= λ ptrs.
    some (record t { page_dir_ptr_table = ptrs })

-- `for i in i..i + left`
pub fill_dirs : Layout → ℕ → ℕ → Tables → Option Tables
fill_dirs layout i zero t = some t
fill_dirs layout i (suc left) t =
    store_dir layout i t >>= λ t'. fill_dir i 0 512 t' >>= λ t''. fill_dirs layout (i + 1) left t''

-- The tables after `init`, and the value that it moves to CR3.
pub init : Layout → Tables → Option (Tables × ℕ)
init layout t =
    store_at 512 t.page_map_level4_table 0 (bit_or layout.ptr_table_addr 0x003) >>= λ level4.
    fill_dirs layout 0 number_of_page_dir (record t { page_map_level4_table = level4 }) >>= λ t'.
    some (t', layout.level4_addr)
