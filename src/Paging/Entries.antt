-- ===== src/Paging/Entries.antt =====
-- The entries that the loops of `init` store.
use maizono_os.Base.{
  ℕ, zero, suc, ◌+◌, ◌*◌, ◌≤◌, ◌<◌, ◌≡◌, refl, ◌∙◌, ap, ◌&&◌, Option, some, bit_or, arith, ltb, leb,
  ◌==◌, if◌then◌else◌, update,
}
use maizono_os.Base.Checked.{add_usize_fits, mul_usize_fits, store_at_fits}
use maizono_os.Paging.{Tables, Layout, dir_ptr, store_page, fill_dir, store_dir, fill_dirs}

-- The entry of page `j` of directory `i`: its address, with the flags present, writable and large.
abbrev pub page_entry : ℕ → ℕ → ℕ
page_entry i j = bit_or (i * 1073741824 + j * 2097152) 0x083

abbrev with_page : ℕ → ℕ → Tables → Tables
with_page i j t = record t {
  page_dir = update t.page_dir i (update (t.page_dir i) j (page_entry i j));
}

store_page-eq :
    (i j : ℕ) (t : Tables) → i < 64 → j < 512 → store_page i j t ≡ some (with_page i j t)
unfolding store_page
store_page-eq i j t h k = rw (
  mul_usize_fits i 1073741824 (omega arith),
  mul_usize_fits j 2097152 (omega arith),
  add_usize_fits (i * 1073741824) (j * 2097152) (omega arith),
  store_at_fits 512 (t.page_dir i) j (page_entry i j) k,
  store_at_fits 64 t.page_dir i (update (t.page_dir i) j (page_entry i j)) h,
)

-- The inner loop stores the pages from `j` of directory `i` and nothing else.
record DirFilled (i j left : ℕ) (t : Tables) (result : Option Tables) : Type 0 where
  out : Tables
  returns : result ≡ some out
  level4 : out.page_map_level4_table ≡ t.page_map_level4_table
  ptrs : out.page_dir_ptr_table ≡ t.page_dir_ptr_table
  pages :
      (a b : ℕ)
      → out.page_dir a b
        ≡ (if a == i && (leb j b && ltb b (j + left)) then page_entry a b else t.page_dir a b)

fill_dir-DirFilled :
    (i j left : ℕ) (t : Tables)
    → i < 64
    → j + left ≤ 512
    → DirFilled i j left t (fill_dir i j left t)
unfolding fill_dir
fill_dir-DirFilled i j zero t h k = record {
  out = t;
  returns = refl;
  level4 = refl;
  ptrs = refl;
  pages = λ a b. ground arith;
}
fill_dir-DirFilled i j (suc left) t h k =
    let rest = fill_dir-DirFilled i (j + 1) left (with_page i j t) h (omega arith) in
    record {
      out = rest.out;
      returns = rw (store_page-eq i j t h (omega arith)) rest.returns;
      level4 = rest.level4;
      ptrs = rest.ptrs;
      pages = λ a b. ground (arith, rest.pages a b);
    }

store_dir-eq :
    (layout : Layout) (i : ℕ) (t : Tables)
    → i < 64
    → store_dir layout i t
      ≡ some (record t {
        page_dir_ptr_table = update t.page_dir_ptr_table i (bit_or (dir_ptr layout i) 0x003);
      })
unfolding store_dir
store_dir-eq layout i t h =
    rw (store_at_fits 512 t.page_dir_ptr_table i (bit_or (dir_ptr layout i) 0x003) (omega arith))

-- The outer loop fills the directories from `i` on and points the table above at them.
pub record DirsFilled (layout : Layout) (i left : ℕ) (t : Tables) (result : Option Tables)
    : Type 0 where
  pub out : Tables
  pub returns : result ≡ some out
  pub level4 : out.page_map_level4_table ≡ t.page_map_level4_table
  pub ptrs :
      (a : ℕ)
      → out.page_dir_ptr_table a ≡ (
          if leb i a && ltb a (i + left)
          then bit_or (dir_ptr layout a) 0x003
          else t.page_dir_ptr_table a)
  pub pages :
      (a b : ℕ)
      → out.page_dir a b
        ≡ (if leb i a && ltb a (i + left) && ltb b 512 then page_entry a b else t.page_dir a b)

pub fill_dirs-DirsFilled :
    (layout : Layout) (i left : ℕ) (t : Tables)
    → i + left ≤ 64
    → DirsFilled layout i left t (fill_dirs layout i left t)
unfolding fill_dirs
fill_dirs-DirsFilled layout i zero t h = record {
  out = t;
  returns = refl;
  level4 = refl;
  ptrs = λ a. ground arith;
  pages = λ a b. ground arith;
}
fill_dirs-DirsFilled layout i (suc left) t h =
    let t' = record t {
      page_dir_ptr_table = update t.page_dir_ptr_table i (bit_or (dir_ptr layout i) 0x003);
    } in
    let dir = fill_dir-DirFilled i 0 512 t' (omega arith) (omega arith) in
    let rest = fill_dirs-DirsFilled layout (i + 1) left dir.out (omega arith) in
    record {
      out = rest.out;
      returns = rw (store_dir-eq layout i t (omega arith), dir.returns) rest.returns;
      level4 = rest.level4 ∙ dir.level4;
      ptrs = λ a. ground (arith, rest.ptrs a, ap (λ (f : ℕ → ℕ). f a) dir.ptrs);
      pages = λ a b. ground (arith, rest.pages a b, dir.pages a b);
    }
