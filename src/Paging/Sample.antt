-- ===== src/Paging/Sample.antt =====
-- Page tables at concrete addresses, for the tests.
use maizono_os.Base.{refl, arith}
use maizono_os.Paging.{Layout}
use maizono_os.Paging.Walk.{IsPlaced}

-- The tables one after the other from 1 MiB on.
abbrev pub layout : Layout
layout = record { level4_addr = 0x100000; ptr_table_addr = 0x101000; dir_addr = 0x102000 }

pub layout-IsPlaced : IsPlaced layout
layout-IsPlaced = record {
  level4_aligned = refl;
  ptr_table_aligned = refl;
  dir_aligned = refl;
  level4_fits = omega arith;
  ptr_table_fits = omega arith;
  dir_fits = omega arith;
  apart = λ e. omega arith;
  level4_apart = λ i h e. omega arith;
  ptr_table_apart = λ i h e. omega arith;
}
