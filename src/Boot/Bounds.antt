-- ===== src/Boot/Bounds.antt =====
-- The range of addresses that `load_elf` computes for the segments, and its pages.
use maizono_os.Base.{
  ℕ, ◌+◌, ◌-◌, ◌/◌, ◌≤◌, ◌<◌, ◌≡◌, refl, ap, Bool, false, none, some, List, [], ◌∷◌, ltb, ◌==◌,
  if◌then◌else◌, arith, Bool-cases, inl, inr,
}
use maizono_os.Base.Checked.{add_usize_fits, add_usize_overflows, sub_usize_fits, word_limit}
use maizono_os.Boot.Image.{ProgramHeader, min, max, dest_bounds, dest_range, page_count}

module _ (pt_load : ℕ) where
  abbrev loads : ProgramHeader → Bool
  loads h = h.p_type == pt_load

  -- The end of the highest segment, at least `e`.
  abbrev pub top : List ProgramHeader → ℕ → ℕ
  top [] e = e
  top (h ∷ rest) e = top rest (if loads h then max e (h.p_vaddr + h.p_memsz) else e)

  top-le : (headers : List ProgramHeader) (e : ℕ) → e ≤ top headers e
  top-le [] e = omega arith
  top-le (h ∷ rest) e =
      ground (arith, top-le rest (if loads h then max e (h.p_vaddr + h.p_memsz) else e))

  dest_bounds_lem :
      (headers : List ProgramHeader) (e : ℕ)
      → e < word_limit
      → dest_bounds pt_load headers 0 e
        ≡ (if ltb (top headers e) word_limit then some (0, top headers e) else none)
  unfolding dest_bounds
  dest_bounds_lem [] e small = ground arith
  dest_bounds_lem (h ∷ rest) e small = elim (Bool-cases (loads h)) [
    | inl load ↦ elim (Bool-cases (ltb (h.p_vaddr + h.p_memsz) word_limit)) [
      | inl fits ↦
          (let sum = add_usize_fits h.p_vaddr h.p_memsz (ground arith) in
            let lowest : min 0 h.p_paddr ≡ 0 = ground arith in
            rw load (
              rw sum
                (rw lowest (dest_bounds_lem rest (max e (h.p_vaddr + h.p_memsz)) (ground arith)))))
      | inr large ↦
          (let sum = add_usize_overflows h.p_vaddr h.p_memsz (ground arith) in
            let higher = top-le rest (max e (h.p_vaddr + h.p_memsz)) in
            let over : ltb (top rest (max e (h.p_vaddr + h.p_memsz))) word_limit ≡ false =
              ground (arith, higher) in
            rw load (rw sum (rw over refl)))
    ]
    | inr other ↦ rw other (dest_bounds_lem rest e small)
  ]

  -- The base address is always 0.
  pub dest_range_lem :
      (headers : List ProgramHeader)
      → dest_range pt_load headers
        ≡ (if ltb (top headers 0) word_limit then some (top headers 0, 0) else none)
  unfolding dest_range
  dest_range_lem headers = elim (Bool-cases (ltb (top headers 0) word_limit)) [
    | inl fits ↦ rw (dest_bounds_lem headers 0 (omega arith)) (
        rw fits (
          rw (sub_usize_fits (top headers 0) 0 (omega arith))
            (ap (λ r. some (r, 0)) (omega arith))))
    | inr large ↦ rw (dest_bounds_lem headers 0 (omega arith)) (rw large refl)
  ]

pub page_count_lem :
    (range : ℕ)
    → page_count range
      ≡ (if ltb (range + 0x1000) word_limit then some ((range + 0xfff) / 0x1000) else none)
unfolding page_count
page_count_lem range = elim (Bool-cases (ltb (range + 0x1000) word_limit)) [
  | inl fits ↦
      (let e : range + 0x1000 - 1 ≡ range + 0xfff = omega arith in
        rw (add_usize_fits range 0x1000 (ground arith))
          (rw (sub_usize_fits (range + 0x1000) 1 (omega arith)) (rw (fits, e) refl)))
  | inr large ↦ rw (add_usize_overflows range 0x1000 (ground arith)) (rw large refl)
]
