-- ===== src/PhysMem/Alloc.antt =====
-- What `alloc` returns. The counter `i` of the source is bound once and never raised.
use native.Mathlib.Nat.{add-zero}
use native.Mathlib.Numerals.{add-one}
use maizono_os.Base.{
  ℕ, zero, suc, ◌+◌, ◌-◌, ◌≤◌, ◌<◌, ◌≡◌, refl, none, some, arith, ltb, ◌==◌, if◌then◌else◌, inl,
  inr, Bool-cases,
}
use maizono_os.Base.Checked.{add_usize_fits, word_limit}
use maizono_os.PhysMem.{
  BitmapMemoryManager, frame_count, returns_none, left_loop, scan_frames, alloc_loop, alloc,
  returned, mark_allocated,
}
use maizono_os.PhysMem.Bitmap.{get_bit_lem}

-- Before the end of the managed range the scan looks at one frame again and again, and leaves.
scan_frames_inside :
    (m : BitmapMemoryManager) (start rounds : ℕ)
    → start < m.end
    → m.end ≤ frame_count
    → scan_frames m start 0 rounds ≡ some left_loop
unfolding scan_frames
scan_frames_inside m start zero h k = refl
scan_frames_inside m start (suc rounds) h k = ground (
  arith,
  add-zero start,
  add_usize_fits start 0,
  get_bit_lem m start,
  scan_frames_inside m start rounds h k,
)

scan_frames_outside :
    (m : BitmapMemoryManager) (start rounds : ℕ)
    → start < word_limit
    → m.end ≤ start
    → scan_frames m start 0 (suc rounds) ≡ some returns_none
unfolding scan_frames
scan_frames_outside m start rounds h k = ground (arith, add-zero start, add_usize_fits start 0)

alloc_loop-none :
    (fuel : ℕ) (m : BitmapMemoryManager) (start wanted : ℕ)
    → start < word_limit
    → m.end ≤ frame_count
    → m.end - start < fuel
    → alloc_loop fuel m start (suc wanted) ≡ returned none m
unfolding alloc_loop
alloc_loop-none zero m start wanted h k f = absurd (omega arith)
alloc_loop-none (suc fuel) m start wanted h k f = elim (Bool-cases (ltb start m.end)) [
  | inl inside ↦ ground (
    arith,
    scan_frames_inside m start (suc wanted),
    add_usize_fits start 1,
    alloc_loop-none fuel m (start + 1) wanted,
  )
  | inr outside ↦ ground (arith, scan_frames_outside m start wanted h)
]

alloc_loop-zero :
    (fuel : ℕ) (m : BitmapMemoryManager) (start : ℕ)
    → alloc_loop (suc fuel) m start 0 ≡ returned (some start) m
unfolding alloc_loop scan_frames mark_allocated
alloc_loop-zero fuel m start = refl

-- If the managed range ends below the frame limit and starts at a 64-bit number, `alloc` returns,
-- changes no mark, and answers a request for one frame or more with `None`, however many frames are
-- free; a request for no frame it answers with the first managed frame.
pub alloc_lem :
    (m : BitmapMemoryManager) (number_of_frame : ℕ)
    → m.begin < word_limit
    → m.end ≤ frame_count
    → alloc m number_of_frame ≡ returned (if number_of_frame == 0 then some m.begin else none) m
unfolding alloc
alloc_lem m zero h k = rw add-one (alloc_loop-zero m.end m m.begin)
alloc_lem m (suc wanted) h k =
    ground (arith, alloc_loop-none (m.end + 1) m m.begin wanted h k (omega arith))
