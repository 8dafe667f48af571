-- ===== src/PhysMem/Range.antt =====
-- `mark_allocated` and `free` on a range of frames.
use native.Mathlib.Nat.{add-zero}
use maizono_os.Base.{
  ℕ, zero, suc, ◌+◌, ◌≤◌, ◌<◌, ◌≡◌, refl, ◌∙◌, Bool, true, false, ◌&&◌, Option, some, arith, ltb,
  leb, if◌then◌else◌,
}
use maizono_os.Base.Checked.{add_usize_fits}
use maizono_os.PhysMem.{BitmapMemoryManager, frame_count, set_bits_from, mark_allocated, free}
use maizono_os.PhysMem.Bitmap.{
  allocated, AreWords, with_bit, set_bit-eq, with_bit-AreWords, allocated-with_bit,
}

-- `id` is one of the `count` frames from `first`.
abbrev pub in_range : ℕ → ℕ → ℕ → Bool
in_range first count id = leb first id && ltb id (first + count)

-- `result` is a normal return that gave the frames of the range the mark `v`, and changed nothing
-- else.
pub record IsWritten (v : Bool) (first count : ℕ) (m : BitmapMemoryManager)
    (result : Option BitmapMemoryManager) : Type 0 where
  pub out : BitmapMemoryManager
  pub returns : result ≡ some out
  pub words : AreWords out
  pub same_begin : out.begin ≡ m.begin
  pub same_end : out.end ≡ m.end
  pub marks : (j : ℕ) → allocated out j ≡ (if in_range first count j then v else allocated m j)

set_bits_from-suc :
    (v : Bool) (first i : ℕ) (m : BitmapMemoryManager) (left : ℕ)
    → first + i < frame_count
    → set_bits_from v first i m (suc left)
      ≡ set_bits_from v first (i + 1) (with_bit m (first + i) v) left
unfolding set_bits_from
set_bits_from-suc v first i m left h =
    rw (add_usize_fits first i (omega arith), set_bit-eq m (first + i) v h)

begin-with_bit : (m : BitmapMemoryManager) (id : ℕ) (v : Bool) → (with_bit m id v).begin ≡ m.begin
unfolding with_bit
begin-with_bit m id v = refl

end-with_bit : (m : BitmapMemoryManager) (id : ℕ) (v : Bool) → (with_bit m id v).end ≡ m.end
unfolding with_bit
end-with_bit m id v = refl

set_bits_from-IsWritten :
    (v : Bool) (first i : ℕ) (m : BitmapMemoryManager) (left : ℕ)
    → first + i + left ≤ frame_count
    → AreWords m
    → IsWritten v (first + i) left m (set_bits_from v first i m left)
set_bits_from-IsWritten v first i m zero h w = record {
  out = m;
  returns = unfold set_bits_from in refl;
  words = w;
  same_begin = refl;
  same_end = refl;
  marks = λ j. ground arith;
}
set_bits_from-IsWritten v first i m (suc left) h w =
    let m' = with_bit m (first + i) v in
    let rest =
      set_bits_from-IsWritten v first (i + 1) m' left (omega arith)
        (with_bit-AreWords m (first + i) v w) in
    record {
      out = rest.out;
      returns = rw (set_bits_from-suc v first i m left (omega arith)) rest.returns;
      words = rest.words;
      same_begin = rest.same_begin ∙ begin-with_bit m (first + i) v;
      same_end = rest.same_end ∙ end-with_bit m (first + i) v;
      marks = λ j. ground (arith, rest.marks j, allocated-with_bit m (first + i) v j w);
    }

module _ (m : BitmapMemoryManager) (first count : ℕ) (fits : first + count ≤ frame_count)
    (w : AreWords m) where
  -- In a bitmap of 64-bit words, `mark_allocated` on `count` frames from `first` that end below the
  -- limit returns, marks exactly these frames, and keeps every other mark and the managed range; the
  -- words stay 64-bit words.
  pub mark_allocated-IsWritten : IsWritten true first count m (mark_allocated m first count)
  unfolding mark_allocated
  mark_allocated-IsWritten =
      rw add-zero at (set_bits_from-IsWritten true first 0 m count (omega arith) w)

  -- In a bitmap of 64-bit words, `free` on `count` frames from `first` that end below the limit
  -- returns, clears exactly these frames, and keeps every other mark and the managed range; the words
  -- stay 64-bit words.
  pub free-IsWritten : IsWritten false first count m (free m first count)
  unfolding free
  free-IsWritten = rw add-zero at (set_bits_from-IsWritten false first 0 m count (omega arith) w)
