-- ===== src/Graphic/FrameBuffer/Drawn.antt =====
-- Drawing code that sets a given set of pixels to one colour: a rule for each way to combine it.
use maizono_os.Base.{
  ℕ, zero, suc, ◌+◌, ◌^◌, ◌≤◌, ◌<◌, ◌≡◌, refl, Bool, false, ◌&&◌, ◌||◌, arith, ltb, leb, ◌==◌,
  if◌then◌else◌,
}
use maizono_os.Base.Exec.{Exec, done, M, bind, for_range}
use maizono_os.Graphic.Pixel.{to_bgr, le}
use maizono_os.Graphic.FrameBuffer.{
  FrameBuf, Memory, FrameBufferError, write_pixel_rgb, write_pixel_bgr, write_pixel, store_u32,
}
use maizono_os.Graphic.FrameBuffer.Pixels.{
  IsValid, addr_of, word_at, word_at-store, store_pixel-inside,
}

-- The word in memory for a pixel value.
unfoldable pub stored : FrameBuf → ℕ → ℕ
stored buf pixel = elim buf.writer [
  | write_pixel_rgb ↦ le pixel
  | write_pixel_bgr ↦ le (to_bgr pixel)
]

stored-lt : (buf : FrameBuf) (pixel : ℕ) → stored buf pixel < 2 ^ 32
unfolding stored le
stored-lt buf pixel = ground arith

-- `result` is a normal return that gave the pixels of `ink` the word `value` and kept the others.
pub record Drawn (buf : FrameBuf) (ink : ℕ → ℕ → Bool) (value : ℕ) (memory : Memory)
    (result : Exec Memory FrameBufferError (Unit {0})) : Type 0 where
  pub out : Memory
  pub returns : result ≡ done tt out
  pub pixels :
      (a b : ℕ)
      → a < buf.width
      → b < buf.height
      → word_at buf out a b ≡ (if ink a b then value else word_at buf memory a b)

module _ (buf : FrameBuf) where
  write_pixel-inside :
      (x y pixel : ℕ) (memory : Memory)
      → IsValid buf
      → x < buf.width
      → y < buf.height
      → write_pixel buf x y pixel memory
        ≡ done tt (store_u32 memory (addr_of buf x y) (stored buf pixel))
  unfolding write_pixel stored
  write_pixel-inside x y pixel memory valid p q = ground (
    arith,
    store_pixel-inside buf valid x y p q (le pixel) memory,
    store_pixel-inside buf valid x y p q (le (to_bgr pixel)) memory,
  )

  pub write_pixel-Drawn :
      (x y pixel : ℕ) (memory : Memory)
      → IsValid buf
      → x < buf.width
      → y < buf.height
      → Drawn buf
          (λ a b. x == a && y == b)
          (stored buf pixel)
          memory
          (write_pixel buf x y pixel memory)
  write_pixel-Drawn x y pixel memory valid p q = record {
    out = store_u32 memory (addr_of buf x y) (stored buf pixel);
    returns = write_pixel-inside x y pixel memory valid p q;
    pixels = λ a b r t.
        word_at-store buf valid x y p q (stored buf pixel) memory a b (stored-lt buf pixel) r;
  }

  pub skip-Drawn :
      (value : ℕ) (memory : Memory) → Drawn buf (λ a b. false) value memory (done tt memory)
  skip-Drawn value memory = record { out = memory; returns = refl; pixels = λ a b p q. refl }

  pub bind-Drawn :
      {first second : ℕ → ℕ → Bool} {value : ℕ} {memory : Memory}
      {result : Exec Memory FrameBufferError (Unit {0})}
      (rest : M Memory FrameBufferError (Unit {0}))
      → Drawn buf first value memory result
      → ((m : Memory) → Drawn buf second value m (rest m))
      → Drawn buf (λ a b. first a b || second a b) value memory (bind result (λ _. rest))
  bind-Drawn rest d e =
      let after = e d.out in
      record {
        out = after.out;
        returns = rw d.returns after.returns;
        pixels = λ a b p q. ground (arith, after.pixels a b p q, d.pixels a b p q);
      }

  pub Drawn-ext :
      {first second : ℕ → ℕ → Bool} {value : ℕ} {memory : Memory}
      {result : Exec Memory FrameBufferError (Unit {0})}
      → Drawn buf first value memory result
      → ((a b : ℕ) → a < buf.width → b < buf.height → first a b ≡ second a b)
      → Drawn buf second value memory result
  Drawn-ext d same = record {
    out = d.out;
    returns = d.returns;
    pixels = λ a b p q. ground (arith, d.pixels a b p q, same a b p q);
  }

-- Some `i` of `lo .. lo + n` satisfies `p`.
abbrev pub any_in : ℕ → ℕ → (ℕ → Bool) → Bool
any_in lo zero p = false
any_in lo (suc n) p = p lo || any_in (lo + 1) n p

pub for_range-Drawn :
    (buf : FrameBuf) (ink : ℕ → ℕ → ℕ → Bool) (value : ℕ)
    (body : ℕ → M Memory FrameBufferError (Unit {0})) (lo n : ℕ) (memory : Memory)
    → ((i : ℕ) (m : Memory) → lo ≤ i → i < lo + n → Drawn buf (ink i) value m (body i m))
    → Drawn buf (λ a b. any_in lo n (λ i. ink i a b)) value memory (for_range lo n body memory)
unfolding for_range
for_range-Drawn buf ink value body lo zero memory each = skip-Drawn buf value memory
for_range-Drawn buf ink value body lo (suc n) memory each =
    bind-Drawn buf (for_range (lo + 1) n body) (each lo memory (omega arith) (omega arith)) (λ m.
      for_range-Drawn buf ink value body (lo + 1) n m
        (λ i m' p q. each i m' (omega arith) (omega arith)))

pub any_in-column :
    (lo n a : ℕ) (q : Bool) → any_in lo n (λ i. i == a && q) ≡ ((leb lo a && ltb a (lo + n)) && q)
any_in-column lo zero a q = ground arith
any_in-column lo (suc n) a q = ground (arith, any_in-column (lo + 1) n a q)

pub any_in-row :
    (lo n b : ℕ) (p : Bool) → any_in lo n (λ j. p && j == b) ≡ (p && (leb lo b && ltb b (lo + n)))
any_in-row lo zero b p = ground arith
any_in-row lo (suc n) b p = ground (arith, any_in-row (lo + 1) n b p)
