-- ===== src/Graphic/FrameBuffer/Pixels.antt =====
-- Where a pixel is stored, and what a single write changes.
use native.Mathlib.Decide.{dec_lt}
use maizono_os.Base.{
  ℕ, ◌+◌, ◌*◌, ◌^◌, ◌≤◌, ◌<◌, ◌≡◌, ap, ◌&&◌, ◌⊎◌, inl, inr, some, arith, ◌==◌, if◌then◌else◌,
}
use maizono_os.Base.Checked.{add_usize_fits, mul_usize_fits, word_limit}
use maizono_os.Base.Exec.{done}
use maizono_os.Graphic.FrameBuffer.{
  FrameBuf, Memory, store_u32, store_pixel, is_inside_buffer, pixel_ref,
}

-- The buffer has four bytes per pixel, its lines follow each other without a gap, and its pixels lie
-- below the end of the address space.
pub record IsValid (buf : FrameBuf) : Type 0 where
  pub no_gap : buf.stride ≡ buf.width
  pub four_bytes : buf.bytes_per_pixel ≡ 4
  pub fits : buf.framebuf_addr + buf.height * buf.width * 4 ≤ word_limit

-- The address of pixel (x, y), where a line takes `stride` pixels.
abbrev pub addr_of : FrameBuf → ℕ → ℕ → ℕ
addr_of buf x y = buf.framebuf_addr + (y * buf.stride + x) * 4

-- The little-endian word at an address.
unfoldable pub load_u32 : Memory → ℕ → ℕ
load_u32 memory a =
    memory a + memory (a + 1) * 2 ^ 8 + memory (a + 2) * 2 ^ 16 + memory (a + 3) * 2 ^ 24

load_u32-store_same : (m : Memory) (a v : ℕ) → v < 2 ^ 32 → load_u32 (store_u32 m a v) a ≡ v
unfolding load_u32
load_u32-store_same m a v h = ground arith

load_u32-store_apart :
    (m : Memory) (a b v : ℕ)
    → (a + 4 ≤ b) ⊎ (b + 4 ≤ a)
    → load_u32 (store_u32 m a v) b ≡ load_u32 m b
unfolding load_u32
load_u32-store_apart m a b v h = ground arith

-- The word that the memory holds for pixel (x, y).
unfoldable pub word_at : FrameBuf → Memory → ℕ → ℕ → ℕ
word_at buf memory x y = load_u32 memory (addr_of buf x y)

index_in_range : (x y w h : ℕ) → x < w → y < h → y * w + x + 1 ≤ h * w
index_in_range x y w h p q = grind arith

same_row : (x y x' y' w : ℕ) → x < w → x' < w → y * w + x ≡ y' * w + x' → y ≡ y'
same_row x y x' y' w p q e = elim (dec_lt y y') [
  | yes above ↦ absurd (omega (arith, index_in_range x y w y' p above))
  | no not_above ↦ elim (dec_lt y' y) [
    | yes below ↦ absurd (omega (arith, index_in_range x' y' w y q below))
    | no not_below ↦ omega arith
  ]
]

-- Pixels inside have different places.
index_injective : (x y x' y' w : ℕ) → x < w → x' < w → y * w + x ≡ y' * w + x' → (x ≡ x') × (y ≡ y')
index_injective x y x' y' w p q e =
    let row = same_row x y x' y' w p q e in (omega (arith, ap (λ (t : ℕ). t * w) row), row)

module _ (buf : FrameBuf) (valid : IsValid buf) (x y : ℕ) (in_row : x < buf.width)
    (in_column : y < buf.height) where
  pub pixel_ref-eq : pixel_ref buf x y ≡ some (addr_of buf x y)
  unfolding pixel_ref
  pixel_ref-eq =
      let room = index_in_range x y buf.width buf.height in_row in_column in
      rw (
        mul_usize_fits y buf.width (omega (arith, valid.fits)),
        add_usize_fits (y * buf.width) x (omega (arith, valid.fits)),
        valid.four_bytes,
        valid.no_gap,
        mul_usize_fits (y * buf.width + x) 4 (omega (arith, valid.fits)),
        add_usize_fits buf.framebuf_addr ((y * buf.width + x) * 4) (omega (arith, valid.fits)),
      )

  pub store_pixel-inside :
      (value : ℕ) (memory : Memory)
      → store_pixel buf x y value memory ≡ done tt (store_u32 memory (addr_of buf x y) value)
  unfolding store_pixel is_inside_buffer
  store_pixel-inside value memory = ground (arith, pixel_ref-eq)

  -- Reading any pixel inside after the store.
  pub word_at-store :
      (value : ℕ) (memory : Memory) (x' y' : ℕ)
      → value < 2 ^ 32
      → x' < buf.width
      → word_at buf (store_u32 memory (addr_of buf x y) value) x' y'
        ≡ (if x == x' && y == y' then value else word_at buf memory x' y')
  unfolding word_at
  word_at-store value memory x' y' word in_row' =
      elim (dec_lt (y * buf.stride + x) (y' * buf.stride + x')) [
        | yes before ↦ ground (
          arith,
          load_u32-store_apart memory (addr_of buf x y) (addr_of buf x' y') value
              (inl (omega arith)),
        )
        | no not_before ↦ elim (dec_lt (y' * buf.stride + x') (y * buf.stride + x)) [
          | yes after ↦ ground (
            arith,
            load_u32-store_apart memory (addr_of buf x y) (addr_of buf x' y') value
                (inr (omega arith)),
          )
          | no not_after ↦
              let same =
                index_injective x y x' y' buf.stride (omega (arith, valid.no_gap))
                  (omega (arith, valid.no_gap)) (omega arith) in
              ground (arith, same, load_u32-store_same memory (addr_of buf x y) value word)
        ]
      ]
