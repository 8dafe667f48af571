-- ===== src/Boot/Copied.antt =====
-- What the memory holds after the segments have been copied.
use maizono_os.Base.{
  ℕ, zero, suc, ◌+◌, ◌-◌, ◌≤◌, ◌<◌, ◌≡◌, refl, ap, ◌∙◌, Bool, true, ◌&&◌, Option, none, some, List,
  [], ◌∷◌, ltb, leb, ◌==◌, if◌then◌else◌, length, take, drop, update, arith, Bool-cases, inl, inr,
}
use maizono_os.Base.Checked.{◌>>=◌, add_usize, add_usize_fits, add_usize_overflows, word_limit}
use maizono_os.Boot.Image.{
  is_slice, ProgramHeader, Memory, slice, copy_from_slice, fill, copy_segment,
}

-- Byte `i` of a sequence; 0 past its end.
abbrev pub byte : List ℕ → ℕ → ℕ
byte [] i = 0
byte (b ∷ rest) zero = b
byte (b ∷ rest) (suc i) = byte rest i

byte-drop : (src : List ℕ) (n i : ℕ) → byte (drop n src) i ≡ byte src (n + i)
byte-drop src zero i = ap (byte src) (omega arith)
byte-drop [] (suc n) i = refl
byte-drop (b ∷ rest) (suc n) i =
    let e : suc n + i ≡ suc (n + i) = omega arith in rw e (byte-drop rest n i)

byte-take : (src : List ℕ) (n i : ℕ) → i < n → byte (take n src) i ≡ byte src i
byte-take src zero i h = absurd (omega arith)
byte-take [] (suc n) i h = refl
byte-take (b ∷ rest) (suc n) zero h = refl
byte-take (b ∷ rest) (suc n) (suc i) h = byte-take rest n i (omega arith)

length-drop : (src : List ℕ) (n : ℕ) → length (drop n src) ≡ length src - n
length-drop src zero = omega arith
length-drop [] (suc n) = omega arith
length-drop (b ∷ rest) (suc n) = omega (arith, length-drop rest n)

length-take : (src : List ℕ) (n : ℕ) → n ≤ length src → length (take n src) ≡ n
length-take src zero h = refl
length-take [] (suc n) h = absurd (omega arith)
length-take (b ∷ rest) (suc n) h = ap suc (length-take rest n (omega arith))

byte-cons :
    (b : ℕ) (rest : List ℕ) (i : ℕ) → byte (b ∷ rest) i ≡ (if i == 0 then b else byte rest (i - 1))
byte-cons b rest zero = refl
byte-cons b rest (suc i) =
    let e : byte rest i ≡ byte rest (suc i - 1) = ap (byte rest) (omega arith) in ground (arith, e)

copy_from_slice_lem :
    (dest : ℕ) (bytes : List ℕ) (m : Memory) (a : ℕ)
    → copy_from_slice dest bytes m a
      ≡ (if leb dest a && ltb a (dest + length bytes) then byte bytes (a - dest) else m a)
unfolding copy_from_slice
copy_from_slice_lem dest [] m a = ground arith
copy_from_slice_lem dest (b ∷ rest) m a =
    let shift : byte rest (a - dest - 1) ≡ byte rest (a - (dest + 1)) =
      ap (byte rest) (omega arith) in
    ground (
      arith,
      copy_from_slice_lem (dest + 1) rest (update m dest b) a,
      byte-cons b rest (a - dest),
      shift,
    )

fill_lem :
    (dest n value : ℕ) (m : Memory) (a : ℕ)
    → fill dest n value m a ≡ (if leb dest a && ltb a (dest + n) then value else m a)
unfolding fill
fill_lem dest zero value m a = ground arith
fill_lem dest (suc n) value m a =
    ground (arith, fill_lem (dest + 1) n value (update m dest value) a)

-- The byte of the image of a segment at an address that it covers: from the file, or 0 past the part
-- that is in the file.
abbrev pub content : List ℕ → ProgramHeader → ℕ → ℕ
content src h a =
    if ltb a (h.p_vaddr + h.p_filesz) then byte src (h.p_offset + (a - h.p_vaddr)) else 0

abbrev pub covers : ProgramHeader → ℕ → Bool
covers h a = leb h.p_vaddr a && ltb a (h.p_vaddr + h.p_memsz)

-- The memory part is a slice of bytes, and the file part is inside the file and not longer.
abbrev pub is_copyable : List ℕ → ProgramHeader → Bool
is_copyable src h =
    (is_slice h.p_vaddr h.p_memsz && leb h.p_filesz h.p_memsz)
    && leb (h.p_offset + h.p_filesz) (length src)

byte-slice :
    (src : List ℕ) (offset n i : ℕ)
    → i < n
    → byte (take n (drop offset src)) i ≡ byte src (offset + i)
byte-slice src offset n i h = byte-take (drop offset src) n i h ∙ byte-drop src offset i

length-slice :
    (src : List ℕ) (offset n : ℕ) → offset + n ≤ length src → length (take n (drop offset src)) ≡ n
length-slice src offset n h =
    length-take (drop offset src) n (omega (arith, length-drop src offset))

-- `src[offset..offset + n]`
add-slice :
    (src : List ℕ) (offset n : ℕ) (k : List ℕ → Option Memory)
    → length src < word_limit
    → (add_usize offset n >>= λ end. slice src offset end >>= k)
      ≡ (if leb (offset + n) (length src) then k (take n (drop offset src)) else none)
add-slice src offset n k small =
    let e : offset + n - offset ≡ n = omega arith in
    elim (Bool-cases (leb (offset + n) (length src))) [
      | inl inside ↦
          (let fits = add_usize_fits offset n (ground arith) in
            let starts : leb offset (offset + n) ≡ true = ground arith in
            rw fits (rw e (rw (starts, inside) refl)))
      | inr outside ↦ elim (Bool-cases (ltb (offset + n) word_limit)) [
        | inl fits ↦
            (let starts : leb offset (offset + n) ≡ true = ground arith in
              rw (add_usize_fits offset n (ground arith)) (rw (starts, outside) refl))
        | inr large ↦ rw (add_usize_overflows offset n (ground arith), outside) refl
      ]
    ]

-- The memory after one segment.
abbrev pub segment_memory : List ℕ → ProgramHeader → Memory → Memory
segment_memory src h m =
    fill (h.p_vaddr + h.p_filesz) (h.p_memsz - h.p_filesz) 0
      (copy_from_slice h.p_vaddr (take h.p_filesz (drop h.p_offset src)) m)

pub copy_segment_lem :
    (src : List ℕ) (h : ProgramHeader) (m : Memory)
    → length src < word_limit
    → copy_segment src h m ≡ (if is_copyable src h then some (segment_memory src h m) else none)
unfolding copy_segment
copy_segment_lem src h m small =
    let e =
      add-slice src h.p_offset h.p_filesz
        (λ bytes. some (
          fill (h.p_vaddr + h.p_filesz) (h.p_memsz - h.p_filesz) 0
            (copy_from_slice h.p_vaddr bytes m)))
        small in
    elim (Bool-cases (is_slice h.p_vaddr h.p_memsz && leb h.p_filesz h.p_memsz)) [
      | inl long ↦ rw long (e ∙ refl)
      | inr short ↦ rw short refl
    ]

pub segment_memory_lem :
    (src : List ℕ) (h : ProgramHeader) (m : Memory) (a : ℕ)
    → is_copyable src h ≡ true
    → segment_memory src h m a ≡ (if covers h a then content src h a else m a)
segment_memory_lem src h m a ok =
    let bytes = take h.p_filesz (drop h.p_offset src) in
    ground (
      arith,
      fill_lem (h.p_vaddr + h.p_filesz) (h.p_memsz - h.p_filesz) 0
          (copy_from_slice h.p_vaddr bytes m) a,
      copy_from_slice_lem h.p_vaddr bytes m a,
      length-slice src h.p_offset h.p_filesz,
      byte-slice src h.p_offset h.p_filesz (a - h.p_vaddr),
    )
