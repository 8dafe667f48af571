-- ===== src/Boot/Overlay.antt =====
-- The image that the copies of the segments make in the memory.
use maizono_os.Base.{
  ℕ, ◌<◌, ◌≡◌, refl, ap, ◌∙◌, Bool, true, false, ◌&&◌, Option, none, some, List, [], ◌∷◌, ◌==◌,
  if◌then◌else◌, length, arith, Bool-cases, inl, inr,
}
use maizono_os.Base.Checked.{word_limit}
use maizono_os.Boot.Image.{ProgramHeader, Memory, copy_load_segment}
use maizono_os.Boot.Copied.{
  content, covers, is_copyable, segment_memory, segment_memory_lem, copy_segment_lem,
}

abbrev or_later : Option ℕ → Option ℕ → Option ℕ
or_later (some later) here = some later
or_later none here = here

abbrev get_or : ℕ → Option ℕ → ℕ
get_or default none = default
get_or default (some b) = b

module _ (pt_load : ℕ) where
  abbrev loads : ProgramHeader → Bool
  loads h = h.p_type == pt_load

  -- The byte that the last loaded segment over an address has there.
  pub image_byte : List ℕ → List ProgramHeader → ℕ → Option ℕ
  image_byte src [] a = none
  image_byte src (h ∷ rest) a =
      or_later (image_byte src rest a)
        (if loads h && covers h a then some (content src h a) else none)

  -- The memory with the image of the kernel: the last segment over an address wins.
  abbrev pub image : List ℕ → List ProgramHeader → Memory → Memory
  image src headers m a = get_or (m a) (image_byte src headers a)

  abbrev pub all_copyable : List ℕ → List ProgramHeader → Bool
  all_copyable src [] = true
  all_copyable src (h ∷ rest) =
      (if loads h then is_copyable src h else true) && all_copyable src rest

  abbrev pub memory_after : List ℕ → List ProgramHeader → Memory → Memory
  memory_after src [] m = m
  memory_after src (h ∷ rest) m =
      memory_after src rest (if loads h then segment_memory src h m else m)

  pub copy_load_segment_lem :
      (src : List ℕ) (headers : List ProgramHeader) (m : Memory)
      → length src < word_limit
      → copy_load_segment pt_load src headers m
        ≡ (if all_copyable src headers then some (memory_after src headers m) else none)
  unfolding copy_load_segment
  copy_load_segment_lem src [] m small = refl
  copy_load_segment_lem src (h ∷ rest) m small = elim (Bool-cases (loads h)) [
    | inl load ↦ elim (Bool-cases (is_copyable src h)) [
      | inl ok ↦ rw load (
          rw (copy_segment_lem src h m small)
            (rw ok (copy_load_segment_lem src rest (segment_memory src h m) small)))
      | inr bad ↦ rw load (rw (copy_segment_lem src h m small) (rw bad refl))
    ]
    | inr other ↦ rw other (copy_load_segment_lem src rest m small)
  ]

  get_or-or_later :
      (d b : ℕ) (later : Option ℕ) (c : Bool)
      → get_or (if c then b else d) later ≡ get_or d (or_later later (if c then some b else none))
  get_or-or_later d b (some later) c = refl
  get_or-or_later d b none true = refl
  get_or-or_later d b none false = refl

  pub memory_after_lem :
      (src : List ℕ) (headers : List ProgramHeader) (m : Memory) (a : ℕ)
      → all_copyable src headers ≡ true
      → memory_after src headers m a ≡ image src headers m a
  unfolding image_byte
  memory_after_lem src [] m a ok = refl
  memory_after_lem src (h ∷ rest) m a ok = elim (Bool-cases (loads h)) [
    | inl load ↦
        (rw load (
          memory_after_lem src rest (segment_memory src h m) a (ground arith)
          ∙ ap (λ d. get_or d (image_byte src rest a)) (segment_memory_lem src h m a (ground arith))
          ∙ get_or-or_later (m a) (content src h a) (image_byte src rest a) (covers h a)))
    | inr other ↦ rw other (
        memory_after_lem src rest m a (ground arith)
        ∙ get_or-or_later (m a) (content src h a) (image_byte src rest a) false)
  ]
