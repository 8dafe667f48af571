-- ===== src/PhysMem/Init.antt =====
-- `init` marks exactly the frames that the memory map does not offer.
use maizono_os.Base.{
  ℕ, ◌+◌, ◌-◌, ◌*◌, ◌/◌, ◌%◌, ◌≤◌, ◌<◌, ◌≡◌, refl, Bool, true, false, not, ◌&&◌, ◌||◌, Option, some,
  List, [], ◌∷◌, arith, ltb, inl, inr, Bool-cases,
}
use maizono_os.Base.Checked.{mul_usize_fits, add_usize_fits}
use maizono_os.PhysMem.{
  BitmapMemoryManager, frame_count, MemoryTypes, Descriptor, is_available, mark_gap, init_entry,
  init_entries, init, new, set_memory_range,
}
use maizono_os.PhysMem.Bitmap.{allocated, AreWords}
use maizono_os.Word.Bit.{bit_at, bit_at-zero}
use maizono_os.PhysMem.Range.{in_range, IsWritten, mark_allocated-IsWritten}

-- The descriptors are page-aligned, in order from frame `b` on, do not overlap, and end below the
-- frame limit.
abbrev pub IsMap : ℕ → List Descriptor → Type 0
IsMap b [] = b ≤ frame_count
IsMap b (d ∷ rest) =
    (d.phys_start % 4096 ≡ 0)
    × (b ≤ d.phys_start / 4096)
    × IsMap (d.phys_start / 4096 + d.page_count) rest

-- The frame that follows the last descriptor.
abbrev pub map_end : ℕ → List Descriptor → ℕ
map_end b [] = b
map_end b (d ∷ rest) = map_end (d.phys_start / 4096 + d.page_count) rest

IsMap-end_le : (b : ℕ) (map : List Descriptor) → IsMap b map → b ≤ frame_count
IsMap-end_le b [] h = h
IsMap-end_le b (d ∷ rest) h =
    omega (arith, IsMap-end_le (d.phys_start / 4096 + d.page_count) rest h.2)

module _ (types : MemoryTypes) where
  abbrev offers : Descriptor → ℕ → Bool
  offers d id = is_available types d.ty && in_range (d.phys_start / 4096) d.page_count id

  -- Frame `id` belongs to an available descriptor of the map.
  abbrev pub offered : List Descriptor → ℕ → Bool
  offered [] id = false
  offered (d ∷ rest) id = offers d id || offered rest id

-- What the loop of `init` has done when the map is read up to frame `b`: `offer` are the frames that
-- were available, and the last of those ends at byte `last`.
record Progress (offer : ℕ → Bool) (b last : ℕ) (m : BitmapMemoryManager) : Type 0 where
  words : AreWords m
  aligned : last % 4096 ≡ 0
  behind : last / 4096 ≤ b
  marks : (id : ℕ) → allocated m id ≡ (ltb id b && not (offer id))
  none_after : (id : ℕ) → last / 4096 ≤ id → offer id ≡ false

-- Both branches of the gap test mark the frames from `last` to `start`.
mark_gap-IsWritten :
    (last start : ℕ) (m : BitmapMemoryManager)
    → last % 4096 ≡ 0
    → start % 4096 ≡ 0
    → last ≤ start
    → start / 4096 ≤ frame_count
    → AreWords m
    → IsWritten true (last / 4096) (start / 4096 - last / 4096) m (mark_gap last start m)
unfolding mark_gap
mark_gap-IsWritten last start m p q h k w = elim (Bool-cases (ltb last start)) [
  | inl gap ↦ rw gap (
      let e : (start - last) / 4096 ≡ start / 4096 - last / 4096 = omega arith in
      rw e (mark_allocated-IsWritten m (last / 4096) (start / 4096 - last / 4096) (omega arith) w))
  | inr none_left ↦ rw none_left (record {
    out = m;
    returns = refl;
    words = w;
    same_begin = refl;
    same_end = refl;
    marks = λ j. ground arith;
  })
]

module _ (types : MemoryTypes) where
  open types use {boot_services_code, boot_services_data, conventional}

  -- One round returns, and extends what is read by the descriptor.
  record Read (offer : ℕ → Bool) (d : Descriptor) (result : Option (ℕ × BitmapMemoryManager))
      : Type 0 where
    last : ℕ
    out : BitmapMemoryManager
    returns : result ≡ some (last, out)
    progress :
        Progress (λ id. offer id || offers types d id) (d.phys_start / 4096 + d.page_count) last out

  init_entry-Read :
      (offer : ℕ → Bool) (b last : ℕ) (m : BitmapMemoryManager) (d : Descriptor)
      → Progress offer b last m
      → d.phys_start % 4096 ≡ 0
      → b ≤ d.phys_start / 4096
      → d.phys_start / 4096 + d.page_count ≤ frame_count
      → Read offer d (init_entry types d last m)
  unfolding init_entry
  init_entry-Read offer b last m d p al le fits = elim (Bool-cases (is_available types d.ty)) [
    | inl free ↦ record {
      last = d.phys_start + d.page_count * 4096;
      out = gap.out;
      returns = rw (
        mul_usize_fits d.page_count 4096 (omega arith),
        add_usize_fits d.phys_start (d.page_count * 4096) (omega arith),
        gap.returns,
        free,
      );
      progress = record {
        words = gap.words;
        aligned = omega arith;
        behind = omega arith;
        marks = λ id. ground (arith, gap.marks id, p.marks id, p.none_after id);
        none_after = λ id h. ground (arith, p.none_after id);
      };
    }
    | inr used ↦
        let w =
          mark_allocated-IsWritten gap.out (d.phys_start / 4096) d.page_count (omega arith)
            gap.words in
        record {
          last = last;
          out = w.out;
          returns = rw (
            mul_usize_fits d.page_count 4096 (omega arith),
            add_usize_fits d.phys_start (d.page_count * 4096) (omega arith),
            gap.returns,
            used,
            pages,
            w.returns,
          );
          progress = record {
            words = w.words;
            aligned = p.aligned;
            behind = omega (arith, p.behind);
            marks = λ id. ground (arith, w.marks id, gap.marks id, p.marks id, p.none_after id);
            none_after = λ id h. ground (arith, p.none_after id);
          };
        }
  ]
    where
      pages : d.page_count * 4096 / 4096 ≡ d.page_count
      pages = omega arith

      gap :
          IsWritten true
            (last / 4096)
            (d.phys_start / 4096 - last / 4096)
            m
            (mark_gap last d.phys_start m)
      gap =
          mark_gap-IsWritten last d.phys_start m p.aligned al (omega (arith, p.behind, p.aligned))
            (omega arith) p.words

  -- The whole loop returns, and reads the whole map.
  record ReadAll (offer : ℕ → Bool) (b : ℕ) (map : List Descriptor)
      (result : Option (ℕ × BitmapMemoryManager)) : Type 0 where
    last : ℕ
    out : BitmapMemoryManager
    returns : result ≡ some (last, out)
    progress : Progress (λ id. offer id || offered types map id) (map_end b map) last out

  init_entries-ReadAll :
      (offer : ℕ → Bool) (b last : ℕ) (m : BitmapMemoryManager) (map : List Descriptor)
      → Progress offer b last m
      → IsMap b map
      → ReadAll offer b map (init_entries types map last m)
  unfolding init_entries
  init_entries-ReadAll offer b last m [] p h = record {
    last = last;
    out = m;
    returns = refl;
    progress = record {
      words = p.words;
      aligned = p.aligned;
      behind = p.behind;
      marks = λ id. ground (arith, p.marks id);
      none_after = λ id k. ground (arith, p.none_after id);
    };
  }
  init_entries-ReadAll offer b last m (d ∷ rest) p h =
      let first =
        init_entry-Read offer b last m d p h.0 h.1
          (IsMap-end_le (d.phys_start / 4096 + d.page_count) rest h.2) in
      let all =
        init_entries-ReadAll (λ id. offer id || offers types d id)
          (d.phys_start / 4096 + d.page_count) first.last first.out rest first.progress h.2 in
      record {
        last = all.last;
        out = all.out;
        returns = rw (first.returns, all.returns);
        progress = record {
          words = all.progress.words;
          aligned = all.progress.aligned;
          behind = all.progress.behind;
          marks = λ id. ground (arith, all.progress.marks id);
          none_after = λ id k. ground (arith, all.progress.none_after id);
        };
      }

new-Progress : Progress (λ id. false) 0 0 new
unfolding new allocated bit_at
new-Progress = record {
  words = λ line. omega arith;
  aligned = refl;
  behind = omega arith;
  marks = λ id. ground (arith, bit_at-zero (id % 64));
  none_after = λ id h. refl;
}

-- `result` is a normal return of `init` for this map.
pub record IsReady (types : MemoryTypes) (map : List Descriptor)
    (result : Option BitmapMemoryManager) : Type 0 where
  pub out : BitmapMemoryManager
  pub returns : result ≡ some out
  pub words : AreWords out
  pub begins : out.begin ≡ 1
  pub below_limit : out.end ≤ frame_count
  -- In the managed range the unmarked frames are those that the map offers.
  pub marks : (id : ℕ) → id < out.end → allocated out id ≡ not (offered types map id)
  -- No frame that the map offers is past the managed range.
  pub complete : (id : ℕ) → out.end ≤ id → offered types map id ≡ false

IsMap-map_end : (b : ℕ) (map : List Descriptor) → IsMap b map → map_end b map ≤ frame_count
IsMap-map_end b [] h = h
IsMap-map_end b (d ∷ rest) h = IsMap-map_end (d.phys_start / 4096 + d.page_count) rest h.2

-- On a memory map in order, page-aligned and below the frame limit, `init` of a new manager returns.
-- The managed range starts at frame 1 and ends where the last available descriptor does; in it
-- exactly the frames of available descriptors are unmarked, and no such frame is past it.
pub init-IsReady :
    (types : MemoryTypes) (map : List Descriptor)
    → IsMap 0 map
    → IsReady types map (init types new map)
unfolding init set_memory_range allocated
init-IsReady types map h =
    let all = init_entries-ReadAll types (λ id. false) 0 0 new map new-Progress h in
    record {
      out = record all.out { begin = 1; end = all.last / 4096 };
      returns = rw all.returns;
      words = all.progress.words;
      begins = refl;
      below_limit = omega (arith, all.progress.behind, IsMap-map_end 0 map h);
      marks = λ id k. ground (arith, all.progress.marks id, all.progress.behind);
      complete = all.progress.none_after;
    }
