-- ===== src/Boot/File.antt =====
-- What a return of `load_elf` says of the file and of the memory.
use maizono_os.Base.{
  ℕ, ◌<◌, ◌≡◌, refl, sym, ap, ◌∙◌, true, Option, none, some, List, length, Bool-cases, Option-cases,
  ◌⊎◌, inl, inr,
}
use maizono_os.Base.Checked.{word_limit}
use maizono_os.Base.Exec.{done, fail}
use maizono_os.Boot.Image.{Memory}
use maizono_os.Boot.Firmware.{Firmware, Elf}
use maizono_os.Boot.Loader.{reached, World, parse_error, allocate_error, Kernel, load_elf}
use maizono_os.Boot.Overlay.{image, all_copyable}
use maizono_os.Boot.Loaded.{
  is_placeable, pages, range-eq, pages-eq, loaded_kernel, load_elf-IsLoaded, load_elf-panics,
}

module _ (fw : Firmware) where
  -- The kernel is the one that `src` parses to, and its segments are in the memory.
  pub record HasLoaded (src : List ℕ) (before after : Memory) (k : Kernel) : Type 0 where
    pub elf : Elf
    pub parses : fw.parse src ≡ some elf
    pub copyable : all_copyable fw.pt_load src elf.program_headers ≡ true
    pub entry : k ≡ loaded_kernel fw elf
    pub loaded : (a : ℕ) → after a ≡ image fw.pt_load src elf.program_headers before a

  load_elf-unparsed :
      (src : List ℕ) (w : World fw) → fw.parse src ≡ none → load_elf fw src w ≡ fail parse_error w
  unfolding load_elf
  load_elf-unparsed src w e = rw e refl

  load_elf-refused :
      (src : List ℕ) (elf : Elf) (w : World fw) (s : fw.State)
      → fw.parse src ≡ some elf
      → is_placeable fw elf ≡ true
      → fw.allocate_pages (pages fw elf) w.firmware ≡ (none, s)
      → load_elf fw src w ≡ fail allocate_error (reached fw w s)
  unfolding load_elf
  load_elf-refused src elf w s parses placeable refused =
      rw parses (rw (range-eq fw elf placeable) (rw (pages-eq fw elf placeable) (rw refused refl)))

  answer-cases :
      {A : Type 0} (p : Option A × fw.State) → (p ≡ (none, p.1)) ⊎ ((a : A) × (p ≡ (some a, p.1)))
  answer-cases (none, s) = inl refl
  answer-cases (some a, s) = inr (a, refl)

  pub load_elf-HasLoaded :
      (src : List ℕ) (w out : World fw) (k : Kernel)
      → length src < word_limit
      → load_elf fw src w ≡ done k out
      → HasLoaded src (fw.effect w.firmware out.firmware w.memory) out.memory k
  load_elf-HasLoaded src w out k small returns = elim (Option-cases (fw.parse src)) [
    | inl unparsed ↦ absurd (cc (sym returns ∙ load_elf-unparsed src w unparsed))
    | inr (elf, parses) ↦ elim (Bool-cases (is_placeable fw elf)) [
      | inl placeable ↦ elim (answer-cases (fw.allocate_pages (pages fw elf) w.firmware)) [
        | inl refused ↦
            absurd (cc (sym returns ∙ load_elf-refused src elf w _ parses placeable refused))
        | inr (unit, allocated) ↦
            elim (Bool-cases (all_copyable fw.pt_load src elf.program_headers)) [
              | inl copyable ↦
                  (let r =
                      load_elf-IsLoaded fw src elf w _ small parses placeable copyable allocated in
                    let e : k ≡ loaded_kernel fw elf = cc (sym returns ∙ r.returns) in
                    let same : out ≡ r.out = cc (sym returns ∙ r.returns) in
                    record {
                      elf = elf;
                      parses = parses;
                      copyable = copyable;
                      entry = e;
                      loaded = λ a.
                          ap (λ u. u.memory a) same
                          ∙ r.loaded a
                          ∙ ap
                              (λ v.
                                image fw.pt_load src elf.program_headers
                                  (fw.effect w.firmware v w.memory) a)
                              (sym (ap (λ u. u.firmware) same ∙ r.same_firmware));
                    })
              | inr bad ↦ absurd (
                  cc (
                    sym returns
                    ∙ load_elf-panics fw src elf w _ small parses
                        (inr (placeable, (allocated, bad)))))
            ]
      ]
      | inr high ↦
          absurd
            (cc (sym returns ∙ load_elf-panics fw src elf w w.firmware small parses (inl high)))
    ]
  ]
