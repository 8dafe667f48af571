-- ===== src/Acpi/Search.antt =====
-- When `init` succeeds, and what it stores: the last valid FADT and MADT, and the first entries.
use maizono_os.Base.{
  List, [], ◌∷◌, ◌*◌, ℕ, zero, suc, ◌+◌, ◌-◌, ◌/◌, ◌≡◌, ◌≢◌, refl, ◌∙◌, Bool, true, false, ◌&&◌,
  Option, none, some, arith, leb, ◌==◌, if◌then◌else◌, ap,
}
use maizono_os.Base.Checked.{◌>>=◌, sub_usize}
use maizono_os.Acpi.{
  MadtEntry, IoApicEntry, LocalApicEntry, io_apic, local_apic, other_entry, find_map, as_io_apic,
  as_local_apic, ApicInfo, Tables, Signature, xsdt, fadt, madt, AcpiError, Statics, is_ok, get,
  find_tables, rsdp_verdict, xsdt_verdict, rsdp_incorrect_signature, sdt_invalid_signature,
  from_madt, non_null, check, rsdp_is_valid, xsdt_is_valid, count, init,
}

-- The statics before `init`.
abbrev pub fresh : Statics
fresh = record { fadt = none; apic_info = none }

abbrev or_later : Option ℕ → Option ℕ → Option ℕ
or_later (some later) here = some later
or_later none here = here

abbrev pointer : ℕ → Option ℕ → ℕ
pointer ptr none = ptr
pointer ptr (some entry) = entry

rsdp_guard :
    (o : Option AcpiError) (supported : Bool) (k : Option Statics)
    → (rsdp_verdict o supported >>= λ valid. check valid >>= λ _. k)
      ≡ (if is_ok o && supported then k else none)
rsdp_guard none true k = refl
rsdp_guard none false k = refl
rsdp_guard (some rsdp_incorrect_signature) supported k = refl
rsdp_guard (some e) supported k = refl

xsdt_guard :
    (o : Option AcpiError) (k : Option Statics)
    → (xsdt_verdict o >>= λ valid. check valid >>= λ _. k) ≡ (if is_ok o then k else none)
xsdt_guard none k = refl
xsdt_guard (some sdt_invalid_signature) k = refl
xsdt_guard (some e) k = refl

length_guard :
    (bytes header : ℕ) (k : ℕ → Option Statics)
    → ((sub_usize bytes header >>= λ rest. some (rest / 8)) >>= k)
      ≡ (if leb header bytes then k ((bytes - header) / 8) else none)
unfolding sub_usize
length_guard bytes header k = ground arith

nested_guards :
    (a b c : Bool) (k : Option Statics)
    → (if a then (if b then (if c then k else none) else none) else none)
      ≡ (if a && (b && c) then k else none)
nested_guards true true c k = refl
nested_guards true false c k = refl
nested_guards false b c k = refl

-- The first entry of a kind in a MADT.
unfoldable pub first_io_apic : List MadtEntry → Option IoApicEntry
first_io_apic [] = none
first_io_apic (io_apic o ∷ rest) = some o
first_io_apic (local_apic o ∷ rest) = first_io_apic rest
first_io_apic (other_entry ∷ rest) = first_io_apic rest

unfoldable pub first_local_apic : List MadtEntry → Option LocalApicEntry
first_local_apic [] = none
first_local_apic (local_apic o ∷ rest) = some o
first_local_apic (io_apic o ∷ rest) = first_local_apic rest
first_local_apic (other_entry ∷ rest) = first_local_apic rest

find_map-io_apic : (l : List MadtEntry) → find_map as_io_apic l ≡ first_io_apic l
unfolding find_map first_io_apic
find_map-io_apic [] = refl
find_map-io_apic (io_apic o ∷ rest) = refl
find_map-io_apic (local_apic o ∷ rest) = find_map-io_apic rest
find_map-io_apic (other_entry ∷ rest) = find_map-io_apic rest

find_map-local_apic : (l : List MadtEntry) → find_map as_local_apic l ≡ first_local_apic l
unfolding find_map first_local_apic
find_map-local_apic [] = refl
find_map-local_apic (io_apic o ∷ rest) = find_map-local_apic rest
find_map-local_apic (local_apic o ∷ rest) = refl
find_map-local_apic (other_entry ∷ rest) = find_map-local_apic rest

module _ (t : Tables) where
  -- Entry `i` of the XSDT: the addresses follow its header.
  abbrev pub listed : ℕ → ℕ → ℕ
  listed xsdt_ptr i = t.load_u64 (xsdt_ptr + t.header_size + 8 * i)

  abbrev statics_of : ℕ → ApicInfo → Statics
  statics_of fadt_ptr info = record { fadt = some fadt_ptr; apic_info = some info }

  abbrev info_of : ℕ → IoApicEntry → LocalApicEntry → ApicInfo
  info_of base io local = record { local_apic_base = base; local_apic = local; io_apic = io }

  both_entries :
      (base fadt_ptr : ℕ) (io : Option IoApicEntry) (local : Option LocalApicEntry)
      → ((io >>= λ i. local >>= λ l. some (info_of base i l)) >>= λ info.
          some (statics_of fadt_ptr info))
        ≡ (io >>= λ i. local >>= λ l. some (statics_of fadt_ptr (info_of base i l)))
  both_entries base fadt_ptr none local = refl
  both_entries base fadt_ptr (some i) none = refl
  both_entries base fadt_ptr (some i) (some l) = refl

  apics-found :
      (madt_ptr fadt_ptr : ℕ)
      → (from_madt t madt_ptr >>= λ info. some (statics_of fadt_ptr info)) ≡ (
          first_io_apic (t.entries madt_ptr) >>= λ i. first_local_apic (t.entries madt_ptr) >>= λ l.
          some (statics_of fadt_ptr (info_of (t.local_apic_address madt_ptr) i l)))
  unfolding from_madt
  apics-found madt_ptr fadt_ptr =
      rw (find_map-io_apic (t.entries madt_ptr), find_map-local_apic (t.entries madt_ptr))
        (both_entries (t.local_apic_address madt_ptr) fadt_ptr (first_io_apic (t.entries madt_ptr))
          (first_local_apic (t.entries madt_ptr)))

  each_found :
      (f m : Option ℕ)
      → (f >>= λ fadt_ptr.
          m >>= λ madt_ptr. from_madt t madt_ptr >>= λ info. some (statics_of fadt_ptr info))
        ≡ (f >>= λ fadt_ptr. m >>= λ madt_ptr. first_io_apic (t.entries madt_ptr) >>= λ i.
            first_local_apic (t.entries madt_ptr) >>= λ l.
            some (statics_of fadt_ptr (info_of (t.local_apic_address madt_ptr) i l)))
  each_found none m = refl
  each_found (some f) none = refl
  each_found (some f) (some m) = apics-found m f

  -- The last table with a valid signature among the `left` tables from number `i` on.
  unfoldable pub last_valid : Signature → ℕ → ℕ → ℕ → Option ℕ
  last_valid signature xsdt_ptr i zero = none
  last_valid signature xsdt_ptr i (suc left) =
      or_later (last_valid signature xsdt_ptr (i + 1) left) (
        if is_ok (t.validate (listed xsdt_ptr i) signature) then some (listed xsdt_ptr i) else none)

  pointer-latest :
      (later here : Option ℕ) (b : Bool) (entry ptr : ℕ)
      → pointer (if b then entry else ptr) later
        ≡ pointer ptr (or_later later (if b then some entry else none))
  pointer-latest (some e) here b entry ptr = refl
  pointer-latest none here true entry ptr = refl
  pointer-latest none here false entry ptr = refl

  find_tables_lem :
      (xsdt_ptr i left fadt_ptr madt_ptr : ℕ)
      → find_tables t xsdt_ptr i left fadt_ptr madt_ptr ≡ (
        pointer fadt_ptr (last_valid fadt xsdt_ptr i left),
        pointer madt_ptr (last_valid madt xsdt_ptr i left),
      )
  unfolding find_tables last_valid get
  find_tables_lem xsdt_ptr i zero fadt_ptr madt_ptr = refl
  find_tables_lem xsdt_ptr i (suc left) fadt_ptr madt_ptr =
      let entry = get t xsdt_ptr i in
      rw
        (
          ← pointer-latest (last_valid fadt xsdt_ptr (i + 1) left) none
              (is_ok (t.validate entry fadt)) entry fadt_ptr,
          ← pointer-latest (last_valid madt xsdt_ptr (i + 1) left) none
              (is_ok (t.validate entry madt)) entry madt_ptr,
        )
        (find_tables_lem xsdt_ptr (i + 1) left _ _)

  -- There is no table at the null address.
  abbrev pub NotAtNull : Type 0
  NotAtNull = (signature : Signature) → is_ok (t.validate 0 signature) ≡ false

  last_valid-ne_zero :
      NotAtNull
      → (signature : Signature) (xsdt_ptr i left : ℕ)
      → last_valid signature xsdt_ptr i left ≢ some 0
  unfolding last_valid
  last_valid-ne_zero null signature xsdt_ptr i zero h = cc
  last_valid-ne_zero null signature xsdt_ptr i (suc left) h =
      ground (arith, null signature, last_valid-ne_zero null signature xsdt_ptr (i + 1) left)

  non_null-pointer : (o : Option ℕ) → o ≢ some 0 → non_null (pointer 0 o) ≡ o
  non_null-pointer none h = refl
  non_null-pointer (some zero) h = absurd (h refl)
  non_null-pointer (some (suc n)) h = ground arith

  -- The root tables pass the checks.
  abbrev pub passes : ℕ → Bool
  passes rsdp =
      (is_ok (t.rsdp_validate rsdp) && t.revision rsdp == 2)
      && (is_ok (t.validate (t.xsdt_address rsdp) xsdt)
          && leb t.header_size (t.header_length (t.xsdt_address rsdp)))

  -- The last valid FADT and MADT of a list of `n` tables, the address of the local APICs in that MADT,
  -- and the first entries of the two kinds in it.
  pub found_in : ℕ → ℕ → Option Statics
  unfolding first_io_apic first_local_apic
  found_in p n = last_valid fadt p 0 n >>= λ fadt_ptr. last_valid madt p 0 n >>= λ madt_ptr.
      first_io_apic (t.entries madt_ptr) >>= λ io.
      first_local_apic (t.entries madt_ptr) >>= λ local. some (record {
        fadt = some fadt_ptr;
        apic_info = some (record {
          local_apic_base = t.local_apic_address madt_ptr;
          local_apic = local;
          io_apic = io;
        });
      })

  -- What `init` is for.
  unfoldable pub found : ℕ → Option Statics
  unfolding found_in
  found rsdp = let p = t.xsdt_address rsdp in found_in p ((t.header_length p - t.header_size) / 8)

  loop-found :
      NotAtNull
      → (p n : ℕ)
      → (non_null (find_tables t p 0 n 0 0).0 >>= λ fadt_ptr.
          non_null (find_tables t p 0 n 0 0).1 >>= λ madt_ptr. from_madt t madt_ptr >>= λ info.
          some (record { fadt = some fadt_ptr; apic_info = some info }))
        ≡ found_in p n
  unfolding found_in
  loop-found null p n =
      rw
        (
          find_tables_lem p 0 n 0 0,
          non_null-pointer (last_valid fadt p 0 n) (last_valid-ne_zero null fadt p 0 n),
          non_null-pointer (last_valid madt p 0 n) (last_valid-ne_zero null madt p 0 n),
        )
        (each_found (last_valid fadt p 0 n) (last_valid madt p 0 n))

  -- If no table lies at the null address, `init` on fresh statics is: a panic unless the root tables
  -- pass the checks; then the last valid FADT of the list, and of its last valid MADT the address of the
  -- local APICs, the first I/O APIC and the first local APIC, are stored; and a panic if one of the
  -- two tables or of the two entries is missing.
  pub init_lem :
      NotAtNull → (rsdp : ℕ) → init t rsdp fresh ≡ (if passes rsdp then found rsdp else none)
  unfolding init found count rsdp_is_valid xsdt_is_valid
  init_lem null rsdp =
      let p = t.xsdt_address rsdp in
      let n = (t.header_length p - t.header_size) / 8 in
      let a = is_ok (t.rsdp_validate rsdp) && t.revision rsdp == 2 in
      let b = is_ok (t.validate p xsdt) in
      let c = leb t.header_size (t.header_length p) in
      rsdp_guard (t.rsdp_validate rsdp) (t.revision rsdp == 2) _
      ∙ ap (λ k. if a then k else none)
          (xsdt_guard (t.validate p xsdt) _
            ∙ ap (λ k. if b then k else none)
                (length_guard (t.header_length p) t.header_size _
                  ∙ ap (λ k. if c then k else none) (loop-found null p n)))
      ∙ nested_guards a b c (found_in p n)
