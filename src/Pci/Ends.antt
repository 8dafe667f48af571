-- ===== src/Pci/Ends.antt =====
-- The scan of the buses ends: with an array of devices, or with the panic of a full array.
use maizono_os.Base.{
  ℕ, zero, suc, ◌+◌, ◌≤◌, ◌<◌, ◌≡◌, refl, ◌∙◌, ap, Bool, true, false, ◌⊎◌, inl, inr, none, some, [],
  ◌∷◌, ◌++◌, arith, length, length-append,
}
use native.Mathlib.Decide.{dec_lt}
use maizono_os.Pci.{
  Device, DeviceArray, Outcome, panicked, scanned, after, pushed, add_device, scan_function,
  scan_functions, scan_device, scan_devices, scan_bus, scan_host_bridges, scan_all_bus, init,
  read_header_type, is_single_function_device,
}

-- What the `arrayvec` crate documents: `push` appends an element, and panics on a full vector.
pub record IsArrayVec (array : DeviceArray) : Type 0 where
  pub starts_empty : array.elements array.new_const ≡ []
  pub push_room :
      (d : Device) (v : array.Array)
      → length (array.elements v) < 32
      → (w : array.Array) × (array.push d v ≡ some w)
        × (array.elements w ≡ array.elements v ++ (d ∷ []))
  pub push_full :
      (d : Device) (v : array.Array) → 32 ≤ length (array.elements v) → array.push d v ≡ none

module _ (config : ℕ → ℕ) (array : DeviceArray) (laws : IsArrayVec array) where
  open array use {Array}

  abbrev count : Array → ℕ
  count v = length (array.elements v)

  -- A panic, or a normal return with at least `n` devices and at most 32.
  abbrev Ends : ℕ → Outcome Array → Type 0
  Ends n o = (o ≡ panicked) ⊎ ((w : Array) × (o ≡ scanned w) × (n ≤ count w) × (count w ≤ 32))

  abbrev Covers : ℕ → (Array → Outcome Array) → Type 0
  Covers n f = (v : Array) → n ≤ count v → count v ≤ 32 → Ends n (f v)

  scanned-Ends : (n : ℕ) → Covers n (λ v. scanned v)
  scanned-Ends n v h k = inr (v, refl, h, k)

  after-Ends :
      (n : ℕ) (o : Outcome Array) (f : Array → Outcome Array)
      → Ends n o
      → Covers n f
      → Ends n (after o f)
  after-Ends n o f (inl e) rest = inl (rw e refl)
  after-Ends n o f (inr (w, e, h, k)) rest = rw e (rest w h k)

  -- The two branches of a test of the scan.
  either-Ends :
      (n : ℕ) (b : Bool) (o p : Outcome Array)
      → Ends n o
      → Ends n p
      → Ends n (elim b [ true ↦ o | false ↦ p ])
  either-Ends n true o p h k = h
  either-Ends n false o p h k = k

  Ends-suc : (n : ℕ) (o : Outcome Array) → Ends (n + 1) o → Ends n o
  Ends-suc n o (inl e) = inl e
  Ends-suc n o (inr (w, e, h, k)) = inr (w, e, omega arith, k)

  add_device-Ends :
      (n : ℕ) (d : Device) (v : Array)
      → n ≤ count v
      → count v ≤ 32
      → Ends (n + 1) (add_device config array d v)
  unfolding add_device
  add_device-Ends n d v h k = elim (dec_lt (count v) 32) [
    | yes room ↦
        let (w, e, same) = laws.push_room d v room in
        let more : count w ≡ count v + 1 =
          ap length same ∙ length-append (array.elements v) (d ∷ []) in
        inr (w, ap (pushed config array) e, omega arith, omega arith)
    | no full ↦ inl (ap (pushed config array) (laws.push_full d v (omega arith)))
  ]

  module _ (scan_next : ℕ → Array → Outcome Array) (n : ℕ)
      (nested : (bus : ℕ) → Covers (n + 1) (scan_next bus)) where
    scan_function-Ends :
        (bus device func : ℕ) → Covers n (scan_function config array scan_next bus device func)
    unfolding scan_function
    scan_function-Ends bus device func v h k = Ends-suc n _ (
        after-Ends (n + 1) _ _ (add_device-Ends n _ v h k)
          (λ w p q. either-Ends (n + 1) _ _ _ (nested _ w p q) (scanned-Ends (n + 1) w p q)))

    scan_functions-Ends :
        (bus device func left : ℕ)
        → Covers n (scan_functions config array scan_next bus device func left)
    unfolding scan_functions
    scan_functions-Ends bus device func zero v h k = scanned-Ends n v h k
    scan_functions-Ends bus device func (suc left) v h k =
        after-Ends n _ _
          (either-Ends n _ _ _ (scanned-Ends n v h k) (scan_function-Ends bus device func v h k))
          (scan_functions-Ends bus device (func + 1) left)

    scan_device-Ends : (bus device : ℕ) → Covers n (scan_device config array scan_next bus device)
    unfolding scan_device
    scan_device-Ends bus device v h k =
        after-Ends n _ _ (scan_function-Ends bus device 0 v h k) (λ w p q.
          either-Ends n _ _ _ (scanned-Ends n w p q) (scan_functions-Ends bus device 1 7 w p q))

    scan_devices-Ends :
        (bus device left : ℕ) → Covers n (scan_devices config array scan_next bus device left)
    unfolding scan_devices
    scan_devices-Ends bus device zero v h k = scanned-Ends n v h k
    scan_devices-Ends bus device (suc left) v h k =
        after-Ends n _ _
          (either-Ends n _ _ _ (scanned-Ends n v h k) (scan_device-Ends bus device v h k))
          (scan_devices-Ends bus (device + 1) left)

  scan_bus-Ends : (fuel n bus : ℕ) → 33 ≤ n + fuel → Covers n (scan_bus config array fuel bus)
  unfolding scan_bus
  scan_bus-Ends zero n bus enough v h k = absurd (omega arith)
  scan_bus-Ends (suc fuel) n bus enough v h k =
      scan_devices-Ends (scan_bus config array fuel) n
        (λ b. scan_bus-Ends fuel (n + 1) b (omega arith)) bus 0 32 v h k

  scan_host_bridges-Ends : (func left : ℕ) → Covers 0 (scan_host_bridges config array 33 func left)
  unfolding scan_host_bridges
  scan_host_bridges-Ends func zero v h k = scanned-Ends 0 v h k
  scan_host_bridges-Ends func (suc left) v h k =
      after-Ends 0 _ _
        (either-Ends 0 _ _ _ (scanned-Ends 0 v h k) (scan_bus-Ends 33 0 func (omega arith) v h k))
        (scan_host_bridges-Ends (func + 1) left)

  -- With a vector that behaves as the `arrayvec` crate documents, `init` on the new array ends for
  -- every content of the configuration space, bridges that point back at their own bus included: it
  -- returns with at most 32 devices, or panics. It never runs out of the fuel.
  pub init-Ends :
      (init config array array.new_const ≡ panicked)
      ⊎ ((w : Array) × (init config array array.new_const ≡ scanned w)
          × (length (array.elements w) ≤ 32))
  unfolding init scan_all_bus
  init-Ends =
      let empty : count array.new_const ≤ 32 = rw laws.starts_empty (omega arith) in
      let e =
        either-Ends 0 (is_single_function_device (read_header_type config 0 0 0)) _ _
          (scan_bus-Ends 33 0 0 (omega arith) array.new_const (omega arith) empty)
          (scan_host_bridges-Ends 0 8 array.new_const (omega arith) empty) in
      elim e [ inl p ↦ inl p | inr (w, r, h, k) ↦ inr (w, r, k) ]
