-- ===== src/Pci/Sound.antt =====
-- A scan stores nothing but functions of buses that can be reached.
use mathlib.Core.List.{Memᴰ}
use mathlib.Core.List.Memᴰ
use maizono_os.Base.{
  ℕ, zero, suc, ◌+◌, ◌≤◌, ◌<◌, ◌≡◌, refl, sym, subst, Bool, true, false, ◌↔◌, inl, inr, arith,
}
use maizono_os.Pci.{
  Device, DeviceArray, Outcome, scanned, after, add_device, scan_function, scan_functions,
  scan_device, scan_devices, scan_bus, scan_host_bridges, scan_all_bus, init,
}
use maizono_os.Pci.Ends.{IsArrayVec}
use maizono_os.Pci.Present.{
  device_at, is_bridge, is_absent, is_single, first, other, IsPresent, IsReachable, root, host,
  behind, IsFound,
}
use maizono_os.Pci.Complete.{init-complete}
use maizono_os.Pci.Handled.{after-scanned, add_device-elements}

module _ (config : ℕ → ℕ) (array : DeviceArray) (laws : IsArrayVec array) where
  open array use {Array}

  abbrev AllFound : Array → Type 0
  AllFound v = (d : Device) → Memᴰ d (array.elements v) → IsFound config d

  -- A scan that stores only what it should.
  abbrev IsSound : (Array → Outcome Array) → Type 0
  IsSound scan = (v w : Array) → AllFound v → scan v ≡ scanned w → AllFound w

  return-IsSound : IsSound (λ v. scanned v)
  return-IsSound v w all h = let e : v ≡ w = cc h in subst AllFound e all

  after-IsSound :
      (f g : Array → Outcome Array) → IsSound f → IsSound g → IsSound (λ v. after (f v) g)
  after-IsSound f g sound next v w all h =
      let (u, e, r) = after-scanned (f v) g h in next u w (sound v u all e) r

  either-IsSound :
      (b : Bool) (f g : Array → Outcome Array)
      → (b ≡ true → IsSound f)
      → (b ≡ false → IsSound g)
      → IsSound (λ v. elim b [ true ↦ f v | false ↦ g v ])
  either-IsSound true f g h k = h refl
  either-IsSound false f g h k = k refl

  add_device-IsSound : (d : Device) → IsFound config d → IsSound (add_device config array d)
  add_device-IsSound d found v w all h x m =
      let same = add_device-elements config array laws d v w h in
      elim (Memᴰ.append_cases (array.elements v) (subst (λ l. Memᴰ x l) same m)) [
        | inl before ↦ all x before
        | inr new ↦ subst (IsFound config) (sym (Memᴰ.eq_of_singleton new)) found
      ]

  module _ (scan_next : ℕ → Array → Outcome Array)
      (nested : (bus : ℕ) → IsReachable config bus → IsSound (scan_next bus)) where
    scan_function-IsSound :
        (bus device func : ℕ)
        → IsReachable config bus
        → IsPresent config bus device func
        → IsSound (scan_function config array scan_next bus device func)
    unfolding scan_function
    scan_function-IsSound bus device func reachable present =
        after-IsSound _ _
          (add_device-IsSound (device_at config bus device func) (record {
            bus = bus;
            device = device;
            func = func;
            reachable = reachable;
            present = present;
            same = refl;
          }))
          (either-IsSound (is_bridge config bus device func) _ _
            (λ b. nested _ (behind reachable present b)) (λ b. return-IsSound))

    scan_functions-IsSound :
        (bus device func left : ℕ)
        → IsReachable config bus
        → device < 32
        → is_absent config bus device 0 ≡ false
        → is_single config bus device ≡ false
        → 1 ≤ func
        → func + left ≤ 8
        → IsSound (scan_functions config array scan_next bus device func left)
    unfolding scan_functions
    scan_functions-IsSound bus device func zero reachable slot answers several lo hi =
        return-IsSound
    scan_functions-IsSound bus device func (suc left) reachable slot answers several lo hi =
        after-IsSound _ _
          (either-IsSound (is_absent config bus device func) _ _ (λ b. return-IsSound)
            (λ b. scan_function-IsSound bus device func reachable (record {
              slot = slot;
              answers = answers;
              function = other several lo (omega arith) b;
            })))
          (scan_functions-IsSound bus device (func + 1) left reachable slot answers several
            (omega arith) (omega arith))

    scan_device-IsSound :
        (bus device : ℕ)
        → IsReachable config bus
        → device < 32
        → is_absent config bus device 0 ≡ false
        → IsSound (scan_device config array scan_next bus device)
    unfolding scan_device
    scan_device-IsSound bus device reachable slot answers =
        after-IsSound _ _
          (scan_function-IsSound bus device 0 reachable
            (record { slot = slot; answers = answers; function = first }))
          (either-IsSound (is_single config bus device) _ _ (λ b. return-IsSound)
            (λ b.
              scan_functions-IsSound bus device 1 7 reachable slot answers b (omega arith)
                (omega arith)))

    scan_devices-IsSound :
        (bus device left : ℕ)
        → IsReachable config bus
        → device + left ≤ 32
        → IsSound (scan_devices config array scan_next bus device left)
    unfolding scan_devices
    scan_devices-IsSound bus device zero reachable h = return-IsSound
    scan_devices-IsSound bus device (suc left) reachable h =
        after-IsSound _ _
          (either-IsSound (is_absent config bus device 0) _ _ (λ b. return-IsSound)
            (λ b. scan_device-IsSound bus device reachable (omega arith) b))
          (scan_devices-IsSound bus (device + 1) left reachable (omega arith))

  scan_bus-IsSound :
      (fuel bus : ℕ) → IsReachable config bus → IsSound (scan_bus config array fuel bus)
  unfolding scan_bus
  scan_bus-IsSound zero bus reachable = λ v w all h. absurd (cc)
  scan_bus-IsSound (suc fuel) bus reachable =
      scan_devices-IsSound (scan_bus config array fuel) (scan_bus-IsSound fuel) bus 0 32 reachable
        (omega arith)

  scan_host_bridges-IsSound :
      (fuel func left : ℕ)
      → is_single config 0 0 ≡ false
      → func + left ≤ 8
      → IsSound (scan_host_bridges config array fuel func left)
  unfolding scan_host_bridges
  scan_host_bridges-IsSound fuel func zero several h = return-IsSound
  scan_host_bridges-IsSound fuel func (suc left) several h =
      after-IsSound _ _
        (either-IsSound (is_absent config 0 0 func) _ _ (λ b. return-IsSound)
          (λ b. scan_bus-IsSound fuel func (host several (omega arith) b)))
        (scan_host_bridges-IsSound fuel (func + 1) left several (omega arith))

  init-IsSound : IsSound (init config array)
  unfolding init scan_all_bus
  init-IsSound =
      either-IsSound (is_single config 0 0) _ _ (λ b. scan_bus-IsSound 33 0 (root b))
        (λ b. scan_host_bridges-IsSound 33 0 8 b (omega arith))

  -- With a vector that behaves as the `arrayvec` crate documents, whenever the scan of the new array
  -- returns, the devices that it holds are exactly the functions that are present on the buses that can
  -- be reached from the host bridges, each with what its registers say.
  pub init_iff :
      (w : Array)
      → init config array array.new_const ≡ scanned w
      → (d : Device) → Memᴰ d (array.elements w) ↔ IsFound config d
  init_iff w h d =
      let empty : AllFound array.new_const =
        λ x m. absurd (Memᴰ.not-nil (subst (λ l. Memᴰ x l) laws.starts_empty m)) in
      (
        λ m. init-IsSound array.new_const w empty h d m,
        λ found. init-complete config array laws array.new_const w h d found,
      )
