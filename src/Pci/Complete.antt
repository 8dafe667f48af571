-- ===== src/Pci/Complete.antt =====
-- A scan that returns has stored every function of every bus that can be reached.
use mathlib.Core.List.{Memᴰ}
use maizono_os.Base.{ℕ, zero, suc, ◌+◌, ◌≤◌, ◌<◌, ◌≡◌, subst, Bool, true, false, arith}
use native.Mathlib.Decide.{ℕ_discrete}
use maizono_os.Pci.{Device, DeviceArray, scanned, scan_bus, scan_host_bridges, scan_all_bus, init}
use maizono_os.Pci.Ends.{IsArrayVec}
use maizono_os.Pci.Present.{
  is_absent, is_single, IsPresent, IsReachable, root, host, behind, IsFound,
}
use maizono_os.Pci.Handled.{
  after-scanned, Keeps, trans, IsScanned, IsHandled, IsHandled-later, scan_devices-IsHandled,
}

module _ (config : ℕ → ℕ) (array : DeviceArray) (laws : IsArrayVec array) where
  open array use {Array}

  scan_bus-IsHandled :
      (fuel bus : ℕ) (v w : Array)
      → scan_bus config array fuel bus v ≡ scanned w
      → Keeps config array laws v w
        × ((d f : ℕ) → IsPresent config bus d f → IsHandled config array laws bus d f w)
  unfolding scan_bus
  scan_bus-IsHandled zero bus v w h = absurd (cc)
  scan_bus-IsHandled (suc fuel) bus v w h =
      let grows : (bus : ℕ) (v w : Array)
          → scan_bus config array fuel bus v ≡ scanned w
          → Keeps config array laws v w =
        λ b x y e. (scan_bus-IsHandled fuel b x y e).0 in
      let (kept, handled) = scan_devices-IsHandled config array laws fuel grows bus 0 32 v w h in
      (kept, λ d f p. handled d (omega arith) (omega (arith, p.slot)) p.answers f p.function)

  -- What stands on a scanned bus is handled.
  IsScanned-IsHandled :
      {bus : ℕ} {w : Array}
      → IsScanned config array laws bus w
      → (d f : ℕ) → IsPresent config bus d f
      → IsHandled config array laws bus d f w
  IsScanned-IsHandled s d f p =
      IsHandled-later config array laws s.kept
        ((scan_bus-IsHandled s.fuel _ s.start s.out s.returns).1 d f p)

  IsScanned-later :
      {bus : ℕ} {v w : Array}
      → Keeps config array laws v w
      → IsScanned config array laws bus v
      → IsScanned config array laws bus w
  IsScanned-later k s = record {
    fuel = s.fuel;
    start = s.start;
    out = s.out;
    returns = s.returns;
    kept = trans config array laws s.kept k;
  }

  either-IsScanned :
      (fuel : ℕ) (b : Bool) (bus : ℕ) (v w : Array)
      → elim b [ true ↦ scanned v | false ↦ scan_bus config array fuel bus v ] ≡ scanned w
      → Keeps config array laws v w × (b ≡ false → IsScanned config array laws bus w)
  either-IsScanned fuel true bus v w h =
      let e : v ≡ w = cc h in
      (subst (λ x. Keeps config array laws v x) e (λ d m. m), λ e. absurd (cc e))
  either-IsScanned fuel false bus v w h = (
    (scan_bus-IsHandled fuel bus v w h).0,
    λ e. record { fuel = fuel; start = v; out = w; returns = h; kept = λ d m. m },
  )

  scan_host_bridges-IsScanned :
      (fuel func left : ℕ) (v w : Array)
      → scan_host_bridges config array fuel func left v ≡ scanned w
      → Keeps config array laws v w
        × ((f : ℕ)
            → func ≤ f
            → f < func + left
            → is_absent config 0 0 f ≡ false
            → IsScanned config array laws f w)
  unfolding scan_host_bridges
  scan_host_bridges-IsScanned fuel func zero v w h =
      let e : v ≡ w = cc h in
      (subst (λ x. Keeps config array laws v x) e (λ d m. m), λ f lo hi p. absurd (omega arith))
  scan_host_bridges-IsScanned fuel func (suc left) v w h =
      let (u, e, r) = after-scanned _ _ h in
      let (kept, now) = either-IsScanned fuel (is_absent config 0 0 func) func v u e in
      let (later, rest) = scan_host_bridges-IsScanned fuel (func + 1) left u w r in
      (
        trans config array laws kept later,
        λ f lo hi p. elim (ℕ_discrete func f) [
          | yes same ↦ IsScanned-later later (
              subst (λ x. is_absent config 0 0 x ≡ false → IsScanned config array laws x u) same now
                p)
          | no differs ↦ rest f (omega arith) (omega arith) p
        ],
      )

  roots-IsScanned :
      (b : Bool) (fuel : ℕ) (v w : Array)
      → elim b [
        | true ↦ scan_bus config array fuel 0 v
        | false ↦ scan_host_bridges config array fuel 0 8 v
      ]
        ≡ scanned w
      → (b ≡ true → IsScanned config array laws 0 w)
        × (b ≡ false
            → (f : ℕ) → f < 8
            → is_absent config 0 0 f ≡ false
            → IsScanned config array laws f w)
  roots-IsScanned true fuel v w h = (
    λ e. record { fuel = fuel; start = v; out = w; returns = h; kept = λ d m. m },
    λ e. absurd (cc e),
  )
  roots-IsScanned false fuel v w h = (
    λ e. absurd (cc e),
    λ e f hi p. (scan_host_bridges-IsScanned fuel 0 8 v w h).1 f (omega arith) (omega arith) p,
  )

  reachable-IsScanned :
      (v w : Array)
      → init config array v ≡ scanned w
      → {bus : ℕ} → IsReachable config bus
      → IsScanned config array laws bus w
  unfolding init scan_all_bus
  reachable-IsScanned v w h (root single) =
      (roots-IsScanned (is_single config 0 0) 33 v w h).0 single
  reachable-IsScanned v w h (host several hi p) =
      (roots-IsScanned (is_single config 0 0) 33 v w h).1 several _ hi p
  reachable-IsScanned v w h (behind {bus} {device} {func} r p b) =
      (IsScanned-IsHandled (reachable-IsScanned v w h r) device func p).beyond b

  -- Every function of every bus that can be reached is among the devices of a scan that returns.
  pub init-complete :
      (v w : Array)
      → init config array v ≡ scanned w
      → (d : Device) → IsFound config d
      → Memᴰ d (array.elements w)
  init-complete v w h d found =
      subst (λ x. Memᴰ x (array.elements w)) found.same
        (IsScanned-IsHandled (reachable-IsScanned v w h found.reachable) found.device found.func
          found.present).stored
