-- ===== src/Pci/Handled.antt =====
-- What a scan that returns has done with each function on its way.
use mathlib.Core.List.{Memᴰ}
use mathlib.Core.List.Memᴰ
use maizono_os.Base.{
  ℕ, zero, suc, ◌+◌, ◌≤◌, ◌<◌, ◌≡◌, refl, sym, ◌∙◌, ap, subst, Bool, true, false, [], ◌∷◌, ◌++◌,
  arith, length,
}
use native.Mathlib.Decide.{dec_lt, ℕ_discrete}
use maizono_os.Pci.{
  Device, DeviceArray, Outcome, running, panicked, scanned, after, pushed, add_device,
  scan_function, scan_functions, scan_device, scan_devices, scan_bus,
}
use maizono_os.Pci.Ends.{IsArrayVec}
use maizono_os.Pci.Present.{
  device_at, is_bridge, secondary, is_absent, is_single, HasFunction, first, other,
}

-- A scan that returns after a first part had returned.
pub after-scanned :
    {A : Type 0} (o : Outcome A) (f : A → Outcome A) {w : A}
    → after o f ≡ scanned w
    → (u : A) × (o ≡ scanned u) × (f u ≡ scanned w)
after-scanned running f h = absurd (cc)
after-scanned panicked f h = absurd (cc)
after-scanned (scanned u) f h = (u, refl, h)

module _ (config : ℕ → ℕ) (array : DeviceArray) (laws : IsArrayVec array) where
  open array use {Array}

  pub add_device-elements :
      (d : Device) (v w : Array)
      → add_device config array d v ≡ scanned w
      → array.elements w ≡ array.elements v ++ (d ∷ [])
  unfolding add_device
  add_device-elements d v w h = elim (dec_lt (length (array.elements v)) 32) [
    | yes room ↦
        let (u, e, same) = laws.push_room d v room in
        let eq : u ≡ w = cc (sym (ap (pushed config array) e) ∙ h) in
        subst (λ x. array.elements x ≡ array.elements v ++ (d ∷ [])) eq same
    | no full ↦
        (let e = ap (pushed config array) (laws.push_full d v (omega arith)) in
          absurd (cc (sym e ∙ h)))
  ]

  -- `w` holds all devices of `v`.
  abbrev pub Keeps : Array → Array → Type 0
  Keeps v w = (d : Device) → Memᴰ d (array.elements v) → Memᴰ d (array.elements w)

  pub trans : {u v w : Array} → Keeps u v → Keeps v w → Keeps u w
  trans h k d m = k d (h d m)

  -- The scan of the bus has returned, and its devices are still there.
  pub record IsScanned (bus : ℕ) (w : Array) : Type 0 where
    pub fuel : ℕ
    pub start : Array
    pub out : Array
    pub returns : scan_bus config array fuel bus start ≡ scanned out
    pub kept : Keeps out w

  -- The function is stored, and the bus behind it scanned if it is a bridge.
  pub record IsHandled (bus device func : ℕ) (w : Array) : Type 0 where
    pub stored : Memᴰ (device_at config bus device func) (array.elements w)
    pub beyond :
        is_bridge config bus device func ≡ true → IsScanned (secondary config bus device func) w

  pub IsHandled-later :
      {bus device func : ℕ} {v w : Array}
      → Keeps v w
      → IsHandled bus device func v
      → IsHandled bus device func w
  IsHandled-later k h = record {
    stored = k _ h.stored;
    beyond = λ b.
        (let s = h.beyond b in
          record {
            fuel = s.fuel;
            start = s.start;
            out = s.out;
            returns = s.returns;
            kept = trans s.kept k;
          });
  }

  module _ (fuel : ℕ)
      (grows : (bus : ℕ) (v w : Array)
        → scan_bus config array fuel bus v ≡ scanned w
        → Keeps v w) where
    bridge-scanned :
        (b : Bool) (bus : ℕ) (v w : Array)
        → elim b [ true ↦ scan_bus config array fuel bus v | false ↦ scanned v ] ≡ scanned w
        → Keeps v w × (b ≡ true → IsScanned bus w)
    bridge-scanned true bus v w h = (
      grows bus v w h,
      λ e. record { fuel = fuel; start = v; out = w; returns = h; kept = λ d m. m },
    )
    bridge-scanned false bus v w h =
        let e : v ≡ w = cc h in (subst (λ x. Keeps v x) e (λ d m. m), λ e. absurd (cc e))

    scan_function-IsHandled :
        (bus device func : ℕ) (v w : Array)
        → scan_function config array (scan_bus config array fuel) bus device func v ≡ scanned w
        → Keeps v w × IsHandled bus device func w
    unfolding scan_function
    scan_function-IsHandled bus device func v w h =
        let d = device_at config bus device func in
        let (u, e, r) = after-scanned (add_device config array d v) _ h in
        let same = add_device-elements d v u e in
        let (kept, nested) =
          bridge-scanned (is_bridge config bus device func) (secondary config bus device func) u w
            r in
        (
          λ x m. kept x (subst (λ l. Memᴰ x l) (sym same) (Memᴰ.append_left (d ∷ []) m)),
          record {
            stored = kept d (
                subst (λ l. Memᴰ d l) (sym same)
                  (Memᴰ.append_right (array.elements v) (Memᴰ.head refl)));
            beyond = nested;
          },
        )

    -- A test for an absent function, and the scan of one that is present.
    either-IsHandled :
        (b : Bool) (bus device func : ℕ) (v w : Array)
        → elim b [
          | true ↦ scanned v
          | false ↦ scan_function config array (scan_bus config array fuel) bus device func v
        ]
          ≡ scanned w
        → Keeps v w × (b ≡ false → IsHandled bus device func w)
    either-IsHandled true bus device func v w h =
        let e : v ≡ w = cc h in (subst (λ x. Keeps v x) e (λ d m. m), λ e. absurd (cc e))
    either-IsHandled false bus device func v w h =
        let (k, handled) = scan_function-IsHandled bus device func v w h in (k, λ e. handled)

    scan_functions-IsHandled :
        (bus device func left : ℕ) (v w : Array)
        → scan_functions config array (scan_bus config array fuel) bus device func left v
          ≡ scanned w
        → Keeps v w
          × ((f : ℕ)
              → func ≤ f
              → f < func + left
              → is_absent config bus device f ≡ false
              → IsHandled bus device f w)
    unfolding scan_functions
    scan_functions-IsHandled bus device func zero v w h =
        let e : v ≡ w = cc h in
        (subst (λ x. Keeps v x) e (λ d m. m), λ f lo hi p. absurd (omega arith))
    scan_functions-IsHandled bus device func (suc left) v w h =
        let (u, e, r) = after-scanned _ _ h in
        let (kept, now) =
          either-IsHandled (is_absent config bus device func) bus device func v u e in
        let (later, rest) = scan_functions-IsHandled bus device (func + 1) left u w r in
        (
          trans kept later,
          λ f lo hi p. elim (ℕ_discrete func f) [
            | yes same ↦
                subst (λ x. IsHandled bus device x w) same (IsHandled-later later (now (rw same p)))
            | no differs ↦ rest f (omega arith) (omega arith) p
          ],
        )

    more-IsHandled :
        (b : Bool) (bus device : ℕ) (v w : Array)
        → elim b [
          | true ↦ scanned v
          | false ↦ scan_functions config array (scan_bus config array fuel) bus device 1 7 v
        ]
          ≡ scanned w
        → Keeps v w
          × (b ≡ false
              → (f : ℕ) → 1 ≤ f
              → f < 8
              → is_absent config bus device f ≡ false
              → IsHandled bus device f w)
    more-IsHandled true bus device v w h =
        let e : v ≡ w = cc h in (subst (λ x. Keeps v x) e (λ d m. m), λ e. absurd (cc e))
    more-IsHandled false bus device v w h =
        let (k, handled) = scan_functions-IsHandled bus device 1 7 v w h in (k, λ e. handled)

    function-IsHandled :
        (bus device : ℕ) (w : Array)
        → IsHandled bus device 0 w
        → (is_single config bus device ≡ false
            → (f : ℕ) → 1 ≤ f
            → f < 8
            → is_absent config bus device f ≡ false
            → IsHandled bus device f w)
        → (f : ℕ) → HasFunction config bus device f
        → IsHandled bus device f w
    function-IsHandled bus device w zeroth rest _ first = zeroth
    function-IsHandled bus device w zeroth rest f (other several lo hi p) = rest several f lo hi p

    scan_device-IsHandled :
        (bus device : ℕ) (v w : Array)
        → scan_device config array (scan_bus config array fuel) bus device v ≡ scanned w
        → Keeps v w × ((f : ℕ) → HasFunction config bus device f → IsHandled bus device f w)
    unfolding scan_device
    scan_device-IsHandled bus device v w h =
        let (u, e, r) = after-scanned _ _ h in
        let (kept, now) = scan_function-IsHandled bus device 0 v u e in
        let (later, rest) = more-IsHandled (is_single config bus device) bus device u w r in
        (trans kept later, function-IsHandled bus device w (IsHandled-later later now) rest)

    present-IsHandled :
        (b : Bool) (bus device : ℕ) (v w : Array)
        → elim b [
          | true ↦ scanned v
          | false ↦ scan_device config array (scan_bus config array fuel) bus device v
        ]
          ≡ scanned w
        → Keeps v w
          × (b ≡ false → (f : ℕ) → HasFunction config bus device f → IsHandled bus device f w)
    present-IsHandled true bus device v w h =
        let e : v ≡ w = cc h in (subst (λ x. Keeps v x) e (λ d m. m), λ e. absurd (cc e))
    present-IsHandled false bus device v w h =
        let (k, handled) = scan_device-IsHandled bus device v w h in (k, λ e. handled)

    pub scan_devices-IsHandled :
        (bus device left : ℕ) (v w : Array)
        → scan_devices config array (scan_bus config array fuel) bus device left v ≡ scanned w
        → Keeps v w
          × ((d : ℕ)
              → device ≤ d
              → d < device + left
              → is_absent config bus d 0 ≡ false
              → (f : ℕ) → HasFunction config bus d f
              → IsHandled bus d f w)
    unfolding scan_devices
    scan_devices-IsHandled bus device zero v w h =
        let e : v ≡ w = cc h in
        (subst (λ x. Keeps v x) e (λ d m. m), λ d lo hi p. absurd (omega arith))
    scan_devices-IsHandled bus device (suc left) v w h =
        let (u, e, r) = after-scanned _ _ h in
        let (kept, now) = present-IsHandled (is_absent config bus device 0) bus device v u e in
        let (later, rest) = scan_devices-IsHandled bus (device + 1) left u w r in
        (
          trans kept later,
          λ d lo hi p f has. elim (ℕ_discrete device d) [
            | yes same ↦ IsHandled-later later (
                subst
                  (λ x.
                    is_absent config bus x 0 ≡ false
                    → (f : ℕ) → HasFunction config bus x f
                    → IsHandled bus x f u)
                  same now p f has)
            | no differs ↦ rest d (omega arith) (omega arith) p f has
          ],
        )
