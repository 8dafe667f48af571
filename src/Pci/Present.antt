-- ===== src/Pci/Present.antt =====
-- Which functions a scan of the PCI buses should find, without the scan.
use maizono_os.Base.{ℕ, ◌≤◌, ◌<◌, ◌≡◌, Bool, true, false, ◌&&◌, ◌==◌, bit_and}
use maizono_os.Word.{u8, ◌>>>◌}
use maizono_os.Pci.{
  Device, read_vendor_id, read_header_type, read_class_code, read_bus_numbers,
  is_single_function_device,
}

module _ (config : ℕ → ℕ) where
  -- The function, with what its registers say.
  abbrev pub device_at : ℕ → ℕ → ℕ → Device
  device_at bus device func = record {
    bus = bus;
    device = device;
    func = func;
    header_type = read_header_type config bus device func;
    class_code = read_class_code config bus device func;
  }

  abbrev pub is_bridge : ℕ → ℕ → ℕ → Bool
  is_bridge bus device func =
      (read_class_code config bus device func).base == 0x06
      && (read_class_code config bus device func).sub == 0x04

  -- The bus behind a bridge.
  abbrev pub secondary : ℕ → ℕ → ℕ → ℕ
  secondary bus device func = u8 (bit_and (read_bus_numbers config bus device func >>> 8) 0xff)

  abbrev pub is_absent : ℕ → ℕ → ℕ → Bool
  is_absent bus device func = read_vendor_id config bus device func == 0xffff

  abbrev pub is_single : ℕ → ℕ → Bool
  is_single bus device = is_single_function_device (read_header_type config bus device 0)

  -- The functions of a device.
  pub data HasFunction (bus device : ℕ) : ℕ → Type 0 where
    first : HasFunction bus device 0
    other :
        {func : ℕ}
        → is_single bus device ≡ false
        → 1 ≤ func
        → func < 8
        → is_absent bus device func ≡ false
        → HasFunction bus device func

  -- The functions of a bus.
  pub record IsPresent (bus device func : ℕ) : Type 0 where
    pub slot : device < 32
    pub answers : is_absent bus device 0 ≡ false
    pub function : HasFunction bus device func

  -- The buses that the host bridges and the bridges lead to.
  pub data IsReachable : ℕ → Type 0 where
    root : is_single 0 0 ≡ true → IsReachable 0
    host :
        {func : ℕ}
        → is_single 0 0 ≡ false
        → func < 8
        → is_absent 0 0 func ≡ false
        → IsReachable func
    behind :
        {bus device func : ℕ}
        → IsReachable bus
        → IsPresent bus device func
        → is_bridge bus device func ≡ true
        → IsReachable (secondary bus device func)

  -- A function of a reachable bus.
  pub record IsFound (d : Device) : Type 0 where
    pub bus : ℕ
    pub device : ℕ
    pub func : ℕ
    pub reachable : IsReachable bus
    pub present : IsPresent bus device func
    pub same : device_at bus device func ≡ d
