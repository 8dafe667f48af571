-- ===== src/Pci/Sample.antt =====
-- Two buses with a device on the second, and a list for the devices, for the tests.
use maizono_os.Base.{
  ℕ, ◌/◌, ◌%◌, ◌^◌, ◌≡◌, refl, none, some, List, [], ◌∷◌, ◌++◌, arith, ltb, ◌==◌, if◌then◌else◌,
  length,
}
use maizono_os.Pci.{
  Device, DeviceArray, scanned, init, make_address, scan_all_bus, scan_bus, scan_devices,
  scan_device, scan_functions, scan_function, add_device, read_vendor_id, read_header_type,
  read_class_code, read_bus_numbers, is_single_function_device,
}
use maizono_os.Pci.Ends.{IsArrayVec}

abbrev pub bridge : Device
bridge = record {
  bus = 0;
  device = 0;
  func = 0;
  header_type = 1;
  class_code = record { base = 6; sub = 4; interface = 0 };
}

-- A list of at most 32 devices.
abbrev pub device_list : DeviceArray
device_list = record {
  Array = List Device;
  new_const = [];
  push = λ d v. (if ltb (length v) 32 then some (v ++ (d ∷ [])) else none);
  elements = λ v. v;
}

pub device_list-IsArrayVec : IsArrayVec device_list
device_list-IsArrayVec = record {
  starts_empty = refl;
  push_room = λ d v h. (v ++ (d ∷ []), ground arith, refl);
  push_full = λ d v h. ground arith;
}

-- Bus 0 has a bridge to bus 1, where one device stands.
abbrev pub tree : ℕ → ℕ
tree addr =
    if addr / 2 ^ 8 % 2 ^ 16 == 0
    then (if addr % 2 ^ 8 == 0x08
        then 0x06040000
        else if addr % 2 ^ 8 == 0x0c
        then 0x00010000
        else if addr % 2 ^ 8 == 0x18
        then 0x00000100
        else 0x29c08086)
    else if addr / 2 ^ 8 % 2 ^ 16 == 0x100
    then (if addr % 2 ^ 8 == 0x08
        then 0x0c033000
        else if addr % 2 ^ 8 == 0x0c
        then 0
        else 0x31a88086)
    else 0xffffffff

abbrev pub controller : Device
controller = record {
  bus = 1;
  device = 0;
  func = 0;
  header_type = 0;
  class_code = record { base = 0x0c; sub = 0x03; interface = 0x30 };
}

pub tree-scanned : init tree device_list [] ≡ scanned (bridge ∷ controller ∷ [])
unfolding init scan_all_bus scan_bus scan_devices scan_device scan_functions scan_function
    add_device read_vendor_id read_header_type read_class_code read_bus_numbers make_address
    is_single_function_device
tree-scanned = refl
