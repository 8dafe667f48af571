-- ===== src/Pci/Access.antt =====
-- kernel/src/pci/mod.rs: what other code reads of a device, and the static list with its lock.
use maizono_os.Base.{ℕ, Bool, false, if◌then◌else◌}
use maizono_os.Base.Exec.{M, done, fail}
use maizono_os.Error.{Error, pci_error, device_lock_error}
use maizono_os.Pci.{Device, ClassCode, DeviceArray}

abbrev get_bus : Device → ℕ
get_bus d = d.bus

abbrev get_device : Device → ℕ
get_device d = d.device

abbrev get_func : Device → ℕ
get_func d = d.func

abbrev get_class_code : Device → ClassCode
get_class_code d = d.class_code

abbrev get_header_type : Device → ℕ
get_header_type d = d.header_type

abbrev get_base : ClassCode → ℕ
get_base c = c.base

abbrev get_sub : ClassCode → ℕ
get_sub c = c.sub

abbrev get_interface : ClassCode → ℕ
get_interface c = c.interface

module _ (array : DeviceArray) where
  -- `DEVICES` with its lock.
  pub record Devices : Type 0 where
    pub elements : array.Array
    pub locked : Bool

  unfoldable pub new : Devices
  new = record { elements = array.new_const; locked = false }

  abbrev as_ref_inner : Devices → array.Array
  as_ref_inner d = d.elements

  -- `devices()` gives the list if the lock is free. The caller stores what it changed.
  unfoldable pub devices : M Devices Error array.Array
  devices d = if d.locked then fail (pci_error device_lock_error) d else done d.elements d
