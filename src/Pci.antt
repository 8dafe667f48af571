-- ===== src/Pci.antt =====
-- kernel/src/pci/mod.rs: the configuration space of PCI and the scan of the buses.
pub mod Address
pub mod Bar
pub mod Ends
pub mod Present
pub mod Ports
pub mod Access
pub mod Handled
pub mod Complete
pub mod Sound
mod Examples
pub mod Sample
use maizono_os.Base.{
  ℕ, zero, suc, ◌+◌, ◌*◌, Bool, true, false, not, ◌&&◌, Option, none, some, List, bit_and, bit_or,
  leb, ◌==◌, if◌then◌else◌,
}
use maizono_os.Word.{u8, u16, u32, ◌<<<◌, ◌>>>◌}
use maizono_os.Error.{Error, pci_error, PciError, base_address_register_index_out_of_range_error}

pub record ClassCode : Type 0 where
  pub base : ℕ
  pub sub : ℕ
  pub interface : ℕ

abbrev pub new_class_code : ℕ → ℕ → ℕ → ClassCode
new_class_code base sub interface = record { base = base; sub = sub; interface = interface }

pub record Device : Type 0 where
  pub bus : ℕ
  pub device : ℕ
  pub func : ℕ
  pub header_type : ℕ
  pub class_code : ClassCode

abbrev pub new_device : ℕ → ℕ → ℕ → ℕ → ClassCode → Device
new_device bus device func header_type class_code = record {
  bus = bus;
  device = device;
  func = func;
  header_type = header_type;
  class_code = class_code;
}

pub is_match_base : ClassCode → ℕ → Bool
is_match_base c b = c.base == b

pub is_match_base_sub : ClassCode → ℕ → ℕ → Bool
unfolding is_match_base
is_match_base_sub c b s = is_match_base c b && c.sub == s

pub is_match_all : ClassCode → ℕ → ℕ → ℕ → Bool
unfolding is_match_base_sub
is_match_all c b s i = is_match_base_sub c b s && c.interface == i

pub is_xhc : Device → Bool
unfolding is_match_all
is_xhc d = is_match_all d.class_code 0x0c 0x03 0x30

pub is_single_function_device : ℕ → Bool
is_single_function_device header_type = bit_and header_type 0b10000000 == 0

-- The arguments are `u8`, so the shifts drop no bit but those of a device number past 31.
pub make_address : ℕ → ℕ → ℕ → ℕ → ℕ
make_address bus device func offset =
    bit_or (bit_or (bit_or (bit_or (1 <<< 31) (bus <<< 16)) (device <<< 11)) (func <<< 8))
      (bit_and offset 0xfc)

-- What `read_base_addr` returns.
pub data AddrResult : Type 0 where
  ok : ℕ → AddrResult
  err : Error → AddrResult

-- The `ArrayVec<Device, 32>` of the `arrayvec` crate; `none` is a panic.
pub record DeviceArray : Type 1 where
  pub Array : Type 0
  pub new_const : Array
  pub push : Device → Array → Option Array
  pub elements : Array → List Device

-- How a scan ends. `running` is a scan that has used up the fuel of the model.
pub data Outcome (A : Type 0) : Type 0 where
  running panicked : Outcome A
  scanned : A → Outcome A

abbrev pub after : {A : Type 0} → Outcome A → (A → Outcome A) → Outcome A
after running f = running
after panicked f = panicked
after (scanned a) f = f a

-- `config` gives the word that the data port reads after an address was written to the address port.
module _ (config : ℕ → ℕ) where
  pub read_vendor_id : ℕ → ℕ → ℕ → ℕ
  read_vendor_id bus device func = u16 (bit_and (config (make_address bus device func 0x00)) 0xffff)

  pub read_device_id : ℕ → ℕ → ℕ → ℕ
  read_device_id bus device func = u16 (config (make_address bus device func 0x00) >>> 16)

  pub vendor_id : Device → ℕ
  unfolding read_vendor_id
  vendor_id d = read_vendor_id d.bus d.device d.func

  pub is_intel : Device → Bool
  unfolding vendor_id
  is_intel d = vendor_id d == 0x8086

  pub read_header_type : ℕ → ℕ → ℕ → ℕ
  read_header_type bus device func =
      u8 (bit_and (config (make_address bus device func 0x0c) >>> 16) 0xff)

  pub read_class_code : ℕ → ℕ → ℕ → ClassCode
  read_class_code bus device func =
      let class_code_raw = config (make_address bus device func 0x08) >>> 8 in
      let base = u8 (bit_and (class_code_raw >>> 16) 0xff) in
      let sub = u8 (bit_and (class_code_raw >>> 8) 0xff) in
      let interface = u8 (bit_and class_code_raw 0xff) in new_class_code base sub interface

  pub read_bus_numbers : ℕ → ℕ → ℕ → ℕ
  read_bus_numbers bus device func = config (make_address bus device func 0x18)

  pub read_pci_config_space : Device → ℕ → ℕ
  read_pci_config_space d offset = config (make_address d.bus d.device d.func offset)

  pub read_base_addr : Device → ℕ → AddrResult
  unfolding read_pci_config_space
  read_base_addr d index =
      let failed = err (pci_error base_address_register_index_out_of_range_error) in
      let offset = u8 (0x10 + 4 * index) in
      let lower_base_addr = read_pci_config_space d offset in
      let upper_base_addr = read_pci_config_space d (offset + 4) in
      if leb 6 index
      then failed
      else if bit_and lower_base_addr 4 == 0
      then ok lower_base_addr
      else if leb 5 index
      then failed
      else ok (bit_or (upper_base_addr <<< 32) lower_base_addr)

  module _ (array : DeviceArray) where
    open array use {Array, push}

    abbrev pub pushed : Option Array → Outcome Array
    pushed none = panicked
    pushed (some w) = scanned w

    pub add_device : Device → Array → Outcome Array
    add_device d v = pushed (push d v)

    -- `scan_function`, where `scan_next` scans the bus behind a bridge. No scan returns an error.
    pub scan_function : (ℕ → Array → Outcome Array) → ℕ → ℕ → ℕ → Array → Outcome Array
    unfolding add_device
    scan_function scan_next bus device func v =
        let header_type = read_header_type bus device func in
        let class_code = read_class_code bus device func in
        let d = new_device bus device func header_type class_code in
        let secondary_bus = bit_and (read_bus_numbers bus device func >>> 8) 0xff in
        after (add_device d v) (λ v. elim (class_code.base == 0x06 && class_code.sub == 0x04) [
          | true ↦ scan_next (u8 secondary_bus) v
          | false ↦ scanned v
        ])

    -- `for func in func..func + left`
    pub scan_functions : (ℕ → Array → Outcome Array) → ℕ → ℕ → ℕ → ℕ → Array → Outcome Array
    scan_functions scan_next bus device func zero v = scanned v
    scan_functions scan_next bus device func (suc left) v =
        after
          (elim (read_vendor_id bus device func == 0xffff) [
            | true ↦ scanned v
            | false ↦ scan_function scan_next bus device func v
          ])
          (scan_functions scan_next bus device (func + 1) left)

    pub scan_device : (ℕ → Array → Outcome Array) → ℕ → ℕ → Array → Outcome Array
    scan_device scan_next bus device v = after (scan_function scan_next bus device 0 v) (λ v.
        elim (is_single_function_device (read_header_type bus device 0)) [
          | true ↦ scanned v
          | false ↦ scan_functions scan_next bus device 1 7 v
        ])

    -- `for device in device..device + left`
    pub scan_devices : (ℕ → Array → Outcome Array) → ℕ → ℕ → ℕ → Array → Outcome Array
    scan_devices scan_next bus device zero v = scanned v
    scan_devices scan_next bus device (suc left) v =
        after
          (elim (read_vendor_id bus device 0 == 0xffff) [
            | true ↦ scanned v
            | false ↦ scan_device scan_next bus device v
          ])
          (scan_devices scan_next bus (device + 1) left)

    -- The fuel bounds how deep the scans of buses nest.
    pub scan_bus : ℕ → ℕ → Array → Outcome Array
    scan_bus zero bus v = running
    scan_bus (suc fuel) bus v = scan_devices (scan_bus fuel) bus 0 32 v

    -- `for func in func..func + left` of `scan_all_bus`
    pub scan_host_bridges : ℕ → ℕ → ℕ → Array → Outcome Array
    scan_host_bridges fuel func zero v = scanned v
    scan_host_bridges fuel func (suc left) v =
        after
          (elim (read_vendor_id 0 0 func == 0xffff) [
            | true ↦ scanned v
            | false ↦ scan_bus fuel func v
          ])
          (scan_host_bridges fuel (func + 1) left)

    pub scan_all_bus : ℕ → Array → Outcome Array
    scan_all_bus fuel v = elim (is_single_function_device (read_header_type 0 0 0)) [
      | true ↦ scan_bus fuel 0 v
      | false ↦ scan_host_bridges fuel 0 8 v
    ]

    -- Every scan that nests has stored a device, and the array holds 32.
    pub init : Array → Outcome Array
    init v = scan_all_bus 33 v
