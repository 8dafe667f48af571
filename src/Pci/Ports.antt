-- ===== src/Pci/Ports.antt =====
-- kernel/src/pci/mod.rs: the reads of the configuration space as accesses of two ports, and that they
-- read what the scan takes from `config`.
use maizono_os.Base.{ℕ, ◌≡◌, refl, bit_and}
use maizono_os.Word.{u8, u16, ◌>>>◌}
use maizono_os.Pci
use maizono_os.Pci.{Device, ClassCode, make_address, new_class_code}

-- The `in` and `out` instructions on 32-bit ports. A read may change the hardware.
record Hardware : Type 1 where
  State : Type 0
  out_u32 : ℕ → ℕ → State → State
  in_u32 : ℕ → State → ℕ
  after_in : ℕ → State → State

abbrev config_address_address : ℕ
config_address_address = 0x0cf8

abbrev config_data_address : ℕ
config_data_address = 0x0cfc

module _ (hardware : Hardware) where
  open hardware use {State}

  abbrev Io : Type 0 → Type 0
  Io A = State → A × State

  io_out_32 : ℕ → ℕ → State → State
  io_out_32 addr word s = hardware.out_u32 addr word s

  io_in_32 : ℕ → Io ℕ
  io_in_32 addr s = (hardware.in_u32 addr s, hardware.after_in addr s)

  write_address : ℕ → State → State
  unfolding io_out_32
  write_address addr = io_out_32 config_address_address addr

  unfoldable write_data : ℕ → State → State
  unfolding io_out_32
  write_data word = io_out_32 config_data_address word

  read_data : Io ℕ
  unfolding io_in_32
  read_data = io_in_32 config_data_address

  -- What a caller makes of the word at an address.
  abbrev read_with : {A : Type 0} → ℕ → (ℕ → A) → Io A
  read_with addr f s = let (word, s) = read_data (write_address addr s) in (f word, s)

  read_vendor_id : ℕ → ℕ → ℕ → Io ℕ
  unfolding read_data write_address make_address
  read_vendor_id bus device func =
      read_with (make_address bus device func 0x00) (λ word. u16 (bit_and word 0xffff))

  read_device_id : ℕ → ℕ → ℕ → Io ℕ
  unfolding read_data write_address make_address
  read_device_id bus device func =
      read_with (make_address bus device func 0x00) (λ word. u16 (word >>> 16))

  read_header_type : ℕ → ℕ → ℕ → Io ℕ
  unfolding read_data write_address make_address
  read_header_type bus device func =
      read_with (make_address bus device func 0x0c) (λ word. u8 (bit_and (word >>> 16) 0xff))

  read_class_code : ℕ → ℕ → ℕ → Io ClassCode
  unfolding read_data write_address make_address
  read_class_code bus device func = read_with (make_address bus device func 0x08) (λ word.
      let class_code_raw = word >>> 8 in
      new_class_code (u8 (bit_and (class_code_raw >>> 16) 0xff))
        (u8 (bit_and (class_code_raw >>> 8) 0xff)) (u8 (bit_and class_code_raw 0xff)))

  read_bus_numbers : ℕ → ℕ → ℕ → Io ℕ
  unfolding read_data write_address make_address
  read_bus_numbers bus device func = read_with (make_address bus device func 0x18) (λ word. word)

  unfoldable read_pci_config_space : Device → ℕ → Io ℕ
  unfolding read_data write_address make_address
  read_pci_config_space d offset =
      read_with (make_address d.bus d.device d.func offset) (λ word. word)

  -- The configuration mechanism: after an address was written to the address port, the data port
  -- reads the word of the configuration space there.
  abbrev IsMechanism : (ℕ → ℕ) → Type 0
  IsMechanism config =
      (addr : ℕ) (s : State)
      → hardware.in_u32 config_data_address (hardware.out_u32 config_address_address addr s)
        ≡ config addr

  -- Every read through the ports gives what the reads of the scan take from `config`.
  reads_lem :
      (config : ℕ → ℕ) (bus device func : ℕ) (s : State)
      → IsMechanism config
      → ((read_vendor_id bus device func s).0 ≡ Pci.read_vendor_id config bus device func)
        × ((read_device_id bus device func s).0 ≡ Pci.read_device_id config bus device func)
        × ((read_header_type bus device func s).0 ≡ Pci.read_header_type config bus device func)
        × ((read_class_code bus device func s).0 ≡ Pci.read_class_code config bus device func)
        × ((read_bus_numbers bus device func s).0 ≡ Pci.read_bus_numbers config bus device func)
  unfolding read_vendor_id read_device_id read_header_type read_class_code read_bus_numbers
      Pci.read_vendor_id Pci.read_device_id Pci.read_header_type Pci.read_class_code
      Pci.read_bus_numbers
  reads_lem config bus device func s mechanism = (
    rw (mechanism (make_address bus device func 0x00) s) refl,
    rw (mechanism (make_address bus device func 0x00) s) refl,
    rw (mechanism (make_address bus device func 0x0c) s) refl,
    rw (mechanism (make_address bus device func 0x08) s) refl,
    rw (mechanism (make_address bus device func 0x18) s) refl,
  )
