-- ===== src/Pci/Address.antt =====
-- The layout of an address of the configuration space.
use maizono_os.Base.{ℕ, ◌+◌, ◌*◌, ◌/◌, ◌%◌, ◌^◌, ◌<◌, ◌≡◌, refl, bit_or, arith}
use maizono_os.Word.{◌<<<◌}
use maizono_os.Word.Masks.{or_fields, and_field}
use maizono_os.Pci.{make_address}

-- `or_fields` where the upper part is given as a number.
or_below : (k high q r : ℕ) → high ≡ q * 2 ^ k → r < 2 ^ k → bit_or high r ≡ high + r
or_below k high q r e h = rw e (or_fields k q r h)

module _ (bus device func offset : ℕ) (bus_byte : bus < 2 ^ 8) (device_fits : device < 2 ^ 5)
    (func_fits : func < 2 ^ 3) where
  make_address-eq :
      make_address bus device func offset
      ≡ 2 ^ 31 + bus * 2 ^ 16 + device * 2 ^ 11 + func * 2 ^ 8 + offset / 4 % 2 ^ 6 * 4
  unfolding make_address
  make_address-eq =
      rw
        (
          or_below 31 (1 <<< 31) 1 (bus <<< 16) refl (omega arith),
          or_below 16 (2 ^ 31 + bus * 2 ^ 16) (2 ^ 15 + bus) (device <<< 11) (omega arith)
              (omega arith),
          or_below 11 (2 ^ 31 + bus * 2 ^ 16 + device * 2 ^ 11) (2 ^ 20 + bus * 2 ^ 5 + device)
              (func <<< 8) (omega arith) (omega arith),
          and_field 2 6 offset,
          or_below 8 (2 ^ 31 + bus * 2 ^ 16 + device * 2 ^ 11 + func * 2 ^ 8)
              (2 ^ 23 + bus * 2 ^ 8 + device * 2 ^ 3 + func) (offset / 4 % 2 ^ 6 * 4) (omega arith)
              (omega arith),
        )
        refl

  -- For an 8-bit bus, a 5-bit device, a 3-bit function and any byte offset, `make_address` is a 32-bit
  -- word with the enable bit, and the bus, the device, the function and the offset of the 4-byte
  -- register at the bits where the configuration mechanism reads them.
  pub make_address_lem :
      offset < 2 ^ 8
      → (make_address bus device func offset / 2 ^ 31 ≡ 1)
        × (make_address bus device func offset / 2 ^ 16 % 2 ^ 15 ≡ bus)
        × (make_address bus device func offset / 2 ^ 11 % 2 ^ 5 ≡ device)
        × (make_address bus device func offset / 2 ^ 8 % 2 ^ 3 ≡ func)
        × (make_address bus device func offset % 2 ^ 8 ≡ offset / 4 * 4)
  make_address_lem byte =
      let e = make_address-eq in (omega arith, omega arith, omega arith, omega arith, omega arith)
