-- ===== src/Pci/Examples.antt =====
-- The theorems on PCI, at a configuration space with one bridge whose secondary bus is its own.
use mathlib.Core.List.{Memᴰ}
use maizono_os.Pci.Present.{IsFound}
use maizono_os.Pci.Sound.{init_iff}
use maizono_os.Base.{
  ◌↔◌, ℕ, ◌+◌, ◌*◌, ◌/◌, ◌%◌, ◌^◌, ◌≤◌, ◌<◌, ◌≡◌, ◌⊎◌, List, [], ◌∷◌, arith, ltb, ◌==◌,
  if◌then◌else◌, length,
}
use maizono_os.Error.{pci_error, base_address_register_index_out_of_range_error}
use maizono_os.Pci.{Device, panicked, scanned, init, make_address, read_base_addr, ok, err}
use maizono_os.Pci.Address.{make_address_lem}
use maizono_os.Pci.Bar.{register, read_base_addr_lem}
use maizono_os.Pci.Ends.{init-Ends}
use maizono_os.Pci.Sample.{
  bridge, controller, tree, tree-scanned, device_list, device_list-IsArrayVec,
}

-- Bus 0, device 0, function 0 is a bridge; nothing else is there.
abbrev config : ℕ → ℕ
config addr =
    if addr / 2 ^ 8 % 2 ^ 16 == 0
    then (if addr % 2 ^ 8 == 0x08
        then 0x06040000
        else if addr % 2 ^ 8 == 0x0c
        then 0x00010000
        else if addr % 2 ^ 8 == 0x10
        then 0xfebf0004
        else if addr % 2 ^ 8 == 0x14
        then 0x00000001
        else if addr % 2 ^ 8 == 0x18
        then 0x00000000
        else 0x29c08086)
    else 0xffffffff

config-lt : (addr : ℕ) → config addr < 2 ^ 32
config-lt addr = ground arith

init-Ends_example :
    (init config device_list [] ≡ panicked)
    ⊎ ((w : List Device) × (init config device_list [] ≡ scanned w) × (length w ≤ 32))
init-Ends_example = init-Ends config device_list device_list-IsArrayVec

make_address_lem_example :
    (make_address 3 17 2 0x1b / 2 ^ 31 ≡ 1)
    × (make_address 3 17 2 0x1b / 2 ^ 16 % 2 ^ 15 ≡ 3)
    × (make_address 3 17 2 0x1b / 2 ^ 11 % 2 ^ 5 ≡ 17)
    × (make_address 3 17 2 0x1b / 2 ^ 8 % 2 ^ 3 ≡ 2)
    × (make_address 3 17 2 0x1b % 2 ^ 8 ≡ 0x1b / 4 * 4)
make_address_lem_example =
    make_address_lem 3 17 2 0x1b (omega arith) (omega arith) (omega arith) (omega arith)

read_base_addr_lem_example : read_base_addr config bridge 0 ≡ (
    if ltb 5 0
    then err (pci_error base_address_register_index_out_of_range_error)
    else if register config bridge 0 / 4 % 2 == 0
    then ok (register config bridge 0)
    else if 0 == 5
    then err (pci_error base_address_register_index_out_of_range_error)
    else ok (register config bridge 0 + register config bridge 1 * 2 ^ 32))
read_base_addr_lem_example = read_base_addr_lem config bridge 0 config-lt

init_iff_example : Memᴰ controller (bridge ∷ controller ∷ []) ↔ IsFound tree controller
init_iff_example =
    init_iff tree device_list device_list-IsArrayVec (bridge ∷ controller ∷ []) tree-scanned
      controller
