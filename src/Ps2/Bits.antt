-- ===== src/Ps2/Bits.antt =====
-- kernel/src/ps2/controller.rs: the configuration byte, the status byte and the command codes.
use native.Mathlib.Nat.{one-le-pow, one-mul, pow-le-pow_right}
use maizono_os.Base.{
  ℕ, ◌-◌, ◌*◌, ◌^◌, ◌<◌, ◌≡◌, Bool, true, false, not, bit_and, bit_or, arith, ◌==◌, if◌then◌else◌,
}
use maizono_os.Word.{◌<<<◌, complement}
use maizono_os.Word.Bit.{
  bit_at, bit_at-lt, bit_at-or, bit_at-and, bit_at-pow, bit_at-complement, and-pow,
}
use maizono_os.Word.Masks.{or-lt, and-le}

pub data Command : Type 0 where
  read_controller_config_byte write_controller_config_byte disable_second_port : Command
  enable_second_port test_second_port test_controller test_first_port disable_first_port : Command
  enable_first_port write_second_port_output_buffer write_second_port_input_buffer : Command

unfoldable pub as_u8 : Command → ℕ
as_u8 read_controller_config_byte = 0x20
as_u8 write_controller_config_byte = 0x60
as_u8 disable_second_port = 0xa7
as_u8 enable_second_port = 0xa8
as_u8 test_second_port = 0xa9
as_u8 test_controller = 0xaa
as_u8 test_first_port = 0xab
as_u8 disable_first_port = 0xad
as_u8 enable_first_port = 0xae
as_u8 write_second_port_output_buffer = 0xd3
as_u8 write_second_port_input_buffer = 0xd4

-- `self.0 & (1 << bit) != 0`, of the configuration byte and of the status byte.
unfoldable pub get_bit : ℕ → ℕ → Bool
get_bit byte bit = not (bit_and byte (1 <<< bit) == 0)

-- `set_bit` of the configuration byte.
unfoldable pub set_bit : ℕ → ℕ → Bool → ℕ
set_bit byte bit value =
    if value then bit_or byte (1 <<< bit) else bit_and byte (complement 8 (1 <<< bit))

abbrev pub get_first_port_interrupt : ℕ → Bool
get_first_port_interrupt byte = get_bit byte 0

abbrev pub set_first_port_interrupt : ℕ → Bool → ℕ
set_first_port_interrupt byte value = set_bit byte 0 value

abbrev pub get_second_port_interrupt : ℕ → Bool
get_second_port_interrupt byte = get_bit byte 1

abbrev pub set_second_port_interrupt : ℕ → Bool → ℕ
set_second_port_interrupt byte value = set_bit byte 1 value

abbrev pub get_first_port_clock : ℕ → Bool
get_first_port_clock byte = get_bit byte 4

abbrev pub set_first_port_clock : ℕ → Bool → ℕ
set_first_port_clock byte value = set_bit byte 4 value

abbrev pub get_second_port_clock : ℕ → Bool
get_second_port_clock byte = get_bit byte 5

abbrev pub set_second_port_clock : ℕ → Bool → ℕ
set_second_port_clock byte value = set_bit byte 5 value

abbrev pub get_first_port_translation : ℕ → Bool
get_first_port_translation byte = get_bit byte 6

abbrev pub set_first_port_translation : ℕ → Bool → ℕ
set_first_port_translation byte value = set_bit byte 6 value

abbrev pub is_output_full : ℕ → Bool
is_output_full status = get_bit status 0

abbrev pub is_input_full : ℕ → Bool
is_input_full status = get_bit status 1

get_bit-eq : (byte bit : ℕ) → get_bit byte bit ≡ (bit_at byte bit == 1)
unfolding get_bit
get_bit-eq byte bit = rw (one-mul, and-pow) (ground (arith, bit_at-lt byte bit, one-le-pow bit 2))

pow-lt_byte : (bit : ℕ) → bit < 8 → 2 ^ bit < 2 ^ 8
pow-lt_byte bit h =
    omega (arith, pow-le-pow_right {n = 2} (omega arith) {i = bit} {j = 7} (omega arith))

bit_at-set_bit :
    (byte bit j : ℕ) (value : Bool)
    → byte < 2 ^ 8
    → bit < 8
    → j < 8
    → bit_at (set_bit byte bit value) j
      ≡ (if bit == j then (if value then 1 else 0) else bit_at byte j)
unfolding set_bit
bit_at-set_bit byte bit j true h k l =
    rw one-mul (ground (arith, bit_at-or byte (2 ^ bit) j, bit_at-pow bit j, bit_at-lt byte j))
bit_at-set_bit byte bit j false h k l = rw one-mul (
    ground (
      arith,
      bit_at-and byte (2 ^ 8 - 1 - 2 ^ bit) j,
      bit_at-complement 8 (2 ^ bit) j,
      pow-lt_byte bit,
      bit_at-pow bit j,
      bit_at-lt byte j,
    ))

pub set_bit-lt :
    (byte bit : ℕ) (value : Bool) → byte < 2 ^ 8 → bit < 8 → set_bit byte bit value < 2 ^ 8
unfolding set_bit
set_bit-lt byte bit true h k = or-lt 8 byte (1 * 2 ^ bit) h (rw one-mul (pow-lt_byte bit k))
set_bit-lt byte bit false h k = omega (arith, and-le byte (2 ^ 8 - 1 - 1 * 2 ^ bit))

-- In a byte, `set_bit` gives its bit the value and keeps the other seven; the result is a byte.
pub get_bit-set_bit :
    (byte bit j : ℕ) (value : Bool)
    → byte < 2 ^ 8
    → bit < 8
    → j < 8
    → (get_bit (set_bit byte bit value) j ≡ (if bit == j then value else get_bit byte j))
      × (set_bit byte bit value < 2 ^ 8)
get_bit-set_bit byte bit j value h k l = (
  rw
      (
        get_bit-eq (set_bit byte bit value) j,
        get_bit-eq byte j,
        bit_at-set_bit byte bit j value h k l,
      )
      (ground arith),
  set_bit-lt byte bit value h k,
)
