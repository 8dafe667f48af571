-- ===== src/Ps2/Chip.antt =====
-- The data sheet of the 8042 controller, with a keyboard and a mouse.
use maizono_os.Base.{◌<◌, ℕ, ◌≡◌, Bool, true, false, List, [], ◌∷◌, ◌==◌, if◌then◌else◌}
use maizono_os.Ps2.Port.{Device}
use maizono_os.Ps2.Waiting.{polls}
use maizono_os.Ps2.Bits.{
  get_first_port_clock, get_second_port_clock, set_first_port_clock, is_output_full, is_input_full,
  set_second_port_clock,
}

-- Where the next byte written to the data port goes.
pub data Target : Type 0 where
  to_keyboard to_mouse to_config : Target

-- The bytes that wait to be read, and the configuration byte.
pub record Chip : Type 0 where
  pub outbox : List ℕ
  pub target : Target
  pub config : ℕ

abbrev pub idle : ℕ → Chip
idle config = record { outbox = []; target = to_keyboard; config = config }

abbrev pub first : List ℕ → ℕ
first [] = 0
first (b ∷ rest) = b

abbrev pub others : List ℕ → List ℕ
others [] = []
others (b ∷ rest) = rest

abbrev pub is_empty : List ℕ → Bool
is_empty [] = true
is_empty (b ∷ rest) = false

-- A byte at the command port. The clock bits of the configuration byte are set by the commands that
-- disable a port, and cleared by those that enable it.
abbrev pub command : ℕ → Chip → Chip
command c s =
    if c == 0x20
    then record s { outbox = s.config ∷ [] }
    else if c == 0xaa
    then record s { outbox = 0x55 ∷ [] }
    else if c == 0xab
    then record s { outbox = 0x00 ∷ [] }
    else if c == 0xa9
    then record s { outbox = 0x00 ∷ [] }
    else if c == 0x60
    then record s { target = to_config }
    else if c == 0xd4
    then record s { target = to_mouse }
    else if c == 0xad
    then record s { config = set_first_port_clock s.config true }
    else if c == 0xae
    then record s { config = set_first_port_clock s.config false }
    else if c == 0xa7
    then record s { config = set_second_port_clock s.config true }
    else if c == 0xa8
    then record s { config = set_second_port_clock s.config false }
    else s

-- A device whose clock is stopped does not answer.
abbrev pub answered : Bool → List ℕ → List ℕ → List ℕ
answered stopped before answer = if stopped then before else answer

-- A byte at the data port: a device whose clock runs acknowledges it, and a reset is followed by the
-- result of the self test and, from the mouse, by its id.
abbrev pub receive : Target → ℕ → Chip → Chip
receive to_config byte s = record s { config = byte; target = to_keyboard }
receive to_keyboard byte s = record s {
  outbox =
      answered (get_first_port_clock s.config) s.outbox
        (if byte == 0xff then 0xfa ∷ 0xaa ∷ [] else 0xfa ∷ []);
}
receive to_mouse byte s = record s {
  outbox =
      answered (get_second_port_clock s.config) s.outbox
        (if byte == 0xff then 0xfa ∷ 0xaa ∷ 0x00 ∷ [] else 0xfa ∷ []);
  target = to_keyboard;
}

-- The device behaves as the chip that `view` shows. Its status may be late: the input buffer is empty,
-- and a waiting byte is announced, within the polls that the driver allows. The driver writes commands
-- without waiting, so the chip has to take a command at any time.
pub record IsChip (device : Device) : Type 0 where
  pub view : device.State → Chip
  pub drained :
      (s : device.State)
      → is_empty (view s).outbox ≡ true
      → is_output_full (device.status s) ≡ false
  pub announces :
      (s : device.State)
      → is_empty (view s).outbox ≡ false
      → (k : ℕ) × (k < 1000) × (is_output_full (device.status (polls device k s)) ≡ true)
  pub accepts :
      (s : device.State)
      → (k : ℕ) × (k < 1000) × (is_input_full (device.status (polls device k s)) ≡ false)
  pub polled : (s : device.State) → view (device.after_status s) ≡ view s
  pub reads : (s : device.State) → device.data_byte s ≡ first (view s).outbox
  pub read :
      (s : device.State)
      → view (device.after_data s) ≡ record (view s) { outbox = others (view s).outbox }
  pub written :
      (byte : ℕ) (s : device.State)
      → view (device.write_data byte s) ≡ receive (view s).target byte (view s)
  pub commanded : (c : ℕ) (s : device.State) → view (device.write_command c s) ≡ command c (view s)
