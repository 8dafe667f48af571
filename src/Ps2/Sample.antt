-- ===== src/Ps2/Sample.antt =====
-- A PS/2 controller with a keyboard and a mouse, for the tests: the chip of the data sheet itself.
use maizono_os.Base.{true, arith, ◌<◌, ℕ, List, [], ◌∷◌, false, ◌≡◌, refl, if◌then◌else◌}
use maizono_os.Ps2.Port.{Device}
use maizono_os.Ps2.Bits.{get_bit, is_output_full, is_input_full}
use maizono_os.Ps2.Waiting.{polls}
use maizono_os.Ps2.Chip.{Chip, first, others, is_empty, command, receive, IsChip}

abbrev pub device : Device
device = record {
  State = Chip;
  status = λ s. (if is_empty s.outbox then 0 else 1);
  after_status = λ s. s;
  data_byte = λ s. first s.outbox;
  after_data = λ s. record s { outbox = others s.outbox };
  write_data = λ byte s. receive s.target byte s;
  write_command = command;
}

pub drained-empty :
    (l : List ℕ) → is_empty l ≡ true → is_output_full (if is_empty l then 0 else 1) ≡ false
unfolding get_bit
drained-empty [] e = refl
drained-empty (b ∷ rest) e = absurd (cc)

pub announced-full :
    (l : List ℕ) → is_empty l ≡ false → is_output_full (if is_empty l then 0 else 1) ≡ true
unfolding get_bit
announced-full [] e = absurd (cc)
announced-full (b ∷ rest) e = refl

pub is_ready : (l : List ℕ) → is_input_full (if is_empty l then 0 else 1) ≡ false
unfolding get_bit
is_ready [] = refl
is_ready (b ∷ rest) = refl

pub announced :
    (s : Chip)
    → is_empty s.outbox ≡ false
    → (k : ℕ) × (k < 1000) × (is_output_full (device.status (polls device k s)) ≡ true)
unfolding polls
announced s e = (0, omega arith, announced-full s.outbox e)

pub accepted :
    (s : Chip) → (k : ℕ) × (k < 1000) × (is_input_full (device.status (polls device k s)) ≡ false)
unfolding polls
accepted s = (0, omega arith, is_ready s.outbox)

abbrev pub device-IsChip : IsChip device
device-IsChip = record {
  view = λ s. s;
  drained = λ s. drained-empty s.outbox;
  announces = announced;
  accepts = accepted;
  polled = λ s. refl;
  reads = λ s. refl;
  read = λ s. refl;
  written = λ byte s. refl;
  commanded = λ c s. refl;
}
