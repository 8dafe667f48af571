-- ===== src/Ps2/Examples.antt =====
-- The theorems on the PS/2 controller and its devices, at a concrete device.
use maizono_os.Base.{
  ℕ, zero, suc, ◌-◌, ◌<◌, ◌≡◌, refl, ◌↔◌, true, false, List, [], ◌∷◌, arith, if◌then◌else◌, ◌==◌,
  inr,
}
use maizono_os.Base.Exec.{done, fail}
use maizono_os.Ps2.Port.{Device}
use maizono_os.Ps2.Bits.{is_output_full, is_input_full, get_bit}
use maizono_os.Ps2.Controller.{timeout, read_data, write_data, write_to_second_port_input_buffer}
use maizono_os.Ps2.Waiting.{polls, read_data_lem, write_data_lem}
use maizono_os.Ps2.Keyboard
use maizono_os.Ps2.Mouse
use maizono_os.Ps2.Keyboard.{from_u8, as_u8, acknowledged}
use maizono_os.Ps2.Resets.{Passed, keyboard_reset_iff, mouse_reset_iff}
use maizono_os.Ps2.Init
use maizono_os.Ps2.Sample.{device, device-IsChip}
use maizono_os.Ps2.Chip.{idle}
use maizono_os.Ps2.Completes.{IsConfigured, init-IsConfigured}

-- A keyboard that is busy for a number of polls and then ready for every access; it has bytes to
-- send, one per read.
abbrev keyboard : Device
keyboard = record {
  State = ℕ × List ℕ;
  status = λ s. (if s.0 == 0 then 1 else 2);
  after_status = λ s. (s.0 - 1, s.1);
  data_byte = λ s. elim s.1 [ [] ↦ 0 | b ∷ rest ↦ b ];
  after_data = λ s. (s.0, elim s.1 [ [] ↦ [] | b ∷ rest ↦ rest ]);
  write_data = λ byte s. s;
  write_command = λ byte s. s;
}

abbrev waiting : ℕ × List ℕ
waiting = (1, 0xfa ∷ 0xaa ∷ [])

output_empty : (j : ℕ) → j < 1 → is_output_full (keyboard.status (polls keyboard j waiting)) ≡ false
unfolding get_bit polls
output_empty zero h = refl
output_empty (suc j) h = absurd (omega arith)

input_full : (j : ℕ) → j < 1 → is_input_full (keyboard.status (polls keyboard j waiting)) ≡ true
unfolding get_bit polls
input_full zero h = refl
input_full (suc j) h = absurd (omega arith)

read_data_lem_example : read_data keyboard waiting ≡ (
    if 1 == 1000
    then fail timeout (polls keyboard 1000 waiting)
    else done
        (keyboard.data_byte (polls keyboard 2 waiting))
        (keyboard.after_data (polls keyboard 2 waiting)))
unfolding get_bit polls
read_data_lem_example = read_data_lem keyboard 1 waiting (omega arith, output_empty, inr refl)

write_data_lem_example : write_data keyboard 0xff waiting ≡ (
    if 1 == 1000
    then fail timeout (polls keyboard 1000 waiting)
    else done tt (keyboard.write_data 0xff (polls keyboard 2 waiting)))
unfolding get_bit polls
write_data_lem_example = write_data_lem keyboard 1 0xff waiting (omega arith, input_full, inr refl)

-- The keyboard answers 0xfa, then 0xaa.
keyboard_reset_iff_example :
    (Keyboard.reset keyboard waiting ≡ done tt (0, []))
    ↔ Passed keyboard (write_data keyboard 0xff waiting) (0, [])
keyboard_reset_iff_example = keyboard_reset_iff keyboard waiting (0, [])

-- A mouse behind the second port, with id 0.
abbrev waiting_mouse : ℕ × List ℕ
waiting_mouse = (1, 0xfa ∷ 0xaa ∷ 0 ∷ [])

mouse_reset_iff_example : (Mouse.reset keyboard waiting_mouse ≡ done 0 (0, [])) ↔ (
    (tested : ℕ × List ℕ) × Passed keyboard
      (write_to_second_port_input_buffer keyboard 0xff waiting_mouse)
      tested
    × (read_data keyboard tested ≡ done 0 (0, [])))
mouse_reset_iff_example = mouse_reset_iff keyboard 0 waiting_mouse (0, [])

init-IsConfigured_example : IsConfigured device-IsChip 0x47 (Init.init device (idle 0x47))
init-IsConfigured_example = init-IsConfigured device-IsChip 0x47 (idle 0x47) (omega arith) refl
