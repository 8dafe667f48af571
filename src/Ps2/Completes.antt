-- ===== src/Ps2/Completes.antt =====
-- kernel/src/ps2/mod.rs: on a controller as its data sheet says, `init` returns, and what it leaves.
use maizono_os.Base.{ap, ◌∙◌, ℕ, ◌<◌, ◌^◌, ◌≡◌, refl, true, false, [], ◌∷◌, arith}
use maizono_os.Base.Exec.{Exec, done}
use maizono_os.Ps2.Port.{Device}
use maizono_os.Ps2.Bits.{
  as_u8, write_second_port_input_buffer, get_bit, get_bit-set_bit, set_first_port_interrupt,
  set_second_port_clock, get_first_port_clock, set_first_port_clock, get_second_port_clock,
}
use maizono_os.Ps2.Controller
use maizono_os.Ps2.Keyboard
use maizono_os.Ps2.Mouse
use maizono_os.Ps2.Handshake.{Acked-sent}
use maizono_os.Ps2.Resets.{Passed, keyboard_reset_iff, mouse_reset_iff}
use maizono_os.Ps2.Chip.{answered, Chip, to_mouse, idle, receive, IsChip}
use maizono_os.Ps2.Configured.{
  after_set_up, after_search, after_enabling, configured, after_set_up-lt, bit_after,
  configured-bits,
}
use maizono_os.Ps2.Init.{
  NoError, is_ok, expect, init, set_up, find_second_port, test_ports, enable_devices, reset_devices,
}
use maizono_os.Ps2.Answers.{
  Gives, then-Gives, pure-Gives, command-Gives, read_data-Gives, write_data-Gives,
  disable_first-Gives, enable_first-Gives, disable_second-Gives, enable_second-Gives,
  read_config-Gives, write_config-Gives, test_controller-Gives, test_first-Gives, test_second-Gives,
  flush-Gives,
}

module _ {device : Device} (chip : IsChip device) where
  open device use {State}

  call-Gives :
      {E A : Type 0} {a : A} {c : Chip} {r : Exec State E A}
      → Gives chip a c r
      → Gives chip a c (expect r)
  call-Gives g = record { out = g.out; returns = rw g.returns refl; shows = g.shows }

  is_ok-Gives :
      {E A : Type 0} {a : A} {c : Chip} {r : Exec State E A}
      → Gives chip a c r
      → Gives chip true c (is_ok r)
  is_ok-Gives g = record { out = g.out; returns = rw g.returns refl; shows = g.shows }

  module _ (n : ℕ) (s : State) (v : chip.view s ≡ idle n)
      (first_runs : get_first_port_clock n ≡ false)
      (second_runs : get_second_port_clock n ≡ false) where
    keyboard_reset-Gives : Gives chip tt (idle n) (Keyboard.reset device s)
    keyboard_reset-Gives =
        let wrote = write_data-Gives chip 0xff s (idle n) v in
        let answer =
          wrote.shows
          ∙ ap (λ b. record (idle n) { outbox = answered b [] (0xfa ∷ 0xaa ∷ []) }) first_runs in
        let ack = read_data-Gives chip wrote.out _ 0xfa (0xaa ∷ []) answer refl in
        let verdict = read_data-Gives chip ack.out _ 0xaa [] ack.shows refl in
        record {
          out = verdict.out;
          returns = (keyboard_reset_iff device s verdict.out).1 (record {
            acked = ack.out;
            command_taken = record {
              written = wrote.out;
              wrote = wrote.returns;
              answer = ack.returns;
            };
            verdict = verdict.returns;
          });
          shows = verdict.shows;
        }

    second_port-Gives :
        (byte : ℕ)
        → Gives chip tt
            (receive to_mouse byte (record (idle n) { target = to_mouse }))
            (Controller.write_to_second_port_input_buffer device byte s)
    unfolding Controller.write_to_second_port_input_buffer as_u8
    second_port-Gives byte =
        then-Gives chip _ (command-Gives chip write_second_port_input_buffer s (idle n) v)
          (λ s v. write_data-Gives chip byte s (record (idle n) { target = to_mouse }) v)

    mouse_reset-Gives : Gives chip 0 (idle n) (Mouse.reset device s)
    mouse_reset-Gives =
        let wrote = second_port-Gives 0xff in
        let answer =
          wrote.shows
          ∙ ap (λ b. record (idle n) { outbox = answered b [] (0xfa ∷ 0xaa ∷ 0x00 ∷ []) })
              second_runs in
        let ack = read_data-Gives chip wrote.out _ 0xfa (0xaa ∷ 0x00 ∷ []) answer refl in
        let verdict = read_data-Gives chip ack.out _ 0xaa (0x00 ∷ []) ack.shows refl in
        let id = read_data-Gives chip verdict.out _ 0x00 [] verdict.shows refl in
        let passed : Passed device (Controller.write_to_second_port_input_buffer device 0xff s)
            verdict.out =
          record {
            acked = ack.out;
            command_taken = record {
              written = wrote.out;
              wrote = wrote.returns;
              answer = ack.returns;
            };
            verdict = verdict.returns;
          } in
        record {
          out = id.out;
          returns = (mouse_reset_iff device 0 s id.out).1 (verdict.out, passed, id.returns);
          shows = id.shows;
        }

    reporting-Gives : Gives chip tt (idle n) (Mouse.enable_data_reporting device s)
    unfolding Mouse.enable_data_reporting Mouse.write_command Mouse.send Mouse.command_code
        Mouse.read_response Mouse.read_data
    reporting-Gives =
        let wrote = second_port-Gives 0xf4 in
        let answer =
          wrote.shows
          ∙ ap (λ b. record (idle n) { outbox = answered b [] (0xfa ∷ []) }) second_runs in
        let ack = read_data-Gives chip wrote.out _ 0xfa [] answer refl in
        record {
          out = ack.out;
          returns =
              rw
                (Acked-sent device Mouse.controller_error Mouse.command_not_acknowledged
                  (Controller.write_to_second_port_input_buffer device 0xf4 s) ack.out
                  (record { written = wrote.out; wrote = wrote.returns; answer = ack.returns }))
                refl;
          shows = ack.shows;
        }

  reset_devices-Gives :
      (n : ℕ) (s : State)
      → get_first_port_clock n ≡ false
      → get_second_port_clock n ≡ false
      → chip.view s ≡ idle n
      → Gives chip tt (idle n) (reset_devices device true s)
  unfolding reset_devices
  reset_devices-Gives n s f g v =
      then-Gives chip _ (call-Gives (keyboard_reset-Gives n s v f g)) (λ s v.
        then-Gives chip _ (call-Gives (mouse_reset-Gives n s v f g))
          (λ s v. call-Gives (reporting-Gives n s v f g)))

  set_up-Gives :
      (n : ℕ) (s : State)
      → chip.view s ≡ idle n
      → Gives chip tt (idle (after_set_up n)) (set_up device s)
  unfolding set_up
  set_up-Gives n s v =
      let half = set_first_port_clock n true in
      let off = set_second_port_clock half true in
      then-Gives chip _ (call-Gives (disable_first-Gives chip n s v)) (λ s v.
        then-Gives chip _ (call-Gives (disable_second-Gives chip half s v)) (λ s v.
          then-Gives chip _ (call-Gives (flush-Gives chip off s v)) (λ s v.
            then-Gives chip _ (call-Gives (read_config-Gives chip off s v)) (λ s v.
              then-Gives chip _ (call-Gives (write_config-Gives chip off s v (after_set_up n)))
                (λ s v.
                  then-Gives chip _ (call-Gives (test_controller-Gives chip (after_set_up n) s v))
                    (λ s v.
                      call-Gives
                        (write_config-Gives chip (after_set_up n) s v (after_set_up n))))))))

  find_second_port-Gives :
      (n : ℕ) (s : State)
      → n < 2 ^ 8
      → chip.view s ≡ idle n
      → Gives chip true (idle (after_search n)) (find_second_port device s)
  unfolding find_second_port
  find_second_port-Gives n s small v =
      let on = set_second_port_clock n false in
      let found : get_second_port_clock on ≡ false =
        (get_bit-set_bit n 5 5 false small (omega arith) (omega arith)).0 in
      then-Gives chip _ (call-Gives (enable_second-Gives chip n s v)) (λ s v.
        then-Gives chip _ (call-Gives (read_config-Gives chip on s v)) (λ s v. rw found (
          then-Gives chip _ (call-Gives (disable_second-Gives chip on s v)) (λ s v.
            then-Gives chip _
              (call-Gives
                (write_config-Gives chip (set_second_port_clock on true) s v (after_search n)))
              (λ s v. pure-Gives chip true s (idle (after_search n)) v)))))

  test_ports-Gives :
      (n : ℕ) (s : State)
      → chip.view s ≡ idle n
      → Gives chip (true, true) (idle n) (test_ports device true s)
  unfolding test_ports
  test_ports-Gives n s v = then-Gives chip _ (is_ok-Gives (test_first-Gives chip n s v)) (λ s v.
      then-Gives chip _ (is_ok-Gives (test_second-Gives chip n s v))
        (λ s v. pure-Gives chip (true, true) s (idle n) v))

  enable_devices-Gives :
      (n : ℕ) (s : State)
      → chip.view s ≡ idle n
      → Gives chip tt (idle (after_enabling n)) (enable_devices device true true s)
  unfolding enable_devices
  enable_devices-Gives n s v =
      let first_on = set_first_port_interrupt n true in
      let half = set_first_port_clock n false in
      let on = set_second_port_clock half false in
      then-Gives chip _ (call-Gives (read_config-Gives chip n s v)) (λ s v.
        then-Gives chip _
          (then-Gives chip _ (call-Gives (enable_first-Gives chip n s v))
            (λ s v. pure-Gives chip first_on s (idle half) v))
          (λ s v.
            then-Gives chip _
              (then-Gives chip _ (call-Gives (enable_second-Gives chip half s v))
                (λ s v. pure-Gives chip (after_enabling n) s (idle on) v))
              (λ s v. call-Gives (write_config-Gives chip on s v (after_enabling n)))))

  init-Gives :
      (n : ℕ) (s : State)
      → n < 2 ^ 8
      → chip.view s ≡ idle n
      → Gives chip tt (idle (configured n)) (init device s)
  unfolding init configured
  init-Gives n s small v =
      let m = after_set_up n in
      then-Gives chip _ (set_up-Gives n s v) (λ s v.
        then-Gives chip _ (find_second_port-Gives m s (after_set_up-lt n small) v) (λ s v.
          then-Gives chip _ (test_ports-Gives (after_search m) s v) (λ s v.
            then-Gives chip _ (enable_devices-Gives (after_search m) s v) (λ s v.
              reset_devices-Gives (configured n) s (configured-bits n 4 small (omega arith))
                (configured-bits n 5 small (omega arith)) v))))

  -- `result` is a normal return, and the controller has the configuration byte that is wanted.
  pub record IsConfigured (n : ℕ) (result : Exec State NoError (Unit {0})) : Type 0 where
    pub out : State
    pub returns : result ≡ done tt out
    pub config : ℕ
    pub shows : chip.view out ≡ idle config
    pub bits : (j : ℕ) → j < 8 → get_bit config j ≡ bit_after n j

  -- On a controller that behaves as its data sheet says, takes commands at any time and has nothing to
  -- be read, whatever its configuration byte, `init` returns. Both
  -- interrupts are then on, both clocks run, the translation is off, the other three bits of the byte
  -- are as before, and no byte is left to be read.
  pub init-IsConfigured :
      (n : ℕ) (s : State) → n < 2 ^ 8 → chip.view s ≡ idle n → IsConfigured n (init device s)
  init-IsConfigured n s small v =
      let g = init-Gives n s small v in
      record {
        out = g.out;
        returns = g.returns;
        config = configured n;
        shows = g.shows;
        bits = λ j inside. configured-bits n j small inside;
      }
