-- ===== src/Ps2/Mouse.antt =====
-- kernel/src/ps2/mouse.rs: the mouse, which is reached through the second port.
use maizono_os.Base.{ℕ, Option, none, some, if◌then◌else◌}
use maizono_os.Base.Exec.{M, pure, throw, lift, map_err, ◌>>=◌, ◌>>◌}
use maizono_os.Ps2.Port.{Device}
use maizono_os.Ps2.Controller
use maizono_os.Ps2.Controller.{ControllerError}
use maizono_os.Ps2.Keyboard.{
  Response, self_test_passed, self_test_failed_1, self_test_failed_2, from_u8, is_acknowledged,
}

pub data MouseError : Type 0 where
  controller_error : ControllerError → MouseError
  command_not_acknowledged : Response → MouseError
  invalid_response self_test_failed : MouseError

pub data Command : Type 0 where
  enable_reporting reset_and_self_test : Command

unfoldable pub command_code : Command → ℕ
command_code enable_reporting = 0xf4
command_code reset_and_self_test = 0xff

module _ (device : Device) where
  open device use {State}

  abbrev pub Io : Type 0 → Type 0
  Io A = M State MouseError A

  unfoldable pub read_data : Io ℕ
  read_data s = map_err controller_error (Controller.read_data device s)

  unfoldable pub read_response : Io Response
  unfolding read_data
  read_response = do response ← read_data; lift (from_u8 response)

  -- `write_to_second_port_input_buffer` of the controller, then the check of the answer.
  unfoldable pub send : ℕ → Io (Unit {0})
  unfolding read_response is_acknowledged
  send byte = do
    λ s. map_err controller_error (Controller.write_to_second_port_input_buffer device byte s)
    response ← read_response
    if is_acknowledged response then pure tt else throw (command_not_acknowledged response)

  unfoldable pub write_command : Command → Option ℕ → Io (Unit {0})
  unfolding send command_code
  write_command command argument = do
    send (command_code command)
    elim argument [ none ↦ pure tt | some byte ↦ send byte ]

  unfoldable pub enable_data_reporting : Io (Unit {0})
  unfolding write_command
  enable_data_reporting = write_command enable_reporting none

  -- The `match` on the result of the test; a mouse that passed sends its id.
  unfoldable pub check_self_test : Response → Io ℕ
  unfolding read_data
  check_self_test self_test_passed = read_data
  check_self_test self_test_failed_1 = throw self_test_failed
  check_self_test self_test_failed_2 = throw self_test_failed
  check_self_test _ = throw invalid_response

  unfoldable pub reset : Io ℕ
  unfolding write_command read_response check_self_test
  reset = do
    write_command reset_and_self_test none
    test_result ← read_response
    check_self_test test_result
