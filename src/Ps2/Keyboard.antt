-- ===== src/Ps2/Keyboard.antt =====
-- kernel/src/ps2/keyboard.rs: the answers of PS/2 devices and the keyboard.
use maizono_os.Base.{ℕ, Bool, true, false, Option, none, some, ◌==◌, if◌then◌else◌}
use maizono_os.Base.Exec.{M, pure, throw, lift, map_err, ◌>>=◌, ◌>>◌}
use maizono_os.Ps2.Port.{Device}
use maizono_os.Ps2.Controller
use maizono_os.Ps2.Controller.{ControllerError}

pub data Response : Type 0 where
  internal_buffer_overrun self_test_passed response_to_echo acknowledged : Response
  self_test_failed_1 self_test_failed_2 resend : Response
  key_detection_error_or_interal_buffer_overrun : Response

pub data KeyboardError : Type 0 where
  controller_error : ControllerError → KeyboardError
  command_not_acknowledged : Response → KeyboardError
  self_test_failed invalid_response : KeyboardError

unfoldable pub as_u8 : Response → ℕ
as_u8 internal_buffer_overrun = 0x00
as_u8 self_test_passed = 0xaa
as_u8 response_to_echo = 0xee
as_u8 acknowledged = 0xfa
as_u8 self_test_failed_1 = 0xfc
as_u8 self_test_failed_2 = 0xfd
as_u8 resend = 0xfe
as_u8 key_detection_error_or_interal_buffer_overrun = 0xff

-- Any other code panics.
unfoldable pub from_u8 : ℕ → Option Response
unfolding as_u8
from_u8 code =
    if code == as_u8 internal_buffer_overrun
    then some internal_buffer_overrun
    else if code == as_u8 self_test_passed
    then some self_test_passed
    else if code == as_u8 response_to_echo
    then some response_to_echo
    else if code == as_u8 acknowledged
    then some acknowledged
    else if code == as_u8 self_test_failed_1
    then some self_test_failed_1
    else if code == as_u8 self_test_failed_2
    then some self_test_failed_2
    else if code == as_u8 resend
    then some resend
    else if code == as_u8 key_detection_error_or_interal_buffer_overrun
    then some key_detection_error_or_interal_buffer_overrun
    else none

-- `matches!(response, Response::Acknowledged)`
unfoldable pub is_acknowledged : Response → Bool
is_acknowledged acknowledged = true
is_acknowledged _ = false

pub data Command : Type 0 where
  reset_and_self_test : Command

unfoldable pub command_code : Command → ℕ
command_code reset_and_self_test = 0xff

module _ (device : Device) where
  open device use {State}

  abbrev pub Io : Type 0 → Type 0
  Io A = M State KeyboardError A

  unfoldable pub read_data : Io ℕ
  read_data s = map_err controller_error (Controller.read_data device s)

  unfoldable pub write_data : ℕ → Io (Unit {0})
  write_data byte s = map_err controller_error (Controller.write_data device byte s)

  unfoldable pub read_response : Io Response
  unfolding read_data
  read_response = do response ← read_data; lift (from_u8 response)

  -- `write_data` of the controller, then the check of the answer.
  unfoldable pub send : ℕ → Io (Unit {0})
  unfolding write_data read_response is_acknowledged
  send byte = do
    write_data byte
    response ← read_response
    if is_acknowledged response then pure tt else throw (command_not_acknowledged response)

  unfoldable pub write_command : Command → Option ℕ → Io (Unit {0})
  unfolding send command_code
  write_command command argument = do
    send (command_code command)
    elim argument [ none ↦ pure tt | some byte ↦ send byte ]

  -- The `match` on the answer that follows the command.
  unfoldable pub check_self_test : Response → Io (Unit {0})
  check_self_test self_test_passed = pure tt
  check_self_test self_test_failed_1 = throw self_test_failed
  check_self_test self_test_failed_2 = throw self_test_failed
  check_self_test _ = throw invalid_response

  unfoldable pub reset : Io (Unit {0})
  unfolding write_command read_response
  reset = do
    write_command reset_and_self_test none
    response ← read_response
    check_self_test response
