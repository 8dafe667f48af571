-- ===== src/Ps2/Controller.antt =====
-- kernel/src/ps2/controller.rs: the methods of `Controller`.
use maizono_os.Base.{ℕ, zero, suc, ◌==◌, not, if◌then◌else◌}
use maizono_os.Base.Exec.{Exec, done, fail, panic, M, pure, throw, ◌>>=◌, ◌>>◌}
use maizono_os.Ps2.Port.{Device}
use maizono_os.Ps2.Bits.{Command, as_u8, is_output_full, is_input_full}
use maizono_os.Ps2.Bits

pub data ControllerError : Type 0 where
  timeout test_failed : ControllerError

abbrev pub loop_timeout : ℕ
loop_timeout = 1000

module _ (device : Device) where
  open device use {State, status, after_status, data_byte, after_data}

  abbrev pub Io : Type 0 → Type 0
  Io A = M State ControllerError A

  unfoldable pub write_command : Command → Io (Unit {0})
  write_command command s = done tt (device.write_command (as_u8 command) s)

  unfoldable pub read_status : Io ℕ
  read_status s = done (status s) (after_status s)

  -- The loops of `wait_for_read` and of `wait_for_write`, with `left` rounds left. What is bound by
  -- `let` is computed only where it is used.
  unfoldable pub wait_for_read_from : ℕ → Io (Unit {0})
  wait_for_read_from zero s = fail timeout s
  wait_for_read_from (suc left) s =
      let again = wait_for_read_from left (after_status s) in
      if is_output_full (status s) then done tt (after_status s) else again

  unfoldable pub wait_for_read : Io (Unit {0})
  wait_for_read = wait_for_read_from loop_timeout

  unfoldable pub wait_for_write_from : ℕ → Io (Unit {0})
  wait_for_write_from zero s = fail timeout s
  wait_for_write_from (suc left) s =
      let again = wait_for_write_from left (after_status s) in
      if not (is_input_full (status s)) then done tt (after_status s) else again

  unfoldable pub wait_for_write : Io (Unit {0})
  wait_for_write = wait_for_write_from loop_timeout

  unfoldable pub write_data : ℕ → Io (Unit {0})
  write_data data_byte = wait_for_write >> λ s. done tt (device.write_data data_byte s)

  unfoldable pub read_data : Io ℕ
  read_data = wait_for_read >> λ s. done (data_byte s) (after_data s)

  -- The result of a read is dropped, an error too.
  unfoldable pub ignore : Exec State ControllerError ℕ → (State → State) → State → State
  ignore (done a s) next d = next s
  ignore (fail e s) next d = next s
  ignore panic next d = d

  -- `while output full && count < timeout`, with `left` rounds left; the status is read first.
  unfoldable pub flush_from : ℕ → State → State
  flush_from zero s = after_status s
  flush_from (suc left) s =
      let again = ignore (read_data (after_status s)) (flush_from left) s in
      if is_output_full (status s) then again else after_status s

  unfoldable pub flush_data_port : Io (Unit {0})
  unfolding flush_from ignore
  flush_data_port s = done tt (flush_from loop_timeout s)

  unfoldable pub write_to_second_port_output_buffer : ℕ → Io (Unit {0})
  write_to_second_port_output_buffer byte =
      write_command Bits.write_second_port_output_buffer >> write_data byte

  unfoldable pub write_to_second_port_input_buffer : ℕ → Io (Unit {0})
  write_to_second_port_input_buffer byte =
      write_command Bits.write_second_port_input_buffer >> write_data byte

  unfoldable pub disable_first_port : Io (Unit {0})
  disable_first_port = write_command Bits.disable_first_port

  unfoldable pub disable_second_port : Io (Unit {0})
  disable_second_port = write_command Bits.disable_second_port

  unfoldable pub read_config_byte : Io ℕ
  read_config_byte = write_command Bits.read_controller_config_byte >> read_data

  unfoldable pub write_config_byte : ℕ → Io (Unit {0})
  write_config_byte config_byte =
      write_command Bits.write_controller_config_byte >> write_data config_byte

  -- A self test: the command, and the answer that means success.
  unfoldable pub run_test : Command → ℕ → Io (Unit {0})
  run_test command passed = do
    write_command command
    response ← read_data
    if response == passed then pure tt else throw test_failed

  unfoldable pub test_controller : Io (Unit {0})
  unfolding run_test
  test_controller = run_test Bits.test_controller 0x55

  unfoldable pub enable_second_port : Io (Unit {0})
  enable_second_port = write_command Bits.enable_second_port

  unfoldable pub test_first_port : Io (Unit {0})
  unfolding run_test
  test_first_port = run_test Bits.test_first_port 0x00

  unfoldable pub test_second_port : Io (Unit {0})
  unfolding run_test
  test_second_port = run_test Bits.test_second_port 0x00

  unfoldable pub enable_first_port : Io (Unit {0})
  enable_first_port = write_command Bits.enable_first_port
