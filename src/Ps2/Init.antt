-- ===== src/Ps2/Init.antt =====
-- kernel/src/ps2/mod.rs: `init`. Every error that it meets is a panic. What it prints is left out.
use maizono_os.Base.{Bool, true, false, not, if◌then◌else◌}
use maizono_os.Base.Exec.{Exec, done, fail, panic, M, pure, ◌>>=◌, ◌>>◌}
use maizono_os.Ps2.Port.{Device}
use maizono_os.Ps2.Bits.{
  set_first_port_interrupt, set_first_port_translation, set_first_port_clock, get_second_port_clock,
  set_second_port_interrupt, set_second_port_clock,
}
use maizono_os.Ps2.Controller
use maizono_os.Ps2.Keyboard
use maizono_os.Ps2.Mouse

-- `init` has no error of its own.
abbrev pub NoError : Type 0
NoError = Unit {0}

-- `.expect(..)`, and `unwrap_or_else` with a panic
abbrev pub expect : {S E A : Type 0} → Exec S E A → Exec S NoError A
expect (done a s) = done a s
expect (fail e s) = panic
expect panic = panic

-- `.is_ok()`
abbrev pub is_ok : {S E A : Type 0} → Exec S E A → Exec S NoError Bool
is_ok (done a s) = done true s
is_ok (fail e s) = done false s
is_ok panic = panic

module _ (device : Device) where
  open device use {State}

  abbrev pub Io : Type 0 → Type 0
  Io A = M State NoError A

  -- A call of a controller method that panics on an error.
  abbrev pub call : {E A : Type 0} → M State E A → Io A
  call m s = expect (m s)

  -- Steps 3 to 6.
  unfoldable pub set_up : Io (Unit {0})
  set_up = do
    call (Controller.disable_first_port device)
    call (Controller.disable_second_port device)
    call (Controller.flush_data_port device)
    config_byte ← call (Controller.read_config_byte device)
    let config_byte = set_first_port_interrupt config_byte false
    let config_byte = set_first_port_translation config_byte false
    let config_byte = set_first_port_clock config_byte false
    call (Controller.write_config_byte device config_byte)
    call (Controller.test_controller device)
    call (Controller.write_config_byte device config_byte)

  -- Step 7: whether there is a second port.
  unfoldable pub find_second_port : Io Bool
  find_second_port = do
    call (Controller.enable_second_port device)
    config_byte ← call (Controller.read_config_byte device)
    if not (get_second_port_clock config_byte)
        then (do
          call (Controller.disable_second_port device)
          let config_byte = set_second_port_interrupt config_byte false
          let config_byte = set_second_port_clock config_byte false
          call (Controller.write_config_byte device config_byte)
          pure true)
        else pure false

  -- Step 8: which ports work.
  unfoldable pub test_ports : Bool → Io (Bool × Bool)
  test_ports has_second_port = do
    first_port_works ← λ s. is_ok (Controller.test_first_port device s)
    second_port_works ←
        if has_second_port then (λ s. is_ok (Controller.test_second_port device s)) else pure false
    pure (first_port_works, second_port_works)

  -- Step 9.
  unfoldable pub enable_devices : Bool → Bool → Io (Unit {0})
  enable_devices first_port_works second_port_works = do
    config_byte ← call (Controller.read_config_byte device)
    config_byte ←
        if first_port_works
        then (do
          call (Controller.enable_first_port device)
          pure (set_first_port_interrupt config_byte true))
        else pure config_byte
    config_byte ←
        if second_port_works
        then (do
          call (Controller.enable_second_port device)
          pure (set_second_port_interrupt config_byte true))
        else pure config_byte
    call (Controller.write_config_byte device config_byte)

  -- Step 10.
  unfoldable pub reset_devices : Bool → Io (Unit {0})
  reset_devices second_port_works = do
    call (Keyboard.reset device)
    call (Mouse.reset device)
    if second_port_works then call (Mouse.enable_data_reporting device) else pure tt

  unfoldable pub init : Io (Unit {0})
  unfolding set_up find_second_port test_ports enable_devices reset_devices
  init = do
    set_up
    has_second_port ← find_second_port
    works ← test_ports has_second_port
    enable_devices works.0 works.1
    reset_devices works.1
