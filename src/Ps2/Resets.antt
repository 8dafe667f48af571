-- ===== src/Ps2/Resets.antt =====
-- kernel/src/ps2/keyboard.rs and kernel/src/ps2/mouse.rs: when the resets succeed.
use maizono_os.Base.{ℕ, ◌≡◌, refl, ◌∙◌, ◌↔◌, none, arith}
use maizono_os.Base.Exec.{Exec, done, bind, lift, map_err, bind-eq-done, map_err-eq-done}
use maizono_os.Ps2.Port.{Device}
use maizono_os.Ps2.Controller
use maizono_os.Ps2.Controller.{ControllerError}
use maizono_os.Ps2.Keyboard
use maizono_os.Ps2.Mouse
use maizono_os.Ps2.Keyboard.{
  Response, from_u8, as_u8, is_acknowledged, acknowledged, self_test_passed,
}
use maizono_os.Ps2.Handshake.{response-done, response-returns, Acked, sent-Acked, Acked-sent}

module _ (device : Device) where
  open device use {State}

  -- After `write` the device acknowledged the byte, and reported a passed self test.
  pub record Passed (write : Exec State ControllerError (Unit {0})) (s' : State) : Type 0 where
    pub acked : State
    pub command_taken : Acked device write acked
    pub verdict : Controller.read_data device acked ≡ done 0xaa s'

  keyboard_passed_only :
      (r : Response) (s s' : State)
      → Keyboard.check_self_test device r s ≡ done tt s'
      → (as_u8 r ≡ 0xaa) × (s ≡ s')
  unfolding Keyboard.check_self_test as_u8
  keyboard_passed_only self_test_passed s s' h = ground arith
  keyboard_passed_only r s s' h = ground arith

  -- The reset of the keyboard returns normally exactly when the controller takes the byte 0xff, the
  -- keyboard answers it with 0xfa and then sends 0xaa; every other run is an error or a panic.
  pub keyboard_reset_iff :
      (s s' : State)
      → (Keyboard.reset device s ≡ done tt s') ↔ Passed (Controller.write_data device 0xff s) s'
  unfolding Keyboard.reset Keyboard.write_command Keyboard.send Keyboard.write_data
      Keyboard.command_code Keyboard.read_response Keyboard.read_data Keyboard.check_self_test as_u8
  keyboard_reset_iff s s' = (forward, backward)
    where
      forward :
          Keyboard.reset device s ≡ done tt s' → Passed (Controller.write_data device 0xff s) s'
      forward h =
          let (u, s1, e, f) =
            bind-eq-done (Keyboard.write_command device Keyboard.reset_and_self_test none s) _ h in
          let (v, s2, e2, f2) = bind-eq-done (Keyboard.send device 0xff s) _ e in
          let (r, s3, g, k) =
            bind-eq-done
              (bind (map_err Keyboard.controller_error (Controller.read_data device s1))
                (λ c. lift (from_u8 c)))
              _ f in
          let (ok, same) = keyboard_passed_only r s3 s' k in
          let answered = response-done device Keyboard.controller_error s1 r s3 g in
          record {
            acked = s1;
            command_taken =
                sent-Acked device Keyboard.controller_error Keyboard.command_not_acknowledged _ s1
                  (e2 ∙ f2);
            verdict = cc;
          }

      backward :
          Passed (Controller.write_data device 0xff s) s' → Keyboard.reset device s ≡ done tt s'
      backward p =
          rw
            (
              Acked-sent device Keyboard.controller_error Keyboard.command_not_acknowledged _
                  p.acked p.command_taken,
              response-returns device Keyboard.controller_error p.acked self_test_passed s'
                  p.verdict,
            )
            refl

  mouse_passed_only :
      (r : Response) (s : State) (id : ℕ) (s' : State)
      → Mouse.check_self_test device r s ≡ done id s'
      → (as_u8 r ≡ 0xaa) × (Mouse.read_data device s ≡ done id s')
  unfolding Mouse.check_self_test as_u8
  mouse_passed_only self_test_passed s id s' h = (refl, h)
  mouse_passed_only r s id s' h = ground arith

  -- The reset of the mouse returns an id exactly when the controller takes the byte 0xff for the
  -- second port, the mouse answers it with 0xfa, then sends 0xaa, and then sends the id.
  pub mouse_reset_iff :
      (id : ℕ) (s s' : State)
      → (Mouse.reset device s ≡ done id s') ↔ (
          (tested : State) × Passed
            (Controller.write_to_second_port_input_buffer device 0xff s)
            tested
          × (Controller.read_data device tested ≡ done id s'))
  unfolding Mouse.reset Mouse.write_command Mouse.send Mouse.command_code Mouse.read_response
      Mouse.read_data Mouse.check_self_test as_u8
  mouse_reset_iff id s s' = (forward, backward)
    where
      forward :
          Mouse.reset device s ≡ done id s'
          → (tested : State) × Passed
              (Controller.write_to_second_port_input_buffer device 0xff s)
              tested
            × (Controller.read_data device tested ≡ done id s')
      forward h =
          let (u, s1, e, f) =
            bind-eq-done (Mouse.write_command device Mouse.reset_and_self_test none s) _ h in
          let (v, s2, e2, f2) = bind-eq-done (Mouse.send device 0xff s) _ e in
          let (r, s3, g, k) =
            bind-eq-done
              (bind (map_err Mouse.controller_error (Controller.read_data device s1))
                (λ c. lift (from_u8 c)))
              _ f in
          let (ok, sends) = mouse_passed_only r s3 id s' k in
          let answered = response-done device Mouse.controller_error s1 r s3 g in
          let passed : Passed (Controller.write_to_second_port_input_buffer device 0xff s) s3 =
            record {
              acked = s1;
              command_taken =
                  sent-Acked device Mouse.controller_error Mouse.command_not_acknowledged _ s1
                    (e2 ∙ f2);
              verdict = cc;
            } in
          (
            s3,
            passed,
            map_err-eq-done Mouse.controller_error (Controller.read_data device s3) sends,
          )

      backward :
          (tested : State) × Passed
              (Controller.write_to_second_port_input_buffer device 0xff s)
              tested
            × (Controller.read_data device tested ≡ done id s')
          → Mouse.reset device s ≡ done id s'
      backward (tested, p, sends) =
          rw
            (
              Acked-sent device Mouse.controller_error Mouse.command_not_acknowledged _ p.acked
                  p.command_taken,
              response-returns device Mouse.controller_error p.acked self_test_passed tested
                  p.verdict,
              sends,
            )
            refl
