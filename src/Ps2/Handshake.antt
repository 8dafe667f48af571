-- ===== src/Ps2/Handshake.antt =====
-- kernel/src/ps2: how a device answers a byte that it is sent.
use maizono_os.Base.{ℕ, ◌≡◌, refl, ◌↔◌, some, arith, if◌then◌else◌}
use maizono_os.Base.Exec.{
  Exec, done, bind, pure, throw, lift, map_err, bind-eq-done, map_err-eq-done, lift-eq-done,
}
use maizono_os.Ps2.Port.{Device}
use maizono_os.Ps2.Controller
use maizono_os.Ps2.Controller.{ControllerError}
use maizono_os.Ps2.Keyboard.{Response, from_u8, as_u8, is_acknowledged, acknowledged}

-- `from_u8` and `as_u8` of an answer are inverse to each other: a code is read as an answer exactly
-- when it is the code of that answer, so every other code panics.
pub from_u8_iff : (code : ℕ) (r : Response) → (from_u8 code ≡ some r) ↔ (as_u8 r ≡ code)
unfolding from_u8 as_u8
from_u8_iff code r = (forward, backward)
  where
    forward : from_u8 code ≡ some r → as_u8 r ≡ code
    forward h = ground arith

    backward : as_u8 r ≡ code → from_u8 code ≡ some r
    backward h = ground arith

module _ (device : Device) where
  open device use {State}

  -- An answer is the response that its byte stands for, whichever device reads it.
  pub response-done :
      {E : Type 0} (g : ControllerError → E) (s : State) (r : Response) (s' : State)
      → bind (map_err g (Controller.read_data device s)) (λ c. lift (from_u8 c)) ≡ done r s'
      → Controller.read_data device s ≡ done (as_u8 r) s'
  response-done g s r s' h =
      let (code, s1, e, f) =
        bind-eq-done (map_err g (Controller.read_data device s)) (λ c. lift (from_u8 c)) h in
      let read = map_err-eq-done g (Controller.read_data device s) e in
      let (found, same) = lift-eq-done (from_u8 code) f in
      let byte = (from_u8_iff code r).0 found in cc

  pub response-returns :
      {E : Type 0} (g : ControllerError → E) (s : State) (r : Response) (s' : State)
      → Controller.read_data device s ≡ done (as_u8 r) s'
      → bind (map_err g (Controller.read_data device s)) (λ c. lift (from_u8 c)) ≡ done r s'
  response-returns g s r s' e = rw (e, (from_u8_iff (as_u8 r) r).1 refl)

  -- `write`, which sends a byte to the device, succeeds, and the device acknowledges the byte.
  pub record Acked (write : Exec State ControllerError (Unit {0})) (s' : State) : Type 0 where
    pub written : State
    pub wrote : write ≡ done tt written
    pub answer : Controller.read_data device written ≡ done 0xfa s'

  acknowledged_only :
      {E : Type 0} (g : Response → E) (r : Response) (s s' : State)
      → (if is_acknowledged r then pure tt else throw (g r)) s ≡ done tt s'
      → (as_u8 r ≡ 0xfa) × (s ≡ s')
  unfolding is_acknowledged as_u8
  acknowledged_only g acknowledged s s' h = ground arith
  acknowledged_only g r s s' h = ground arith

  module _ {E : Type 0} (g : ControllerError → E) (refused : Response → E) where
    -- Sending a byte to the keyboard or to the mouse.
    abbrev pub sent : Exec State ControllerError (Unit {0}) → Exec State E (Unit {0})
    sent write = bind (map_err g write) (λ u s.
        bind (bind (map_err g (Controller.read_data device s)) (λ c. lift (from_u8 c)))
          (λ r. if is_acknowledged r then pure tt else throw (refused r)))

    pub sent-Acked :
        (write : Exec State ControllerError (Unit {0})) (s' : State)
        → sent write ≡ done tt s'
        → Acked write s'
    sent-Acked write s' h =
        let (u, s1, e, f) = bind-eq-done (map_err g write) _ h in
        let (r, s2, a, k) =
          bind-eq-done (bind (map_err g (Controller.read_data device s1)) (λ c. lift (from_u8 c))) _
            f in
        let (ack, same) = acknowledged_only refused r s2 s' k in
        let answered = response-done g s1 r s2 a in
        record { written = s1; wrote = map_err-eq-done g write e; answer = cc }

    pub Acked-sent :
        (write : Exec State ControllerError (Unit {0})) (s' : State)
        → Acked write s'
        → sent write ≡ done tt s'
    unfolding is_acknowledged as_u8
    Acked-sent write s' a = rw (a.wrote, response-returns g a.written acknowledged s' a.answer) refl
