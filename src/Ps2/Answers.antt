-- ===== src/Ps2/Answers.antt =====
-- What the methods of the controller do on a device that behaves as its data sheet says.
use maizono_os.Base.{
  zero, suc, ◌<◌, Bool-cases, inl, inr, ℕ, ◌≡◌, refl, ◌∙◌, ap, true, false, List, [], ◌∷◌, arith,
  ◌==◌,
}
use maizono_os.Base.Exec.{Exec, done, M, bind}
use maizono_os.Ps2.Port.{Device}
use maizono_os.Ps2.Bits.{
  is_input_full, set_first_port_clock, Command, disable_first_port, enable_first_port,
  disable_second_port, enable_second_port, read_controller_config_byte,
  write_controller_config_byte, test_controller, test_first_port, test_second_port, as_u8,
  is_output_full, set_second_port_clock,
}
use maizono_os.Ps2.Controller
use maizono_os.Ps2.Waiting.{polls}
use maizono_os.Ps2.Chip.{Chip, to_config, idle, first, others, is_empty, command, receive, IsChip}

module _ {device : Device} (chip : IsChip device) where
  open device use {State}

  -- `result` is a normal return of `a`, and the device shows `c`.
  pub record Gives {E A : Type 0} (a : A) (c : Chip) (result : Exec State E A) : Type 0 where
    pub out : State
    pub returns : result ≡ done a out
    pub shows : chip.view out ≡ c

  view-polls : (n : ℕ) (s : State) → chip.view (polls device n s) ≡ chip.view s
  unfolding polls
  view-polls zero s = refl
  view-polls (suc n) s = view-polls n (device.after_status s) ∙ chip.polled s

  reading-returns :
      (fuel k : ℕ) (s : State)
      → k < fuel
      → is_output_full (device.status (polls device k s)) ≡ true
      → (n : ℕ) × (Controller.wait_for_read_from device fuel s ≡ done tt (polls device n s))
  unfolding Controller.wait_for_read_from polls
  reading-returns zero k s h full = absurd (omega arith)
  reading-returns (suc fuel) zero s h full = (1, rw full refl)
  reading-returns (suc fuel) (suc k) s h full =
      let (n, e) = reading-returns fuel k (device.after_status s) (omega arith) full in
      elim (Bool-cases (is_output_full (device.status s))) [
        | inl now ↦ (1, rw now refl)
        | inr later ↦ (suc n, rw later e)
      ]

  writing-returns :
      (fuel k : ℕ) (s : State)
      → k < fuel
      → is_input_full (device.status (polls device k s)) ≡ false
      → (n : ℕ) × (Controller.wait_for_write_from device fuel s ≡ done tt (polls device n s))
  unfolding Controller.wait_for_write_from polls
  writing-returns zero k s h empty = absurd (omega arith)
  writing-returns (suc fuel) zero s h empty = (1, rw empty refl)
  writing-returns (suc fuel) (suc k) s h empty =
      let (n, e) = writing-returns fuel k (device.after_status s) (omega arith) empty in
      elim (Bool-cases (is_input_full (device.status s))) [
        | inl later ↦ (suc n, rw later e)
        | inr now ↦ (1, rw now refl)
      ]

  pub read_data-Gives :
      (s : State) (c : Chip) (b : ℕ) (rest : List ℕ)
      → chip.view s ≡ c
      → c.outbox ≡ b ∷ rest
      → Gives b (record c { outbox = rest }) (Controller.read_data device s)
  unfolding Controller.read_data Controller.wait_for_read
  read_data-Gives s c b rest v e =
      let waits : is_empty (chip.view s).outbox ≡ false =
        ap (λ (c : Chip). is_empty c.outbox) v ∙ ap is_empty e in
      let (k, h, full) = chip.announces s waits in
      let (n, returns) = reading-returns 1000 k s h full in
      let s' = polls device n s in
      let same : chip.view s' ≡ c = view-polls n s ∙ v in
      let byte : device.data_byte s' ≡ b =
        chip.reads s' ∙ ap (λ (c : Chip). first c.outbox) same ∙ ap first e in
      record {
        out = device.after_data s';
        returns = rw (returns, byte) refl;
        shows =
            chip.read s'
            ∙ ap (λ (c : Chip). record c { outbox = others c.outbox }) same
            ∙ ap (λ l. record c { outbox = others l }) e;
      }

  pub write_data-Gives :
      (byte : ℕ) (s : State) (c : Chip)
      → chip.view s ≡ c
      → Gives tt (receive c.target byte c) (Controller.write_data device byte s)
  unfolding Controller.write_data Controller.wait_for_write
  write_data-Gives byte s c v =
      let (k, h, empty) = chip.accepts s in
      let (n, returns) = writing-returns 1000 k s h empty in
      let s' = polls device n s in
      record {
        out = device.write_data byte s';
        returns = rw returns refl;
        shows =
            chip.written byte s' ∙ ap (λ (c : Chip). receive c.target byte c) (view-polls n s ∙ v);
      }

  pub then-Gives :
      {E A B : Type 0} {a : A} {b : B} {c d : Chip} {r : Exec State E A} (f : A → M State E B)
      → Gives a c r
      → ((s : State) → chip.view s ≡ c → Gives b d (f a s))
      → Gives b d (bind r f)
  then-Gives f g h =
      let later = h g.out g.shows in
      record { out = later.out; returns = rw g.returns later.returns; shows = later.shows }

  pub pure-Gives :
      {E A : Type 0} (a : A) (s : State) (c : Chip) → chip.view s ≡ c → Gives {E = E} a c (done a s)
  pure-Gives a s c v = record { out = s; returns = refl; shows = v }

  pub command-Gives :
      (code : Command) (s : State) (c : Chip)
      → chip.view s ≡ c
      → Gives tt (command (as_u8 code) c) (Controller.write_command device code s)
  unfolding Controller.write_command
  command-Gives code s c v = record {
    out = device.write_command (as_u8 code) s;
    returns = refl;
    shows = chip.commanded (as_u8 code) s ∙ ap (command (as_u8 code)) v;
  }

  -- The methods on an idle chip with configuration byte `n`.
  module _ (n : ℕ) (s : State) (v : chip.view s ≡ idle n) where
    pub disable_first-Gives :
        Gives tt (idle (set_first_port_clock n true)) (Controller.disable_first_port device s)
    unfolding Controller.disable_first_port as_u8
    disable_first-Gives = command-Gives disable_first_port s (idle n) v

    pub enable_first-Gives :
        Gives tt (idle (set_first_port_clock n false)) (Controller.enable_first_port device s)
    unfolding Controller.enable_first_port as_u8
    enable_first-Gives = command-Gives enable_first_port s (idle n) v

    pub disable_second-Gives :
        Gives tt (idle (set_second_port_clock n true)) (Controller.disable_second_port device s)
    unfolding Controller.disable_second_port as_u8
    disable_second-Gives = command-Gives disable_second_port s (idle n) v

    pub enable_second-Gives :
        Gives tt (idle (set_second_port_clock n false)) (Controller.enable_second_port device s)
    unfolding Controller.enable_second_port as_u8
    enable_second-Gives = command-Gives enable_second_port s (idle n) v

    pub read_config-Gives : Gives n (idle n) (Controller.read_config_byte device s)
    unfolding Controller.read_config_byte as_u8
    read_config-Gives =
        then-Gives _ (command-Gives read_controller_config_byte s (idle n) v)
          (λ s v. read_data-Gives s (record (idle n) { outbox = n ∷ [] }) n [] v refl)

    pub write_config-Gives :
        (byte : ℕ) → Gives tt (idle byte) (Controller.write_config_byte device byte s)
    unfolding Controller.write_config_byte as_u8
    write_config-Gives byte =
        then-Gives _ (command-Gives write_controller_config_byte s (idle n) v)
          (λ s v. write_data-Gives byte s (record (idle n) { target = to_config }) v)

    run_test-Gives :
        (code : Command) (passed : ℕ)
        → command (as_u8 code) (idle n) ≡ record (idle n) { outbox = passed ∷ [] }
        → Gives tt (idle n) (Controller.run_test device code passed s)
    unfolding Controller.run_test
    run_test-Gives code passed e = then-Gives _ (command-Gives code s (idle n) v) (λ s v.
        then-Gives _
          (read_data-Gives s (record (idle n) { outbox = passed ∷ [] }) passed [] (v ∙ e) refl)
          (λ s v.
            let same : (passed == passed) ≡ true = ground arith in
            rw same (pure-Gives tt s (idle n) v)))

    pub test_controller-Gives : Gives tt (idle n) (Controller.test_controller device s)
    unfolding Controller.test_controller as_u8
    test_controller-Gives = run_test-Gives test_controller 0x55 refl

    pub test_first-Gives : Gives tt (idle n) (Controller.test_first_port device s)
    unfolding Controller.test_first_port as_u8
    test_first-Gives = run_test-Gives test_first_port 0x00 refl

    pub test_second-Gives : Gives tt (idle n) (Controller.test_second_port device s)
    unfolding Controller.test_second_port as_u8
    test_second-Gives = run_test-Gives test_second_port 0x00 refl

    pub flush-Gives : Gives tt (idle n) (Controller.flush_data_port device s)
    unfolding Controller.flush_data_port Controller.flush_from
    flush-Gives =
        let empty = chip.drained s (ap (λ (c : Chip). is_empty c.outbox) v) in
        record { out = device.after_status s; returns = rw empty refl; shows = chip.polled s ∙ v }
