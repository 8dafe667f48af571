-- ===== src/Ps2/Configured.antt =====
-- The configuration byte that `init` of kernel/src/ps2/mod.rs writes.
use maizono_os.Base.{ℕ, leb, ◌&&◌, ◌<◌, ◌^◌, ◌≡◌, Bool, true, false, arith, if◌then◌else◌}
use maizono_os.Ps2.Bits.{
  get_bit, get_bit-set_bit, set_bit-lt, set_first_port_interrupt, set_first_port_translation,
  set_first_port_clock, set_second_port_interrupt, set_second_port_clock,
}

-- The configuration byte after the set-up, after the search for the second port, and at the end.
abbrev pub after_set_up : ℕ → ℕ
after_set_up n =
    set_first_port_clock
      (set_first_port_translation
        (set_first_port_interrupt (set_second_port_clock (set_first_port_clock n true) true) false)
        false)
      false

abbrev pub after_search : ℕ → ℕ
after_search n =
    set_second_port_clock (set_second_port_interrupt (set_second_port_clock n false) false) false

abbrev pub after_enabling : ℕ → ℕ
after_enabling n = set_second_port_interrupt (set_first_port_interrupt n true) true

-- The configuration byte that `init` leaves.
unfoldable pub configured : ℕ → ℕ
configured n = after_enabling (after_search (after_set_up n))

pub after_set_up-lt : (n : ℕ) → n < 2 ^ 8 → after_set_up n < 2 ^ 8
after_set_up-lt n h =
    set_bit-lt _ 4 false
      (set_bit-lt _ 6 false
        (set_bit-lt _ 0 false
          (set_bit-lt _ 5 true (set_bit-lt n 4 true h (omega arith)) (omega arith)) (omega arith))
        (omega arith))
      (omega arith)

-- Both interrupts are on, both clocks run, the translation is off, and the other bits are as before.
abbrev pub bit_after : ℕ → ℕ → Bool
bit_after n j = if leb j 1 then true else if leb 4 j && leb j 6 then false else get_bit n j

pub configured-bits : (n j : ℕ) → n < 2 ^ 8 → j < 8 → get_bit (configured n) j ≡ bit_after n j
unfolding configured
configured-bits n j small inside =
    let s1 = get_bit-set_bit n 4 j true small (omega arith) inside in
    let s2 = get_bit-set_bit _ 5 j true s1.1 (omega arith) inside in
    let s3 = get_bit-set_bit _ 0 j false s2.1 (omega arith) inside in
    let s4 = get_bit-set_bit _ 6 j false s3.1 (omega arith) inside in
    let s5 = get_bit-set_bit _ 4 j false s4.1 (omega arith) inside in
    let s6 = get_bit-set_bit _ 5 j false s5.1 (omega arith) inside in
    let s7 = get_bit-set_bit _ 1 j false s6.1 (omega arith) inside in
    let s8 = get_bit-set_bit _ 5 j false s7.1 (omega arith) inside in
    let s9 = get_bit-set_bit _ 0 j true s8.1 (omega arith) inside in
    let s10 = get_bit-set_bit _ 1 j true s9.1 (omega arith) inside in
    ground (arith, s1.0, s2.0, s3.0, s4.0, s5.0, s6.0, s7.0, s8.0, s9.0, s10.0)
