-- ===== src/Syscall.antt =====
-- sim/syscall.h and the checks of sim/display.h, as the reference model runs them: `quiet`, so that
-- nothing is printed or presented and input comes from the record of the other core.
use rv_o.Base.{
  ℕ, ◌+◌, ◌*◌, ◌^◌, Option, none, some, Bool, true, false, ◌||◌, not, ltb, ◌==◌, if◌then◌else◌, u32,
  bit_and, bit_or, length, or_none,
}
use rv_o.Memory.{Memory, load8}

abbrev pub syscall_returns_input : ℕ → Bool
syscall_returns_input num = num == 5 || num == 7

-- The lambda `word` of `present`, with its loop unrolled.
unfoldable pub read_word : Memory → ℕ → Option ℕ
unfolding load8
read_word m addr = or_none (load8 m (u32 (addr + 0))) (λ b0.
    or_none (load8 m (u32 (addr + 1))) (λ b1. or_none (load8 m (u32 (addr + 2))) (λ b2.
      or_none (load8 m (u32 (addr + 3))) (λ b3.
        some (bit_or (bit_or (bit_or (bit_or 0 b0) (b1 * 2 ^ 8)) (b2 * 2 ^ 16)) (b3 * 2 ^ 24))))))

-- `RV_MAX_WIDTH`, `RV_MAX_HEIGHT`, and the formats of sim/display_protocol.h
abbrev pub rv_max_width : ℕ
rv_max_width = 640

abbrev pub rv_max_height : ℕ
rv_max_height = 480

-- The lambda `check` of `present`.
abbrev pub fits : Memory → ℕ → ℕ → Option (Unit {0})
fits m addr size = if ltb (length m.bytes) (addr + size) then none else some tt

-- `display::present` up to the point where a quiet run returns; `none` ends the run.
unfoldable pub present : Memory → ℕ → Option (Unit {0})
unfolding read_word
present m descriptor = or_none (fits m descriptor 16) (λ _.
    or_none (read_word m descriptor) (λ pixels.
      or_none (read_word m (u32 (descriptor + 4))) (λ width.
        or_none (read_word m (u32 (descriptor + 8))) (λ height.
          or_none (read_word m (u32 (descriptor + 12))) (λ format.
            let size = width * height in
            if width == 0
              || (ltb rv_max_width width
                  || (height == 0
                      || (ltb rv_max_height height || not (format == 1 || format == 2))))
            then none
            else if format == 2
            then or_none (fits m descriptor 20) (λ _.
              or_none (read_word m (u32 (descriptor + 16)))
                (λ palette. or_none (fits m palette (256 * 4)) (λ _. fits m pixels size)))
            else fits m pixels (size * 4))))))

-- What a call leaves: its argument, whether the program asked to exit, and the exit code.
pub record Outcome : Type 0 where
  pub arg : ℕ
  pub exits : Bool
  pub exit_code : ℕ

-- `runSyscall` with `quiet`.
unfoldable pub run_syscall : ℕ → ℕ → Memory → ℕ → ℕ → Option Outcome
unfolding present
run_syscall num arg m exit_code replay_input =
    let goes_on : Outcome = record { arg = arg; exits = false; exit_code = exit_code } in
    if num == 5 || num == 7
    then some (record { arg = replay_input; exits = false; exit_code = exit_code })
    else if num == 6
    then or_none (present m arg) (λ _. some goes_on)
    else if num == 10 || num == 93
    then some (record { arg = arg; exits = true; exit_code = bit_and arg 0xFF })
    else some goes_on
