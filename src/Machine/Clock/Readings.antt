-- ===== src/Machine/Clock/Readings.antt =====
-- What a program reads that calls SYSTIME again and again.
use sprinter_3c509b.Base.{ℕ, zero, suc, ◌-◌, Option, none, some, min}
use sprinter_3c509b.Machine.Clock.{Clock, ClockSettings, systime}

-- The clock after `n` calls.
abbrev pub after_calls : ClockSettings → ℕ → Clock → Clock
after_calls o zero c = c
after_calls o (suc n) c = after_calls o n (systime o c).1

-- How many of `n` calls move the clock on, where `reads` calls were before them: none does once the
-- clock is frozen.
abbrev pub moving : Option ℕ → ℕ → ℕ → ℕ
moving none reads n = n
moving (some limit) reads n = min n (limit - reads)
