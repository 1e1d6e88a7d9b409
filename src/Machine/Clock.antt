-- ===== src/Machine/Clock.antt =====
-- The DSS call SYSTIME. The source keeps the clock as a number of seconds with a fraction; here it is
-- the number of milliseconds, which holds every start and every step that the scenarios ask for.
pub mod Readings
use sprinter_3c509b.Base.{
  ℕ, ◌+◌, ◌/◌, ◌%◌, Bool, Option, none, some, leb, if◌then◌else◌, or_default,
}

pub record Clock : Type 0 where
  pub milliseconds : ℕ
  pub reads : ℕ

pub record ClockSettings : Type 0 where
  pub freeze_after_reads : Option ℕ
  pub step_milliseconds : Option ℕ

pub record Time : Type 0 where
  pub hour : ℕ
  pub minute : ℕ
  pub second : ℕ

abbrev pub is_frozen : ClockSettings → Clock → Bool
is_frozen o c = elim o.freeze_after_reads [ none ↦ Bool.false | some n ↦ leb n c.reads ]

abbrev pub step_of : ClockSettings → ℕ
step_of o = or_default o.step_milliseconds 1000

-- The registers get the whole seconds of the day; the clock moves on by a step with its fraction.
unfoldable pub systime : ClockSettings → Clock → Time × Clock
systime o c =
    let now = c.milliseconds / 1000 % 86400 in
    let step = if is_frozen o c then 0 else step_of o in
    (
      record { hour = now / 3600; minute = now / 60 % 60; second = now % 60 },
      record { milliseconds = (c.milliseconds + step) % 86400000; reads = c.reads + 1 },
    )
