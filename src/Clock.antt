-- ===== src/Clock.antt =====
-- The clock of pkg/time/clock.go. A context is the time that it carries, and `real` is `time.Now`.
use go_service_template.Common.{◌≡◌, refl, Option, none, some}
use go_service_template.Message.{Time}

abbrev pub ClockContext : Type 0
ClockContext = Option Time

-- `Now`.
unfoldable pub now : Time → ClockContext → Time
now real (some t) = t
now real none = real

-- `Set`.
unfoldable pub set_time : Time → ClockContext → ClockContext
set_time t c = some t

-- `Freeze`.
unfoldable pub freeze : Time → ClockContext → ClockContext
unfolding set_time
freeze real (some t) = some t
freeze real none = set_time real none

-- In a frozen context the time stays what it was, whatever the real time is then.
pub now-freeze : (real later : Time) (c : ClockContext) → now later (freeze real c) ≡ now real c
unfolding now freeze set_time
now-freeze real later (some t) = refl
now-freeze real later none = refl
