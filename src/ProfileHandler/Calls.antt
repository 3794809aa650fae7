-- ===== src/ProfileHandler/Calls.antt =====
-- The calls on a `ProfileHandler` in any order: which callbacks a signal runs, and when the timer is
-- armed.
use gperftools.Base.{ℕ, ◌<◌, ◌≡◌, ◌⊎◌, Bool, false, List, Outcome, ok, if◌then◌else◌}
use gperftools.ProfileHandler.{ProfileHandler}
use gperftools.ProfileHandler.Tokens.{AreDistinct}
use gperftools.ProfileHandler.Timer.{IsConsistent}
use gperftools.ProfileHandler.Trace.{Call, registered, signals_of}

-- The signals that come to the handler, if it is installed.
unfoldable pub received : Bool → List Call → ℕ
received installed cs = if installed then signals_of cs else 0

-- The handler is consistent and holds what the calls say.
record Holds (start h : ProfileHandler) (cs : List Call) : Type 0 where
  consistent : IsConsistent h
  callbacks : h.callbacks ≡ registered cs
  distinct : AreDistinct (registered cs)
  interrupts : h.interrupts ≡ received start.handler_installed cs
  frequency : h.frequency ≡ start.frequency
  per_thread : h.per_thread_timer_enabled ≡ start.per_thread_timer_enabled
  installed : h.handler_installed ≡ start.handler_installed

module _ (start : ProfileHandler)
    (able : (start.per_thread_timer_enabled ≡ false) ⊎ (1 < start.frequency)) where
  Reaches : List Call → Outcome ProfileHandler → Type 0
  Reaches cs o = (h : ProfileHandler) × (o ≡ ok h) × Holds start h cs
