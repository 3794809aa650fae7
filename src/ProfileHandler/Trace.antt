-- ===== src/ProfileHandler/Trace.antt =====
-- Sequences of calls on a `ProfileHandler`, and what they say of its callbacks.
use gperftools.Base.{ℕ, suc, ◌≡◌, Bool, true, false, List, [], ◌∷◌, ◌++◌, Outcome, ok, ◌>>=◌}
use gperftools.ProfileHandler.{
  Token, ProfileHandler, register_thread, register_callback, unregister_callback, reset,
  receive_signal,
}
use gperftools.ProfileHandler.Tokens.{others, has}

-- A call; that of a thread comes with whether the system gives it a timer.
pub data Call : Type 0 where
  registers_thread : Bool → Call
  resets signals : Call
  registers : Token → Call
  unregisters : ℕ → Call

unfoldable pub step : Call → ProfileHandler → Outcome ProfileHandler
step (registers_thread given) h = register_thread given h
step resets h = ok (reset h)
step signals h = ok (receive_signal h).1
step (registers t) h = ok (register_callback t h)
step (unregisters a) h = unregister_callback a h

-- The handler after these calls, the last of them first.
unfoldable pub run : ProfileHandler → List Call → Outcome ProfileHandler
run h [] = ok h
run h (c ∷ cs) = run h cs >>= λ h'. step c h'

-- What the calls say of the callbacks: those registered and neither unregistered nor reset, in order.
unfoldable pub registered : List Call → List Token
registered [] = []
registered (registers_thread given ∷ cs) = registered cs
registered (resets ∷ cs) = []
registered (signals ∷ cs) = registered cs
registered (registers t ∷ cs) = registered cs ++ (t ∷ [])
registered (unregisters a ∷ cs) = others a (registered cs)

unfoldable pub signals_of : List Call → ℕ
signals_of [] = 0
signals_of (signals ∷ cs) = suc (signals_of cs)
signals_of (registers_thread given ∷ cs) = signals_of cs
signals_of (resets ∷ cs) = signals_of cs
signals_of (registers t ∷ cs) = signals_of cs
signals_of (unregisters a ∷ cs) = signals_of cs

-- The system gives each timer for a thread, `new` gives an address that no registered token has, and only registered tokens are unregistered.
abbrev pub AreProper : List Call → Type 0
AreProper [] = Unit
AreProper (registers_thread given ∷ cs) = (given ≡ true) × AreProper cs
AreProper (resets ∷ cs) = AreProper cs
AreProper (signals ∷ cs) = AreProper cs
AreProper (registers t ∷ cs) = (has t.address (registered cs) ≡ false) × AreProper cs
AreProper (unregisters a ∷ cs) = (has a (registered cs) ≡ true) × AreProper cs
