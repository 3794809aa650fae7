-- ===== src/ProfileHandler.antt =====
-- `ProfileHandler` of src/profile-handler.cc: the callbacks that the profiling signal runs, and the
-- timer that sends it. The locks and the blocked signals make each call one step; the counters are
-- unbounded here. Of the calls of the system those that set up the timer of a thread can fail;
-- those on the signal and its handler, and the key of the thread's storage, are taken to succeed.
pub mod Tokens
pub mod Timer
pub mod Trace
pub mod Calls
use gperftools.Base.{
  ℕ, ◌+◌, ◌-◌, ◌/◌, ◌%◌, ◌^◌, Bool, true, false, not, ◌&&◌, ◌||◌, Option, none, some, List, [], ◌∷◌,
  ◌++◌, map, length, ltb, ◌==◌, if◌then◌else◌, Outcome, ok, crash, out_of_fuel, ◌>>=◌, ◌>>◌, check,
}

-- `ProfileHandlerToken` at its address.
pub record Token : Type 0 where
  pub address : ℕ
  pub callback : ℕ
  pub callback_arg : ℕ

-- An interval in seconds and microseconds.
abbrev pub Interval : Type 0
Interval = ℕ × ℕ

-- The state, with the calls of `setitimer` and the intervals in nanoseconds of the timers started for
-- threads, the last of each first.
pub record ProfileHandler : Type 0 where
  pub timer_running : Bool
  pub interrupts : ℕ
  pub frequency : ℕ
  pub callback_count : ℕ
  pub allowed : Bool
  pub per_thread_timer_enabled : Bool
  pub callbacks : List Token
  pub handler_installed : Bool
  pub timers : List Interval
  pub thread_timers : List ℕ

-- `kMaxFrequency`, `kDefaultFrequency` and `kMillion`
abbrev pub max_frequency : ℕ
max_frequency = 4000

abbrev pub default_frequency : ℕ
default_frequency = 100

abbrev pub million : ℕ
million = 1000000

-- The frequency that the environment asks for, as `sscanf` reads it into an `int32_t`, if it reads it.
unfoldable pub read_frequency : Option ℕ → ℕ
read_frequency none = default_frequency
read_frequency (some f) =
    if ltb 0 f && ltb f (2 ^ 31)
    then (if ltb max_frequency f then max_frequency else f)
    else default_frequency

-- The constructor. Of the environment: the frequency, and whether timers for threads are asked for,
-- which take `timer_create`; and whether the signal has no other handler, without which `SignalHandler`
-- is not installed.
unfoldable pub new_handler : Option ℕ → Bool → Bool → Bool → ProfileHandler
new_handler fr per_thread has_timer_create is_signal_handler_available = record {
  timer_running = false;
  interrupts = 0;
  frequency = read_frequency fr;
  callback_count = 0;
  allowed = is_signal_handler_available;
  per_thread_timer_enabled = per_thread && has_timer_create;
  handler_installed = is_signal_handler_available;
  callbacks = [];
  timers = [];
  thread_timers = [];
}

unfoldable pub same : Bool → Bool → Bool
same true b = b
same false b = not b

-- `UpdateTimer`
unfoldable pub update_timer : Bool → ProfileHandler → ProfileHandler
update_timer enable h =
    let interval_usec = if enable then million / h.frequency else 0 in
    if h.per_thread_timer_enabled then h else if same enable h.timer_running then h else record h {
      timer_running = enable;
      timers = (interval_usec / million, interval_usec % million) ∷ h.timers;
    }

-- The nanoseconds in a second, from which on `timer_settime` refuses `tv_nsec`.
abbrev pub billion : ℕ
billion = 1000000000

-- `StartLinuxThreadTimer`, which aborts unless the system gives a timer and thread-local storage for
-- it (`timer_given`), and `timer_settime` takes the interval.
unfoldable pub start_linux_thread_timer : Bool → ProfileHandler → Outcome ProfileHandler
start_linux_thread_timer timer_given h = do
  check timer_given
  let tv_nsec = billion / h.frequency
  check (ltb tv_nsec billion)
  ok (record h { thread_timers = tv_nsec ∷ h.thread_timers })

-- `RegisterThread`
unfoldable pub register_thread : Bool → ProfileHandler → Outcome ProfileHandler
register_thread timer_given h =
    if not h.allowed
    then ok h
    else if h.per_thread_timer_enabled
    then start_linux_thread_timer timer_given h
    else ok (update_timer (ltb 0 h.callback_count) h)

-- `RegisterCallback`, with the token that `new` gives.
unfoldable pub register_callback : Token → ProfileHandler → ProfileHandler
register_callback token h =
    update_timer true
      (record h { callbacks = h.callbacks ++ (token ∷ []); callback_count = h.callback_count + 1 })

-- The loop of `UnregisterCallback`: the other tokens, and whether this one was found.
unfoldable pub copy_others : ℕ → List Token → List Token × Bool
copy_others token [] = ([], false)
copy_others token (t ∷ ts) =
    let (copy, found) = copy_others token ts in
    if t.address == token then (copy, true) else (t ∷ copy, found)

-- `UnregisterCallback`
unfoldable pub unregister_callback : ℕ → ProfileHandler → Outcome ProfileHandler
unregister_callback token h = do
  check (ltb 0 h.callback_count)
  let (copy, found) = copy_others token h.callbacks
  check found
  let h' = record h { callbacks = copy; callback_count = h.callback_count - 1 }
  ok (if h'.callback_count == 0 then update_timer false h' else h')

-- `Reset`
unfoldable pub reset : ProfileHandler → ProfileHandler
reset h = update_timer false (record h { callbacks = []; callback_count = 0 })

-- `SignalHandler`: the callbacks with their arguments, in the order in which they run.
unfoldable pub signal_handler : ProfileHandler → List (ℕ × ℕ) × ProfileHandler
signal_handler h = (
  map (λ t. (t.callback, t.callback_arg)) h.callbacks,
  record h { interrupts = h.interrupts + 1 },
)

-- What a signal runs: the handler, if it is installed.
unfoldable pub receive_signal : ProfileHandler → List (ℕ × ℕ) × ProfileHandler
receive_signal h = if h.handler_installed then signal_handler h else ([], h)

-- `ProfileHandlerState`
pub record HandlerState : Type 0 where
  pub frequency : ℕ
  pub callback_count : ℕ
  pub interrupts : ℕ
  pub allowed : Bool

-- `GetState`
unfoldable pub get_state : ProfileHandler → HandlerState
get_state h = record {
  frequency = h.frequency;
  callback_count = h.callback_count;
  interrupts = h.interrupts;
  allowed = h.allowed;
}
