-- ===== src/ProfileHandler/Timer.antt =====
-- When the timer of a `ProfileHandler` is armed.
use native.Mathlib.Nat.{lt-div-mul-add, div-mul-le_self}
use gperftools.Base.{
  ℕ, zero, suc, ◌+◌, ◌-◌, ◌*◌, ◌/◌, ◌%◌, ◌≤◌, ◌<◌, ◌≡◌, refl, ap, sym, ◌∙◌, ◌⊎◌, inl, inr, Bool,
  true, false, not, ◌&&◌, List, [], ◌∷◌, length, length-append, ltb, ◌==◌, if◌then◌else◌, ok, arith,
  Bool-cases, lt→ltb,
}
use gperftools.ProfileHandler.{
  Token, Interval, ProfileHandler, million, max_frequency, same, update_timer, billion,
  start_linux_thread_timer, register_thread, register_callback, unregister_callback, reset,
}
use gperftools.ProfileHandler.Tokens.{others, has, AreDistinct, copy_others_lem, length-others}

-- Whether the last call of `setitimer` armed the timer.
unfoldable pub armed : List Interval → Bool
armed [] = false
armed ((sec, usec) ∷ ts) = not ((sec == 0) && (usec == 0))

pub record IsConsistent (h : ProfileHandler) : Type 0 where
  pub count : h.callback_count ≡ length h.callbacks
  pub positive : 0 < h.frequency
  pub bounded : h.frequency ≤ max_frequency
  pub running : (h.per_thread_timer_enabled ≡ true) ⊎ (h.timer_running ≡ ltb 0 h.callback_count)
  pub set : armed h.timers ≡ h.timer_running

interval : (f : ℕ) → 0 < f → f ≤ max_frequency → 0 < million / f
interval f pos low = go (million / f) (lt-div-mul-add {a = million} {b = f} pos)
  where
    go : (n : ℕ) → million < n * f + f → 0 < n
    go zero h = absurd (omega arith)
    go (suc n) h = omega arith

armed-interval :
    (usec : ℕ) (ts : List Interval) → armed ((usec / million, usec % million) ∷ ts) ≡ ltb 0 usec
unfolding armed
armed-interval usec ts = ground arith

same_iff : (a b : Bool) → same a b ≡ true → a ≡ b
unfolding same
same_iff true b e = sym e
same_iff false true e = e
same_iff false false e = refl

-- What `UpdateTimer` does to the timer.
update_timer_lem :
    (enable : Bool) (h : ProfileHandler)
    → 0 < h.frequency
    → h.frequency ≤ max_frequency
    → armed h.timers ≡ h.timer_running
    → (armed (update_timer enable h).timers ≡ (update_timer enable h).timer_running)
      × ((h.per_thread_timer_enabled ≡ true) ⊎ ((update_timer enable h).timer_running ≡ enable))
unfolding update_timer
update_timer_lem enable h pos low set = elim (Bool-cases h.per_thread_timer_enabled) [
  | inl p ↦ rw p (set, inl refl)
  | inr p ↦ elim (Bool-cases (same enable h.timer_running)) [
    | inl s ↦ rw (p, s) (set, inr (sym (same_iff enable h.timer_running s)))
    | inr s ↦ rw (p, s) (armed-interval _ h.timers ∙ usec enable, inr refl)
  ]
]
  where
    usec : (e : Bool) → ltb 0 (if e then million / h.frequency else 0) ≡ e
    usec true = let i = interval h.frequency pos low in ground arith
    usec false = refl

pub update_timer-same :
    (enable : Bool) (h : ProfileHandler)
    → ((update_timer enable h).callbacks ≡ h.callbacks)
      × ((update_timer enable h).callback_count ≡ h.callback_count)
      × ((update_timer enable h).frequency ≡ h.frequency)
      × ((update_timer enable h).per_thread_timer_enabled ≡ h.per_thread_timer_enabled)
      × ((update_timer enable h).interrupts ≡ h.interrupts)
      × ((update_timer enable h).handler_installed ≡ h.handler_installed)
unfolding update_timer
update_timer-same enable h = ground arith

-- A call of `UpdateTimer` with the right value repairs a state whose callbacks changed.
update_timer-IsConsistent :
    (enable : Bool) (h : ProfileHandler)
    → h.callback_count ≡ length h.callbacks
    → 0 < h.frequency
    → h.frequency ≤ max_frequency
    → armed h.timers ≡ h.timer_running
    → enable ≡ ltb 0 h.callback_count
    → IsConsistent (update_timer enable h)
update_timer-IsConsistent enable h count pos low set right =
    let (callbacks, counts, freq, per, ints, installed) = update_timer-same enable h in
    let (set', run') = update_timer_lem enable h pos low set in
    record {
      count = counts ∙ count ∙ ap length (sym callbacks);
      positive = omega (arith, freq);
      bounded = omega (arith, freq);
      running = elim run' [
        | inl p ↦ inl (per ∙ p)
        | inr r ↦ inr (r ∙ right ∙ ap (λ n. ltb 0 n) (sym counts))
      ];
      set = set';
    }

-- A callback that is added or one that is left makes the count positive; `Reset` makes it 0.
pub register-IsConsistent :
    (t : Token) (h : ProfileHandler) → IsConsistent h → IsConsistent (register_callback t h)
unfolding register_callback
register-IsConsistent t h c =
    update_timer-IsConsistent true _ (omega (arith, c.count, length-append h.callbacks (t ∷ [])))
      c.positive c.bounded c.set (ground arith)

pub reset-IsConsistent : (h : ProfileHandler) → IsConsistent h → IsConsistent (reset h)
unfolding reset
reset-IsConsistent h c = update_timer-IsConsistent false _ refl c.positive c.bounded c.set refl

-- The state goes on to another with the same callbacks and settings.
pub record Keeps (h h' : ProfileHandler) : Type 0 where
  pub consistent : IsConsistent h'
  pub callbacks : h'.callbacks ≡ h.callbacks
  pub frequency : h'.frequency ≡ h.frequency
  pub per_thread : h'.per_thread_timer_enabled ≡ h.per_thread_timer_enabled
  pub installed : h'.handler_installed ≡ h.handler_installed
  pub interrupts : h'.interrupts ≡ h.interrupts

Keeps-refl : (h : ProfileHandler) → IsConsistent h → Keeps h h
Keeps-refl h c = record {
  consistent = c;
  callbacks = refl;
  frequency = refl;
  per_thread = refl;
  installed = refl;
  interrupts = refl;
}

update_timer-Keeps :
    (h : ProfileHandler) → IsConsistent h → Keeps h (update_timer (ltb 0 h.callback_count) h)
update_timer-Keeps h c =
    let (callbacks, counts, freq, per, ints, installed) =
      update_timer-same (ltb 0 h.callback_count) h in
    record {
      consistent =
          update_timer-IsConsistent (ltb 0 h.callback_count) h c.count c.positive c.bounded c.set
            refl;
      callbacks = callbacks;
      frequency = freq;
      per_thread = per;
      installed = installed;
      interrupts = ints;
    }

short_interval : (f : ℕ) → 1 < f → billion / f < billion
short_interval f h = go (billion / f) (div-mul-le_self billion f)
  where
    go : (n : ℕ) → n * f ≤ billion → n < billion
    go n e = let twice : n * 2 ≤ n * f = grind arith in omega arith

-- A thread is registered with no check that fails, if a timer is given for it and the frequency is
-- above 1 where threads have timers.
pub register_thread-Keeps :
    (h : ProfileHandler)
    → IsConsistent h
    → (h.per_thread_timer_enabled ≡ false) ⊎ (1 < h.frequency)
    → (h' : ProfileHandler) × (register_thread true h ≡ ok h') × Keeps h h'
unfolding register_thread start_linux_thread_timer
register_thread-Keeps h c able = elim (Bool-cases h.allowed) [
  | inr a ↦ (h, rw a refl, Keeps-refl h c)
  | inl a ↦ elim (Bool-cases h.per_thread_timer_enabled) [
    | inr p ↦ (update_timer (ltb 0 h.callback_count) h, rw (a, p) refl, update_timer-Keeps h c)
    | inl p ↦
        let fast : 1 < h.frequency = ground arith in
        let short : ltb (billion / h.frequency) billion ≡ true =
          lt→ltb _ _ (short_interval h.frequency fast) in
        (
          record h { thread_timers = billion / h.frequency ∷ h.thread_timers },
          rw (a, p, short) refl,
          record {
            consistent = record {
              count = c.count;
              positive = c.positive;
              bounded = c.bounded;
              running = inl p;
              set = c.set;
            };
            callbacks = refl;
            frequency = refl;
            per_thread = refl;
            installed = refl;
            interrupts = refl;
          },
        )
  ]
]

-- Unregistering a token that is registered.
pub unregister_lem :
    (a : ℕ) (h : ProfileHandler)
    → IsConsistent h
    → AreDistinct h.callbacks
    → has a h.callbacks ≡ true
    → (h' : ProfileHandler) × (unregister_callback a h ≡ ok h')
      × IsConsistent h'
      × (h'.callbacks ≡ others a h.callbacks)
      × (h'.frequency ≡ h.frequency)
      × (h'.per_thread_timer_enabled ≡ h.per_thread_timer_enabled)
      × (h'.interrupts ≡ h.interrupts)
      × (h'.handler_installed ≡ h.handler_installed)
unfolding unregister_callback
unregister_lem a h c d present =
    let shorter = length-others a h.callbacks d present in
    let some_ : ltb 0 h.callback_count ≡ true = let e = c.count in ground arith in
    let left : ProfileHandler = record h {
      callbacks = others a h.callbacks;
      callback_count = h.callback_count - 1;
    } in
    let count : left.callback_count ≡ length left.callbacks = omega (arith, c.count) in
    elim (Bool-cases (left.callback_count == 0)) [
      | inl z ↦
          let (callbacks, counts, freq, per, ints, installed) = update_timer-same false left in
          (
            update_timer false left,
            rw (some_, copy_others_lem a h.callbacks, present, z) refl,
            update_timer-IsConsistent false left count c.positive c.bounded c.set (ground arith),
            callbacks,
            freq,
            per,
            ints,
            installed,
          )
      | inr z ↦ (
        left,
        rw (some_, copy_others_lem a h.callbacks, present, z) refl,
        record {
          count = count;
          positive = c.positive;
          bounded = c.bounded;
          running = elim c.running [ inl p ↦ inl p | inr r ↦ inr (r ∙ ground arith) ];
          set = c.set;
        },
        refl,
        refl,
        refl,
        refl,
        refl,
      )
    ]
