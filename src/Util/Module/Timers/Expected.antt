-- ===== src/Util/Module/Timers/Expected.antt =====
-- When timers fire, compared with a reckoning in natural numbers that knows no wrapped words.
use aods.Base.{
  All, List, [], arith, if◌then◌else◌, leb, length, refl, sym, ℕ, ◌+◌, ◌-◌, ◌<◌, ◌==◌, ◌^◌, ◌∷◌,
  ◌≡◌, ◌≤◌,
}
use aods.Util.Module.Timers.{
  MsgTimer, is_due, next_sleep, no_limit, proc_timer, proc_timers, rewind,
}
use aods.Util.Module.Timers.Firing.{run_ticks}

-- The messages of one timer at some ticks: it fires when its period has gone by since it was set or
-- last fired, until its number is used up.
abbrev pub expected : ℕ → ℕ → ℕ → List ℕ → ℕ
expected period since times [] = 0
expected period since times (cur ∷ ticks) =
    let fired = expected period cur (times - 1) ticks in
    let waits = expected period since times ticks in
    if times == 0 then 0 else if leb (since + period) cur then 1 + fired else waits

abbrev pub expected_all : List ℕ → List MsgTimer → ℕ
expected_all ticks [] = 0
expected_all ticks (t ∷ ts) = expected t.escape t.time t.times ticks + expected_all ticks ts

-- Ticks in ascending order.
abbrev pub Ascends : ℕ → List ℕ → Type 0
Ascends low [] = Unit
Ascends low (cur ∷ ticks) = (low ≤ cur) × Ascends cur ticks

-- A timer with an end, set by `now`; its period and the ticks up to `high` stay within half the
-- range of a word.
pub record InRange (now high : ℕ) (t : MsgTimer) : Type 0 where
  pub limited : t.times < no_limit
  pub short : t.escape < 2 ^ 31
  pub set_before : t.time ≤ now
  pub near : high ≤ t.time + 2 ^ 31

expected-nil : (ts : List MsgTimer) → expected_all [] ts ≡ 0
expected-nil [] = refl
expected-nil (t ∷ ts) = omega (arith, expected-nil ts)

-- A timer is due exactly when its period has gone by.
is_due_lem :
    (now cur high : ℕ) (t : MsgTimer)
    → InRange now high t
    → now ≤ cur
    → cur < high
    → high ≤ 2 ^ 32
    → is_due cur t ≡ leb (t.time + t.escape) cur
is_due_lem now cur high t v le lt top = ground (arith, v.near, v.set_before, v.short)

step_expected :
    (now cur high : ℕ) (ticks : List ℕ) (ts : List MsgTimer) (sleep : ℕ)
    → now ≤ cur
    → cur < high
    → high ≤ 2 ^ 32
    → All (InRange now high) ts
    → expected_all (cur ∷ ticks) ts
      ≡ length (proc_timers cur ts sleep).1 + expected_all ticks (proc_timers cur ts sleep).0
unfolding proc_timers
step_expected now cur high ticks [] sleep le lt top v = refl
step_expected now cur high ticks (t ∷ ts) sleep le lt top v = ground (
  arith,
  is_due_lem now cur high t v.0 le lt top,
  v.0.limited,
  step_expected now cur high ticks ts (next_sleep cur t sleep) le lt top v.1,
)

step_InRange :
    (now cur high : ℕ) (ts : List MsgTimer) (sleep : ℕ)
    → now ≤ cur
    → cur < high
    → All (InRange now high) ts
    → All (InRange cur high) (proc_timers cur ts sleep).0
unfolding proc_timers
step_InRange now cur high [] sleep le lt v = tt
step_InRange now cur high (t ∷ ts) sleep le lt v =
    let rest = step_InRange now cur high ts (next_sleep cur t sleep) le lt v.1 in
    let waits : InRange cur high t = record {
      limited = v.0.limited;
      short = v.0.short;
      set_before = omega (arith, v.0.set_before);
      near = v.0.near;
    } in
    let fired : InRange cur high (rewind cur t) = record {
      limited = ground (arith, v.0.limited);
      short = v.0.short;
      set_before = omega arith;
      near = omega (arith, v.0.near, v.0.set_before);
    } in
    ground (arith, rest, waits, fired)

-- Timers with an end, set by `now` with periods below 2^31, fire as it is reckoned: at ticks in
-- ascending order from `now` on, below 2^32 and within 2^31 of when each timer was set, `ProcTimer`
-- calls `PostMsg` once for each time that the period of a timer has gone by at a tick, since the timer
-- was set or last fired, until its number is used up, and at no other time.
pub run_ticks-expected :
    (now high : ℕ) (ticks : List ℕ) (ts : List MsgTimer)
    → Ascends now ticks
    → All (λ cur. cur < high) ticks
    → high ≤ 2 ^ 32
    → All (InRange now high) ts
    → (run_ticks ticks ts).1 ≡ expected_all ticks ts
unfolding run_ticks proc_timer
run_ticks-expected now high [] ts up below top v = sym (expected-nil ts)
run_ticks-expected now high (cur ∷ ticks) ts up below top v = omega (
  arith,
  step_expected now cur high ticks ts 100000 up.0 below.0 top v,
  run_ticks-expected cur high ticks (proc_timers cur ts 100000).0 up.1 below.1 top
      (step_InRange now cur high ts 100000 up.0 below.0 v),
)
