-- ===== src/Util/Module/Timers/Firing.antt =====
-- When timers fire, how often, and how long the module may sleep.
use aods.Base.{All, List, [], arith, length, true, ℕ, ◌+◌, ◌<◌, ◌^◌, ◌∷◌, ◌≡◌, ◌≤◌}
use aods.Util.Module.Timers.{
  MsgTimer, dif_time, is_due, next_sleep, no_limit, proc_timer, proc_timers, rewind, shorter,
}

-- The period is a word.
abbrev pub IsTimer : MsgTimer → Type 0
IsTimer t = t.escape < 2 ^ 32

shorter-le : (a b : ℕ) → (shorter a b ≤ a) × (shorter a b ≤ b)
shorter-le a b = ground arith

proc_timers-le : (cur : ℕ) (ts : List MsgTimer) (sleep : ℕ) → (proc_timers cur ts sleep).2 ≤ sleep
unfolding proc_timers
proc_timers-le cur [] sleep = omega arith
proc_timers-le cur (t ∷ ts) sleep = ground (arith, proc_timers-le cur ts (next_sleep cur t sleep))

-- The sleep is not longer than the time that is left to any timer that stays.
abbrev pub NoneMissed : ℕ → ℕ → List MsgTimer → Type 0
NoneMissed cur sleep = All (λ t. sleep ≤ dif_time cur t)

proc_timers-NoneMissed :
    (cur : ℕ) (ts : List MsgTimer) (sleep : ℕ)
    → cur < 2 ^ 32
    → All IsTimer ts
    → NoneMissed cur (proc_timers cur ts sleep).2 (proc_timers cur ts sleep).0
unfolding proc_timers
proc_timers-NoneMissed cur [] sleep c v = tt
proc_timers-NoneMissed cur (t ∷ ts) sleep c v = ground (
  arith,
  v.0,
  proc_timers-NoneMissed cur ts (next_sleep cur t sleep) c v.1,
  proc_timers-le cur ts (next_sleep cur t sleep),
)

-- `ProcTimer` returns a sleep of at most 100 seconds that does not pass the time at which any of
-- the timers that stay is due next.
pub proc_timer-NoneMissed :
    (cur : ℕ) (ts : List MsgTimer)
    → cur < 2 ^ 32
    → All IsTimer ts
    → ((proc_timer cur ts).2 ≤ 100000) × NoneMissed cur (proc_timer cur ts).2 (proc_timer cur ts).0
unfolding proc_timer
proc_timer-NoneMissed cur ts c v =
    (proc_timers-le cur ts 100000, proc_timers-NoneMissed cur ts 100000 c v)

-- The calls of `PostMsg` that timers may still make.
abbrev pub times_left : List MsgTimer → ℕ
times_left [] = 0
times_left (t ∷ ts) = t.times + times_left ts

-- Timers with an end.
abbrev pub IsLimited : MsgTimer → Type 0
IsLimited t = t.times < no_limit

proc_timers-IsLimited :
    (cur : ℕ) (ts : List MsgTimer) (sleep : ℕ)
    → All IsLimited ts
    → All IsLimited (proc_timers cur ts sleep).0
unfolding proc_timers
proc_timers-IsLimited cur [] sleep v = tt
proc_timers-IsLimited cur (t ∷ ts) sleep v =
    ground (arith, v.0, proc_timers-IsLimited cur ts (next_sleep cur t sleep) v.1)

proc_timers-times_left :
    (cur : ℕ) (ts : List MsgTimer) (sleep : ℕ)
    → All IsLimited ts
    → length (proc_timers cur ts sleep).1 + times_left (proc_timers cur ts sleep).0 ≡ times_left ts
unfolding proc_timers
proc_timers-times_left cur [] sleep v = omega arith
proc_timers-times_left cur (t ∷ ts) sleep v =
    ground (arith, v.0, proc_timers-times_left cur ts (next_sleep cur t sleep) v.1)

-- `ProcTimer` at one tick after the other: the timers left and the number of calls of `PostMsg`.
unfoldable pub run_ticks : List ℕ → List MsgTimer → List MsgTimer × ℕ
run_ticks [] ts = (ts, 0)
run_ticks (cur ∷ ticks) ts =
    let (stay, posted, sleep) = proc_timer cur ts in
    let (left, n) = run_ticks ticks stay in (left, length posted + n)

-- At whatever ticks `ProcTimer` runs, the calls of `PostMsg` for timers with an end and those still
-- to be made add up to the number set.
pub run_ticks-times_left :
    (ticks : List ℕ) (ts : List MsgTimer)
    → All IsLimited ts
    → (run_ticks ticks ts).1 + times_left (run_ticks ticks ts).0 ≡ times_left ts
unfolding run_ticks proc_timer
run_ticks-times_left [] ts v = omega arith
run_ticks-times_left (cur ∷ ticks) ts v = omega (
  arith,
  proc_timers-times_left cur ts 100000 v,
  run_ticks-times_left ticks (proc_timer cur ts).0 (proc_timers-IsLimited cur ts 100000 v),
)

-- A timer that is set without an end has one: it fires when it is due, at tick `cur`, and then at
-- most `cur` times more, since its count becomes the tick.
pub run_ticks-no_limit :
    (cur : ℕ) (ticks : List ℕ) (t : MsgTimer)
    → cur < no_limit
    → t.times ≡ no_limit
    → is_due cur t ≡ true
    → (run_ticks (cur ∷ ticks) (t ∷ [])).1 + times_left (run_ticks (cur ∷ ticks) (t ∷ [])).0
      ≡ 1 + cur
unfolding run_ticks proc_timer proc_timers
run_ticks-no_limit cur ticks t c e due =
    let fired : proc_timers cur (t ∷ []) 100000
        ≡ (rewind cur t ∷ [], t ∷ [], shorter 100000 t.escape) =
      ground (arith, e, due) in
    let limited : (rewind cur t).times ≡ cur = ground (arith, e) in
    rw fired (
      omega (
        arith,
        run_ticks-times_left ticks (rewind cur t ∷ []) (omega (arith, limited), tt),
        limited,
      ))
