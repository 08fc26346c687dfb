-- ===== src/Util/Module/Timers.antt =====
-- The timers of a `CModule` (src/dev/util/Module.cpp): `OnSetTimer`, `OnKillTimer`, `ProcTimer`
-- and the part of `OnStop` that drops them. `m_lstMT` is the list of what its pointers refer to.
pub mod Table
pub mod Firing
pub mod Expected
mod Examples
use aods.Base.{
  Bool, List, [], if◌then◌else◌, leb, ltb, not, u32, ℕ, ◌&&◌, ◌+◌, ◌-◌, ◌==◌, ◌^◌, ◌||◌, ◌∷◌,
}

-- MSG_TIMER (src/dev/util/AoDef.h)
pub record MsgTimer : Type 0 where
  pub timer_id : ℕ
  pub escape : ℕ
  pub time : ℕ
  pub times : ℕ
  pub target : ℕ

-- 24 bytes, a pointer being 8.
abbrev pub msg_timer_size : ℕ
msg_timer_size = 24

-- 0xFFFFFFFF is every identifier in `OnKillTimer`, and no end in `ProcTimer`.
abbrev pub no_limit : ℕ
no_limit = 0xFFFFFFFF

-- The loop of `OnSetTimer`, with the timer that it appends if it meets none to overwrite.
pub place : MsgTimer → List MsgTimer → List MsgTimer
place t [] = t ∷ []
place t (o ∷ ts) =
    if (o.target == t.target) && (t.timer_id == o.timer_id)
    then record o { escape = t.escape; time = t.time; times = t.times } ∷ ts
    else o ∷ place t ts

unfoldable pub on_set_timer : ℕ → MsgTimer → List MsgTimer → List MsgTimer
on_set_timer data_len t ts = if data_len == msg_timer_size then place t ts else ts

unfoldable pub on_kill_timer : MsgTimer → List MsgTimer → List MsgTimer
on_kill_timer t [] = []
on_kill_timer t (o ∷ ts) =
    if not (o.target == t.target)
      || (not (no_limit == t.timer_id) && not (t.timer_id == o.timer_id))
    then o ∷ on_kill_timer t ts
    else on_kill_timer t ts

-- `unTime + unEscape - unCurTime`, an `int` by its bits, and whether it is not positive.
abbrev pub dif_time : ℕ → MsgTimer → ℕ
dif_time cur t = u32 (t.time + t.escape + 2 ^ 32 - cur)

abbrev pub is_due : ℕ → MsgTimer → Bool
is_due cur t = (dif_time cur t == 0) || leb (2 ^ 31) (dif_time cur t)

-- A timer that was due, once `PostMsg` has been called, whatever it returned.
abbrev pub rewind : ℕ → MsgTimer → MsgTimer
rewind cur t = record t { time = cur; times = if t.times == no_limit then cur else t.times - 1 }

abbrev pub shorter : ℕ → ℕ → ℕ
shorter a b = if ltb a b then a else b

-- The sleep once a timer is looked at.
abbrev pub next_sleep : ℕ → MsgTimer → ℕ → ℕ
next_sleep cur t sleep =
    if t.times == 0
    then sleep
    else if is_due cur t
    then shorter sleep t.escape
    else shorter sleep (dif_time cur t)

-- The loop of `ProcTimer`: the timers that stay, those for which `PostMsg` is called, and the sleep.
-- The loop does not look at what `PostMsg` returns: a message that a full queue refuses is counted
-- like any other.
pub proc_timers : ℕ → List MsgTimer → ℕ → List MsgTimer × List MsgTimer × ℕ
proc_timers cur [] sleep = ([], [], sleep)
proc_timers cur (t ∷ ts) sleep =
    let (stay, posted, left) = proc_timers cur ts (next_sleep cur t sleep) in
    if t.times == 0
    then (stay, posted, left)
    else if is_due cur t
    then (rewind cur t ∷ stay, t ∷ posted, left)
    else (t ∷ stay, posted, left)

unfoldable pub proc_timer : ℕ → List MsgTimer → List MsgTimer × List MsgTimer × ℕ
proc_timer cur ts = proc_timers cur ts 100000
