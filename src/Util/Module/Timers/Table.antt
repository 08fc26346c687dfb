-- ===== src/Util/Module/Timers/Table.antt =====
-- The timers as a table: by target and identifier, setting is an assignment and killing an erasure.
use aods.Base.{
  List, Option, [], arith, if◌then◌else◌, none, refl, some, ℕ, ◌&&◌, ◌==◌, ◌||◌, ◌∷◌, ◌≡◌,
}
use aods.Util.Module.Timers.{MsgTimer, msg_timer_size, no_limit, on_kill_timer, on_set_timer, place}

-- The timer of a target with an identifier.
pub find_timer : ℕ → ℕ → List MsgTimer → Option MsgTimer
find_timer target id [] = none
find_timer target id (o ∷ ts) =
    if (o.target == target) && (o.timer_id == id) then some o else find_timer target id ts

find_timer-place :
    (target id : ℕ) (t : MsgTimer) (ts : List MsgTimer)
    → find_timer target id (place t ts)
      ≡ (if (t.target == target) && (t.timer_id == id) then some t else find_timer target id ts)
unfolding find_timer place
find_timer-place target id t [] = refl
find_timer-place target id t (o ∷ ts) = ground (arith, find_timer-place target id t ts)

-- A message of the right size sets its timer, for its target and identifier and for no other; one
-- of another size sets nothing.
pub find_timer-on_set_timer :
    (target id data_len : ℕ) (t : MsgTimer) (ts : List MsgTimer)
    → find_timer target id (on_set_timer data_len t ts) ≡ (
        if (data_len == msg_timer_size) && ((t.target == target) && (t.timer_id == id))
        then some t
        else find_timer target id ts)
unfolding on_set_timer
find_timer-on_set_timer target id data_len t ts = ground (arith, find_timer-place target id t ts)

-- Killing drops the timer of the target with the identifier, or all timers of the target where the
-- identifier is 0xFFFFFFFF, and no other.
pub find_timer-on_kill_timer :
    (target id : ℕ) (t : MsgTimer) (ts : List MsgTimer)
    → find_timer target id (on_kill_timer t ts) ≡ (
        if (t.target == target) && ((t.timer_id == no_limit) || (t.timer_id == id))
        then none
        else find_timer target id ts)
unfolding find_timer on_kill_timer
find_timer-on_kill_timer target id t [] = ground arith
find_timer-on_kill_timer target id t (o ∷ ts) =
    ground (arith, find_timer-on_kill_timer target id t ts)
