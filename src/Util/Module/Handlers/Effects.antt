-- ===== src/Util/Module/Handlers/Effects.antt =====
-- What the messages of a module to itself do when they are handled.
use aods.Base.{
  List, [], ap, arith, false, if◌then◌else◌, le32, length, none, read32-le32, refl, some, true, ℕ,
  ◌&&◌, ◌++◌, ◌<◌, ◌==◌, ◌^◌, ◌||◌, ◌∙◌, ◌∷◌, ◌≡◌,
}
use aods.Util.Module.{Module, deliver_msgs}
use aods.Util.Module.Handlers.{
  call, msg_exit, msg_kill_timer, msg_set_timer, msg_stop, on_message, on_stop, own_post,
  read_timer, timer_bytes,
}
use aods.Util.Module.Message.{MtMsg, le64, length-le64, read64-le64_all}
use aods.Util.Module.Queue.{msg_of}
use aods.Util.Module.Timers.{MsgTimer, msg_timer_size, no_limit}
use aods.Util.Module.Timers.Table.{find_timer, find_timer-on_kill_timer, find_timer-on_set_timer}
use aods.Util.MsgTarget.{find_in_table, find_msg_fun}

-- A timer of words and a pointer that fit.
pub record TimerFits (t : MsgTimer) : Type 0 where
  pub id_fits : t.timer_id < 2 ^ 32
  pub escape_fits : t.escape < 2 ^ 32
  pub time_fits : t.time < 2 ^ 32
  pub times_fits : t.times < 2 ^ 32
  pub target_fits : t.target < 2 ^ 64

read_timer-timer_bytes : (t : MsgTimer) → TimerFits t → read_timer (timer_bytes t) ≡ some t
unfolding read_timer timer_bytes
read_timer-timer_bytes t v = rw (
  read32-le32 t.timer_id (le32 t.escape ++ (le32 t.time ++ (le32 t.times ++ le64 t.target)))
      v.id_fits,
  read32-le32 t.escape (le32 t.time ++ (le32 t.times ++ le64 t.target)) v.escape_fits,
  read32-le32 t.time (le32 t.times ++ le64 t.target) v.time_fits,
  read32-le32 t.times (le64 t.target) v.times_fits,
  read64-le64_all t.target v.target_fits,
)

length-timer_bytes : (t : MsgTimer) → length (timer_bytes t) ≡ msg_timer_size
unfolding timer_bytes le32
length-timer_bytes t = omega (arith, length-le64 t.target)

-- The message of `SetTimer`, once it is handled, sets its timer, for its target and identifier and
-- for no other.
pub on_message-set_timer :
    (t : MsgTimer) (pad target id : ℕ) (m : Module)
    → TimerFits t
    → find_timer target id
        (on_message (msg_of m.this (own_post msg_set_timer m.this t pad)) m).timers
      ≡ (if (t.target == target) && (t.timer_id == id)
          then some t
          else find_timer target id m.timers)
unfolding on_message find_msg_fun find_in_table call
on_message-set_timer t pad target id m v =
    rw (read_timer-timer_bytes t v, length-timer_bytes t)
      (find_timer-on_set_timer target id msg_timer_size t m.timers)

-- The message of `KillTimer`, once it is handled, drops the timer of its target with its
-- identifier, or all timers of the target where the identifier is 0xFFFFFFFF, and no other.
pub on_message-kill_timer :
    (t : MsgTimer) (pad target id : ℕ) (m : Module)
    → TimerFits t
    → find_timer target id
        (on_message (msg_of m.this (own_post msg_kill_timer m.this t pad)) m).timers
      ≡ (if (t.target == target) && ((t.timer_id == no_limit) || (t.timer_id == id))
          then none
          else find_timer target id m.timers)
unfolding on_message find_msg_fun find_in_table call
on_message-kill_timer t pad target id m v =
    rw (read_timer-timer_bytes t v) (find_timer-on_kill_timer target id t m.timers)

-- The message that `Stop` posts has no handler: the module and all that it holds stay as they are,
-- and a module that runs goes on running.
pub on_message-stop :
    (msg : MtMsg) (m : Module) → msg.head.msg_code ≡ msg_stop → on_message msg m ≡ m
unfolding on_message find_msg_fun find_in_table call
on_message-stop msg m e = rw e

on_message-exit :
    (msg : MtMsg) (m : Module) → msg.head.msg_code ≡ msg_exit → on_message msg m ≡ on_stop m
unfolding on_message find_msg_fun find_in_table call
on_message-exit msg m e = rw e

deliver_msgs-stopped :
    (msgs : List MtMsg) (m : Module)
    → m.run ≡ false
    → deliver_msgs on_message (λ n. n.run) msgs m ≡ m
unfolding deliver_msgs
deliver_msgs-stopped [] m off = refl
deliver_msgs-stopped (msg ∷ msgs) m off =
    ap (λ b. if b then deliver_msgs on_message (λ n. n.run) msgs (on_message msg m) else m) off

-- EN_AO_MSG_EXIT drops the timers and the targets and ends the loop: whatever stands behind it in
-- the queue is not delivered.
pub deliver_msgs-exit :
    (msg : MtMsg) (msgs : List MtMsg) (m : Module)
    → msg.head.msg_code ≡ msg_exit
    → m.run ≡ true
    → deliver_msgs on_message (λ n. n.run) (msg ∷ msgs) m ≡ on_stop m
unfolding deliver_msgs on_stop
deliver_msgs-exit msg msgs m e on =
    ap (λ b. if b then deliver_msgs on_message (λ n. n.run) msgs (on_message msg m) else m) on
    ∙ ap (deliver_msgs on_message (λ n. n.run) msgs) (on_message-exit msg m e)
    ∙ deliver_msgs-stopped msgs (on_stop m) refl
