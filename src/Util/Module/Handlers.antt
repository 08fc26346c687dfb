-- ===== src/Util/Module/Handlers.antt =====
-- The handlers of a `CModule` (src/dev/util/Module.cpp) and the messages that ask for them:
-- `SetTimer`, `KillTimer`, `Stop`, `DoMsg`, `OnSetTimer`, `OnKillTimer`, `OnBit`, `OnStop`.
pub mod Effects
use aods.Base.{
  Bool, Bytes, Bytes-Key, List, Option, [], and_then, erase, false, if◌then◌else◌, insert, le32,
  lookup, ltb, none, read32, some, true, ℕ, ℕ-Key, ◌%◌, ◌++◌, ◌==◌, ◌∷◌,
}
use aods.Util.CommuProtocol.{content}
use aods.Util.Module.{Module, Post, absent, given, post_msg}
use aods.Util.Module.Message.{MtMsg, le64, read64}
use aods.Util.Module.Timers.{MsgTimer, on_kill_timer, on_set_timer}
use aods.Util.ModuleData.{malloc_data, new_data, reset_data}
use aods.Util.MsgTarget.{MsgFun, find_msg_fun}

-- The codes of src/dev/util/AoDef.h that a module handles or posts.
abbrev pub msg_set_timer : ℕ
msg_set_timer = 10

abbrev pub msg_kill_timer : ℕ
msg_kill_timer = 11

abbrev pub msg_on_timer : ℕ
msg_on_timer = 12

abbrev pub msg_stop : ℕ
msg_stop = 13

abbrev pub msg_bit : ℕ
msg_bit = 14

abbrev pub msg_bit_rlt : ℕ
msg_bit_rlt = 15

abbrev pub msg_exit : ℕ
msg_exit = 16

-- MSG_TIMER as it is copied into a message, and back.
unfoldable pub timer_bytes : MsgTimer → Bytes
timer_bytes t =
    le32 t.timer_id ++ (le32 t.escape ++ (le32 t.time ++ (le32 t.times ++ le64 t.target)))

unfoldable pub read_timer : Bytes → Option MsgTimer
read_timer s = and_then (read32 s) λ (timer_id, s1). and_then (read32 s1) λ (escape, s2).
    and_then (read32 s2) λ (time, s3). and_then (read32 s3) λ (times, s4).
      and_then (read64 s4) λ (target, s5). some (record {
        timer_id = timer_id;
        escape = escape;
        time = time;
        times = times;
        target = target;
      })

-- A message of a module to itself.
abbrev pub own_post : ℕ → ℕ → MsgTimer → ℕ → Post
own_post code this t pad = record {
  msg_code = code;
  payload = given (timer_bytes t);
  recver = this;
  sender = t.target;
  smi = 0xFFFFFFFF;
  pad = pad;
}

-- `SetTimer` and `KillTimer` at tick `now`.
unfoldable pub set_timer : ℕ → ℕ → ℕ → ℕ → ℕ → ℕ → Module → Option (Module × Bool)
set_timer now pad timer_id escape times target m =
    if ltb escape 10
    then some (m, false)
    else post_msg
        (own_post msg_set_timer m.this
          (record {
            timer_id = timer_id;
            escape = escape;
            time = now;
            times = times;
            target = target;
          })
          pad)
        m

unfoldable pub kill_timer : ℕ → ℕ → ℕ → ℕ → Module → Option (Module × Bool)
kill_timer now pad timer_id target m =
    post_msg
      (own_post msg_kill_timer m.this
        (record { timer_id = timer_id; escape = 0; time = now; times = 0; target = target }) pad)
      m

-- The message that `Stop` posts before it joins the thread.
unfoldable pub stop : ℕ → Module → Option (Module × Bool)
stop pad m =
    post_msg
      (record {
        msg_code = msg_stop;
        payload = absent 0;
        recver = 0;
        sender = 0;
        smi = 0xFFFFFFFF;
        pad = pad;
      })
      m

-- `Append` and `Remove` of a target with its identifier.
unfoldable pub append_target : ℕ → ℕ → Module → Module
append_target id target m = elim (lookup id m.targets) [
  | none ↦ record m { targets = insert id target m.targets }
  | some other ↦ m
]

-- The constructor; `id` is the identifier of the module, `init_len` the capacity of both buffers.
unfoldable pub new_module : (ℕ → Option Bytes) → ℕ → ℕ → ℕ → Module
new_module malloc this id init_len = append_target id this (record {
  this = this;
  timers = [];
  targets = [];
  cus = (malloc_data malloc init_len new_data).0;
  product = (malloc_data malloc init_len new_data).0;
  run = true;
})

-- `Start` before the thread starts: both buffers are empty.
unfoldable pub start_module : Module → Module
start_module m = record m { cus = reset_data m.cus; product = reset_data m.product }

unfoldable pub remove_target : ℕ → Module → Module
remove_target id m = record m { targets = erase id m.targets }

unfoldable pub on_stop : Module → Module
on_stop m = record m { targets = []; timers = []; run = false }

-- The handlers in the tables of `CModule` and of `CMsgTarget`.
pub data OwnFun : Type 0 where
  fun_set_timer fun_kill_timer fun_bit fun_stop fun_on_timer : OwnFun

abbrev pub module_tables : List (List (MsgFun OwnFun))
module_tables =
    (record { fun = some fun_set_timer; msg_code = msg_set_timer }
      ∷ record { fun = some fun_kill_timer; msg_code = msg_kill_timer }
      ∷ record { fun = some fun_bit; msg_code = msg_bit }
      ∷ record { fun = some fun_stop; msg_code = msg_exit }
      ∷ record { fun = none; msg_code = 0 }
      ∷ [])
    ∷ (record { fun = some fun_on_timer; msg_code = msg_on_timer }
        ∷ record { fun = none; msg_code = 0 }
        ∷ [])
    ∷ []

abbrev pub with_timer : (MsgTimer → Module → Module) → Option MsgTimer → Module → Module
with_timer f none m = m
with_timer f (some t) m = f t m

-- What a handler does to the module; `OnBit` sends a message out, and the timer of a plain module
-- does nothing.
unfoldable pub call : Option OwnFun → MtMsg → Module → Module
call none msg m = m
call (some fun_set_timer) msg m =
    with_timer (λ t m'. record m' { timers = on_set_timer msg.head.data_len t m'.timers })
      (read_timer msg.content) m
call (some fun_kill_timer) msg m =
    with_timer (λ t m'. record m' { timers = on_kill_timer t m'.timers }) (read_timer msg.content) m
call (some fun_bit) msg m = m
call (some fun_stop) msg m = on_stop m
call (some fun_on_timer) msg m = m

-- `OnMessage` of the module itself.
unfoldable pub on_message : MtMsg → Module → Module
on_message msg m = call (find_msg_fun msg.head.msg_code module_tables) msg m

-- `OnBit`: the receiver module, the code and the data of the message that is sent.
unfoldable pub on_bit : ℕ → ℕ → MtMsg → ℕ × ℕ × Bytes
on_bit id status msg = (msg.head.smi, msg_bit_rlt, id % 256 ∷ status ∷ [])

-- `DoMsg`: the target is called if it is the one in the map; `id_of` is `ID` of the object.
unfoldable pub do_msg : (ℕ → ℕ) → (MtMsg → Module → Module) → MtMsg → Module → Module
do_msg id_of handler msg m = elim (lookup (id_of msg.head.recver) m.targets) [
  | none ↦ m
  | some target ↦ if target == msg.head.recver then handler msg m else m
]
