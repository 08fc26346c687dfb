-- ===== src/Util/Module/Examples.antt =====
-- Messages on their way through a queue of 64 bytes, and the messages of a module to itself.
use aods.Base.{Bool, Bytes, List, [], arith, codes, map, refl, replicate, some, true, ℕ, ◌∷◌, ◌≡◌}
use aods.Util.MemCache.{block_of}
use aods.Util.Module.{Module, Post, deliver_msgs, given, post_all, run_loop, swap}
use aods.Util.Module.Handlers.Effects.{TimerFits}
use aods.Util.Module.Message.{MtMsg}
use aods.Util.Module.Posting.{run_loop-post_all}
use aods.Util.Module.Queue.{IsPost, msg_of}
use aods.Util.Module.Timers.{MsgTimer}
use aods.Util.ModuleData.{ModuleData, data_of}
use aods.Util.ModuleData.Laws.{IsData}

abbrev queue : ModuleData
queue = record { buf = some (replicate 64 0); capacity = 64; len = 0 }

queue-IsData : IsData queue
queue-IsData = record {
  block = replicate 64 0;
  allocated = refl;
  sized = refl;
  filled = omega arith;
}

abbrev module_seven : Module
module_seven = record {
  this = 7;
  timers = [];
  targets = (1, 7) ∷ [];
  cus = queue;
  product = queue;
  run = true;
}

abbrev hello : Post
hello = record {
  msg_code = 0x201;
  payload = given (codes "hello");
  recver = 0;
  sender = 9;
  smi = 3;
  pad = 0;
}

hello-IsPost : IsPost 7 hello
hello-IsPost = record {
  pad_fits = omega arith;
  is_msg = record {
    head_fits = record {
      smi_fits = omega arith;
      code_fits = omega arith;
      len_fits = omega arith;
      recver_fits = omega arith;
      sender_fits = omega arith;
    };
    counted = refl;
  };
}

-- Keeping the data of all messages, the last first.
abbrev collect : MtMsg → List Bytes → List Bytes
collect msg got = msg.content ∷ got

abbrev always : List Bytes → Bool
always got = true

run_loop-post_all_example :
    (after : Module) × (post_all (hello ∷ []) module_seven ≡ some after)
    × (run_loop collect always 2 (block_of (swap after).cus.buf) (swap after).cus.len 0 []
        ≡ some (deliver_msgs collect always (map (msg_of 7) (hello ∷ [])) []))
    × (data_of (swap after).product ≡ [])
run_loop-post_all_example =
    run_loop-post_all collect always (hello ∷ []) module_seven 2 [] refl queue-IsData (omega arith)
      refl (omega arith) (hello-IsPost, tt) (omega arith)

abbrev too_long : Post
too_long = record hello { payload = given (1 ∷ replicate 40 2) }

abbrev every_second : MsgTimer
every_second = record { timer_id = 4; escape = 1000; time = 5; times = 0xFFFFFFFF; target = 7 }

every_second-TimerFits : TimerFits every_second
every_second-TimerFits = record {
  id_fits = omega arith;
  escape_fits = omega arith;
  time_fits = omega arith;
  times_fits = omega arith;
  target_fits = omega arith;
}

abbrev bare : ℕ → MtMsg
bare code = record {
  head = record { smi = 0; msg_code = code; data_len = 0; recver = 7; sender = 0 };
  content = [];
}
