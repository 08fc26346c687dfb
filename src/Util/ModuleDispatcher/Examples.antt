-- ===== src/Util/ModuleDispatcher/Examples.antt =====
-- Two modules with empty queues of 128 bytes, one of which is a monitor too.
use aods.Base.{[], arith, codes, refl, replicate, some, true, ℕ, ◌++◌, ◌+◌, ◌∷◌, ◌≡◌}
use aods.Util.ModuleData.Laws.{IsData}
use aods.Util.Module.{Post, given}
use aods.Util.ModuleData.{ModuleData, data_of}
use aods.Util.ModuleDispatcher.{ModuleDispatcher, Store, dispatch}
use aods.Util.ModuleDispatcher.Laws.{IsReady, copies, count, dispatch-broadcast, posted_bytes}
use aods.Util.OutMsg.{module_broadcast}

abbrev queue : ModuleData
queue = record { buf = some (replicate 128 0); capacity = 128; len = 0 }

queue-IsData : IsData queue
queue-IsData = record {
  block = replicate 128 0;
  allocated = refl;
  sized = refl;
  filled = omega arith;
}

abbrev modules : Store
modules x = record { this = x; timers = []; targets = []; cus = queue; product = queue; run = true }

abbrev dispatcher : ModuleDispatcher
dispatcher = record { im = (1, 40) ∷ (3, 50) ∷ []; mim = (3, 50) ∷ [] }

abbrev hello : Post
hello = record {
  msg_code = 0x201;
  payload = given (codes "hello");
  recver = 0;
  sender = 9;
  smi = 3;
  pad = 0;
}

modules-IsReady :
    (x : ℕ) → IsReady hello (count x dispatcher.mim + count x dispatcher.im) (modules x)
modules-IsReady x = record {
  on = refl;
  valid = queue-IsData;
  small = omega arith;
  room = ground arith;
}

dispatch-broadcast_example :
    (st : Store) × (dispatch module_broadcast hello dispatcher modules ≡ some (st, true))
    × ((x : ℕ)
        → data_of (st x).product
          ≡ data_of (modules x).product
            ++ copies
                (count x dispatcher.mim + count x dispatcher.im)
                (posted_bytes hello (modules x)))
dispatch-broadcast_example = dispatch-broadcast hello dispatcher modules modules-IsReady
