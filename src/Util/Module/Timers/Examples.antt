-- ===== src/Util/Module/Timers/Examples.antt =====
-- Timers at concrete ticks.
use aods.Base.{[], arith, refl, ◌∷◌, ◌≡◌, ◌≤◌}
use aods.Util.Module.Timers.{MsgTimer, proc_timer, proc_timers}
use aods.Util.Module.Timers.Firing.{NoneMissed, proc_timer-NoneMissed, run_ticks}
use aods.Util.Module.Timers.Expected.{run_ticks-expected}

abbrev thrice : MsgTimer
thrice = record { timer_id = 1; escape = 100; time = 0; times = 3; target = 7 }

abbrev endless : MsgTimer
endless = record { timer_id = 2; escape = 50; time = 0; times = 0xFFFFFFFF; target = 7 }

firing_run : (proc_timer 120 (thrice ∷ [])).0 ≡ record thrice { time = 120; times = 2 } ∷ []
unfolding proc_timer proc_timers
firing_run = refl

proc_timer-NoneMissed_example :
    ((proc_timer 70 (thrice ∷ endless ∷ [])).2 ≤ 100000)
    × NoneMissed 70
        (proc_timer 70 (thrice ∷ endless ∷ [])).2
        (proc_timer 70 (thrice ∷ endless ∷ [])).0
proc_timer-NoneMissed_example =
    proc_timer-NoneMissed 70 (thrice ∷ endless ∷ []) (omega arith) (omega arith)

-- Twice at three ticks.
run_ticks-expected_example : (run_ticks (100 ∷ 150 ∷ 300 ∷ []) (thrice ∷ [])).1 ≡ 2
run_ticks-expected_example =
    run_ticks-expected 0 301 (100 ∷ 150 ∷ 300 ∷ []) (thrice ∷ []) (omega arith) (omega arith)
      (omega arith)
      (
        record {
          limited = omega arith;
          short = omega arith;
          set_before = omega arith;
          near = omega arith;
        },
        tt,
      )
