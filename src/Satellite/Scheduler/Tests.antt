-- ===== src/Satellite/Scheduler/Tests.antt =====
-- A scheduler that runs its process twice at once, and then stops.
use harbor_satellite.Common.{
  ℕ, ◌≡◌, ◌≢◌, refl, true, false, Bool, List, [], ◌∷◌, set, get_elem?, arith,
}
use harbor_satellite.Satellite.Scheduler.{
  Run, executing, finished, Loop, idle, selecting, exited, Scheduler, new_scheduler_with_interval,
  start, launch_process, run_once, leave, on_tick, begin_execute, end_execute, wg_done, started,
  ran_once, ticked, cancellation, saw_cancellation, began, ended, went, Reach, here, next, stop,
}
use harbor_satellite.Satellite.Scheduler.Stopped.{Quiet, stop-Quiet}
use harbor_satellite.Satellite.Scheduler.Returns.{stop_reachable}

abbrev new : Scheduler
new = new_scheduler_with_interval 30

abbrev state : Loop → ℕ → List Run → (running cancelled : Bool) → Scheduler
state loop counter runs running cancelled = record {
  interval = 30;
  loop = loop;
  counter = counter;
  runs = runs;
  is_running = running;
  cancelled = cancelled;
}

-- The first tick comes before the goroutine of the first launch has set the flag.
overlap : Reach new (state selecting 3 (executing ∷ executing ∷ []) true false)
unfolding new_scheduler_with_interval start launch_process run_once on_tick begin_execute set
    get_elem?
overlap =
    next
      (next (next (next (next here (started refl)) (ran_once refl)) (ticked false refl))
        (began 0 refl))
      (began 1 refl)

stopped : Reach new (state exited 0 (finished ∷ []) false true)
unfolding new_scheduler_with_interval start launch_process run_once leave begin_execute end_execute
    wg_done set get_elem?
stopped =
    next
      (next
        (next
          (next (next (next (next here (started refl)) (ran_once refl)) (began 0 refl))
            cancellation)
          (saw_cancellation refl refl))
        (ended 0 refl))
      (went 0 refl)

begun_selecting : selecting ≢ idle
begun_selecting e = ground arith

begun_exited : exited ≢ idle
begun_exited e = ground arith

stop-Quiet_example :
    Quiet (state exited 0 (finished ∷ []) false true)
    × (stop (state exited 0 (finished ∷ []) false true) ≡ true)
stop-Quiet_example = stop-Quiet 30 stopped begun_exited refl (next here cancellation)

stop_reachable_example :
    (t : Scheduler) × Reach (state selecting 3 (executing ∷ executing ∷ []) true false) t
    × (stop t ≡ true)
stop_reachable_example =
    stop_reachable 30 (state selecting 3 (executing ∷ executing ∷ []) true false) overlap
      begun_selecting
