-- ===== src/Satellite/Scheduler/Counted.antt =====
-- The wait group counts the goroutines that have not ended.
use harbor_satellite.Common.{
  ℕ, zero, suc, ◌+◌, ◌≡◌, refl, true, false, some, List, [], ◌∷◌, ◌++◌, get_elem?, set, arith,
}
use harbor_satellite.Satellite.Scheduler.{
  Run, launched, executing, returned, finished, Loop, idle, spawned, selecting, exited, Scheduler,
  new_scheduler_with_interval, start, launch_process, run_once, leave, on_tick, reset_interval,
  begin_execute, end_execute, wg_done, Step, started, ran_once, ticked, cancellation,
  saw_cancellation, began, ended, went, reset, Reach, here, next,
}

abbrev pub of_run : Run → ℕ
of_run launched = 1
of_run executing = 1
of_run returned = 1
of_run finished = 0

abbrev pub of_loop : Loop → ℕ
of_loop idle = 0
of_loop spawned = 1
of_loop selecting = 1
of_loop exited = 0

-- How many runs have not finished.
unfoldable pub active : List Run → ℕ
active [] = 0
active (r ∷ runs) = of_run r + active runs

pub active-append : (xs ys : List Run) → active (xs ++ ys) ≡ active xs + active ys
unfolding active
active-append [] ys = omega arith
active-append (x ∷ xs) ys = omega (arith, active-append xs ys)

pub active-set :
    (runs : List Run) (i : ℕ) (r new : Run)
    → get_elem? runs i ≡ some r
    → active (set runs i new) + of_run r ≡ active runs + of_run new
unfolding active get_elem? set
active-set [] i r new h = absurd (ground arith)
active-set (x ∷ runs) zero r new h = ground (arith, h)
active-set (x ∷ runs) (suc i) r new h = omega (arith, active-set runs i r new h)

abbrev pub Counted : Scheduler → Type 0
Counted s = s.counter ≡ of_loop s.loop + active s.runs

pub Step-Counted : {s t : Scheduler} → Step s t → Counted s → Counted t
unfolding start launch_process run_once leave on_tick reset_interval begin_execute end_execute
    wg_done active
Step-Counted {s} (started e) h = ground (arith, h, e)
Step-Counted {s} (ran_once e) h = ground (arith, h, e, active-append s.runs (launched ∷ []))
Step-Counted {s} (ticked true e) h = ground (arith, h, e)
Step-Counted {s} (ticked false e) h = ground (arith, h, active-append s.runs (launched ∷ []))
Step-Counted {s} cancellation h = h
Step-Counted {s} (saw_cancellation e f) h = ground (arith, h, e)
Step-Counted {s} (began i e) h = ground (arith, h, active-set s.runs i launched executing e)
Step-Counted {s} (ended i e) h = ground (arith, h, active-set s.runs i executing returned e)
Step-Counted {s} (went i e) h = ground (arith, h, active-set s.runs i returned finished e)
Step-Counted {s} (reset n) h = h

pub Reach-Counted : {s t : Scheduler} → Counted s → Reach s t → Counted t
Reach-Counted h here = h
Reach-Counted h (next r st) = Step-Counted st (Reach-Counted h r)

pub new-Counted : (duration : ℕ) → Counted (new_scheduler_with_interval duration)
unfolding new_scheduler_with_interval active
new-Counted duration = refl
