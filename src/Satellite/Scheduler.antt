-- ===== src/Satellite/Scheduler.antt =====
-- internal/satellite/scheduler/scheduler.go: the goroutines of a scheduler and of the process that it
-- runs, as a step relation. The process is any of internal/satellite/state that sets a flag when its
-- Execute begins and clears it before Execute returns; when its ticker ticks, and whether it is complete
-- by then, is not said.
pub mod Counted
pub mod Stopped
pub mod Returns
pub mod Tests
use harbor_satellite.Common.{
  ℕ, suc, ◌+◌, ◌-◌, ◌≡◌, ◌⊎◌, Bool, true, false, Option, none, some, List, [], ◌∷◌, ◌++◌, get_elem?,
  set, eqb, if◌then◌else◌,
}

-- A goroutine that launchProcess made: it has not called Execute yet, Execute runs, Execute has cleared
-- the flag, or wg.Done was called.
pub data Run : Type 0 where
  launched executing returned finished : Run

-- The goroutine of `run`: Start was not called, it has not launched the process yet, it stands at its
-- select, or it returned.
pub data Loop : Type 0 where
  idle spawned selecting exited : Loop

-- `counter` is that of wg, `is_running` the flag of the process, and `cancelled` says that the context
-- is done.
pub record Scheduler : Type 0 where
  pub interval : ℕ
  pub loop : Loop
  pub counter : ℕ
  pub runs : List Run
  pub is_running : Bool
  pub cancelled : Bool

pub new_scheduler_with_interval : ℕ → Scheduler
new_scheduler_with_interval duration = record {
  interval = duration;
  loop = idle;
  counter = 0;
  runs = [];
  is_running = false;
  cancelled = false;
}

pub start : Scheduler → Scheduler
start s = record s { loop = spawned; counter = suc s.counter }

pub launch_process : Scheduler → Scheduler
launch_process s =
    if s.is_running
    then s
    else record s { counter = suc s.counter; runs = s.runs ++ (launched ∷ []) }

-- The launch at the beginning of `run`.
pub run_once : Scheduler → Scheduler
unfolding launch_process
run_once s = record (launch_process s) { loop = selecting }

-- `run` returns, and its deferred wg.Done is called.
pub leave : Scheduler → Scheduler
leave s = record s { loop = exited; counter = s.counter - 1 }

pub on_tick : Bool → Scheduler → Scheduler
unfolding launch_process leave
on_tick is_complete s = if is_complete then leave s else launch_process s

pub reset_interval : ℕ → Scheduler → Scheduler
reset_interval new_interval s = record s { interval = new_interval }

-- Stop returns nil where the wait is over.
abbrev pub stop : Scheduler → Bool
stop s = eqb s.counter 0

pub begin_execute : ℕ → Scheduler → Scheduler
begin_execute i s = record s { is_running = true; runs = set s.runs i executing }

pub end_execute : ℕ → Scheduler → Scheduler
end_execute i s = record s { is_running = false; runs = set s.runs i returned }

pub wg_done : ℕ → Scheduler → Scheduler
wg_done i s = record s { counter = s.counter - 1; runs = set s.runs i finished }

-- What may happen next. Start is called once.
pub data Step (s : Scheduler) : Scheduler → Type 0 where
  started : s.loop ≡ idle → Step s (start s)
  ran_once : s.loop ≡ spawned → Step s (run_once s)
  ticked : (is_complete : Bool) → s.loop ≡ selecting → Step s (on_tick is_complete s)
  cancellation : Step s (record s { cancelled = true })
  saw_cancellation : s.loop ≡ selecting → s.cancelled ≡ true → Step s (leave s)
  began : (i : ℕ) → get_elem? s.runs i ≡ some launched → Step s (begin_execute i s)
  ended : (i : ℕ) → get_elem? s.runs i ≡ some executing → Step s (end_execute i s)
  went : (i : ℕ) → get_elem? s.runs i ≡ some returned → Step s (wg_done i s)
  reset : (new_interval : ℕ) → Step s (reset_interval new_interval s)

pub data Reach (s : Scheduler) : Scheduler → Type 0 where
  here : Reach s s
  next : {t u : Scheduler} → Reach s t → Step t u → Reach s u
