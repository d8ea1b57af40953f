-- ===== src/Satellite/Scheduler/Stopped.antt =====
-- What Stop waits for.
use harbor_satellite.Common.{
  ℕ, zero, suc, ◌+◌, ◌≤◌, ◌≡◌, ◌≢◌, refl, true, some, List, [], ◌∷◌, get_elem?, eqb, arith,
}
use harbor_satellite.Satellite.Scheduler.{
  Run, launched, executing, returned, Loop, idle, spawned, selecting, exited, Scheduler,
  new_scheduler_with_interval, start, launch_process, run_once, leave, on_tick, reset_interval,
  begin_execute, end_execute, wg_done, Step, started, ran_once, ticked, cancellation,
  saw_cancellation, began, ended, went, reset, Reach, here, next, stop,
}
use harbor_satellite.Satellite.Scheduler.Counted.{
  of_run, of_loop, active, Counted, Reach-Counted, new-Counted,
}

-- The loop has returned, and every run is finished.
abbrev pub Quiet : Scheduler → Type 0
Quiet s = (s.loop ≡ exited) × (active s.runs ≡ 0)

get-active :
    (runs : List Run) (i : ℕ) (r : Run) → get_elem? runs i ≡ some r → of_run r ≤ active runs
unfolding active get_elem?
get-active [] i r h = absurd (ground arith)
get-active (x ∷ runs) zero r h = ground (arith, h)
get-active (x ∷ runs) (suc i) r h = omega (arith, get-active runs i r h)

exited-idle : exited ≢ idle
exited-idle e = ground arith

Step-Quiet : {s t : Scheduler} → Step s t → Quiet s → Quiet t
unfolding start launch_process run_once leave on_tick reset_interval begin_execute end_execute
    wg_done
Step-Quiet {s} (started e) h = absurd (ground (arith, h, e))
Step-Quiet {s} (ran_once e) h = absurd (ground (arith, h, e))
Step-Quiet {s} (ticked c e) h = absurd (ground (arith, h, e))
Step-Quiet {s} cancellation h = h
Step-Quiet {s} (saw_cancellation e f) h = absurd (ground (arith, h, e))
Step-Quiet {s} (began i e) h = absurd (ground (arith, h, get-active s.runs i launched e))
Step-Quiet {s} (ended i e) h = absurd (ground (arith, h, get-active s.runs i executing e))
Step-Quiet {s} (went i e) h = absurd (ground (arith, h, get-active s.runs i returned e))
Step-Quiet {s} (reset n) h = h

Reach-Quiet : {s t : Scheduler} → Quiet s → Reach s t → Quiet t
Reach-Quiet h here = h
Reach-Quiet h (next r st) = Step-Quiet st (Reach-Quiet h r)

none_left :
    (l : Loop) (a c : ℕ) → c ≡ of_loop l + a → l ≢ idle → eqb c 0 ≡ true → (l ≡ exited) × (a ≡ 0)
none_left idle a c counted begun stopped = absurd (begun refl)
none_left spawned a c counted begun stopped = absurd (ground (arith, counted, stopped))
none_left selecting a c counted begun stopped = absurd (ground (arith, counted, stopped))
none_left exited a c counted begun stopped = (refl, ground (arith, counted, stopped))

Quiet-counter : (s : Scheduler) → Counted s → Quiet s → stop s ≡ true
Quiet-counter s counted quiet = ground (arith, counted, quiet)

-- Once Stop of a scheduler that was started has returned without an error, its loop has returned and no
-- call of Execute is running or about to run, and whatever happens after that, none ever begins.
pub stop-Quiet :
    (duration : ℕ) {s t : Scheduler}
    → Reach (new_scheduler_with_interval duration) s
    → s.loop ≢ idle
    → stop s ≡ true
    → Reach s t
    → Quiet t × (stop t ≡ true)
stop-Quiet duration {s} {t} before begun stopped after =
    let counted = Reach-Counted (new-Counted duration) before in
    let quiet =
      Reach-Quiet (none_left s.loop (active s.runs) s.counter counted begun stopped) after in
    (quiet, Quiet-counter t (Reach-Counted counted after) quiet)
