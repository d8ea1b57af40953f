-- ===== src/Satellite/Scheduler/Returns.antt =====
-- Stop returns, where the calls of Execute do.
use harbor_satellite.Common.{
  ℕ, zero, suc, ◌+◌, ◌≤◌, ◌≡◌, ◌≢◌, refl, ◌∙◌, true, some, List, [], ◌∷◌, get_elem?, set, arith,
}
use harbor_satellite.Satellite.Scheduler.{
  Run, launched, executing, returned, finished, Loop, idle, spawned, selecting, exited, Scheduler,
  new_scheduler_with_interval, run_once, leave, begin_execute, end_execute, wg_done, Step, ran_once,
  cancellation, saw_cancellation, began, ended, went, Reach, here, next, stop,
}
use harbor_satellite.Satellite.Scheduler.Counted.{
  active, Counted, Step-Counted, Reach-Counted, new-Counted,
}

-- The steps that a run still has to take.
abbrev steps_of : Run → ℕ
steps_of launched = 3
steps_of executing = 2
steps_of returned = 1
steps_of finished = 0

abbrev steps_left : List Run → ℕ
steps_left [] = 0
steps_left (r ∷ runs) = steps_of r + steps_left runs

steps_left-set :
    (runs : List Run) (i : ℕ) (r new : Run)
    → get_elem? runs i ≡ some r
    → steps_left (set runs i new) + steps_of r ≡ steps_left runs + steps_of new
unfolding get_elem? set
steps_left-set [] i r new h = absurd (ground arith)
steps_left-set (x ∷ runs) zero r new h = ground (arith, h)
steps_left-set (x ∷ runs) (suc i) r new h = omega (arith, steps_left-set runs i r new h)

active-le-steps_left : (runs : List Run) → active runs ≤ steps_left runs
unfolding active
active-le-steps_left [] = omega arith
active-le-steps_left (launched ∷ runs) = omega (arith, active-le-steps_left runs)
active-le-steps_left (executing ∷ runs) = omega (arith, active-le-steps_left runs)
active-le-steps_left (returned ∷ runs) = omega (arith, active-le-steps_left runs)
active-le-steps_left (finished ∷ runs) = omega (arith, active-le-steps_left runs)

pending :
    (runs : List Run) (m : ℕ)
    → steps_left runs ≡ suc m
    → (i : ℕ) × (r : Run) × (get_elem? runs i ≡ some r) × (r ≢ finished)
unfolding get_elem?
pending [] m h = absurd (ground arith)
pending (launched ∷ runs) m h = (0, launched, refl, λ e. ground arith)
pending (executing ∷ runs) m h = (0, executing, refl, λ e. ground arith)
pending (returned ∷ runs) m h = (0, returned, refl, λ e. ground arith)
pending (finished ∷ runs) m h =
    let (i, r, found, alive) = pending runs m (omega (arith, h)) in (suc i, r, found, alive)

after : {s t u : Scheduler} → Step s t → Reach t u → Reach s u
after st here = next here st
after st (next r last) = next (after st r) last

abbrev Stops : Scheduler → Type 0
Stops s = (t : Scheduler) × Reach s t × (stop t ≡ true)

Stops-after : {s t : Scheduler} → Step s t → Stops t → Stops s
Stops-after st (u, r, stopped) = (u, after st r, stopped)

progress :
    (s : Scheduler) (i : ℕ) (r : Run)
    → get_elem? s.runs i ≡ some r
    → r ≢ finished
    → (t : Scheduler) × Step s t × (t.loop ≡ s.loop) × (suc (steps_left t.runs) ≡ steps_left s.runs)
unfolding begin_execute end_execute wg_done
progress s i launched found alive = (
  begin_execute i s,
  began i found,
  refl,
  omega (arith, steps_left-set s.runs i launched executing found),
)
progress s i executing found alive = (
  end_execute i s,
  ended i found,
  refl,
  omega (arith, steps_left-set s.runs i executing returned found),
)
progress s i returned found alive = (
  wg_done i s,
  went i found,
  refl,
  omega (arith, steps_left-set s.runs i returned finished found),
)
progress s i finished found alive = absurd (alive refl)

drain : (m : ℕ) (s : Scheduler) → Counted s → s.loop ≡ exited → steps_left s.runs ≡ m → Stops s
drain zero s counted left h =
    (s, here, ground (arith, counted, left, h, active-le-steps_left s.runs))
drain (suc m) s counted left h =
    let (i, r, found, alive) = pending s.runs m h in
    let (t, st, same, less) = progress s i r found alive in
    Stops-after st (drain m t (Step-Counted st counted) (same ∙ left) (omega (arith, less, h)))

leaves : (s : Scheduler) → Counted s → s.loop ≡ selecting → s.cancelled ≡ true → Stops s
unfolding leave
leaves s counted selects cancelled =
    let st : Step s (leave s) = saw_cancellation selects cancelled in
    Stops-after st (drain (steps_left s.runs) (leave s) (Step-Counted st counted) refl refl)

selects : (s : Scheduler) → Counted s → s.loop ≡ selecting → Stops s
selects s counted at =
    let st : Step s (record s { cancelled = true }) = cancellation in
    Stops-after st (leaves (record s { cancelled = true }) (Step-Counted st counted) at refl)

Stops-from : (l : Loop) (s : Scheduler) → Counted s → s.loop ≡ l → l ≢ idle → Stops s
unfolding run_once
Stops-from idle s counted at begun = absurd (begun refl)
Stops-from spawned s counted at begun =
    let st : Step s (run_once s) = ran_once at in
    Stops-after st (selects (run_once s) (Step-Counted st counted) refl)
Stops-from selecting s counted at begun = selects s counted at
Stops-from exited s counted at begun = drain (steps_left s.runs) s counted at refl

-- Stop never hangs for good: from whatever a scheduler that was started has come to, there are steps
-- after which Stop returns without an error, where the context is cancelled and the calls of Execute
-- that run return.
pub stop_reachable :
    (duration : ℕ) (s : Scheduler)
    → Reach (new_scheduler_with_interval duration) s
    → s.loop ≢ idle
    → (t : Scheduler) × Reach s t × (stop t ≡ true)
stop_reachable duration s before begun =
    Stops-from s.loop s (Reach-Counted (new-Counted duration) before) refl begun
