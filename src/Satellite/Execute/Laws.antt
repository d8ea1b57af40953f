-- ===== src/Satellite/Execute/Laws.antt =====
-- Proofs about the commits under the lock.
use mathlib.Core.Option.{some-injective}
use harbor_satellite.Common.{
  ℕ, ◌≡◌, ◌≢◌, refl, sym, ap, ◌∙◌, false, Option, none, some, List, [], ◌∷◌, ◌++◌, map, ◌==◌,
  eq_iff, if◌then◌else◌, get_elem?, get_elem?-set, eqb, eqb_iff, Bool-cases, Option-cases, inl, inr,
}
use harbor_satellite.Satellite.State.{State}
use harbor_satellite.Satellite.Groups.{StateMap}
use harbor_satellite.Satellite.Persistence.{
  Codec, CodecLaws, Faults, Disk, Process, save_state, new_process,
}
use harbor_satellite.Satellite.Persistence.Laws.{forget, new_process-save_state}
use harbor_satellite.Satellite.GroupState.{commit}
use harbor_satellite.Satellite.GroupState.Laws.{recorded}
use harbor_satellite.Satellite.Execute.{
  Locked, group_done, config_done, persist, commit_config, commit_found, under_lock, all_under_lock,
}

abbrev pub faults_of : Locked → Faults
faults_of (group_done index new f) = f
faults_of (config_done digest f) = f

-- The new state that a sequence commits last for an index.
pub last_commit : ℕ → List Locked → Option State
last_commit index [] = none
last_commit index (config_done digest f ∷ es) = last_commit index es
last_commit index (group_done i new f ∷ es) =
    let later = last_commit index es in
    elim later [ some s ↦ some s | none ↦ if eqb i index then some new else none ]

abbrev pub with_commit : Option State → StateMap → StateMap
with_commit none g = g
with_commit (some new) g = recorded g new

with_commit-last_commit :
    (index i : ℕ) (new : State) (f : Faults) (es : List Locked) (g : StateMap)
    → with_commit (last_commit index es) (if eqb i index then recorded g new else g)
      ≡ with_commit (last_commit index (group_done i new f ∷ es)) g
unfolding last_commit
with_commit-last_commit index i new f es g = elim (Option-cases (last_commit index es)) [
  | inl none_later ↦ elim (Bool-cases (eqb i index)) [
    | inl here ↦ rw (none_later, here) refl
    | inr other ↦ rw (none_later, other) refl
  ]
  | inr (later, found) ↦ elim (Bool-cases (eqb i index)) [
    | inl here ↦ rw (found, here) refl
    | inr other ↦ rw (found, other) refl
  ]
]

-- The panic of an index out of range left aside.
abbrev pub IsInRange : Locked → Process → Type 0
IsInRange (group_done i new f) p = (g : StateMap) × (get_elem? p.state_map i ≡ some g)
IsInRange (config_done digest f) p = Unit

module _ (codec : Codec) where
  committed :
      (i index : ℕ) (new : State) (f : Faults) (p : Process) (d : Disk) (g : StateMap)
      (o : Option StateMap)
      → get_elem? p.state_map i ≡ o
      → get_elem? p.state_map index ≡ some g
      → get_elem? (commit_found codec f i new o p d).0.state_map index
        ≡ some (if eqb i index then recorded g new else g)
  unfolding commit_found commit
  committed i index new f p d g none missing h = elim (Bool-cases (eqb i index)) [
    | inl here ↦ cc (missing, h, (eqb_iff i index).0 here)
    | inr other ↦ rw other h
  ]
  committed i index new f p d g (some gi) found h =
      get_elem?-set p.state_map i index (recorded gi new) gi found
      ∙ elim (Bool-cases (eqb i index)) [
        | inl here ↦ rw here (
            ap (λ x. some (recorded x new))
              (some-injective gi g
                (sym found ∙ ap (λ k. get_elem? p.state_map k) ((eqb_iff i index).0 here) ∙ h)))
        | inr other ↦ rw other h
      ]

  -- Whatever takes the lock, in whatever order and with whatever faults: in the end each group has the
  -- state that was committed for it last, with that state's entities, or is as it was.
  pub group-all_under_lock :
      (es : List Locked) (p : Process) (d : Disk) (index : ℕ) (g : StateMap)
      → get_elem? p.state_map index ≡ some g
      → get_elem? (all_under_lock codec es p d).0.state_map index
        ≡ some (with_commit (last_commit index es) g)
  unfolding all_under_lock under_lock commit_config last_commit
  group-all_under_lock [] p d index g h = h
  group-all_under_lock (config_done digest f ∷ es) p d index g h =
      let next = under_lock codec (config_done digest f) p d in
      group-all_under_lock es next.0 next.1 index g h
  group-all_under_lock (group_done i new f ∷ es) p d index g h =
      let next = under_lock codec (group_done i new f) p d in
      group-all_under_lock es next.0 next.1 index (if eqb i index then recorded g new else g)
        (committed i index new f p d g (get_elem? p.state_map i) refl h)
      ∙ ap some (with_commit-last_commit index i new f es g)

  under_lock-saves :
      (e : Locked) (p : Process) (d : Disk)
      → IsInRange e p
      → (under_lock codec e p d).1 ≡ persist codec (faults_of e) (under_lock codec e p d).0 d
  unfolding under_lock commit_found commit commit_config persist
  under_lock-saves (config_done digest f) p d range = refl
  under_lock-saves (group_done i new f) p d (g, found) = rw (found, commit_found) refl

  all_under_lock-append :
      (es : List Locked) (e : Locked) (p : Process) (d : Disk)
      → all_under_lock codec (es ++ (e ∷ [])) p d
        ≡ under_lock codec e (all_under_lock codec es p d).0 (all_under_lock codec es p d).1
  unfolding all_under_lock
  all_under_lock-append [] e p d = refl
  all_under_lock-append (x ∷ es) e p d =
      all_under_lock-append es e (under_lock codec x p d).0 (under_lock codec x p d).1

  persist_lem :
      (f : Faults) (p : Process) (d : Disk)
      → p.state_file_path ≢ ""
      → persist codec f p d ≡ (save_state codec f p.state_map p.current_config_digest d).0
  unfolding persist
  persist_lem f p d named = elim (Bool-cases (p.state_file_path == "")) [
    | inl unnamed ↦ absurd (named ((eq_iff p.state_file_path "").0 unnamed))
    | inr other ↦ rw (other, persist) refl
  ]

  restart-under_lock :
      (laws : CodecLaws codec) (e : Locked) (p p' : Process) (d d' : Disk)
      → under_lock codec e p d ≡ (p', d')
      → IsInRange e p
      → p'.state_file_path ≢ ""
      → (save_state codec (faults_of e) p'.state_map p'.current_config_digest d).1 ≡ none
      → new_process codec false p'.state_file_path d'
        ≡ record p' { state_map = map forget p'.state_map }
  restart-under_lock laws e p p' d d' out range named ok =
      let on_disk : d'
          ≡ (save_state codec (faults_of e) p'.state_map p'.current_config_digest d).0 =
        sym (ap (λ o. o.1) out)
        ∙ under_lock-saves e p d range
        ∙ ap (λ o. persist codec (faults_of e) o.0 d) out
        ∙ persist_lem (faults_of e) p' d named in
      ap (new_process codec false p'.state_file_path) on_disk
      ∙ new_process-save_state codec laws (faults_of e) p'.state_map p'.current_config_digest
          p'.state_file_path d named ok

  -- Whatever took the lock before, and whichever of those saves failed: if the last save fails nowhere,
  -- a process that starts on the readable file is the one that stopped, with the digest of its config
  -- and its groups with their URLs and entities, and without their states, which it fetches again.
  pub restart-all_under_lock :
      (laws : CodecLaws codec) (es : List Locked) (e : Locked) (p p' : Process) (d d' : Disk)
      → all_under_lock codec (es ++ (e ∷ [])) p d ≡ (p', d')
      → IsInRange e (all_under_lock codec es p d).0
      → p'.state_file_path ≢ ""
      → (save_state codec
          (faults_of e)
          p'.state_map
          p'.current_config_digest
          (all_under_lock codec es p d).1).1
        ≡ none
      → new_process codec false p'.state_file_path d'
        ≡ record p' { state_map = map forget p'.state_map }
  restart-all_under_lock laws es e p p' d d' out range named ok =
      let before = all_under_lock codec es p d in
      restart-under_lock laws e before.0 p' before.1 d' (sym (all_under_lock-append es e p d) ∙ out)
        range named ok
