-- ===== src/Satellite/Persistence/Laws.antt =====
-- Proofs about SaveState, and about a start after it.
use harbor_satellite.Common.{
  String, ◌≡◌, ◌≢◌, refl, ap, false, Option, none, some, List, [], ◌∷◌, map, arith, ◌==◌, eq_iff,
  Bool-cases, Option-cases, inl, inr,
}
use harbor_satellite.Satellite.Groups.{StateMap}
use harbor_satellite.Satellite.Persistence.{
  Codec, CodecLaws, PersistedState, Disk, Faults, SaveError, persist_group, persisted, clean_up,
  save_state, loaded, restore_group, load_state, restore, new_process,
}

-- Whatever system calls fail, a save that returns an error leaves the state file as it was, and a
-- save that returns none leaves in it exactly the text of the groups and the digest, and no temporary
-- file.
pub save_state-file :
    (c : Codec) (f : Faults) (groups : List StateMap) (digest : String) (d : Disk)
    → ((e : SaveError)
        → (save_state c f groups digest d).1 ≡ some e
        → (save_state c f groups digest d).0.file ≡ d.file)
      × ((save_state c f groups digest d).1 ≡ none
          → ((save_state c f groups digest d).0.file ≡ c.marshal (persisted groups digest))
            × ((save_state c f groups digest d).0.temp ≡ none))
unfolding save_state clean_up
save_state-file c f groups digest d = elim (Option-cases (c.marshal (persisted groups digest))) [
  | inl failed ↦ rw (failed, save_state) (λ e h. refl, λ h. cc)
  | inr (text, done) ↦ rw (done, save_state) (λ e h. ground arith, λ h. ground arith)
]

-- What a restart cannot know: the state artifact itself.
abbrev pub forget : StateMap → StateMap
forget g = record g { state = none }

restore-persist :
    (groups : List StateMap) → map restore_group (map persist_group groups) ≡ map forget groups
unfolding restore_group persist_group
restore-persist [] = refl
restore-persist (g ∷ groups) = ap (λ rest. forget g ∷ rest) (restore-persist groups)

load_state-loaded :
    (c : Codec) (laws : CodecLaws c) (p : PersistedState) (d : Disk) (o : Option String)
    → c.marshal p ≡ o
    → d.file ≡ o
    → o ≢ none
    → load_state c false d ≡ loaded p
unfolding load_state
load_state-loaded c laws p d none written there some_text = absurd (some_text refl)
load_state-loaded c laws p d (some text) written there some_text =
    rw (there, load_state) (rw (laws.unmarshal-marshal p text written) refl)

marshal-ne-none :
    (c : Codec) (f : Faults) (groups : List StateMap) (digest : String) (d : Disk)
    → (save_state c f groups digest d).1 ≡ none
    → c.marshal (persisted groups digest) ≢ none
unfolding save_state
marshal-ne-none c f groups digest d ok failed = cc (rw (failed, save_state) at ok)

restore-loaded :
    (path : String) (groups : List StateMap) (digest : String)
    → restore path (loaded (persisted groups digest)) ≡ record {
      state_map = map forget groups;
      current_config_digest = digest;
      state_file_path = path;
    }
unfolding restore persisted
restore-loaded path groups digest =
    ap (λ gs. record { state_map = gs; current_config_digest = digest; state_file_path = path })
      (restore-persist groups)

-- After a save without an error, a process that starts on the readable file has the digest that was
-- saved and the groups that were saved, in order, with their URLs and entities.
pub new_process-save_state :
    (c : Codec) (laws : CodecLaws c) (f : Faults) (groups : List StateMap) (digest path : String)
    (d : Disk)
    → path ≢ ""
    → (save_state c f groups digest d).1 ≡ none
    → new_process c false path (save_state c f groups digest d).0 ≡ record {
      state_map = map forget groups;
      current_config_digest = digest;
      state_file_path = path;
    }
unfolding new_process
new_process-save_state c laws f groups digest path d named ok =
    let p = persisted groups digest in
    let d' = (save_state c f groups digest d).0 in
    let there = ((save_state-file c f groups digest d).1 ok).0 in
    let found =
      load_state-loaded c laws p d' (c.marshal p) refl there
        (marshal-ne-none c f groups digest d ok) in
    elim (Bool-cases (path == "")) [
      | inl unnamed ↦ absurd (named ((eq_iff path "").0 unnamed))
      | inr other ↦ rw (other, found) (restore-loaded path groups digest)
    ]
