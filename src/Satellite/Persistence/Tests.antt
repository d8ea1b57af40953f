-- ===== src/Satellite/Persistence/Tests.antt =====
-- Saving and loading with a codec of the states of one group with a nil slice and no digest.
use mathlib.Core.Option.{some-injective}
use harbor_satellite.Common.{
  String, ◌≡◌, refl, ap, true, false, Option, none, some, List, [], ◌∷◌, ◌==◌, eq_iff,
  if◌then◌else◌, Bool-cases, Option-cases, inl, inr,
}
use harbor_satellite.Satellite.Groups.{StateMap}
use harbor_satellite.Satellite.Persistence.{
  Codec, CodecLaws, PersistedState, PersistedGroupState, Disk, Faults, SaveError, rename_temp,
  persist_group, persisted, clean_up, write_text, save_state, new_process,
}
use harbor_satellite.Satellite.Persistence.Laws.{save_state-file, new_process-save_state}

unfoldable pub encode : PersistedState → Option String
encode p = elim p.groups [
  | [] ↦ none
  | g ∷ rest ↦ elim rest [
    | [] ↦ elim g.entities [
      | none ↦ if p.config_digest == "" then some g.url else none
      | some es ↦ none
    ]
    | other ∷ others ↦ none
  ]
]

abbrev one_group : String → PersistedState
one_group url = record { config_digest = ""; groups = record { url = url; entities = none } ∷ [] }

group_eq :
    (digest : String) {g : PersistedGroupState} {text : String}
    → g.url ≡ text
    → digest ≡ ""
    → g.entities ≡ none
    → one_group text ≡ record { config_digest = digest; groups = g ∷ [] }
group_eq digest {g} {text} url none_saved nil = cc (url, none_saved, nil)

decode-encode :
    (digest : String) (groups : List PersistedGroupState) (text : String)
    → encode (record { config_digest = digest; groups = groups }) ≡ some text
    → some (one_group text) ≡ some (record { config_digest = digest; groups = groups })
unfolding encode
decode-encode digest [] text h = cc h
decode-encode digest (g ∷ other ∷ others) text h = cc h
decode-encode digest (g ∷ []) text h = elim (Option-cases g.entities) [
  | inl nil ↦ elim (Bool-cases (digest == "")) [
    | inl same ↦
        let url : some g.url ≡ some text = rw (nil, same, encode) at h in
        ap some (group_eq digest (some-injective _ _ url) ((eq_iff _ _).0 same) nil)
    | inr other ↦ cc (rw (nil, other, encode) at h)
  ]
  | inr (es, slice) ↦ cc (rw (slice, encode) at h)
]

abbrev pub codec : Codec
codec = record { marshal = encode; unmarshal = λ text. some (one_group text) }

pub codec-laws : CodecLaws codec
codec-laws = record {
  unmarshal-marshal = λ p text h. decode-encode p.config_digest p.groups text h;
}

abbrev group : StateMap
group = record { url = "harbor/satellite/group"; state = none; entities = none }

abbrev old_disk : Disk
old_disk = record { file = some "old"; temp = none }

abbrev pub faultless : Faults
faultless = record {
  create = false;
  write = false;
  sync = false;
  close = false;
  rename = false;
  remove = false;
}

abbrev rename_fails : Faults
rename_fails = record faultless { rename = true }

renamed : save_state codec rename_fails (group ∷ []) "" old_disk ≡ (old_disk, some rename_temp)
unfolding save_state write_text clean_up persisted persist_group encode
renamed = refl

save_state-file_example :
    ((e : SaveError)
      → (save_state codec rename_fails (group ∷ []) "" old_disk).1 ≡ some e
      → (save_state codec rename_fails (group ∷ []) "" old_disk).0.file ≡ some "old")
    × ((save_state codec rename_fails (group ∷ []) "" old_disk).1 ≡ none
        → ((save_state codec rename_fails (group ∷ []) "" old_disk).0.file
            ≡ codec.marshal (persisted (group ∷ []) ""))
          × ((save_state codec rename_fails (group ∷ []) "" old_disk).0.temp ≡ none))
save_state-file_example = save_state-file codec rename_fails (group ∷ []) "" old_disk

new_process-save_state_example :
    new_process codec false "state.json" (save_state codec faultless (group ∷ []) "" old_disk).0
    ≡ record { state_map = group ∷ []; current_config_digest = ""; state_file_path = "state.json" }
unfolding save_state write_text clean_up persisted persist_group encode
new_process-save_state_example =
    new_process-save_state codec codec-laws faultless (group ∷ []) "" "state.json" old_disk
      (λ h. cc h) refl
