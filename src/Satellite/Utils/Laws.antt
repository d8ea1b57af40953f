-- ===== src/Satellite/Utils/Laws.antt =====
-- Proofs about GetRepositoryAndImageNameFromArtifact.
use Prim.Native.Char.{Char, code}
use text.Mathlib.TextEquality.{Char-path}
use text.Mathlib.TextLemmas.{nil-append, cons-append}
use harbor_satellite.Common.{
  ℕ, String, ◌⧺◌, ◌≡◌, ap, refl, subst, inl, inr, false, Option, none, some, List, [], ◌∷◌, eqb,
  Bool-cases, eqb_iff, ◌∙◌,
}
use harbor_satellite.Satellite.Utils.{cut, split, join, get_repository_and_image_name_from_artifact}

-- No character of the text has the number `sep`.
abbrev pub Lacks : ℕ → String → Type 0
Lacks sep String.[] = Unit
Lacks sep (String.◌∷◌ c s) = (eqb (code c) sep ≡ false) × Lacks sep s

-- There is a first part, and the separator is not in it.
abbrev Begins : ℕ → List String → Type 0
Begins sep [] = ⊥
Begins sep (part ∷ parts) = Lacks sep part

cut-Begins :
    (sep : ℕ) (c : Char) (parts : List String) → Begins sep parts → Begins sep (cut sep c parts)
unfolding cut
cut-Begins sep c [] h = absurd h
cut-Begins sep c (part ∷ parts) h = elim (Bool-cases (eqb (code c) sep)) [
  | inl e ↦ rw e tt
  | inr e ↦ rw e (e, h)
]

split-Begins : (sep : ℕ) (s : String) → Begins sep (split sep s)
unfolding split
split-Begins sep String.[] = tt
split-Begins sep (String.◌∷◌ c s) = cut-Begins sep c (split sep s) (split-Begins sep s)

join-cut :
    (d c : Char) (parts : List String)
    → Begins (code d) parts
    → join (String.◌∷◌ d "") (cut (code d) c parts) ≡ String.◌∷◌ c (join (String.◌∷◌ d "") parts)
unfolding cut join
join-cut d c [] h = absurd h
join-cut d c (part ∷ parts) h = elim (Bool-cases (eqb (code c) (code d))) [
  | inl e ↦ rw (e, Char-path c d ((eqb_iff (code c) (code d)).0 e)) (simp (cons-append, nil-append))
  | inr e ↦ rw e (first_part c part parts)
]
  where
    first_part :
        (c : Char) (part : String) (parts : List String)
        → join (String.◌∷◌ d "") (String.◌∷◌ c part ∷ parts)
          ≡ String.◌∷◌ c (join (String.◌∷◌ d "") (part ∷ parts))
    first_part c part [] = refl
    first_part c part (next ∷ parts) = simp cons-append

join-split : (d : Char) (s : String) → join (String.◌∷◌ d "") (split (code d) s) ≡ s
unfolding split
join-split d String.[] = unfold join in refl
join-split d (String.◌∷◌ c s) =
    join-cut d c (split (code d) s) (split-Begins (code d) s) ∙ ap (String.◌∷◌ c) (join-split d s)

rejoin : (s : String) {parts : List String} → split b'/' s ≡ parts → join "/" parts ≡ s
rejoin s e = subst (λ parts. join "/" parts ≡ s) e (join-split "/" s)

-- What a repository path becomes: nothing where it has no slash, and else the part in front of its
-- first slash and the part behind it.
abbrev pub IsCutAtSlash : String → Option (String × String) → Type 0
IsCutAtSlash s none = Lacks b'/' s
IsCutAtSlash s (some (repo, image)) = Lacks b'/' repo × (repo ⧺ ("/" ⧺ image) ≡ s)

cut_at_slash :
    (s : String) (parts : List String)
    → split b'/' s ≡ parts
    → IsCutAtSlash s (get_repository_and_image_name_from_artifact s)
unfolding get_repository_and_image_name_from_artifact
cut_at_slash s [] e = absurd (subst (Begins b'/') e (split-Begins b'/' s))
cut_at_slash s (repo ∷ []) e =
    rw (e, get_repository_and_image_name_from_artifact)
      (unfold join in subst (Lacks b'/') (rejoin s e) (subst (Begins b'/') e (split-Begins b'/' s)))
cut_at_slash s (repo ∷ image ∷ images) e =
    rw (e, get_repository_and_image_name_from_artifact)
      (subst (Begins b'/') e (split-Begins b'/' s), unfold join in rejoin s e)

-- The repository path of an artifact is refused exactly when it has no slash, and otherwise cut at
-- its first slash: the repository has none, and the two parts with a slash between are the path.
pub get_repository_and_image_name_from_artifact_total :
    (s : String) → IsCutAtSlash s (get_repository_and_image_name_from_artifact s)
get_repository_and_image_name_from_artifact_total s = cut_at_slash s (split b'/' s) refl
