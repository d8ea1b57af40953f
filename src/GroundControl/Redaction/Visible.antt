-- ===== src/GroundControl/Redaction/Visible.antt =====
-- What a redacted config shows.
use harbor_satellite.Common.{◌≡◌, refl, ap, true, ◌⊎◌, inl, inr, ◌↔◌, arith, Bool-cases}
use harbor_satellite.GroundControl.Redaction.{
  Value, null, boolean, number, text, array, object, Elements, no_elements, element, Entries,
  no_entries, entry, is_sensitive_config_key, redact_config_value, redact_elements, redact_entries,
}

-- Values that differ at most below sensitive keys.
mutual
  pub Agree : Value → Value → Type 0
  Agree (array xs) (array ys) = AgreeElements xs ys
  Agree (object fs) (object gs) = AgreeEntries fs gs
  Agree v w = v ≡ w

  pub AgreeElements : Elements → Elements → Type 0
  AgreeElements (element v xs) (element w ys) = Agree v w × AgreeElements xs ys
  AgreeElements xs ys = xs ≡ ys

  pub AgreeEntries : Entries → Entries → Type 0
  AgreeEntries (entry key v fs) (entry name w gs) =
      (key ≡ name) × ((is_sensitive_config_key key ≡ true) ⊎ Agree v w) × AgreeEntries fs gs
  AgreeEntries fs gs = fs ≡ gs

mutual
  unfolding Agree redact_config_value

  redact_config_value-Agree :
      (v w : Value) → Agree v w → redact_config_value v ≡ redact_config_value w
  redact_config_value-Agree (array xs) (array ys) a = ap array (redact_elements-Agree xs ys a)
  redact_config_value-Agree (object fs) (object gs) a = ap object (redact_entries-Agree fs gs a)
  redact_config_value-Agree v w a = ap redact_config_value a

  redact_elements-Agree :
      (xs ys : Elements) → AgreeElements xs ys → redact_elements xs ≡ redact_elements ys
  redact_elements-Agree (element v xs) (element w ys) (a, b) =
      cc (redact_config_value-Agree v w a, redact_elements-Agree xs ys b)
  redact_elements-Agree xs ys a = ap redact_elements a

  redact_entries-Agree :
      (fs gs : Entries) → AgreeEntries fs gs → redact_entries fs ≡ redact_entries gs
  redact_entries-Agree (entry key v fs) (entry name w gs) (same, inl hidden, a) =
      ground (arith, hidden, redact_entries-Agree fs gs a)
  redact_entries-Agree (entry key v fs) (entry name w gs) (same, inr b, a) =
      ground (arith, redact_config_value-Agree v w b, redact_entries-Agree fs gs a)
  redact_entries-Agree fs gs a = ap redact_entries a

mutual
  unfolding Agree redact_config_value

  Agree-redacted : (v w : Value) → redact_config_value v ≡ redact_config_value w → Agree v w
  Agree-redacted null null e = refl
  Agree-redacted (boolean b) (boolean d) e = e
  Agree-redacted (number n) (number m) e = e
  Agree-redacted (text s) (text t) e = e
  Agree-redacted (array xs) (array ys) e = AgreeElements-redacted xs ys (ground arith)
  Agree-redacted (object fs) (object gs) e = AgreeEntries-redacted fs gs (ground arith)
  Agree-redacted v w e = absurd (ground arith)

  AgreeElements-redacted :
      (xs ys : Elements) → redact_elements xs ≡ redact_elements ys → AgreeElements xs ys
  AgreeElements-redacted no_elements no_elements e = refl
  AgreeElements-redacted (element v xs) (element w ys) e =
      (Agree-redacted v w (ground arith), AgreeElements-redacted xs ys (ground arith))
  AgreeElements-redacted xs ys e = absurd (ground arith)

  AgreeEntries-redacted :
      (fs gs : Entries) → redact_entries fs ≡ redact_entries gs → AgreeEntries fs gs
  AgreeEntries-redacted no_entries no_entries e = refl
  AgreeEntries-redacted (entry key v fs) (entry name w gs) e = (
    ground arith,
    (elim (Bool-cases (is_sensitive_config_key key)) [
      | inl hidden ↦ inl hidden
      | inr shown ↦ inr (Agree-redacted v w (ground (arith, shown)))
    ]),
    AgreeEntries-redacted fs gs (ground arith),
  )
  AgreeEntries-redacted fs gs e = absurd (ground arith)

-- Two configs are recorded alike if and only if they have the same keys and the same values but below
-- keys that name a secret: nothing of a secret is shown, and nothing else is lost.
pub redact_config_value_visible :
    (v w : Value) → (redact_config_value v ≡ redact_config_value w) ↔ Agree v w
redact_config_value_visible v w = (Agree-redacted v w, redact_config_value-Agree v w)
