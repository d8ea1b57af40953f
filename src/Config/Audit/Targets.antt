-- ===== src/Config/Audit/Targets.antt =====
-- What is enforced of each target of the audit log.
use harbor_satellite.Common.{
  String, ◌≡◌, ◌≢◌, refl, sym, ap, subst, ◌∙◌, inl, inr, true, false, Option, none, some, ◌==◌,
  eq_iff, ℤ, pos, ltℤ, ◌≤ℤ◌, arith, Bool-cases, distinct,
}
use harbor_satellite.Config.Audit.{
  max_age_days_invalid, default_audit_max_age_days, max_backups_invalid, default_audit_max_backups,
  SyslogAuditFile, SyslogAudit, Warning, max_size_mb_invalid, text_or, enforce_field,
  enforce_audit_rotation, enforce_file_target, enforce_daemon_target, validate_network_target,
  enforce_invalid_target, enforce_target, default_audit_max_size_mb, default_audit_file_path,
}

-- The pointer has a value that is no less than `low`.
abbrev pub IsAtLeast : ℤ → Option ℤ → Type 0
IsAtLeast low field = (n : ℤ) × (field ≡ some n) × (low ≤ℤ n)

pub record ValidFile (f : SyslogAuditFile) : Type 0 where
  pub named : f.path ≢ ""
  pub size : IsAtLeast (pos 1) f.max_size_mb
  pub backups : IsAtLeast (pos 0) f.max_backups
  pub age : IsAtLeast (pos 0) f.max_age_days

pub data ValidTarget (s : SyslogAudit) : Type 0 where
  daemon : s.target ≡ "daemon" → s.socket_path ≢ "" → ValidTarget s
  network : s.target ≡ "network" → s.network ≢ "" → ValidTarget s
  file : s.target ≡ "file" → ValidFile s.file → ValidTarget s

pub text_or_ne : (d t : String) → d ≢ "" → text_or d t ≢ ""
text_or_ne d t given = elim (Bool-cases (t == "")) [
  | inl empty ↦ rw empty given
  | inr filled ↦ rw filled (distinct filled)
]

pub text_or-same : (d t : String) → t ≢ "" → text_or d t ≡ t
text_or-same d t given = ground (arith, eq_iff t "", given)

enforce_field-IsAtLeast :
    (low d : ℤ) (w : Warning) (field : Option ℤ)
    → low ≤ℤ d
    → IsAtLeast low (enforce_field (λ x. ltℤ x low) d w field).0
unfolding enforce_field
enforce_field-IsAtLeast low d w none h = (d, refl, h)
enforce_field-IsAtLeast low d w (some x) h = elim (Bool-cases (ltℤ x low)) [
  | inl bad ↦ rw bad (d, refl, h)
  | inr good ↦ rw good (x, refl, good)
]

enforce_field-same :
    (low d : ℤ) (w : Warning) (field : Option ℤ)
    → IsAtLeast low field
    → (enforce_field (λ x. ltℤ x low) d w field).0 ≡ field
unfolding enforce_field
enforce_field-same low d w field (n, there, good) = rw (there, good, enforce_field) refl

file_target-ValidFile : (s : SyslogAudit) → ValidFile (enforce_file_target s).0.file
unfolding enforce_file_target enforce_audit_rotation
file_target-ValidFile s = record {
  named = text_or_ne default_audit_file_path s.file.path (distinct refl);
  size = enforce_field-IsAtLeast (pos 1) _ _ s.file.max_size_mb refl;
  backups = enforce_field-IsAtLeast (pos 0) _ _ s.file.max_backups refl;
  age = enforce_field-IsAtLeast (pos 0) _ _ s.file.max_age_days refl;
}

pub daemon_target :
    (s : SyslogAudit) → (s.target == "daemon") ≡ true → enforce_target s ≡ enforce_daemon_target s
unfolding enforce_target
daemon_target s h = rw (h, enforce_target) refl

pub network_target :
    (s : SyslogAudit)
    → (s.target == "daemon") ≡ false
    → (s.target == "network") ≡ true
    → enforce_target s ≡ validate_network_target s
unfolding enforce_target
network_target s h k = rw (h, k, enforce_target) refl

pub file_target :
    (s : SyslogAudit)
    → (s.target == "daemon") ≡ false
    → (s.target == "network") ≡ false
    → (s.target == "file") ≡ true
    → enforce_target s ≡ enforce_file_target s
unfolding enforce_target
file_target s h k l = rw (h, k, l, enforce_target) refl

other_target :
    (s : SyslogAudit)
    → (s.target == "daemon") ≡ false
    → (s.target == "network") ≡ false
    → (s.target == "file") ≡ false
    → enforce_target s ≡ enforce_invalid_target s
unfolding enforce_target
other_target s h k l = rw (h, k, l, enforce_target) refl

pub target-ValidTarget : (s : SyslogAudit) → ValidTarget (enforce_target s).0
unfolding enforce_daemon_target validate_network_target enforce_invalid_target enforce_file_target
target-ValidTarget s = elim (Bool-cases (s.target == "daemon")) [
  | inl is_daemon ↦
      subst (λ o. ValidTarget o.0) (sym (daemon_target s is_daemon))
        (daemon ((eq_iff s.target "daemon").0 is_daemon)
          (text_or_ne "/dev/log" s.socket_path (distinct refl)))
  | inr not_daemon ↦ elim (Bool-cases (s.target == "network")) [
    | inl is_network ↦
        subst (λ o. ValidTarget o.0) (sym (network_target s not_daemon is_network))
          (network ((eq_iff s.target "network").0 is_network)
            (text_or_ne "udp" s.network (distinct refl)))
    | inr not_network ↦ elim (Bool-cases (s.target == "file")) [
      | inl is_file ↦
          subst (λ o. ValidTarget o.0) (sym (file_target s not_daemon not_network is_file))
            (file ((eq_iff s.target "file").0 is_file) (file_target-ValidFile s))
      | inr not_file ↦
          subst (λ o. ValidTarget o.0) (sym (other_target s not_daemon not_network not_file))
            (file refl (file_target-ValidFile (record s { target = "file" })))
    ]
  ]
]

-- The tag is kept by what the targets enforce.
pub target-tag : (s : SyslogAudit) → (enforce_target s).0.tag ≡ s.tag
unfolding enforce_target enforce_daemon_target validate_network_target enforce_invalid_target
    enforce_file_target
target-tag s = ground arith

pub target-enabled : (s : SyslogAudit) → (enforce_target s).0.enabled ≡ s.enabled
unfolding enforce_target enforce_daemon_target validate_network_target enforce_invalid_target
    enforce_file_target
target-enabled s = ground arith

file_same : (f : SyslogAuditFile) → ValidFile f → (enforce_audit_rotation f).0 ≡ f
unfolding enforce_audit_rotation
file_same f v = cc (
  enforce_field-same (pos 1) default_audit_max_size_mb max_size_mb_invalid f.max_size_mb v.size,
  enforce_field-same (pos 0) default_audit_max_backups max_backups_invalid f.max_backups v.backups,
  enforce_field-same (pos 0) default_audit_max_age_days max_age_days_invalid f.max_age_days v.age,
)

pub file_target_same : (s : SyslogAudit) → ValidFile s.file → (enforce_file_target s).0 ≡ s
unfolding enforce_file_target
file_target_same s v =
    ap (λ path. record s { file = (enforce_audit_rotation (record (s.file) { path = path })).0 })
      (text_or-same default_audit_file_path s.file.path v.named)
    ∙ ap (λ f. record s { file = f }) (file_same s.file v)
