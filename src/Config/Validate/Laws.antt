-- ===== src/Config/Validate/Laws.antt =====
-- What a configuration that validation accepts is like.
use text.Mathlib.TextLemmas.{append-eq-nil_iff}
use harbor_satellite.Common.{
  String, ◌⧺◌, ◌≡◌, ◌≢◌, ◌↔◌, ◌⊎◌, false, refl, sym, ap, subst, ◌∙◌, inl, inr, true, false, ◌||◌,
  Option, none, some, ◌==◌, eq_iff, if◌then◌else◌, arith, Bool-cases, Option-cases, distinct,
}
use harbor_satellite.Config.Validate.{
  ZotConfig, get_registry_url, Host, TlsConfig, missing, AppConfig, Config, Checked, refused,
  passed, default_cron, default_ztr_cron, valid_log_level, enforce_log_level,
  enforce_cron_schedules, validate_tls_config, validate_bring_own_registry, default_registry_url,
  complete_zot, enforce_zot_config, set_unsecure, finish_config, check_registry, override_url,
  validate_and_enforce_defaults,
}

-- The defaults are valid themselves.
pub record HostLaws (h : Host) (default : String) : Type 0 where
  pub lower_info : h.to_lower "info" ≡ "info"
  pub cron : h.parse_standard default_cron ≡ true
  pub ztr_cron : h.parse_standard default_ztr_cron ≡ true
  pub default_zot :
      (z : ZotConfig) × (h.unmarshal_zot default ≡ some z) × (z.address ≢ "") × (z.port ≢ "")

module _ (h : Host) where
  abbrev pub HasRegistry : Config → Type 0
  HasRegistry c =
      (c.app_config.registry_url ≢ "")
      × (c.app_config.bring_own_registry ≡ true
          → (h.parse_request_uri c.app_config.registry_url ≡ true) × (c.zot_config_raw ≡ ""))
      × (c.app_config.bring_own_registry ≡ false
          → (z : ZotConfig) × (h.unmarshal_zot c.zot_config_raw ≡ some z)
            × (z.address ≢ "")
            × (z.port ≢ ""))

  -- No file is named, or the file is there.
  abbrev pub Exists : String → Type 0
  Exists path = (path ≡ "") ⊎ (h.does_not_exist path ≡ false)

  pub record TlsFiles (t : TlsConfig) : Type 0 where
    pub together : (t.cert_file ≡ "") ↔ (t.key_file ≡ "")
    pub cert : Exists t.cert_file
    pub key : Exists t.key_file
    pub ca : Exists t.ca_file

  pub record Valid (c : Config) : Type 0 where
    pub url : h.parse_request_uri c.app_config.ground_control_url ≡ true
    pub level : valid_log_level (h.to_lower c.app_config.log_level) ≡ true
    pub replication : h.parse_standard c.app_config.state_replication_interval ≡ true
    pub registration : h.parse_standard c.app_config.register_satellite_interval ≡ true
    pub heartbeat : h.parse_standard c.app_config.heartbeat_interval ≡ true
    pub tls : TlsFiles c.app_config.tls
    pub registry : HasRegistry c

  missing-Exists : (path : String) → missing h path ≡ false → Exists path
  unfolding missing
  missing-Exists path there = elim (Bool-cases (path == "")) [
    | inl empty ↦ inl ((eq_iff path "").0 empty)
    | inr named ↦ inr (ground (arith, named, there))
  ]

  tls_accepted :
      (t : TlsConfig)
      → validate_tls_config h t ≡ none
      → ((t.cert_file == "") ≡ (t.key_file == ""))
        × (missing h t.cert_file ≡ false)
        × (missing h t.key_file ≡ false)
        × (missing h t.ca_file ≡ false)
  unfolding validate_tls_config missing
  tls_accepted t ok = ground (arith, ok)

  validate_tls_config-TlsFiles : (t : TlsConfig) → validate_tls_config h t ≡ none → TlsFiles t
  validate_tls_config-TlsFiles t ok =
      let (pair, cert, key, ca) = tls_accepted t ok in
      record {
        together = (
          λ e. (eq_iff t.key_file "").0 (sym pair ∙ (eq_iff t.cert_file "").1 e),
          λ e. (eq_iff t.cert_file "").0 (pair ∙ (eq_iff t.key_file "").1 e),
        );
        cert = missing-Exists t.cert_file cert;
        key = missing-Exists t.key_file key;
        ca = missing-Exists t.ca_file ca;
      }

  passed-injective : {c c' : Config} → passed c ≡ passed c' → c ≡ c'
  passed-injective e = cc e

  is_filled : (s : String) → s ≡ ":" → s ≢ ""
  is_filled s e k = cc (e, k)

  colon_filled : (s p : String) → s ⧺ (":" ⧺ p) ≢ ""
  colon_filled s p e = is_filled ":" refl (append-eq-nil_iff.0 (append-eq-nil_iff.0 e).1).0

  get_registry_url-filled : (z : ZotConfig) → get_registry_url z ≢ ""
  unfolding get_registry_url
  get_registry_url-filled z = colon_filled _ z.port

  log_level_valid :
      (default : String)
      → HostLaws h default
      → (a : AppConfig) → valid_log_level (h.to_lower (enforce_log_level h a).log_level) ≡ true
  unfolding enforce_log_level valid_log_level
  log_level_valid default laws a = elim (Bool-cases (a.log_level == "")) [
    | inl empty ↦ rw (empty, enforce_log_level, laws.lower_info) refl
    | inr given ↦ elim (Bool-cases (valid_log_level (h.to_lower a.log_level))) [
      | inl fine ↦ rw (given, fine, enforce_log_level) fine
      | inr bad ↦ rw (given, bad, enforce_log_level, laws.lower_info) refl
    ]
  ]

  url_filled :
      (z : ZotConfig) (c : Config) → (default_registry_url h z c).app_config.registry_url ≢ ""
  unfolding default_registry_url
  url_filled z c = elim (Bool-cases (c.app_config.registry_url == "")) [
    | inl empty ↦ rw (empty, default_registry_url) (get_registry_url-filled z)
    | inr filled ↦ rw (filled, default_registry_url) (distinct filled)
  ]

  schedule :
      (default : String) (given : String)
      → h.parse_standard default ≡ true
      → h.parse_standard (if h.parse_standard given then given else default) ≡ true
  schedule default given ok = elim (Bool-cases (h.parse_standard given)) [
    | inl fine ↦ rw fine fine
    | inr bad ↦ rw bad ok
  ]

  -- What the registry's part leaves alone.
  abbrev Kept : AppConfig → AppConfig → Type 0
  Kept a b = b ≡ record a { registry_url = b.registry_url }

  default-Kept :
      (z : ZotConfig) (c : Config) → Kept c.app_config (default_registry_url h z c).app_config
  unfolding default_registry_url
  default-Kept z c = elim (Bool-cases (c.app_config.registry_url == "")) [
    | inl empty ↦ rw (empty, default_registry_url) refl
    | inr filled ↦ rw (filled, default_registry_url) refl
  ]

  default_raw :
      (z : ZotConfig) (c : Config) → (default_registry_url h z c).zot_config_raw ≡ c.zot_config_raw
  unfolding default_registry_url
  default_raw z c = ground arith

  own_registry :
      (c c' : Config)
      → c.app_config.bring_own_registry ≡ true
      → validate_bring_own_registry h c ≡ passed c'
      → Kept c.app_config c'.app_config × HasRegistry c'
  unfolding validate_bring_own_registry
  own_registry c c' own ok = elim (Bool-cases (c.app_config.registry_url == "")) [
    | inl empty ↦ cc (rw (empty, validate_bring_own_registry) at ok)
    | inr filled ↦ elim (Bool-cases (h.parse_request_uri c.app_config.registry_url)) [
      | inr bad ↦ cc (rw (filled, bad, validate_bring_own_registry) at ok)
      | inl fine ↦
          let out : record c { zot_config_raw = "" } ≡ c' =
            passed-injective (rw (filled, fine, validate_bring_own_registry) at ok) in
          subst (λ x. Kept c.app_config x.app_config × HasRegistry x) out
            (refl, (distinct filled, λ e. (fine, refl), λ e. cc (own, e)))
    ]
  ]

  zot_default :
      (z : ZotConfig) (c : Config)
      → c.app_config.bring_own_registry ≡ false
      → h.unmarshal_zot c.zot_config_raw ≡ some z
      → z.address ≢ ""
      → z.port ≢ ""
      → Kept c.app_config (default_registry_url h z c).app_config
        × HasRegistry (default_registry_url h z c)
  zot_default z c zot read address port =
      let kept = default-Kept z c in
      let same = ap (λ a. a.bring_own_registry) kept in
      (
        kept,
        (
          url_filled z c,
          (λ e. cc (sym same ∙ e, zot)),
          λ e. (z, ap h.unmarshal_zot (default_raw z c) ∙ read, address, port),
        ),
      )

  zot_registry :
      (default : String) (laws : HostLaws h default) (o : Option ZotConfig) (c c' : Config)
      → c.app_config.bring_own_registry ≡ false
      → h.unmarshal_zot c.zot_config_raw ≡ o
      → complete_zot h default o c ≡ passed c'
      → Kept c.app_config c'.app_config × HasRegistry c'
  unfolding complete_zot
  zot_registry default laws none c c' zot read ok = cc ok
  zot_registry default laws (some z) c c' zot read ok =
      elim (Bool-cases (z.address == "" || z.port == "")) [
        | inl lacking ↦
            let (y, found, address, port) = laws.default_zot in
            let c0 : Config = record c { zot_config_raw = default } in
            let out : default_registry_url h y c0 ≡ c' =
              passed-injective (rw (lacking, found, complete_zot) at ok) in
            subst (λ x. Kept c.app_config x.app_config × HasRegistry x) out
              (zot_default y c0 zot found address port)
        | inr full ↦
            let out : default_registry_url h z c ≡ c' =
              passed-injective (rw (full, complete_zot) at ok) in
            subst (λ x. Kept c.app_config x.app_config × HasRegistry x) out
              (zot_default z c zot read (ground (arith, full, eq_iff z.address ""))
                (ground (arith, full, eq_iff z.port "")))
      ]

  registry_valid :
      (default : String) (laws : HostLaws h default) (c c' : Config)
      → check_registry h default c ≡ passed c'
      → Kept c.app_config c'.app_config × HasRegistry c'
  unfolding check_registry enforce_zot_config
  registry_valid default laws c c' ok = elim (Bool-cases c.app_config.bring_own_registry) [
    | inl own ↦ own_registry c c' own (sym (choose_own c own) ∙ ok)
    | inr zot ↦
        let raw =
          if c.zot_config_raw == "" || h.trim_space c.zot_config_raw == "{}"
          then default
          else c.zot_config_raw in
        zot_registry default laws (h.unmarshal_zot raw) (record c { zot_config_raw = raw }) c' zot
          refl (sym (choose_zot c zot) ∙ ok)
  ]
    where
      choose_own :
          (c : Config)
          → c.app_config.bring_own_registry ≡ true
          → check_registry h default c ≡ validate_bring_own_registry h c
      choose_own c own =
          ap (λ b. if b then validate_bring_own_registry h c else enforce_zot_config h default c)
            own

      choose_zot :
          (c : Config)
          → c.app_config.bring_own_registry ≡ false
          → check_registry h default c ≡ enforce_zot_config h default c
      choose_zot c zot =
          ap (λ b. if b then validate_bring_own_registry h c else enforce_zot_config h default c)
            zot

  finished :
      (default : String) (laws : HostLaws h default) (c c' : Config)
      → h.parse_request_uri c.app_config.ground_control_url ≡ true
      → valid_log_level (h.to_lower c.app_config.log_level) ≡ true
      → HasRegistry c
      → finish_config h c ≡ passed c'
      → Valid c'
  unfolding finish_config enforce_cron_schedules
  finished default laws c c' url level registry ok =
      elim (Option-cases (validate_tls_config h c.app_config.tls)) [
        | inr (e, bad) ↦ cc (rw (bad, finish_config) at ok)
        | inl fine ↦ subst Valid (passed-injective (rw (fine, finish_config) at ok)) (record {
          url = url;
          level = level;
          replication = schedule default_cron c.app_config.state_replication_interval laws.cron;
          registration =
              schedule default_ztr_cron c.app_config.register_satellite_interval laws.ztr_cron;
          heartbeat = schedule default_cron c.app_config.heartbeat_interval laws.cron;
          tls = validate_tls_config-TlsFiles c.app_config.tls fine;
          registry = registry;
        })
      ]

  unsecure_kept : (a : AppConfig) → (set_unsecure h a).ground_control_url ≡ a.ground_control_url
  unfolding set_unsecure
  unsecure_kept a = ground arith

  unsecure_level : (a : AppConfig) → (set_unsecure h a).log_level ≡ a.log_level
  unfolding set_unsecure
  unsecure_level a = ground arith

  level_url : (a : AppConfig) → (enforce_log_level h a).ground_control_url ≡ a.ground_control_url
  unfolding enforce_log_level
  level_url a = ground arith

  after_registry : Checked → Checked
  after_registry (refused e) = refused e
  after_registry (passed c) = finish_config h c

  checked_cases :
      (default : String) (laws : HostLaws h default) (c0 c' : Config)
      → h.parse_request_uri c0.app_config.ground_control_url ≡ true
      → valid_log_level (h.to_lower c0.app_config.log_level) ≡ true
      → (o : Checked) → check_registry h default c0 ≡ o
      → after_registry o ≡ passed c'
      → Valid c'
  unfolding after_registry
  checked_cases default laws c0 c' url level (refused e) found ok = cc ok
  checked_cases default laws c0 c' url level (passed c1) found ok =
      let (kept, registry) = registry_valid default laws c0 c1 found in
      finished default laws c1 c' (ap (λ a. h.parse_request_uri a.ground_control_url) kept ∙ url)
        (ap (λ a. valid_log_level (h.to_lower a.log_level)) kept ∙ level) registry ok

  -- If the defaults are valid themselves, a configuration that validation accepts has: a URL of Ground
  -- Control that parses, a log level that is known, three schedules that parse, TLS files that exist
  -- where they are named, with the certificate's named exactly if the key's is, and a URL of the local registry, which parses if the
  -- registry is the user's own, and otherwise a Zot config that decodes with an address and a port.
  pub validate_and_enforce_defaults-Valid :
      (default url : String) (laws : HostLaws h default) (c c' : Config)
      → validate_and_enforce_defaults h url default c ≡ passed c'
      → Valid c'
  unfolding validate_and_enforce_defaults after_registry
  validate_and_enforce_defaults-Valid default url laws c c' ok =
      let a = override_url h url c.app_config in
      let c0 : Config = record c { app_config = set_unsecure h (enforce_log_level h a) } in
      elim (Bool-cases (h.parse_request_uri a.ground_control_url)) [
        | inr bad ↦ cc (rw (bad, validate_and_enforce_defaults) at ok)
        | inl parses ↦
            checked_cases default laws c0 c'
              (ap h.parse_request_uri (unsecure_kept (enforce_log_level h a) ∙ level_url a)
                ∙ parses)
              (ap (λ l. valid_log_level (h.to_lower l)) (unsecure_level (enforce_log_level h a))
                ∙ log_level_valid default laws a)
              (check_registry h default c0) refl (rw (parses, validate_and_enforce_defaults) at ok)
      ]
