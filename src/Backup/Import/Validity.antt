-- ===== src/Backup/Import/Validity.antt =====
-- backup/import.rs: which configurations `validate_config` accepts, what an import does with any
-- other, and when it warns.
use freematics_gui.Base.{
  ◌≡◌, ◌↔◌, refl, ◌⊎◌, true, false, [], ◌∷◌, ◌++◌, ◌&&◌, is_empty, Bool-cases, arith, inl, inr, not,
  if◌then◌else◌,
}
use freematics_gui.Base.Int.{ℤ, pos, negsuc, ◌≤ℤ◌}
use freematics_gui.Base.Result.{ok, Result-cases}
use freematics_gui.Text.{Text, codes, text_eq, text_eq_refl, eq_of_text_eq}
use freematics_gui.Protocol.Float.{Float}
use freematics_gui.Protocol.Config.{DeviceConfig}
use freematics_gui.Protocol.Port.{failed}
use freematics_gui.Protocol.Client.{SerialClient}
use freematics_gui.Backup.Schema.{BackupFile}
use freematics_gui.Backup.Import.{validate_config, validate_counts, import_config, hash_warnings}

-- The ranges that a backup must keep to.
pub record IsValid {F : Type 0} (fl : Float F) (cfg : DeviceConfig F) : Type 0 where
  pub voltage_low : pos 0 ≤ℤ cfg.jumpstart_voltage
  pub voltage_high : cfg.jumpstart_voltage ≤ℤ pos 30000
  pub temp_low : negsuc 39 ≤ℤ cfg.cooling_down_temp
  pub temp_high : cfg.cooling_down_temp ≤ℤ pos 150
  pub threshold_finite : fl.is_finite cfg.motion_threshold ≡ true
  pub threshold_positive : fl.is_less cfg.motion_threshold (fl.tenths 0) ≡ false
  pub gnss_reset : pos 0 ≤ℤ cfg.gnss_reset_timeout
  pub obd_errors : pos 0 ≤ℤ cfg.max_obd_errors
  pub sync_interval : pos 0 ≤ℤ cfg.server_sync_interval
  pub ping_interval : pos 0 ≤ℤ cfg.ping_back_interval

abbrev Four : ℤ → ℤ → ℤ → ℤ → Type 0
Four a b c d = (pos 0 ≤ℤ a) × (pos 0 ≤ℤ b) × (pos 0 ≤ℤ c) × (pos 0 ≤ℤ d)

validate-Four :
    (k l m n : Text) (a b c d : ℤ)
    → validate_counts ((k, a) ∷ (l, b) ∷ (m, c) ∷ (n, d) ∷ []) ≡ ok tt
    → Four a b c d
unfolding validate_counts
validate-Four k l m n a b c d h = ground arith

Four-valid :
    (k l m n : Text) (a b c d : ℤ)
    → Four a b c d
    → validate_counts ((k, a) ∷ (l, b) ∷ (m, c) ∷ (n, d) ∷ []) ≡ ok tt
unfolding validate_counts
Four-valid k l m n a b c d h = ground arith

module _ {F : Type 0} (fl : Float F) where
  IsValid-of_ok : (cfg : DeviceConfig F) → validate_config fl cfg ≡ ok tt → IsValid fl cfg
  unfolding validate_config
  IsValid-of_ok cfg h = ground (
    arith,
    validate-Four (codes "gnss_reset_timeout") (codes "max_obd_errors")
        (codes "server_sync_interval") (codes "ping_back_interval") cfg.gnss_reset_timeout
        cfg.max_obd_errors cfg.server_sync_interval cfg.ping_back_interval,
  )

  ok_of_IsValid : (cfg : DeviceConfig F) → IsValid fl cfg → validate_config fl cfg ≡ ok tt
  unfolding validate_config
  ok_of_IsValid cfg v = ground (
    arith,
    Four-valid (codes "gnss_reset_timeout") (codes "max_obd_errors") (codes "server_sync_interval")
        (codes "ping_back_interval") cfg.gnss_reset_timeout cfg.max_obd_errors
        cfg.server_sync_interval cfg.ping_back_interval,
  )

  -- `validate_config` accepts a configuration exactly when every value is in its range.
  pub validate_config_iff :
      (cfg : DeviceConfig F) → (validate_config fl cfg ≡ ok tt) ↔ IsValid fl cfg
  validate_config_iff cfg = (IsValid-of_ok cfg, ok_of_IsValid cfg)

-- The hash test for any two texts and any warning.
hash_test :
    (a b w : Text)
    → ((if not (is_empty a) && (not (is_empty b) && not (text_eq a b)) then w ∷ [] else []) ≡ [])
      ↔ ((a ≡ []) ⊎ ((b ≡ []) ⊎ (a ≡ b)))
hash_test [] b w = (λ h. inl refl, λ h. refl)
hash_test (x ∷ a) [] w = (λ h. inr (inl refl), λ h. refl)
hash_test (x ∷ a) (y ∷ b) w = elim (Bool-cases (text_eq (x ∷ a) (y ∷ b))) [
  | inl e ↦ (λ h. inr (inr (eq_of_text_eq (x ∷ a) (y ∷ b) e)), λ h. rw e refl)
  | inr n ↦ (λ h. let shown : (w ∷ []) ≡ [] = rw n at h in cc, λ h. absurd (differ n h))
]
  where
    differ :
        text_eq (x ∷ a) (y ∷ b) ≡ false
        → ((x ∷ a) ≡ []) ⊎ (((y ∷ b) ≡ []) ⊎ ((x ∷ a) ≡ (y ∷ b)))
        → ⊥
    differ n (inl e) = cc
    differ n (inr (inl e)) = cc
    differ n (inr (inr e)) =
        let same : text_eq (y ∷ b) (y ∷ b) ≡ false = rw e at n in cc (text_eq_refl (y ∷ b))

module _ {F S : Type 0} (fl : Float F) (c : SerialClient S) where
  -- An import of a configuration with a value out of its range fails with a reason, and the port
  -- is as it was: nothing was sent.
  pub import_config-refused :
      (backup : BackupFile F) (current : Text) (s : S)
      → ¬ (IsValid fl backup.config)
      → (reason : Text) × (import_config fl c backup current s ≡ (failed reason, s))
  unfolding import_config
  import_config-refused backup current s h =
      elim (Result-cases (validate_config fl backup.config)) [
        | inl (u, e) ↦ absurd (h ((validate_config_iff fl backup.config).0 e))
        | inr (reason, e) ↦ (reason, rw e refl)
      ]

module _ {F : Type 0} (fl : Float F) where
  -- The warnings of an import are none exactly when the firmware's hash is unknown, or the backup's
  -- is, or the two are equal.
  pub hash_warnings_iff :
      (backup : BackupFile F) (current : Text)
      → (hash_warnings fl backup current ≡ [])
        ↔ ((current ≡ []) ⊎ ((backup.firmware_sha256 ≡ []) ⊎ (current ≡ backup.firmware_sha256)))
  unfolding hash_warnings
  hash_warnings_iff backup current = hash_test current backup.firmware_sha256 (
      codes "firmware sha256 mismatch: backup="
      ++ (backup.firmware_sha256 ++ (codes " current=" ++ current)))
