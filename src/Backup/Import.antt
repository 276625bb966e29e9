-- ===== src/Backup/Import.antt =====
-- backup/import.rs
pub mod Validity
pub mod Traffic
pub mod Returns
pub mod Versions
use freematics_gui.Base.{
  ℕ, Bool, true, false, not, ◌&&◌, ◌||◌, List, [], ◌∷◌, ◌++◌, Option, none, some, if◌then◌else◌,
  is_empty,
}
use freematics_gui.Base.Int.{ℤ, pos, negsuc, ltb_ℤ}
use freematics_gui.Base.Result
use freematics_gui.Base.Result.{Result, ok, err}
use freematics_gui.Text.{Text, codes, text_eq}
use freematics_gui.Text.Decimal.{show_signed}
use freematics_gui.Files.{Files}
use freematics_gui.Protocol.Float.{Float}
use freematics_gui.Protocol.Config.{DeviceConfig, to_set_commands}
use freematics_gui.Protocol.Port.{IoError, Task, ◌>>=◌, ◌>>◌, pure, lift, act, map_err}
use freematics_gui.Protocol.Client.{SerialClient}
use freematics_gui.Protocol.Client.Ack.{set, save_config}
use freematics_gui.Backup.Schema.{BackupFile, Json, BackupSerde, string_at, schema_version_one}

pub data ImportOutcome : Type 0 where
  success : ImportOutcome
  success_with_warnings : List Text → ImportOutcome

unfoldable pub warnings : ImportOutcome → List Text
warnings success = []
warnings (success_with_warnings w) = w

abbrev missing_or : {A : Type 0} → Text → Option A → Result Text A
missing_or e none = err e
missing_or e (some a) = ok a

module _ {V F : Type 0} (json : Json V) (serde : BackupSerde V F) where
  abbrev check_version : V → Text → Result Text (BackupFile F)
  check_version value version =
      if not (text_eq version schema_version_one)
      then err (
          codes "unsupported schema_version: "
          ++ (version ++ (codes " (expected " ++ (schema_version_one ++ codes ")"))))
      else Result.map_err (λ e. codes "invalid backup contents: " ++ e) (serde.from_value value)

  abbrev pub read_value : V → Result Text (BackupFile F)
  read_value value =
      Result.◌>>=◌
        (missing_or (codes "missing schema_version field")
          (string_at json (codes "schema_version") value))
        (check_version value)

  unfoldable pub parse_backup_json : Text → Result Text (BackupFile F)
  parse_backup_json source =
      Result.◌>>=◌ (Result.map_err (λ e. codes "invalid backup JSON: " ++ e) (json.from_str source))
        read_value

  unfoldable pub read_backup_file : {W : Type 0} → Files W → Text → W → Result Text (BackupFile F)
  read_backup_file fs path w =
      Result.◌>>=◌
        (Result.map_err
          (λ (e : IoError). codes "failed to read " ++ (path ++ (codes ": " ++ e.message)))
          (fs.read_to_string path w))
        parse_backup_json

-- The four intervals of the loop, in its order.
unfoldable pub validate_counts : List (Text × ℤ) → Result Text (Unit {0})
validate_counts [] = ok tt
validate_counts ((name, v) ∷ rest) =
    if ltb_ℤ v (pos 0)
    then err (name ++ (codes " must be non-negative: " ++ show_signed v))
    else validate_counts rest

module _ {F : Type 0} (fl : Float F) where
  unfoldable pub validate_config : DeviceConfig F → Result Text (Unit {0})
  validate_config cfg =
      if ltb_ℤ cfg.jumpstart_voltage (pos 0) || ltb_ℤ (pos 30000) cfg.jumpstart_voltage
      then err (
          codes "jumpstart_voltage out of range (0-30000 mV): "
          ++ show_signed cfg.jumpstart_voltage)
      else if ltb_ℤ cfg.cooling_down_temp (negsuc 39) || ltb_ℤ (pos 150) cfg.cooling_down_temp
      then err (
          codes "cooling_down_temp out of range (-40-150 °C): "
          ++ show_signed cfg.cooling_down_temp)
      else if not (fl.is_finite cfg.motion_threshold)
          || fl.is_less cfg.motion_threshold (fl.tenths 0)
      then err (
          codes "motion_threshold must be a non-negative number: "
          ++ fl.to_text cfg.motion_threshold)
      else validate_counts (
          (codes "gnss_reset_timeout", cfg.gnss_reset_timeout)
          ∷ (codes "max_obd_errors", cfg.max_obd_errors)
          ∷ (codes "server_sync_interval", cfg.server_sync_interval)
          ∷ (codes "ping_back_interval", cfg.ping_back_interval)
          ∷ [])

  -- The warnings of an import: a mismatch of two hashes that are both there.
  unfoldable pub hash_warnings : BackupFile F → Text → List Text
  hash_warnings backup current =
      if not (is_empty current)
        && (not (is_empty backup.firmware_sha256) && not (text_eq current backup.firmware_sha256))
      then (codes "firmware sha256 mismatch: backup="
          ++ (backup.firmware_sha256 ++ (codes " current=" ++ current)))
        ∷ []
      else []

  abbrev pub with_warnings : List Text → ImportOutcome
  with_warnings [] = success
  with_warnings (w ∷ ws) = success_with_warnings (w ∷ ws)

  module _ {S : Type 0} (c : SerialClient S) where
    unfoldable pub set_all : List (Text × Text) → Task S (Unit {0})
    set_all [] = pure tt
    set_all ((key, val) ∷ rest) = do
      map_err (λ (e : IoError). codes "failed to set " ++ (key ++ (codes ": " ++ e.message)))
          (set c key val)
      set_all rest

    unfoldable pub import_config : BackupFile F → Text → Task S ImportOutcome
    import_config backup current = do
      lift (validate_config backup.config)
      set_all (to_set_commands fl backup.config)
      map_err (λ (e : IoError). codes "failed to save config: " ++ e.message) (save_config c)
      pure (with_warnings (hash_warnings backup current))
