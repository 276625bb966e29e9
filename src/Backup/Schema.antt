-- ===== src/Backup/Schema.antt =====
-- backup/schema.rs, and `FirmwareInfo` with `get_firmware_info` of commands.rs. JSON is read and
-- written by serde_json, which is a parameter.
use freematics_gui.Base.{[], Option, get_or, ◌>>=◌}
use freematics_gui.Base.Result
use freematics_gui.Base.Result.{Result, ok, err}
use freematics_gui.Text.{Text, codes}
use freematics_gui.Protocol.Config.{DeviceConfig}

abbrev pub schema_version_one : Text
schema_version_one = codes "1"

pub record BackupFile (F : Type 0) : Type 0 where
  pub schema_version : Text
  pub device_model : Text
  pub firmware_version : Text
  pub firmware_sha256 : Text
  pub exported_at : Text
  pub config : DeviceConfig F

-- `now` is the time of the export, printed.
unfoldable pub new_backup : {F : Type 0} → Text → Text → Text → Text → DeviceConfig F → BackupFile F
new_backup now device_model firmware_version firmware_sha256 config = record {
  schema_version = schema_version_one;
  device_model = device_model;
  firmware_version = firmware_version;
  firmware_sha256 = firmware_sha256;
  exported_at = now;
  config = config;
}

-- `serde_json::Value`, and the functions of it that the program calls.
pub record Json (V : Type 0) : Type 0 where
  pub from_str : Text → Result Text V
  pub get : Text → V → Option V
  pub as_str : V → Option Text

-- The derived `Serialize` and `Deserialize` of `BackupFile`, through serde_json.
pub record BackupSerde (V F : Type 0) : Type 0 where
  pub to_string_pretty : BackupFile F → Result Text Text
  pub from_value : V → Result Text (BackupFile F)

pub record FirmwareInfo : Type 0 where
  pub version : Text
  pub sha256 : Text
  pub binary : Text
  pub built_from_commit : Text

module _ {V : Type 0} (json : Json V) where
  -- `value.get(key).and_then(|v| v.as_str())`
  abbrev pub string_at : Text → V → Option Text
  string_at key value = json.get key value >>= json.as_str

  -- `manifest` is the text that the build embeds.
  unfoldable pub get_firmware_info : Text → Result Text FirmwareInfo
  get_firmware_info manifest = Result.◌>>=◌ (json.from_str manifest) (λ value. ok (record {
    version = get_or (string_at (codes "version") value) (codes "unknown");
    sha256 = get_or (string_at (codes "sha256") value) [];
    binary = get_or (string_at (codes "binary") value) (codes "telelogger-patched.bin");
    built_from_commit = get_or (string_at (codes "built_from_commit") value) (codes "unknown");
  }))
