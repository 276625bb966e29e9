-- ===== src/Backup/Export.antt =====
-- backup/export.rs
use freematics_gui.Base.{◌++◌}
use freematics_gui.Base.Result
use freematics_gui.Base.Result.{Result, ok, err}
use freematics_gui.Text.{Text, codes}
use freematics_gui.Text.Utf8.{as_bytes}
use freematics_gui.Files.{Files}
use freematics_gui.Protocol.Float.{Float}
use freematics_gui.Protocol.Port.{IoError, Task, ◌>>=◌, ◌>>◌, pure, lift, act, map_err}
use freematics_gui.Protocol.Client.{SerialClient}
use freematics_gui.Protocol.Client.Dump.{dump_config}
use freematics_gui.Backup.Schema.{BackupFile, new_backup, BackupSerde, FirmwareInfo}

module _ {V F : Type 0} (serde : BackupSerde V F) where
  unfoldable pub export_to_json : BackupFile F → Result Text Text
  export_to_json backup =
      Result.map_err (λ e. codes "failed to serialize backup: " ++ e)
        (serde.to_string_pretty backup)

  module _ {W : Type 0} (fs : Files W) where
    unfoldable pub write_backup_file : Text → BackupFile F → Task W (Unit {0})
    write_backup_file path backup = do
      json ← lift (export_to_json backup)
      map_err (λ (e : IoError). codes "failed to create " ++ (path ++ (codes ": " ++ e.message)))
          (act (fs.create path))
      map_err (λ (e : IoError). codes "failed to write " ++ (path ++ (codes ": " ++ e.message)))
          (act (fs.write_all path (as_bytes json)))
      pure tt

module _ {S F : Type 0} (c : SerialClient S) (fl : Float F) where
  unfoldable pub export_config : Text → Text → FirmwareInfo → Task S (BackupFile F)
  export_config now device_model info = do
    config ← map_err (λ (e : IoError). e.message) (dump_config c fl)
    pure (new_backup now device_model info.version info.sha256 config)
