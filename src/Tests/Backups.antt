-- ===== src/Tests/Backups.antt =====
-- Backups: the theorems at concrete inputs.
use freematics_gui.Base.{ℕ, ◌≡◌, ◌↔◌, refl, [], ◌++◌, some, arith}
use freematics_gui.Base.Int.{pos}
use freematics_gui.Base.Result.{ok}
use freematics_gui.Text.{Text, codes, trim, is_whitespace, text_eq, eq_ignore_ascii_case}
use freematics_gui.Text.Utf8.{Bytes, as_bytes, from_utf8}
use freematics_gui.Text.Decimal.{show, show_signed}
use freematics_gui.Protocol.Config.{DeviceConfig, default, to_set_commands}
use freematics_gui.Protocol.Modes.{show_protocol, show_gnss, show_storage, bool_str}
use freematics_gui.Protocol.Port.{done, failed}
use freematics_gui.Protocol.Logged.{with_log}
use freematics_gui.Protocol.Client.{read_line, read_bytes, read_until, write_command}
use freematics_gui.Protocol.Client.Ack.{
  set, set_command, save_config, command_expect_ok, command_rounds, exchange, is_answer, is_ok_line,
}
use freematics_gui.Protocol.Client.Traffic.{Session}
use freematics_gui.Backup.Schema.{BackupFile, new_backup, Json, BackupSerde}
use freematics_gui.Backup.Export.{export_to_json}
use freematics_gui.Backup.Import.{
  success, import_config, set_all, validate_config, validate_counts, hash_warnings,
  parse_backup_json,
}
use freematics_gui.Backup.Import.Validity.{IsValid, validate_config_iff, import_config-refused}
use freematics_gui.Backup.Import.Traffic.{import_script, import_config-sent}
use freematics_gui.Backup.Import.Versions.{parse_backup_json-export_to_json}
use freematics_gui.Tests.Toys.{whole, script_client, says, accepting, wire, sample}

abbrev broken_config : DeviceConfig ℕ
broken_config = record (default whole) { jumpstart_voltage = pos 999999 }

abbrev broken_backup : BackupFile ℕ
broken_backup = new_backup [] (codes "ONE+") (codes "1") (codes "ab") broken_config

validate_config_iff_example :
    (validate_config whole (default whole) ≡ ok tt) ↔ IsValid whole (default whole)
validate_config_iff_example = validate_config_iff whole (default whole)

broken_config-invalid : ¬ (IsValid whole broken_backup.config)
unfolding new_backup
broken_config-invalid v = omega arith

import_config-refused_example :
    (reason : Text) × (import_config whole script_client broken_backup [] (says (codes "OK\r"))
      ≡ (failed reason, says (codes "OK\r")))
import_config-refused_example =
    import_config-refused whole script_client broken_backup [] (says (codes "OK\r"))
      broken_config-invalid

import_succeeds :
    import_config whole (with_log script_client) sample (codes "ab") (accepting, [])
    ≡ (done success, ([], wire (import_script whole script_client sample)))
unfolding import_config set_all set save_config set_command command_expect_ok command_rounds
    exchange write_command read_until read_line read_bytes is_answer is_ok_line as_bytes from_utf8
    trim is_whitespace eq_ignore_ascii_case text_eq to_set_commands default show show_signed
    show_protocol show_gnss show_storage bool_str new_backup validate_config validate_counts
    hash_warnings
import_succeeds = refl

import_config-sent_example :
    (bs : Bytes) × (wire (import_script whole script_client sample) ≡ [] ++ bs)
    × Session (import_script whole script_client sample) bs
import_config-sent_example =
    import_config-sent whole script_client sample (codes "ab") accepting [] []
      (wire (import_script whole script_client sample)) success import_succeeds

-- A JSON library that knows one text.
abbrev one_text : Json Text
one_text = record { from_str = λ t. ok t; get = λ k v. some v; as_str = λ v. some (codes "1") }

abbrev one_backup : BackupSerde Text ℕ
one_backup = record { to_string_pretty = λ b. ok (codes "{}"); from_value = λ v. ok sample }

parse_backup_json-export_to_json_example :
    parse_backup_json one_text one_backup (codes "{}") ≡ ok sample
parse_backup_json-export_to_json_example =
    parse_backup_json-export_to_json one_text one_backup [] (codes "ONE+") (codes "1") (codes "ab")
      (codes "{}") (default whole) (λ source e. (source, refl, unfold new_backup in refl, refl))
      (unfold export_to_json in refl)
