-- ===== src/Tests/Sessions.antt =====
-- The commands: the theorems at concrete inputs.
use freematics_gui.Base.{ℕ, ◌+◌, ◌≡◌, refl, false, List, [], ◌∷◌, ◌++◌, some}
use freematics_gui.Base.Result.{ok}
use freematics_gui.Text.{Text, codes, trim, is_whitespace, text_eq, eq_ignore_ascii_case}
use freematics_gui.Text.Utf8.{Bytes, as_bytes, from_utf8}
use freematics_gui.Text.Decimal.{show, show_signed}
use freematics_gui.Files.{Files}
use freematics_gui.Protocol.Config.{default, to_set_commands}
use freematics_gui.Protocol.Modes.{show_protocol, show_gnss, show_storage, bool_str}
use freematics_gui.Protocol.Port.{Read, done, failed}
use freematics_gui.Protocol.Logged.{with_log}
use freematics_gui.Protocol.Client.{read_line, read_bytes, read_until, write_command}
use freematics_gui.Protocol.Client.Ack.{
  set, set_command, save_config, command_expect_ok, command_rounds, exchange, is_answer, is_ok_line,
}
use freematics_gui.Protocol.Client.Traffic.{Session}
use freematics_gui.Backup.Schema.{Json}
use freematics_gui.Flash.Native.{Flashed}
use freematics_gui.Commands.{System, with_serial, set_config, set_fields}
use freematics_gui.Commands.Sent.{config_script, set_config-sent}
use freematics_gui.Commands.Flashing.{Bundle, progress_events, flash_firmware_cmd}
use freematics_gui.Commands.Flashing.Gate.{Flashable, flash_firmware_cmd-refused}
use freematics_gui.Commands.Flashing.Events.{percentages}
use freematics_gui.Tests.Toys.{whole, script_client, accepting, wire}

abbrev one_system : System (List Read × Bytes)
one_system = record {
  poisoned = λ w. false;
  open_port = λ path w. (ok (with_log script_client), w);
}

abbrev script : List Text
script = config_script whole script_client (default whole)

set_config-succeeds :
    set_config one_system whole (codes "COM3") (default whole) (accepting, [])
    ≡ (done tt, ([], wire script))
unfolding set_config with_serial set_fields set save_config set_command command_expect_ok
    command_rounds exchange write_command read_until read_line read_bytes is_answer is_ok_line
    as_bytes from_utf8 trim is_whitespace eq_ignore_ascii_case text_eq to_set_commands default show
    show_signed show_protocol show_gnss show_storage bool_str
set_config-succeeds = refl

set_config-sent_example : (bs : Bytes) × (wire script ≡ [] ++ bs) × Session script bs
set_config-sent_example =
    set_config-sent whole script_client one_system (codes "COM3") (default whole) (accepting, [])
      accepting [] [] (wire script) refl set_config-succeeds

abbrev image_file : Files ℕ
image_file = record {
  exists = λ path w. text_eq path (codes "fw.bin");
  read = λ path w. ok (codes "ab");
  read_to_string = λ path w. ok (codes "ab");
  create = λ path w. (ok tt, w);
  write_all = λ path bs w. (ok tt, w);
}

-- Every text is a manifest, each of whose values is "ab".
abbrev manifest_json : Json Text
manifest_json = record {
  from_str = λ t. ok t;
  get = λ k v. some v;
  as_str = λ v. some (codes "ab");
}

abbrev bundle : Bundle
bundle = record { manifest = codes "{}"; image = codes "ab" }

-- The world counts the flashes.
abbrev count_flash : Text → Bytes → ℕ → Flashed × ℕ
count_flash port bytes w = (record { reported = 0 ∷ 50 ∷ 50 ∷ 100 ∷ []; result = ok tt }, w + 1)

no_such_file :
    (bytes : Bytes)
    → ¬ (Flashable image_file manifest_json (λ bs. bs) bundle (some (codes "no.bin")) 0 bytes)
unfolding text_eq
no_such_file bytes (there, read, full) = cc

flash_firmware_cmd-refused_example :
    (reason : Text) × (flash_firmware_cmd
        (λ w. false)
        count_flash
        image_file
        manifest_json
        (λ bs. bs)
        bundle
        (codes "COM3")
        (some (codes "no.bin"))
        (0, [])
      ≡ (failed reason, (0, [])))
flash_firmware_cmd-refused_example =
    flash_firmware_cmd-refused image_file manifest_json (λ bs. bs) bundle (λ w. false) count_flash
      (codes "COM3") (some (codes "no.bin")) 0 [] no_such_file

events-shown : percentages (progress_events 0 (0 ∷ 50 ∷ 50 ∷ 100 ∷ [])) ≡ 50 ∷ 100 ∷ []
unfolding progress_events
events-shown = refl
