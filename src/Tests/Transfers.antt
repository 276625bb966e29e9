-- ===== src/Tests/Transfers.antt =====
-- A backup of one concrete device restored to another.
use freematics_gui.Base.{ℕ, some, ◌≡◌, refl, false, [], arith}
use freematics_gui.Base.Result.{ok}
use freematics_gui.Text.{Text, codes}
use freematics_gui.Text.Utf8.{as_bytes}
use freematics_gui.Files.{Files}
use freematics_gui.Protocol.Port.{done}
use freematics_gui.Protocol.Config.{default}
use freematics_gui.Backup.Schema.{new_backup, Json, BackupSerde, FirmwareInfo, get_firmware_info}
use freematics_gui.Backup.Import.{success}
use freematics_gui.Device.Handler.{Device}
use freematics_gui.Device.Settings.Sent.{kept_config}
use freematics_gui.Device.Link.{Line, idle, link_client}
use freematics_gui.Device.Link.Computer.{files_beside, KeepsFile, OpensLink}
use freematics_gui.Device.Link.Transfer.{get_config-transferred}
use freematics_gui.Commands.{System, get_config, export_config_cmd, import_config_cmd}
use freematics_gui.Tests.Toys.{whole}
use freematics_gui.Tests.Bench.{
  Flash, toy_numbers, toy_numbers-ReadsNumerals, toy_firmware, Disk, blank, fresh,
  default-ComesBack, default-HasDumpLines,
}

-- Every path is that of the one file.
abbrev one_disk : Files Disk
one_disk = record {
  exists = λ path x. false;
  read = λ path x. ok x;
  read_to_string = λ path x. ok x;
  create = λ path x. (ok tt, []);
  write_all = λ path bs x. (ok tt, bs);
}

one_disk-KeepsFile : KeepsFile one_disk (codes "b.json") (codes "{}") blank
unfolding as_bytes
one_disk-KeepsFile = record { creates = refl; writes = refl; reads = refl }

abbrev bench_system : System (Line Flash ℕ Disk)
bench_system = record {
  poisoned = λ s. false;
  open_port = λ path s. (ok (link_client Disk toy_firmware (λ t. t) 100), s);
}

bench_system-OpensLink : OpensLink Disk toy_firmware (λ t. t) 100 bench_system
bench_system-OpensLink = record { unpoisoned = λ s. refl; opens = λ path s. refl }

-- A JSON library that knows one text, whose strings are all "1".
abbrev one_json : Json Text
one_json = record { from_str = λ t. ok t; get = λ k v. some v; as_str = λ v. some (codes "1") }

abbrev one_info : FirmwareInfo
one_info = record {
  version = codes "1";
  sha256 = codes "1";
  binary = codes "1";
  built_from_commit = codes "1";
}

abbrev one_serde : BackupSerde Text ℕ
one_serde = record {
  to_string_pretty = λ b. ok (codes "{}");
  from_value =
      λ v. ok (new_backup [] (codes "Freematics ONE+") (codes "1") (codes "1") (default whole));
}

-- A device whose server port was changed.
abbrev other : Device Flash ℕ
other = record fresh { cfg = record fresh.cfg { srv_port = 8081 } }

get_config-transferred_example :
    (s : Line Flash ℕ Disk) × (t : Line Flash ℕ Disk) × (export_config_cmd bench_system whole
        (files_beside one_disk)
        one_json
        one_serde
        (codes "{}")
        []
        (codes "COM3")
        (codes "b.json")
        (idle blank
          (record { cfg = kept_config toy_numbers whole (default whole); store = fresh.store })
          [])
      ≡ (done tt, s))
    × (import_config_cmd bench_system whole
          (files_beside one_disk)
          one_json
          one_serde
          (codes "{}")
          (codes "COM3")
          (codes "b.json")
          (idle s.beside other [])
        ≡ (done success, t))
    × (get_config bench_system whole (codes "COM3") t ≡ (done (default whole), t))
get_config-transferred_example =
    get_config-transferred one_json one_serde one_disk toy_firmware (λ t. t) 100 whole bench_system
      bench_system-OpensLink (codes "0") (codes "{}") [] (codes "COM3") (codes "b.json")
      (codes "{}") one_info (default whole) fresh.store other blank [] [] (omega arith)
      toy_numbers-ReadsNumerals (unfold get_firmware_info in refl) default-ComesBack
      default-HasDumpLines (λ source e. (source, refl, unfold new_backup in refl, refl)) refl
      one_disk-KeepsFile
