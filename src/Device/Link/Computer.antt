-- ===== src/Device/Link/Computer.antt =====
-- The computer beside the link: its files, and how its system opens the port of the device.
use freematics_gui.Base.{ℕ, ◌≡◌, refl, false}
use freematics_gui.Base.Result.{ok}
use freematics_gui.Text.{Text}
use freematics_gui.Text.Utf8.{Bytes, as_bytes}
use freematics_gui.Files.{Files}
use freematics_gui.Protocol.Port.{Task, done}
use freematics_gui.Protocol.Config.{DeviceConfig}
use freematics_gui.Protocol.Client.{SerialClient}
use freematics_gui.Backup.Schema.{BackupFile, new_backup, Json, BackupSerde, FirmwareInfo}
use freematics_gui.Backup.Export.{export_to_json, write_backup_file}
use freematics_gui.Backup.Import.{read_backup_file}
use freematics_gui.Backup.Import.Versions.{Prints, parse_backup_json-export_to_json}
use freematics_gui.Device.Handler.{Device, Firmware}
use freematics_gui.Device.Link.{Line, idle, link_client}
use freematics_gui.Commands.{System, with_serial}

-- The files of the computer that the application runs on, seen from the line.
abbrev pub files_beside : {N F X : Type 0} → Files X → Files (Line N F X)
files_beside fs = record {
  exists = λ path s. fs.exists path s.beside;
  read = λ path s. fs.read path s.beside;
  read_to_string = λ path s. fs.read_to_string path s.beside;
  create = λ path s. let (r, x) = fs.create path s.beside in (r, record s { beside = x });
  write_all =
      λ path bs s. let (r, x) = fs.write_all path bs s.beside in (r, record s { beside = x });
}

module _ {X : Type 0} (fs : Files X) where
  -- The files after a text was written under a path.
  abbrev pub written : Text → Text → X → X
  written path text x = (fs.write_all path (as_bytes text) (fs.create path x).1).1

  -- A file that can be created and written, and is then read as it was written.
  pub record KeepsFile (path text : Text) (x : X) : Type 0 where
    pub creates : (fs.create path x).0 ≡ ok tt
    pub writes : (fs.write_all path (as_bytes text) (fs.create path x).1).0 ≡ ok tt
    pub reads : fs.read_to_string path (written path text x) ≡ ok text

module _ {N F : Type 0} (X : Type 0) (fw : Firmware N F) (debug : Text → Text) (fuel : ℕ) where
  -- The lock is free, and a port that is opened is the link.
  pub record OpensLink (sys : System (Line N F X)) : Type 0 where
    pub unpoisoned : (s : Line N F X) → sys.poisoned s ≡ false
    pub opens :
        (path : Text) (s : Line N F X)
        → sys.open_port path s ≡ (ok (link_client X fw debug fuel), s)

  module _ (sys : System (Line N F X)) (open_link : OpensLink sys) where
    pub with_serial-OpensLink :
        {A : Type 0} (path : Text) (f : SerialClient (Line N F X) → Task (Line N F X) A)
        (s : Line N F X)
        → with_serial sys path f s ≡ f (link_client X fw debug fuel) s
    unfolding with_serial
    with_serial-OpensLink path f s = rw (open_link.unpoisoned s, open_link.opens path s) refl

module _ {V G X : Type 0} (json : Json V) (serde : BackupSerde V G) (fs : Files X) where
  pub write_backup_file-KeepsFile :
      {N F : Type 0} (path source : Text) (backup : BackupFile G) (x : X) (d : Device N F)
      (out : Bytes)
      → serde.to_string_pretty backup ≡ ok source
      → KeepsFile fs path source x
      → write_backup_file serde (files_beside fs) path backup (idle x d out)
        ≡ (done tt, idle (written fs path source x) d out)
  unfolding write_backup_file export_to_json
  write_backup_file-KeepsFile path source backup x d out h k = rw (h, k.creates, k.writes) refl

  pub read_backup_file-written :
      {N F : Type 0} (path source now model : Text) (info : FirmwareInfo) (cfg : DeviceConfig G)
      (x : X) (d : Device N F) (out : Bytes)
      → Prints json serde (new_backup now model info.version info.sha256 cfg)
      → serde.to_string_pretty (new_backup now model info.version info.sha256 cfg) ≡ ok source
      → KeepsFile fs path source x
      → read_backup_file json serde (files_beside fs) path (idle (written fs path source x) d out)
        ≡ ok (new_backup now model info.version info.sha256 cfg)
  unfolding read_backup_file
  read_backup_file-written path source now model info cfg x d out prints h k = rw k.reads (
      parse_backup_json-export_to_json json serde now model info.version info.sha256 source cfg
        prints (unfold export_to_json in rw h refl))
