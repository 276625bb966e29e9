-- ===== src/Commands.antt =====
-- commands.rs, the sessions with a device. Opening a port is a parameter, as is what the lock of the
-- serial ports knows; threads only move the work, so a command is one action.
pub mod Flashing
pub mod Sent
pub mod Dialogs
pub mod Threads
use freematics_gui.Base.{◌++◌, Bool, if◌then◌else◌, List, [], ◌∷◌, map}
use freematics_gui.Base.Result
use freematics_gui.Base.Result.{Result, ok}
use freematics_gui.Text.{Text, codes}
use freematics_gui.Files.{Files}
use freematics_gui.Protocol.Float.{Float}
use freematics_gui.Protocol.Config.{DeviceConfig, to_set_commands}
use freematics_gui.Protocol.Port.{IoError, Task, failed, ◌>>=◌, ◌>>◌, pure, lift, act, map_err}
use freematics_gui.Protocol.Client.{SerialClient}
use freematics_gui.Protocol.Client.Ack.{set, save_config, reboot}
use freematics_gui.Protocol.Client.Dump.{dump_config}
use freematics_gui.Protocol.Client.Live
use freematics_gui.Protocol.Client.Live.{LiveData}
use freematics_gui.Backup.Schema.{Json, BackupSerde, get_firmware_info}
use freematics_gui.Backup.Export.{export_config, write_backup_file}
use freematics_gui.Backup.Import.{ImportOutcome, import_config, read_backup_file}
use freematics_gui.Usb.Detector.{PortInfo}

-- A client that is opened acts on the state of the system. `poisoned` tells whether a thread has
-- panicked while it held the lock.
pub record System (W : Type 0) : Type 0 where
  pub poisoned : W → Bool
  pub open_port : Text → W → Result IoError (SerialClient W) × W

abbrev pub lock_poisoned : Text
lock_poisoned = codes "serial port lock poisoned"

-- `e.to_string()` of an `io::Error`
abbrev pub stringly : {W A : Type 0} → (W → Result IoError A × W) → Task W A
stringly f = map_err (λ (e : IoError). e.message) (act f)

module _ {W A : Type 0} (sys : System W) where
  abbrev pub locked : Task W A → Task W A
  locked m w = if sys.poisoned w then (failed lock_poisoned, w) else m w

  unfoldable pub with_serial : Text → (SerialClient W → Task W A) → Task W A
  with_serial path f = locked (stringly (sys.open_port path) >>= f)

unfoldable pub list_ports : Result Text (List PortInfo) → Result Text (List Text)
list_ports available =
    Result.◌>>=◌ available (λ ports. ok (map (λ (p : PortInfo). p.port_name) ports))

-- The loop of `set_config`.
unfoldable pub set_fields : {W : Type 0} → SerialClient W → List (Text × Text) → Task W (Unit {0})
set_fields client [] = pure tt
set_fields client ((key, val) ∷ rest) = do
  map_err (λ (e : IoError). e.message) (set client key val)
  set_fields client rest

module _ {W F : Type 0} (sys : System W) (fl : Float F) where
  unfoldable pub get_config : Text → Task W (DeviceConfig F)
  get_config path =
      with_serial sys path (λ client. map_err (λ (e : IoError). e.message) (dump_config client fl))

  unfoldable pub set_config : Text → DeviceConfig F → Task W (Unit {0})
  set_config path cfg = with_serial sys path (λ client.
      set_fields client (to_set_commands fl cfg)
      >> map_err (λ (e : IoError). e.message) (save_config client))

  unfoldable pub get_live_data : {D : Type 0} → Float D → Text → Task W (LiveData F D)
  get_live_data db path =
      with_serial sys path
        (λ client. map_err (λ (e : IoError). e.message) (Live.get_live_data fl db client))

unfoldable pub reboot_device : {W : Type 0} → System W → Text → Task W (Unit {0})
reboot_device sys path =
    with_serial sys path (λ client. map_err (λ (e : IoError). e.message) (reboot client))

module _ {W V F : Type 0} (sys : System W) (fl : Float F) (fs : Files W) (json : Json V) where
  module _ (serde : BackupSerde V F) (manifest : Text) where
    -- `now` is the time of the backup, printed.
    unfoldable pub export_config_cmd : Text → Text → Text → Task W (Unit {0})
    export_config_cmd now path save_path = do
      info ← lift (get_firmware_info json manifest)
      with_serial sys path (λ client.
          export_config client fl now (codes "Freematics ONE+") info
          >>= write_backup_file serde fs save_path)

    unfoldable pub import_config_cmd : Text → Text → Task W ImportOutcome
    import_config_cmd path load_path w =
        (lift (read_backup_file json serde fs load_path w) >>= λ backup.
        lift (get_firmware_info json manifest) >>= λ info.
        with_serial sys path (λ client. import_config fl client backup info.sha256))
          w
