-- ===== src/Device/Link/Transfer.antt =====
-- commands.rs over the link to a device: a backup of one device restored to another, through a file.
use freematics_gui.Base.{ℕ, ◌<◌, ◌≡◌, refl, [], inr, arith}
use freematics_gui.Base.Result.{ok}
use freematics_gui.Text.{Text, codes}
use freematics_gui.Text.Utf8.{Bytes}
use freematics_gui.Files.{Files}
use freematics_gui.Protocol.Float.{Float}
use freematics_gui.Protocol.Port.{done}
use freematics_gui.Protocol.Config.{DeviceConfig}
use freematics_gui.Backup.Schema.{
  BackupFile, new_backup, Json, BackupSerde, FirmwareInfo, get_firmware_info,
}
use freematics_gui.Backup.Export.{export_config}
use freematics_gui.Backup.Import.{success, hash_warnings}
use freematics_gui.Backup.Import.Validity.{hash_warnings_iff}
use freematics_gui.Backup.Import.Versions.{Prints}
use freematics_gui.Device.Nvs.{save}
use freematics_gui.Device.Settings.Sent.{kept_config, ReadsNumerals}
use freematics_gui.Device.Handler.{Device, Firmware}
use freematics_gui.Device.Link.{Line, idle}
use freematics_gui.Device.Link.Commands.{heard}
use freematics_gui.Device.Link.Imports.{import_config-over_link}
use freematics_gui.Device.Link.RoundTrip.{ComesBack, HasDumpLines, dump_config-kept}
use freematics_gui.Commands.{System, get_config, export_config_cmd, import_config_cmd}
use freematics_gui.Device.Link.Computer.{
  files_beside, written, KeepsFile, OpensLink, with_serial-OpensLink, write_backup_file-KeepsFile,
  read_backup_file-written,
}

module _ {V G X : Type 0} (json : Json V) (serde : BackupSerde V G) (fs : Files X) where
  module _ {N F : Type 0} (fw : Firmware N F) (debug : Text → Text) (fuel : ℕ) (fl : Float G) where
    -- A device that the configuration was restored to.
    abbrev restored : DeviceConfig G → Device N F → Device N F
    restored cfg d = record {
      cfg = kept_config fw.num fl cfg;
      store = save fw.nvs fw.num (kept_config fw.num fl cfg) d.store;
    }

    module _ (sys : System (Line N F X)) (open_link : OpensLink X fw debug fuel sys) where
      abbrev sent_backup : Text → FirmwareInfo → DeviceConfig G → BackupFile G
      sent_backup now info cfg =
          new_backup now (codes "Freematics ONE+") info.version info.sha256 cfg

      export_config_cmd-KeepsFile :
          (m manifest now path save_path source : Text) (info : FirmwareInfo) (cfg : DeviceConfig G)
          (store : N) (x : X) (out : Bytes)
          → 28 < fuel
          → get_firmware_info json manifest ≡ ok info
          → ComesBack fw.num fl m cfg
          → HasDumpLines X fw fl debug fuel m cfg
          → serde.to_string_pretty (sent_backup now info cfg) ≡ ok source
          → KeepsFile fs save_path source x
          → export_config_cmd sys fl
              (files_beside fs)
              json
              serde
              manifest
              now
              path
              save_path
              (idle x (record { cfg = kept_config fw.num fl cfg; store = store }) out)
            ≡ (
              done tt,
              heard
                  (written fs save_path source x)
                  (record { cfg = kept_config fw.num fl cfg; store = store }),
            )
      unfolding export_config_cmd export_config
      export_config_cmd-KeepsFile m manifest now path save_path source info cfg store x out h known
            back hs prints keeps =
          rw
            (
              known,
              with_serial-OpensLink X fw debug fuel sys open_link path _ _,
              dump_config-kept X fw fl debug fuel m cfg x store out h back hs,
            )
            (write_backup_file-KeepsFile json serde fs save_path source (sent_backup now info cfg) x
              (record { cfg = kept_config fw.num fl cfg; store = store }) (codes "\n") prints keeps)

      no_warnings :
          (now : Text) (info : FirmwareInfo) (cfg : DeviceConfig G)
          → hash_warnings fl (sent_backup now info cfg) info.sha256 ≡ []
      no_warnings now info cfg =
          (hash_warnings_iff fl (sent_backup now info cfg) info.sha256).1
            (inr (inr (unfold new_backup in refl)))

      import_config_cmd-written :
          (m manifest now path load_path source : Text) (info : FirmwareInfo) (cfg : DeviceConfig G)
          (x : X) (d : Device N F) (out : Bytes)
          → 28 < fuel
          → ReadsNumerals fw.num
          → get_firmware_info json manifest ≡ ok info
          → ComesBack fw.num fl m cfg
          → Prints json serde (sent_backup now info cfg)
          → serde.to_string_pretty (sent_backup now info cfg) ≡ ok source
          → KeepsFile fs load_path source x
          → import_config_cmd sys fl
              (files_beside fs)
              json
              serde
              manifest
              path
              load_path
              (idle (written fs load_path source x) d out)
            ≡ (done success, heard (written fs load_path source x) (restored cfg d))
      unfolding import_config_cmd
      import_config_cmd-written m manifest now path load_path source info cfg x d out h reads known
            back reads_back prints keeps =
          rw
            (
              read_backup_file-written json serde fs load_path source now (codes "Freematics ONE+")
                  info cfg x d out reads_back prints keeps,
              known,
              with_serial-OpensLink X fw debug fuel sys open_link path _ _,
              import_config-over_link X fw fl debug fuel (sent_backup now info cfg) info.sha256
                  (written fs load_path source x) d out (omega arith) reads
                  (unfold new_backup in back.valid) (unfold new_backup in back.fits)
                  (unfold new_backup in back.line_values),
              no_warnings now info cfg,
            )
            (unfold new_backup in refl)

      -- A backup carries a configuration from one device to another. The backup of a device that has
      -- the configuration is made and written to a file, the file is restored to another device on the
      -- same computer, whatever that device had, without a warning, and the configuration that is then
      -- read from it is that of the first, every field of it. This holds if the port opens as the link
      -- and the lock is free, the file keeps what is written into it, serde prints the backup and
      -- reads what it prints, the embedded manifest is read, the configuration is one that comes back
      -- from a device and its lines are dump lines, `toInt` reads numerals, and the client's bound is
      -- more than 28.
      pub get_config-transferred :
          (m manifest now path save_path source : Text) (info : FirmwareInfo) (cfg : DeviceConfig G)
          (store : N) (other : Device N F) (x : X) (out out' : Bytes)
          → 28 < fuel
          → ReadsNumerals fw.num
          → get_firmware_info json manifest ≡ ok info
          → ComesBack fw.num fl m cfg
          → HasDumpLines X fw fl debug fuel m cfg
          → Prints json serde (sent_backup now info cfg)
          → serde.to_string_pretty (sent_backup now info cfg) ≡ ok source
          → KeepsFile fs save_path source x
          → (s : Line N F X) × (t : Line N F X) × (export_config_cmd sys fl
                (files_beside fs)
                json
                serde
                manifest
                now
                path
                save_path
                (idle x (record { cfg = kept_config fw.num fl cfg; store = store }) out)
              ≡ (done tt, s))
            × (import_config_cmd sys fl
                  (files_beside fs)
                  json
                  serde
                  manifest
                  path
                  save_path
                  (idle s.beside other out')
                ≡ (done success, t))
            × (get_config sys fl path t ≡ (done cfg, t))
      unfolding get_config
      get_config-transferred m manifest now path save_path source info cfg store other x out out' h
            reads known back hs reads_back prints keeps =
          (
            heard (written fs save_path source x)
                (record { cfg = kept_config fw.num fl cfg; store = store }),
            heard (written fs save_path source x) (restored cfg other),
            export_config_cmd-KeepsFile m manifest now path save_path source info cfg store x out h
                known back hs prints keeps,
            import_config_cmd-written m manifest now path save_path source info cfg x other out' h
                reads known back reads_back prints keeps,
            rw
                (
                  with_serial-OpensLink X fw debug fuel sys open_link path _ _,
                  dump_config-kept X fw fl debug fuel m cfg (written fs save_path source x)
                      (restored cfg other).store (codes "\n") h back hs,
                )
                refl,
          )
