-- ===== src/Device/Link/Survival.antt =====
-- backup/import.rs, then `reboot` and `dump_config` of protocol/client.rs, over the link to the
-- device.
use freematics_gui.Base.{ℕ, ◌<◌, ◌≡◌, ap, ◌∙◌, arith}
use freematics_gui.Text.{Text, codes}
use freematics_gui.Text.Utf8.{Bytes}
use freematics_gui.Protocol.Float.{Float}
use freematics_gui.Protocol.Port.{done}
use freematics_gui.Protocol.Client.Ack.{reboot}
use freematics_gui.Protocol.Client.Dump.{dump_config}
use freematics_gui.Backup.Schema.{BackupFile}
use freematics_gui.Backup.Import.{import_config, with_warnings, hash_warnings}
use freematics_gui.Device.Settings.Sent.{kept_config, ReadsNumerals}
use freematics_gui.Device.Nvs.{save}
use freematics_gui.Device.Nvs.Kept.{Stores}
use freematics_gui.Device.Nvs.Reload.{IsSavable, load-save}
use freematics_gui.Device.Handler.{Device, Firmware}
use freematics_gui.Device.Link.{Line, idle, link_client}
use freematics_gui.Device.Link.Commands.{heard}
use freematics_gui.Device.Link.Imports.{import_config-over_link}
use freematics_gui.Device.Link.Restart.{reboot-over_link}
use freematics_gui.Device.Link.RoundTrip.{ComesBack, HasDumpLines, dump_config-kept}

module _ {N F G : Type 0} (X : Type 0) (fw : Firmware N F) (fl : Float G) (debug : Text → Text)
    (fuel : ℕ) where
  -- A backup that was restored over the link survives a restart: the import succeeds, the restart is
  -- acknowledged, and the dump that follows gives the configuration of the backup, every field of
  -- it. This holds whatever the device had before, if the configuration is one that comes back (its
  -- record says when), its lines are dump lines, its entries fit a flash that keeps what is put
  -- into it, `toInt` reads numerals, and the client's bound is more than 28.
  pub dump_config-reboot :
      (m : Text) (backup : BackupFile G) (current : Text) (x : X) (d : Device N F) (out : Bytes)
      → 28 < fuel
      → ReadsNumerals fw.num
      → Stores fw.nvs
      → ComesBack fw.num fl m backup.config
      → HasDumpLines X fw fl debug fuel m backup.config
      → IsSavable fw.num (kept_config fw.num fl backup.config)
      → (s : Line N F X) × (t : Line N F X) × (import_config fl
            (link_client X fw debug fuel)
            backup
            current
            (idle x d out)
          ≡ (done (with_warnings fl (hash_warnings fl backup current)), s))
        × (reboot (link_client X fw debug fuel) s ≡ (done tt, t))
        × (dump_config (link_client X fw debug fuel) fl t ≡ (done backup.config, t))
  dump_config-reboot m backup current x d out h reads stores back hs savable =
      let kept = kept_config fw.num fl backup.config in
      let store = save fw.nvs fw.num kept d.store in
      let again : Device N F = record { cfg = kept; store = store } in
      (
        heard x again,
        heard x again,
        import_config-over_link X fw fl debug fuel backup current x d out (omega arith) reads
            back.valid back.fits back.line_values,
        reboot-over_link X fw debug fuel x again (codes "\n") (omega arith)
            ∙ ap (λ c. (done tt, heard x (record { cfg = c; store = store })))
                (load-save fw.num fw.nvs stores kept savable d.store),
        dump_config-kept X fw fl debug fuel m backup.config x store (codes "\n") h back hs,
      )
