-- ===== src/Device/Link/RoundTrip.antt =====
-- backup/import.rs and then `dump_config` of protocol/client.rs, over the link to the device.
use freematics_gui.Base.{ℕ, ◌<◌, ◌≡◌, sym, ap, ◌∙◌, map, All, arith}
use freematics_gui.Base.Result.{ok}
use freematics_gui.Text.{Text, codes}
use freematics_gui.Text.Ascii.{IsAscii}
use freematics_gui.Text.Utf8.{Bytes, as_bytes}
use freematics_gui.Protocol.Float.{Float}
use freematics_gui.Protocol.Port.{done}
use freematics_gui.Protocol.Config.{DeviceConfig, to_set_commands}
use freematics_gui.Protocol.Config.Lines.{line_of}
use freematics_gui.Protocol.Config.RoundTrip.{IsSendable, from_dump_lines-to_set_commands}
use freematics_gui.Protocol.Client.Dump.{dump_config}
use freematics_gui.Protocol.Client.Dump.Reads.{IsDumpLine}
use freematics_gui.Backup.Schema.{BackupFile}
use freematics_gui.Backup.Import.{import_config, with_warnings, hash_warnings}
use freematics_gui.Backup.Import.Validity.{IsValid}
use freematics_gui.Device.Strings.{Numbers}
use freematics_gui.Device.Nvs.{save}
use freematics_gui.Device.Settings.Sent.{kept_config, Fits, ReadsNumerals}
use freematics_gui.Device.Settings.Dumped.{as_printed, entries-kept, from_dump_lines-as_printed}
use freematics_gui.Device.Handler.{Device, Firmware}
use freematics_gui.Device.Link.{Line, idle, link_client}
use freematics_gui.Device.Link.Commands.{heard}
use freematics_gui.Device.Link.Imports.{HasLineValues, import_config-over_link}
use freematics_gui.Device.Link.Dumps.{dump_config-over_link}

-- What a configuration must be to come back from the device: every command and every line of the
-- dump is carried whole, the values are valid and fit the device's types, and the threshold that
-- the device prints, `m`, is read back as it was.
pub record ComesBack {F G : Type 0} (num : Numbers F) (fl : Float G) (m : Text)
    (cfg : DeviceConfig G) : Type 0 where
  pub valid : IsValid fl cfg
  pub fits : Fits num fl cfg
  pub line_values : HasLineValues fl cfg
  pub printed : num.fixed_4 (num.to_float (as_bytes (fl.to_text cfg.motion_threshold))) ≡ as_bytes m
  pub sendable : IsSendable (as_printed fl m) cfg

to_set_commands-keys :
    {G : Type 0} (fl : Float G) (cfg : DeviceConfig G)
    → All (λ (p : Text × Text). IsAscii p.0) (to_set_commands fl cfg)
unfolding to_set_commands
to_set_commands-keys fl cfg = ground arith

module _ {N F G : Type 0} (X : Type 0) (fw : Firmware N F) (fl : Float G) (debug : Text → Text)
    (fuel : ℕ) where
  -- The lines of the dump are read one by one.
  abbrev pub HasDumpLines : Text → DeviceConfig G → Type 0
  HasDumpLines m cfg =
      All (IsDumpLine (link_client X fw debug fuel))
        (map line_of (to_set_commands (as_printed fl m) cfg))

  pub dump_config-kept :
      (m : Text) (cfg : DeviceConfig G) (x : X) (store : N) (out : Bytes)
      → 28 < fuel
      → ComesBack fw.num fl m cfg
      → HasDumpLines m cfg
      → dump_config
          (link_client X fw debug fuel)
          fl
          (idle x (record { cfg = kept_config fw.num fl cfg; store = store }) out)
        ≡ (done cfg, heard x (record { cfg = kept_config fw.num fl cfg; store = store }))
  dump_config-kept m cfg x store out h back hs =
      let (got, read, e) =
        dump_config-over_link X fw debug fuel fl (to_set_commands (as_printed fl m) cfg) x
          (record { cfg = kept_config fw.num fl cfg; store = store }) out (omega arith)
          (unfold to_set_commands in omega arith) (entries-kept fw.num fl m cfg back.printed)
          (to_set_commands-keys (as_printed fl m) cfg) hs in
      let same : ok got ≡ ok cfg =
        sym read
        ∙ sym
            (from_dump_lines-as_printed fl m (map line_of (to_set_commands (as_printed fl m) cfg)))
        ∙ from_dump_lines-to_set_commands (as_printed fl m) cfg back.sendable in
      let got_cfg : got ≡ cfg = cc in
      e
      ∙ ap (λ c. (done c, heard x (record { cfg = kept_config fw.num fl cfg; store = store })))
          got_cfg

  -- A backup that was restored over the link comes back: the dump that follows gives the
  -- configuration of the backup, every field of it, and leaves the device as it is. This holds
  -- whatever the device had before, if the configuration is one that comes back (its record says
  -- when) and its lines are dump lines, if `toInt` reads numerals, and if the client's bound is more
  -- than 28.
  pub dump_config-import_config :
      (m : Text) (backup : BackupFile G) (current : Text) (x : X) (d : Device N F) (out : Bytes)
      → 28 < fuel
      → ReadsNumerals fw.num
      → ComesBack fw.num fl m backup.config
      → HasDumpLines m backup.config
      → (s : Line N F X) × (import_config fl
            (link_client X fw debug fuel)
            backup
            current
            (idle x d out)
          ≡ (done (with_warnings fl (hash_warnings fl backup current)), s))
        × (dump_config (link_client X fw debug fuel) fl s ≡ (done backup.config, s))
  dump_config-import_config m backup current x d out h reads back hs = (
    heard x (record {
      cfg = kept_config fw.num fl backup.config;
      store = save fw.nvs fw.num (kept_config fw.num fl backup.config) d.store;
    }),
    import_config-over_link X fw fl debug fuel backup current x d out (omega arith) reads back.valid
        back.fits back.line_values,
    dump_config-kept m backup.config x
        (save fw.nvs fw.num (kept_config fw.num fl backup.config) d.store) (codes "\n") h back hs,
  )
