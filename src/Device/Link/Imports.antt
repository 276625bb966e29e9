-- ===== src/Device/Link/Imports.antt =====
-- backup/import.rs over the link to the device.
use freematics_gui.Base.{
  ℕ, Option-cases, ◌<◌, ◌≡◌, refl, ap, List, [], ◌∷◌, All, none, some, arith, inl, inr,
}
use freematics_gui.Text.{Text, codes, is_whitespace}
use freematics_gui.Text.Utf8.{Bytes, as_bytes}
use freematics_gui.Protocol.Float.{Float}
use freematics_gui.Protocol.Port.{done}
use freematics_gui.Protocol.Config.{DeviceConfig, to_set_commands}
use freematics_gui.Backup.Schema.{BackupFile}
use freematics_gui.Backup.Import.{set_all, import_config, with_warnings, hash_warnings}
use freematics_gui.Backup.Import.Validity.{IsValid, validate_config_iff}
use freematics_gui.Device.Nvs.{save}
use freematics_gui.Device.Settings
use freematics_gui.Device.Settings.{Config}
use freematics_gui.Device.Settings.Sent.{
  set_each, kept_config, Fits, ReadsNumerals, set_each-to_set_commands,
}
use freematics_gui.Device.Handler.{Device, Firmware}
use freematics_gui.Device.Handler.Pairs.{IsWireKey, IsValue}
use freematics_gui.Device.Link.{idle, link_client}
use freematics_gui.Device.Link.Commands.{heard, set-over_link, save_config-over_link}

-- A key and a value that one line carries.
abbrev pub IsPair : Text × Text → Type 0
IsPair (k, v) = IsWireKey k × IsValue v

-- The values of the commands of a configuration, each carried by one line.
abbrev pub HasLineValues : {G : Type 0} → Float G → DeviceConfig G → Type 0
HasLineValues fl cfg = All (λ (p : Text × Text). IsValue p.1) (to_set_commands fl cfg)

pub keys-IsPair :
    {G : Type 0} (fl : Float G) (cfg : DeviceConfig G)
    → HasLineValues fl cfg
    → All IsPair (to_set_commands fl cfg)
unfolding to_set_commands is_whitespace
keys-IsPair fl cfg h = ground (arith, h)

module _ {N F G : Type 0} (X : Type 0) (fw : Firmware N F) (fl : Float G) (debug : Text → Text)
    (fuel : ℕ) where
  -- The values that one setter after the other accepts are stored, over the link as on the device.
  pub set_all-over_link :
      (pairs : List (Text × Text)) (x : X) (d : Device N F) (out : Bytes) (next : Config F)
      → 3 < fuel
      → All IsPair pairs
      → set_each fw.num pairs d.cfg ≡ some next
      → (left : Bytes) × (set_all fl (link_client X fw debug fuel) pairs (idle x d out)
          ≡ (done tt, idle x (record d { cfg = next }) left))
  unfolding set_all set_each
  set_all-over_link [] x d out next h hs k = (
    out,
    let same : d.cfg ≡ next = cc in ap (λ c. (done tt, idle x (record d { cfg = c }) out)) same,
  )
  set_all-over_link ((key, val) ∷ rest) x d out next h ((hk, hv), hs) k =
      elim (Option-cases (Settings.set fw.num key (as_bytes val) d.cfg)) [
        | inl n ↦ let refused : none ≡ some next = rw (set_each, n) at k in cc
        | inr (cfg, n) ↦
            rw (set-over_link X fw debug fuel key val (idle x d out) h refl hk hv, n)
              (set_all-over_link rest x (record d { cfg = cfg }) (codes "\n") next h hs
                (rw (set_each, n) at k))
      ]

  -- Restoring a backup over the link succeeds, with the warning of an unequal hash as its only one:
  -- the device then has the configuration of the backup, in memory and as saved in its flash. This
  -- holds whatever the device had before, if the values are in their ranges, fit the types of the
  -- device, and are each carried by one line, if `toInt` reads numerals, and if the client's bound
  -- on the bytes of a line is more than three.
  pub import_config-over_link :
      (backup : BackupFile G) (current : Text) (x : X) (d : Device N F) (out : Bytes)
      → 3 < fuel
      → ReadsNumerals fw.num
      → IsValid fl backup.config
      → Fits fw.num fl backup.config
      → HasLineValues fl backup.config
      → import_config fl (link_client X fw debug fuel) backup current (idle x d out) ≡ (
        done (with_warnings fl (hash_warnings fl backup current)),
        heard x (record {
          cfg = kept_config fw.num fl backup.config;
          store = save fw.nvs fw.num (kept_config fw.num fl backup.config) d.store;
        }),
      )
  unfolding import_config
  import_config-over_link backup current x d out h reads valid fits values =
      let (left, sent) =
        set_all-over_link (to_set_commands fl backup.config) x d out
          (kept_config fw.num fl backup.config) h (keys-IsPair fl backup.config values)
          (set_each-to_set_commands fw.num fl reads backup.config d.cfg fits) in
      rw
        (
          (validate_config_iff fl backup.config).1 valid,
          sent,
          save_config-over_link X fw debug fuel
              (idle x (record d { cfg = kept_config fw.num fl backup.config }) left) h refl,
        )
        refl
