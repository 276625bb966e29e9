-- ===== src/Device/Link/Refusals.antt =====
-- backup/import.rs over the link to a device that refuses a value.
use freematics_gui.Base.{
  ℕ, ◌++◌, Option-cases, ◌<◌, ◌≡◌, refl, ap, true, false, List, [], ◌∷◌, All, inl, inr,
}
use freematics_gui.Text.{Text, codes}
use freematics_gui.Text.Utf8.{Bytes, as_bytes}
use freematics_gui.Protocol.Float.{Float}
use freematics_gui.Protocol.Port.{failed}
use freematics_gui.Protocol.Config.{to_set_commands}
use freematics_gui.Protocol.Client.Ack.{rejection, set_command}
use freematics_gui.Backup.Schema.{BackupFile}
use freematics_gui.Backup.Import.{set_all, import_config}
use freematics_gui.Backup.Import.Validity.{IsValid, validate_config_iff}
use freematics_gui.Device.Settings
use freematics_gui.Device.Settings.{Config}
use freematics_gui.Device.Settings.Sent.{ReadsNumerals}
use freematics_gui.Device.Settings.Halted.{set_until, IsTooWide, to_set_commands-IsHalted}
use freematics_gui.Device.Handler.{Device, Firmware}
use freematics_gui.Device.Link.{Line, idle, link_client}
use freematics_gui.Device.Link.Commands.{heard, set-over_link}
use freematics_gui.Device.Link.Imports.{IsPair, HasLineValues, keys-IsPair}

module _ {N F G : Type 0} (X : Type 0) (fw : Firmware N F) (fl : Float G) (debug : Text → Text)
    (fuel : ℕ) where
  refused_set : Text → Text → Text
  refused_set key val =
      codes "failed to set "
      ++ (key
          ++ (codes ": "
              ++ (rejection (link_client X fw debug fuel) (set_command key val)
                  (codes "ERR")).message))

  -- The first refusal ends the loop, with the values before it stored.
  set_all-halted :
      (pairs : List (Text × Text)) (x : X) (d : Device N F) (out : Bytes) (next : Config F)
      → 3 < fuel
      → All IsPair pairs
      → set_until fw.num pairs d.cfg ≡ (false, next)
      → (reason : Text) × (left : Bytes) × (set_all fl
            (link_client X fw debug fuel)
            pairs
            (idle x d out)
          ≡ (failed reason, idle x (record d { cfg = next }) left))
  unfolding set_all set_until refused_set
  set_all-halted [] x d out next h hs k = let accepted : true ≡ false = ap (λ r. r.0) k in cc
  set_all-halted ((key, val) ∷ rest) x d out next h ((hk, hv), hs) k =
      elim (Option-cases (Settings.set fw.num key (as_bytes val) d.cfg)) [
        | inl n ↦
            let kept : (false, d.cfg) ≡ (false, next) = rw (set_until, n) at k in
            let same : d.cfg ≡ next = ap (λ r. r.1) kept in
            (
              refused_set key val,
              codes "\n",
              rw (set-over_link X fw debug fuel key val (idle x d out) h refl hk hv, n)
                  (ap (λ c. (failed (refused_set key val), heard x (record d { cfg = c }))) same),
            )
        | inr (cfg, n) ↦
            rw (set-over_link X fw debug fuel key val (idle x d out) h refl hk hv, n)
              (set_all-halted rest x (record d { cfg = cfg }) (codes "\n") next h hs
                (rw (set_until, n) at k))
      ]

  -- The device stores an interval in 16 bits, and `validate_config` does not know. A valid
  -- configuration with an interval of 32768 or more is not restored: the import fails, with the first
  -- field already changed in the memory of the device and its flash as it was. This holds if the
  -- other numbers fit, every value is carried by one line, `toInt` reads numerals, and the client's
  -- bound is more than three.
  pub import_config-halted :
      (backup : BackupFile G) (current : Text) (x : X) (d : Device N F) (out : Bytes)
      → 3 < fuel
      → ReadsNumerals fw.num
      → IsValid fl backup.config
      → IsTooWide fw.num fl backup.config
      → HasLineValues fl backup.config
      → (reason : Text) × (t : Line N F X) × (import_config fl
            (link_client X fw debug fuel)
            backup
            current
            (idle x d out)
          ≡ (failed reason, t))
        × (t.device.cfg.apn ≡ as_bytes backup.config.cell_apn)
        × (t.device.store ≡ d.store)
  unfolding import_config
  import_config-halted backup current x d out h reads valid wide values =
      let r = set_until fw.num (to_set_commands fl backup.config) d.cfg in
      let (halted, first) = to_set_commands-IsHalted fw.num fl reads backup.config d.cfg wide in
      let (reason, left, e) =
        set_all-halted (to_set_commands fl backup.config) x d out r.1 h
          (keys-IsPair fl backup.config values) (ap (λ b. (b, r.1)) halted) in
      (
        reason,
        idle x (record d { cfg = r.1 }) left,
        rw ((validate_config_iff fl backup.config).1 valid, e) refl,
        first,
        refl,
      )
