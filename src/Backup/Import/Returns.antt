-- ===== src/Backup/Import/Returns.antt =====
-- backup/import.rs: whether an import ends.
use freematics_gui.Base.{◌<◌, ◌≢◌, List, [], ◌∷◌}
use freematics_gui.Text.{Text}
use freematics_gui.Protocol.Float.{Float}
use freematics_gui.Protocol.Config.{to_set_commands}
use freematics_gui.Protocol.Port.{spinning, lift, map_err}
use freematics_gui.Protocol.Client.{SerialClient}
use freematics_gui.Protocol.Client.Ack.{set, save_config}
use freematics_gui.Protocol.Client.Returns.{
  IsFinite, Returns, pure-Returns, lift-Returns, bind-Returns, map_err-Returns,
}
use freematics_gui.Protocol.Client.Returns.Commands.{set-Returns, save_config-Returns}
use freematics_gui.Backup.Schema.{BackupFile}
use freematics_gui.Backup.Import.{set_all, import_config, validate_config}

module _ {F S : Type 0} (fl : Float F) (c : SerialClient S) (d : IsFinite c) where
  set_all-Returns : (cmds : List (Text × Text)) → Returns c d (set_all fl c cmds)
  unfolding set_all
  set_all-Returns [] = pure-Returns c d tt
  set_all-Returns ((key, val) ∷ rest) =
      bind-Returns c d (map_err _ (set c key val)) _
        (map_err-Returns c d _ (set c key val) (set-Returns c d key val))
        (λ _. set_all-Returns rest)

  import_config-Returns :
      (backup : BackupFile F) (current : Text) → Returns c d (import_config fl c backup current)
  unfolding import_config
  import_config-Returns backup current =
      bind-Returns c d (lift (validate_config fl backup.config)) _
        (lift-Returns c d (validate_config fl backup.config))
        (λ _.
          bind-Returns c d (set_all fl c (to_set_commands fl backup.config)) _
            (set_all-Returns (to_set_commands fl backup.config))
            (λ _.
              bind-Returns c d (map_err _ (save_config c)) _
                (map_err-Returns c d _ (save_config c) (save_config-Returns c d))
                (λ _. pure-Returns c d _)))

  -- An import ends, with an outcome or a reason, on a device that never has more bytes to say than
  -- the bound of the client.
  pub import_config-returns :
      (backup : BackupFile F) (current : Text) (s : S)
      → d.left s < c.fuel
      → (import_config fl c backup current s).0 ≢ spinning
  import_config-returns backup current s h = (import_config-Returns backup current s h).0
