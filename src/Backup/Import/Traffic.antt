-- ===== src/Backup/Import/Traffic.antt =====
-- backup/import.rs: what an import that succeeds has sent to the device.
use freematics_gui.Base.{◌≡◌, refl, sym, ap, ◌∙◌, List, [], ◌∷◌, ◌++◌, map, append_assoc}
use mathlib.Core.Path.{subst}
use freematics_gui.Text.{Text, codes}
use freematics_gui.Text.Utf8.{Bytes}
use freematics_gui.Protocol.Float.{Float}
use freematics_gui.Protocol.Config.{to_set_commands}
use freematics_gui.Protocol.Port.{lift, pure, done}
use freematics_gui.Protocol.Logged.{with_log}
use freematics_gui.Protocol.Client.{SerialClient, cmd_attempts}
use freematics_gui.Protocol.Client.Ack.{set, set_command, save_config}
use freematics_gui.Protocol.Client.Traffic.{
  Only, Cat, Repeats, Session, Sends, frame, Sends-bind, Sends-map_err, Sends-weaken, Sends-silent,
  command_expect_ok-Sends,
}
use freematics_gui.Backup.Schema.{BackupFile}
use freematics_gui.Backup.Import.{
  ImportOutcome, set_all, import_config, validate_config, with_warnings, hash_warnings,
}

pub Session-append :
    (cmds more : List Text) (bs : Bytes)
    → Cat (Session cmds) (Session more) bs
    → Session (cmds ++ more) bs
Session-append [] more bs (u, v, e, p, q) = subst (Session more) (sym (e ∙ ap (λ w. w ++ v) p)) q
Session-append (cmd ∷ cmds) more bs (u, v, e, (u', v', e', p', q'), q) = (
  u',
  v' ++ v,
  e ∙ ap (λ w. w ++ v) e' ∙ append_assoc u' v' v,
  p',
  Session-append cmds more (v' ++ v) (v', v, refl, q', q),
)

drop_empty : (cmds : List Text) (bs : Bytes) → Cat (Only []) (Session cmds) bs → Session cmds bs
drop_empty cmds bs (u, v, e, p, q) = subst (Session cmds) (sym (e ∙ ap (λ w. w ++ v) p)) q

module _ {F S : Type 0} (fl : Float F) (c : SerialClient S) where
  pub set-Sends :
      (key val : Text)
      → Sends (set (with_log c) key val) (Repeats (frame (set_command key val)) cmd_attempts)
  unfolding set
  set-Sends key val = command_expect_ok-Sends c (set_command key val)

  pub save_config-Sends :
      Sends (save_config (with_log c)) (Repeats (frame (codes "CFG_SAVE")) cmd_attempts)
  unfolding save_config
  save_config-Sends = command_expect_ok-Sends c (codes "CFG_SAVE")

  abbrev pub set_commands : List (Text × Text) → List Text
  set_commands = map (λ kv. set_command kv.0 kv.1)

  set_all-Sends :
      (cmds : List (Text × Text))
      → Sends (set_all fl (with_log c) cmds) (Session (set_commands cmds))
  unfolding set_all
  set_all-Sends [] = Sends-silent _ (λ x. refl)
  set_all-Sends ((key, val) ∷ rest) =
      Sends-bind _ _ (Repeats (frame (set_command key val)) cmd_attempts)
        (Session (set_commands rest))
        (Sends-map_err _ (set (with_log c) key val) _ (set-Sends key val)) (λ _. set_all-Sends rest)

  -- What an import sends: a `CFG=` command for each field, and then `CFG_SAVE`.
  abbrev pub import_script : BackupFile F → List Text
  import_script backup = set_commands (to_set_commands fl backup.config) ++ codes "CFG_SAVE" ∷ []

  import_config-Sends :
      (backup : BackupFile F) (current : Text)
      → Sends (import_config fl (with_log c) backup current) (Session (import_script backup))
  unfolding import_config
  import_config-Sends backup current =
      Sends-weaken _ (Cat (Only []) (Session (import_script backup)))
        (Session (import_script backup)) (drop_empty (import_script backup))
        (Sends-bind (lift (validate_config fl backup.config)) _ (Only [])
          (Session (import_script backup))
          (Sends-silent (lift (validate_config fl backup.config)) (λ x. refl))
          (λ _.
            Sends-weaken _ (Cat (Session sets) (Session saves)) (Session (sets ++ saves))
              (Session-append sets saves)
              (Sends-bind (set_all fl (with_log c) (to_set_commands fl backup.config)) _
                (Session sets) (Session saves) (set_all-Sends (to_set_commands fl backup.config))
                (λ _.
                  Sends-bind _ _ (Repeats (frame (codes "CFG_SAVE")) cmd_attempts) (Only [])
                    (Sends-map_err _ (save_config (with_log c)) _ save_config-Sends)
                    (λ _. Sends-silent (pure result) (λ x. refl))))))
    where
      sets : List Text
      sets = set_commands (to_set_commands fl backup.config)

      saves : List Text
      saves = codes "CFG_SAVE" ∷ []

      result : ImportOutcome
      result = with_warnings fl (hash_warnings fl backup current)

  -- An import that succeeds has sent the `CFG=` command of each field in their order, each once or
  -- up to three times, then `CFG_SAVE` once or up to three times, and nothing else.
  pub import_config-sent :
      (backup : BackupFile F) (current : Text) (s t : S) (sent sent' : Bytes) (o : ImportOutcome)
      → import_config fl (with_log c) backup current (s, sent) ≡ (done o, (t, sent'))
      → (bs : Bytes) × (sent' ≡ sent ++ bs) × Session (import_script backup) bs
  import_config-sent backup current s t sent sent' o h =
      import_config-Sends backup current (s, sent) (t, sent') o h
