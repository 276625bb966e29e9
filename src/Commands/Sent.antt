-- ===== src/Commands/Sent.antt =====
-- commands.rs: what `set_config` has sent when it succeeds.
use freematics_gui.Base.{◌≡◌, refl, sym, append-nil, Bool-cases, inl, inr, List, [], ◌∷◌, ◌++◌}
use freematics_gui.Base.Result.{ok}
use freematics_gui.Text.{Text, codes}
use freematics_gui.Text.Utf8.{Bytes}
use freematics_gui.Protocol.Float.{Float}
use freematics_gui.Protocol.Config.{DeviceConfig, to_set_commands}
use freematics_gui.Protocol.Port.{Task, Outcome, failed, done, map_err, IoError}
use freematics_gui.Protocol.Logged.{with_log}
use freematics_gui.Protocol.Client.{SerialClient, cmd_attempts}
use freematics_gui.Protocol.Client.Ack.{set, set_command, save_config}
use freematics_gui.Protocol.Client.Traffic.{
  Repeats, Session, Sends, frame, Sends-bind, Sends-map_err, Sends-weaken, Sends-silent, Cat,
}
use freematics_gui.Backup.Import.Traffic.{
  Session-append, set-Sends, save_config-Sends, set_commands,
}
use freematics_gui.Commands.{System, lock_poisoned, with_serial, set_fields, set_config}

module _ {W A : Type 0} (sys : System W) where
  -- A session that succeeds is a run of its work on the client that was opened.
  with_serial-done :
      (path : Text) (f : SerialClient W → Task W A) (client : SerialClient W) (w w' t : W) (a : A)
      → sys.open_port path w ≡ (ok client, w')
      → with_serial sys path f w ≡ (done a, t)
      → f client w' ≡ (done a, t)
  unfolding with_serial
  with_serial-done path f client w w' t a opened h = elim (Bool-cases (sys.poisoned w)) [
    | inl locked ↦
        let refused : ◌≡◌ {A = Outcome Text A × W} (failed lock_poisoned, w) (done a, t) =
          rw locked at h in
        cc
    | inr free ↦ rw (free, opened) at h
  ]

module _ {F S : Type 0} (fl : Float F) (c : SerialClient S) where
  set_fields-Sends :
      (cmds : List (Text × Text))
      → Sends (set_fields (with_log c) cmds) (Session (set_commands fl c cmds))
  unfolding set_fields
  set_fields-Sends [] = Sends-silent _ (λ x. refl)
  set_fields-Sends ((key, val) ∷ rest) =
      Sends-bind _ _ (Repeats (frame (set_command key val)) cmd_attempts)
        (Session (set_commands fl c rest))
        (Sends-map_err _ (set (with_log c) key val) _ (set-Sends fl c key val))
        (λ _. set_fields-Sends rest)

  abbrev pub config_script : DeviceConfig F → List Text
  config_script cfg = set_commands fl c (to_set_commands fl cfg) ++ codes "CFG_SAVE" ∷ []

  module _ (sys : System (S × Bytes)) where
    -- A `set_config` that succeeds has sent, over the port that was opened, the `CFG=` command of
    -- each field in their order, each once or up to three times, then `CFG_SAVE` likewise, and
    -- nothing else.
    pub set_config-sent :
        (path : Text) (cfg : DeviceConfig F) (w : S × Bytes) (s t : S) (sent sent' : Bytes)
        → sys.open_port path w ≡ (ok (with_log c), (s, sent))
        → set_config sys fl path cfg w ≡ (done tt, (t, sent'))
        → (bs : Bytes) × (sent' ≡ sent ++ bs) × Session (config_script cfg) bs
    unfolding set_config
    set_config-sent path cfg w s t sent sent' opened h =
        Sends-weaken _ (Cat (Session sets) (Session saves)) (Session (sets ++ saves))
          (Session-append sets saves)
          (Sends-bind (set_fields (with_log c) (to_set_commands fl cfg)) _ (Session sets)
            (Session saves) (set_fields-Sends (to_set_commands fl cfg)) (λ _. save))
          (s, sent) (t, sent') tt
          (with_serial-done sys path _ (with_log c) w (s, sent) (t, sent') tt opened h)
      where
        sets : List Text
        sets = set_commands fl c (to_set_commands fl cfg)

        saves : List Text
        saves = codes "CFG_SAVE" ∷ []

        save :
            Sends (map_err (λ (e : IoError). e.message) (save_config (with_log c))) (Session saves)
        save =
            Sends-weaken _ (Repeats (frame (codes "CFG_SAVE")) cmd_attempts) (Session saves)
              (λ bs p. (bs, [], sym (append-nil bs), p, refl))
              (Sends-map_err _ (save_config (with_log c)) _ (save_config-Sends fl c))
