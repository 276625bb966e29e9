-- ===== src/Device/Link/Commands.antt =====
-- protocol/client.rs over the link to the device: a command that is acknowledged.
use freematics_gui.Base.{
  ℕ, ◌<◌, ◌≡◌, refl, sym, ap, ◌∙◌, Bool, true, false, [], ◌∷◌, ◌++◌, append_assoc, append-nil,
  All-append, Option, none, some, arith,
}
use freematics_gui.Base.Result.{ok}
use freematics_gui.Text.{Text, codes, text_eq, trim, is_whitespace, eq_ignore_ascii_case, Lacks}
use freematics_gui.Text.Utf8.{Bytes, as_bytes, encode_char}
use freematics_gui.Protocol.Port.{IoError, Outcome, done, failed}
use freematics_gui.Protocol.Client.{write_command}
use freematics_gui.Protocol.Client.Ack.{
  set, set_command, is_answer, is_ok_line, rejection, save_config, command_expect_ok,
}
use freematics_gui.Protocol.Client.Lines.{IsLine}
use freematics_gui.Protocol.Client.Answers.{verdict, SendsInTime, command_expect_ok-answered}
use freematics_gui.Device.Settings
use freematics_gui.Device.Settings.{Config}
use freematics_gui.Device.Handler.{
  Device, Firmware, stored, handle_command_line, process_serial, command_line,
}
use freematics_gui.Device.Strings.{trim_front, trim_back, to_upper_case, drop_cr}
use freematics_gui.Device.Strings
use freematics_gui.Device.Nvs.{save}
use freematics_gui.Device.Handler.Pairs.{
  IsWireKey, IsValue, pair_bytes, as_bytes-set_command, set_command-Lacks, handle_command_line-set,
  process_serial-line,
}
use freematics_gui.Device.Link.{Line, idle, link_client}

-- The device has handled a line and printed its reply; the application has read none of it.
abbrev pub after : {N F X : Type 0} → X → Device N F × Bytes → Line N F X
after x (d, out) = idle x d out

module _ {N F : Type 0} (fw : Firmware N F) where
  -- One line, carriage return and line feed at its end, is one command.
  pub process_serial-command :
      (bs : Bytes) (d : Device N F)
      → Lacks b'\n' bs
      → process_serial fw [] (bs ++ codes "\r\n") d ≡ handle_command_line fw (bs ++ b'\r' ∷ []) d
  process_serial-command bs d h =
      ap (λ x. process_serial fw [] x d) (sym (append_assoc bs (b'\r' ∷ []) (b'\n' ∷ [])))
      ∙ process_serial-line fw [] (bs ++ b'\r' ∷ []) [] d
          (All-append _ bs (b'\r' ∷ []) h (omega arith, tt))
      ∙ (unfold process_serial in
          ap (λ x. ((handle_command_line fw (bs ++ b'\r' ∷ []) d).0, x)) (append-nil _))

-- The device's answer, and the configuration and the flash that it then has.
abbrev answer : Bool → Text
answer true = codes "OK"
answer false = codes "ERR"

abbrev reply : {N F : Type 0} → Bool → Device N F → Device N F × Bytes
reply b d = (d, answer b ++ codes "\r\n")

-- The application has read the answer up to the line feed, which the next command drops.
abbrev pub heard : {N F X : Type 0} → X → Device N F → Line N F X
heard x d = idle x d (codes "\n")

trim-answer : (b : Bool) → trim (answer b) ≡ answer b
unfolding trim is_whitespace
trim-answer true = refl
trim-answer false = refl

is_answer-answer : (b : Bool) → is_answer (answer b) ≡ true
unfolding is_answer eq_ignore_ascii_case
is_answer-answer true = refl
is_answer-answer false = refl

module _ {N F : Type 0} (X : Type 0) (fw : Firmware N F) where
  link-set :
      (debug : Text → Text) (fuel : ℕ) (k v : Text) (x : X) (d : Device N F)
      → IsWireKey k
      → IsValue v
      → write_command (link_client X fw debug fuel) (set_command k v) (idle x d [])
        ≡ (done tt, after x (stored fw d (Settings.set fw.num k (as_bytes v) d.cfg)))
  unfolding write_command
  link-set debug fuel k v x d hk hv =
      ap (λ r. (done tt, after x r))
        (ap (λ bs. process_serial fw [] (bs ++ codes "\r\n") d) (as_bytes-set_command k v hk)
          ∙ process_serial-command fw (codes "CFG=" ++ pair_bytes k v) d
              (set_command-Lacks k v hk hv)
          ∙ handle_command_line-set fw k v d hk hv)

  module _ (debug : Text → Text) (fuel : ℕ) where
    -- What the application makes of the device's answer to a command.
    abbrev pub settled : Text → Bool → X → Device N F → Outcome IoError (Unit {0}) × Line N F X
    settled cmd true x d = (done tt, heard x d)
    settled cmd false x d =
        (failed (rejection (link_client X fw debug fuel) cmd (codes "ERR")), heard x d)

    verdict-answer :
        (cmd : Text) (b : Bool) (x : X) (d : Device N F)
        → (verdict (link_client X fw debug fuel) cmd (answer b), heard x d) ≡ settled cmd b x d
    unfolding is_ok_line eq_ignore_ascii_case
    verdict-answer cmd true x d = refl
    verdict-answer cmd false x d = refl

    pub answer-IsLine : (b : Bool) → 3 < fuel → IsLine (link_client X fw debug fuel) (answer b)
    unfolding as_bytes
    answer-IsLine true h = (omega arith, cc, ground arith, omega arith)
    answer-IsLine false h = (omega arith, cc, ground arith, omega arith)

    pub answer-SendsInTime :
        (b : Bool) (x : X) (d : Device N F)
        → SendsInTime
            (link_client X fw debug fuel)
            8000
            (answer b ∷ [])
            (after x (reply b d))
            (heard x d)
    unfolding as_bytes
    answer-SendsInTime true x d =
        (refl, heard x d, (b'\r', refl, (refl, (refl, (refl, refl)))), refl)
    answer-SendsInTime false x d =
        (refl, heard x d, (b'\r', refl, (refl, (refl, (refl, (refl, refl))))), refl)

    pub command_settled :
        (cmd : Text) (s : Line N F X) (b : Bool) (d : Device N F)
        → 3 < fuel
        → write_command (link_client X fw debug fuel) cmd (record s { to_host = [] })
          ≡ (done tt, after s.beside (reply b d))
        → command_expect_ok (link_client X fw debug fuel) cmd s ≡ settled cmd b s.beside d
    command_settled cmd s b d h w =
        command_expect_ok-answered (link_client X fw debug fuel) cmd [] (answer b) s s
          (record s { to_host = [] }) (after s.beside (reply b d)) (heard s.beside d) (ok tt) refl
          refl w tt (omega arith) (answer-IsLine b h) (rw (trim-answer b) (is_answer-answer b))
          (answer-SendsInTime b s.beside d)
        ∙ ap (λ r. (verdict (link_client X fw debug fuel) cmd r, heard s.beside d)) (trim-answer b)
        ∙ verdict-answer cmd b s.beside d

    -- How `set` ends by what the device's own setter does with the value.
    abbrev pub set_end :
        Text → Text → X → Device N F → Option (Config F) → Outcome IoError (Unit {0}) × Line N F X
    set_end k v x d none = settled (set_command k v) false x d
    set_end k v x d (some cfg) = settled (set_command k v) true x (record d { cfg = cfg })

    set_of_reply :
        (k v : Text) (s : Line N F X) (d : Device N F) (o : Option (Config F))
        → 3 < fuel
        → write_command (link_client X fw debug fuel) (set_command k v) (record s { to_host = [] })
          ≡ (done tt, after s.beside (stored fw d o))
        → set (link_client X fw debug fuel) k v s ≡ set_end k v s.beside d o
    unfolding set
    set_of_reply k v s d none h w = command_settled (set_command k v) s false d h w
    set_of_reply k v s d (some cfg) h w =
        command_settled (set_command k v) s true (record d { cfg = cfg }) h w

    -- A `set` over the link does what the setter of the device does: it succeeds and the device has
    -- the new value, or it is rejected with ERR and the device is as it was. This holds for a key in
    -- ASCII, not empty and without white space or `=`, a value without a line feed and without white
    -- space at its end, a line with nothing unsent, and a client whose bound on the bytes of a line
    -- is more than three.
    pub set-over_link :
        (k v : Text) (s : Line N F X)
        → 3 < fuel
        → s.to_device ≡ []
        → IsWireKey k
        → IsValue v
        → set (link_client X fw debug fuel) k v s
          ≡ set_end k v s.beside s.device (Settings.set fw.num k (as_bytes v) s.device.cfg)
    set-over_link k v s h e hk hv =
        set_of_reply k v s s.device (Settings.set fw.num k (as_bytes v) s.device.cfg) h
          (rw e (link-set debug fuel k v s.beside s.device hk hv))

    -- `save_config` over the link makes the device write its configuration to flash.
    pub save_config-over_link :
        (s : Line N F X)
        → 3 < fuel
        → s.to_device ≡ []
        → save_config (link_client X fw debug fuel) s
          ≡ settled
              (codes "CFG_SAVE")
              true
              s.beside
              (record s.device { store = save fw.nvs fw.num s.device.cfg s.device.store })
    unfolding save_config
    save_config-over_link s h e = command_settled (codes "CFG_SAVE") s true _ h (
        rw e (
          unfold write_command as_bytes encode_char process_serial handle_command_line command_line
            to_upper_case text_eq Strings.trim trim_front trim_back drop_cr in
          refl))
