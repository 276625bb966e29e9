-- ===== src/Device/Link/Injection.antt =====
-- protocol/client.rs, `set`, over the link to the device, with a value that holds a line feed.
use freematics_gui.Base.{ℕ, ◌<◌, ◌≡◌, refl, ap, ◌∙◌, true, [], ◌∷◌, ◌++◌, append_assoc, some, arith}
use freematics_gui.Base.Result.{ok}
use freematics_gui.Text.{Text, codes, trim, is_whitespace, eq_ignore_ascii_case, Lacks}
use freematics_gui.Text.Utf8.{Bytes, as_bytes, encode_char}
use freematics_gui.Text.Ascii.{as_bytes-append, as_bytes-Lacks}
use freematics_gui.Protocol.Port.{done}
use freematics_gui.Protocol.Client.{write_command}
use freematics_gui.Protocol.Client.Ack.{set, set_command, is_answer, is_ok_line}
use freematics_gui.Protocol.Client.Answers.{set-answered}
use freematics_gui.Device.Settings
use freematics_gui.Device.Settings.{Config}
use freematics_gui.Device.Handler.{
  Device, Firmware, Reply, handle_command_line, process_serial, stored, ok_reply,
}
use freematics_gui.Device.Handler.Pairs.{
  IsWireKey, IsValue, pair_bytes, as_bytes-set_command, set_command-Lacks, handle_command_line-bare,
  process_serial-line,
}
use freematics_gui.Device.Link.{idle, link_client}
use freematics_gui.Device.Link.Commands.{after, answer-IsLine, process_serial-command}

-- The bytes of the command are two lines.
two_lines :
    (k v w : Text)
    → IsWireKey k
    → as_bytes (set_command k (v ++ b'\n' ∷ w)) ++ codes "\r\n"
      ≡ (codes "CFG=" ++ pair_bytes k v) ++ b'\n' ∷ (as_bytes w ++ codes "\r\n")
two_lines k v w hk =
    rw (as_bytes-set_command k (v ++ b'\n' ∷ w) hk, as_bytes-append v (b'\n' ∷ w))
      (unfold as_bytes encode_char in simp append_assoc)

module _ {N F : Type 0} (X : Type 0) (fw : Firmware N F) where
  -- Both commands, and what is printed for them.
  abbrev both : Reply fw → Bytes → Reply fw
  both (d, out) line = let (d2, out2) = handle_command_line fw line d in (d2, out ++ out2)

  process_serial-two :
      (k v w : Text) (d : Device N F)
      → IsWireKey k
      → IsValue v
      → Lacks b'\n' w
      → process_serial fw [] (as_bytes (set_command k (v ++ b'\n' ∷ w)) ++ codes "\r\n") d
        ≡ both (stored fw d (Settings.set fw.num k (as_bytes v) d.cfg)) (as_bytes w ++ b'\r' ∷ [])
  process_serial-two k v w d hk hv hw =
      ap (λ bs. process_serial fw [] bs d) (two_lines k v w hk)
      ∙ process_serial-line fw [] (codes "CFG=" ++ pair_bytes k v) (as_bytes w ++ codes "\r\n") d
          (set_command-Lacks k v hk hv)
      ∙ rw (handle_command_line-bare fw k v d hk hv) (
          rw (process_serial-command fw (as_bytes w) _ (as_bytes-Lacks b'\n' w (omega arith) hw))
            refl)

  module _ (debug : Text → Text) (fuel : ℕ) where
    -- A line feed in a value ends the command that carries it, and what stands behind it is run by
    -- the device as a command of its own, whatever it is. `set` reports success as soon as the device
    -- has acknowledged the first, and leaves what the second printed on the line. This holds if the
    -- text in front of the line feed is a value that the device accepts, the text behind it has no
    -- line feed, and the client's bound is more than three.
    pub set-injects :
        (k v w : Text) (x : X) (d : Device N F) (out : Bytes) (cfg : Config F)
        → 3 < fuel
        → IsWireKey k
        → IsValue v
        → Lacks b'\n' w
        → Settings.set fw.num k (as_bytes v) d.cfg ≡ some cfg
        → set (link_client X fw debug fuel) k (v ++ b'\n' ∷ w) (idle x d out) ≡ (
            let (d2, printed) =
              handle_command_line fw (as_bytes w ++ b'\r' ∷ []) (record d { cfg = cfg }) in
            (done tt, idle x d2 (b'\n' ∷ printed)))
    set-injects k v w x d out cfg h hk hv hw e =
        let r = handle_command_line fw (as_bytes w ++ b'\r' ∷ []) (record d { cfg = cfg }) in
        let sent : process_serial fw [] (as_bytes (set_command k (v ++ b'\n' ∷ w)) ++ codes "\r\n")
              d
            ≡ (r.0, ok_reply ++ r.1) =
          process_serial-two k v w d hk hv hw
          ∙ ap (λ o. both (stored fw d o) (as_bytes w ++ b'\r' ∷ [])) e in
        set-answered (link_client X fw debug fuel) k (v ++ b'\n' ∷ w) [] (codes "OK") (idle x d out)
          (idle x d out) (idle x d []) (idle x r.0 (ok_reply ++ r.1)) (idle x r.0 (b'\n' ∷ r.1))
          (ok tt) refl refl (unfold write_command in ap (λ p. (done tt, after x p)) sent) tt
          (omega arith) (answer-IsLine X fw debug fuel true h)
          (unfold is_answer trim is_whitespace eq_ignore_ascii_case in refl)
          (
            refl,
            idle x r.0 (b'\n' ∷ r.1),
            (b'\r', refl, unfold as_bytes encode_char in (refl, (refl, (refl, refl)))),
            refl,
          )
        ∙ (unfold is_ok_line trim is_whitespace eq_ignore_ascii_case in refl)
