-- ===== src/Device/Link/Dumps.antt =====
-- protocol/client.rs, `dump_config`, over the link to the device.
use freematics_gui.Base.{
  ℕ, ◌<◌, ◌≡◌, refl, ap, ◌∙◌, true, List, [], ◌∷◌, ◌++◌, append_assoc, append-nil, map, All, length,
}
use mathlib.Core.Path.{subst}
use freematics_gui.Base.Result.{ok}
use freematics_gui.Text.{Text, codes, text_eq, trim, is_whitespace, eq_ignore_ascii_case}
use freematics_gui.Text.Utf8.{Bytes, as_bytes, encode_char}
use freematics_gui.Text.Ascii.{IsAscii, as_bytes-append, as_bytes-IsAscii}
use freematics_gui.Protocol.Float.{Float}
use freematics_gui.Protocol.Port.{done}
use freematics_gui.Protocol.Config.{DeviceConfig, from_dump_lines}
use freematics_gui.Protocol.Config.Lines.{line_of}
use freematics_gui.Protocol.Client.{write_command}
use freematics_gui.Protocol.Client.Lines.{Delivers}
use freematics_gui.Protocol.Client.Dump.{dump_config, is_dump_end}
use freematics_gui.Protocol.Client.Dump.Reads.{IsDumpLine, SendsLines, dump_config-reads}
use freematics_gui.Device.Strings
use freematics_gui.Device.Strings.{trim_front, trim_back, to_upper_case, drop_cr}
use freematics_gui.Device.Settings.Printed.{joined, dump, entries}
use freematics_gui.Device.Settings.Dumped.{in_bytes}
use freematics_gui.Device.Handler.{
  Device, Firmware, process_serial, handle_command_line, command_line,
}
use freematics_gui.Device.Link.{idle, link, link_client}
use freematics_gui.Device.Link.Commands.{heard, answer-IsLine}

as_bytes-line_of : (k v : Text) → IsAscii k → as_bytes (line_of (k, v)) ≡ k ++ b'=' ∷ as_bytes v
unfolding line_of as_bytes encode_char
as_bytes-line_of k v h =
    as_bytes-append k (b'=' ∷ v) ∙ ap (λ x. x ++ b'=' ∷ as_bytes v) (as_bytes-IsAscii k h)

dump_line :
    (k v : Text) (j o : Bytes)
    → IsAscii k
    → (as_bytes (line_of (k, v)) ++ b'\n' ∷ []) ++ (j ++ o)
      ≡ (k ++ b'=' ∷ (as_bytes v ++ b'\n' ∷ j)) ++ o
dump_line k v j o h = rw (as_bytes-line_of k v h) (simp append_assoc)

module _ {N F : Type 0} (X : Type 0) (fw : Firmware N F) where
  pub link-Delivers :
      (bs rest : Bytes) (x : X) (d : Device N F)
      → Delivers (link X fw) bs (idle x d (bs ++ rest)) (idle x d rest)
  link-Delivers [] rest x d = refl
  link-Delivers (b ∷ bs) rest x d = (refl, link-Delivers bs rest x d)

  module _ (debug : Text → Text) (fuel : ℕ) where
    -- The lines of a dump, and the OK behind them.
    joined-SendsLines :
        (pairs : List (Text × Text)) (x : X) (d : Device N F)
        → All (λ (p : Text × Text). IsAscii p.0) pairs
        → SendsLines
            (link_client X fw debug fuel)
            (map line_of pairs ++ codes "OK" ∷ [])
            (idle x d (joined fw.num (map in_bytes pairs) ++ codes "OK\r\n"))
            (heard x d)
    joined-SendsLines [] x d h = (
      heard x d,
      (b'\r', refl, unfold as_bytes encode_char in link-Delivers (codes "OK\r") (codes "\n") x d),
      refl,
    )
    joined-SendsLines ((k, v) ∷ pairs) x d (hk, hs) = (
      idle x d (joined fw.num (map in_bytes pairs) ++ codes "OK\r\n"),
      (
        b'\n',
        refl,
        subst
            (λ bs.
              Delivers (link X fw) (as_bytes (line_of (k, v)) ++ b'\n' ∷ []) (idle x d bs)
                (idle x d (joined fw.num (map in_bytes pairs) ++ codes "OK\r\n")))
            (dump_line k v (joined fw.num (map in_bytes pairs)) (codes "OK\r\n") hk)
            (link-Delivers (as_bytes (line_of (k, v)) ++ b'\n' ∷ [])
              (joined fw.num (map in_bytes pairs) ++ codes "OK\r\n") x d),
      ),
      joined-SendsLines pairs x d hs,
    )

    write_dump_command :
        (cmds : List (Text × Text)) (x : X) (d : Device N F)
        → entries fw.num d.cfg ≡ map in_bytes cmds
        → write_command (link_client X fw debug fuel) (codes "CFG_DUMP") (idle x d [])
          ≡ (done tt, idle x d (joined fw.num (map in_bytes cmds) ++ codes "OK\r\n"))
    unfolding write_command as_bytes process_serial handle_command_line command_line dump
        to_upper_case text_eq Strings.trim trim_front trim_back drop_cr
    write_dump_command cmds x d e =
        ap (λ bs. (done tt, idle x d bs))
          (append-nil (joined fw.num (entries fw.num d.cfg) ++ codes "OK\r\n"))
        ∙ ap (λ es. (done tt, idle x d (joined fw.num es ++ codes "OK\r\n"))) e

    -- A dump over the link gives the configuration that the lines of the device's own entries spell.
    pub dump_config-over_link :
        {G : Type 0} (fl : Float G) (cmds : List (Text × Text)) (x : X) (d : Device N F)
        (out : Bytes)
        → 3 < fuel
        → length (map line_of cmds) < fuel
        → entries fw.num d.cfg ≡ map in_bytes cmds
        → All (λ (p : Text × Text). IsAscii p.0) cmds
        → All (IsDumpLine (link_client X fw debug fuel)) (map line_of cmds)
        → (cfg : DeviceConfig G) × (from_dump_lines fl (map line_of cmds) ≡ ok cfg)
          × (dump_config (link_client X fw debug fuel) fl (idle x d out) ≡ (done cfg, heard x d))
    dump_config-over_link fl cmds x d out h few e hk hs =
        dump_config-reads (link_client X fw debug fuel) fl (map line_of cmds) (codes "OK")
          (idle x d out) (idle x d out) (idle x d [])
          (idle x d (joined fw.num (map in_bytes cmds) ++ codes "OK\r\n")) (heard x d) (ok tt) hs
          few (answer-IsLine X fw debug fuel true h)
          (unfold is_dump_end eq_ignore_ascii_case trim is_whitespace in refl) refl refl
          (write_dump_command cmds x d e) (joined-SendsLines cmds x d hk)
