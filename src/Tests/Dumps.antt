-- ===== src/Tests/Dumps.antt =====
-- The dump of a configuration at a concrete device.
use freematics_gui.Base.{ℕ, ◌≡◌, refl, arith, List, [], ◌∷◌}
use freematics_gui.Base.Result.{ok}
use freematics_gui.Text.{codes, trim, is_whitespace, text_eq}
use freematics_gui.Text.Utf8.{as_bytes}
use freematics_gui.Protocol.Config.{DeviceConfig, from_dump_lines}
use freematics_gui.Protocol.Port.{Read, done}
use freematics_gui.Protocol.Client.{write_command}
use freematics_gui.Protocol.Client.Lines.{IsLine}
use freematics_gui.Protocol.Client.Dump.{dump_config, is_dump_end}
use freematics_gui.Protocol.Client.Dump.Reads.{IsDumpLine, SendsLines, dump_config-reads}
use freematics_gui.Tests.Toys.{whole, script_client, says}

abbrev answer : List Read
answer = says (codes "apn=x\nobd=0\nOK\n12.6\n")

apn-IsDumpLine : IsDumpLine script_client (codes "apn=x")
unfolding as_bytes is_dump_end trim is_whitespace text_eq
apn-IsDumpLine = ((omega arith, cc, ground arith, omega arith), refl, refl)

obd-IsDumpLine : IsDumpLine script_client (codes "obd=0")
unfolding as_bytes is_dump_end trim is_whitespace text_eq
obd-IsDumpLine = ((omega arith, cc, ground arith, omega arith), refl, refl)

ok-IsLine : IsLine script_client (codes "OK")
unfolding as_bytes
ok-IsLine = (omega arith, cc, ground arith, omega arith)

answer-SendsLines :
    SendsLines script_client
      (codes "apn=x" ∷ codes "obd=0" ∷ codes "OK" ∷ [])
      answer
      (says (codes "12.6\n"))
unfolding as_bytes
answer-SendsLines = (
  says (codes "obd=0\nOK\n12.6\n"),
  (b'\n', refl, ground arith),
  (
    says (codes "OK\n12.6\n"),
    (b'\n', refl, ground arith),
    (says (codes "12.6\n"), (b'\n', refl, ground arith), refl),
  ),
)

dump_config-reads_example :
    (cfg : DeviceConfig ℕ) × (from_dump_lines whole (codes "apn=x" ∷ codes "obd=0" ∷ []) ≡ ok cfg)
    × (dump_config script_client whole answer ≡ (done cfg, says (codes "12.6\n")))
dump_config-reads_example =
    dump_config-reads script_client whole (codes "apn=x" ∷ codes "obd=0" ∷ []) (codes "OK") answer
      answer answer answer (says (codes "12.6\n")) (ok tt) (apn-IsDumpLine, (obd-IsDumpLine, tt))
      (omega arith) ok-IsLine (unfold is_dump_end trim is_whitespace text_eq in refl) refl refl
      (unfold write_command in refl) answer-SendsLines
