-- ===== src/Tests/Answers.antt =====
-- An answered command at a concrete device.
use freematics_gui.Base.{◌≡◌, refl, arith, List, [], ◌∷◌}
use freematics_gui.Base.Result.{ok}
use freematics_gui.Text.{codes, trim, is_whitespace, eq_ignore_ascii_case}
use freematics_gui.Text.Utf8.{as_bytes}
use freematics_gui.Protocol.Port.{Read, failed}
use freematics_gui.Protocol.Client.{write_command}
use freematics_gui.Protocol.Client.Ack.{set, is_answer, is_ok_line, rejection, set_command}
use freematics_gui.Protocol.Client.Lines.{IsLine}
use freematics_gui.Protocol.Client.Answers.{SendsInTime, IsChatter, set-answered}
use freematics_gui.Tests.Toys.{script_client, says}

abbrev answer : List Read
answer = says (codes "[BUF] 1\nerr\n12.6\n")

buffer_line-IsChatter : IsChatter script_client is_answer (codes "[BUF] 1")
unfolding as_bytes is_answer trim is_whitespace eq_ignore_ascii_case
buffer_line-IsChatter = ((omega arith, cc, ground arith, omega arith), refl)

err-IsLine : IsLine script_client (codes "err")
unfolding as_bytes
err-IsLine = (omega arith, cc, ground arith, omega arith)

answer-SendsInTime :
    SendsInTime script_client 8000
      (codes "[BUF] 1" ∷ codes "err" ∷ [])
      answer
      (says (codes "12.6\n"))
unfolding as_bytes
answer-SendsInTime = (
  refl,
  says (codes "err\n12.6\n"),
  (b'\n', refl, ground arith),
  (refl, says (codes "12.6\n"), (b'\n', refl, ground arith), refl),
)

set-answered_example : set script_client (codes "apn") (codes "x") answer ≡ (
  failed (rejection script_client (set_command (codes "apn") (codes "x")) (codes "err")),
  says (codes "12.6\n"),
)
unfolding is_ok_line eq_ignore_ascii_case trim is_whitespace
set-answered_example =
    set-answered script_client (codes "apn") (codes "x") (codes "[BUF] 1" ∷ []) (codes "err") answer
      answer answer answer (says (codes "12.6\n")) (ok tt) refl refl (unfold write_command in refl)
      (buffer_line-IsChatter, tt) (omega arith) err-IsLine
      (unfold is_answer eq_ignore_ascii_case trim is_whitespace in refl) answer-SendsInTime
