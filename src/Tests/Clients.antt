-- ===== src/Tests/Clients.antt =====
-- The serial client: its theorems at concrete inputs.
use freematics_gui.Base.{◌≡◌, ◌≢◌, refl, List, []}
use freematics_gui.Text.{codes, trim, is_whitespace, eq_ignore_ascii_case, starts_with, contains}
use freematics_gui.Text.Utf8.{as_bytes, from_utf8}
use freematics_gui.Text.Decimal.{parse_unsigned, parse_signed}
use freematics_gui.Protocol.Port.{Read, done, failed}
use freematics_gui.Protocol.Logged.{with_log}
use freematics_gui.Protocol.Client.{
  read_line, read_bytes, read_until, write_command, send, redact, no_answer,
}
use freematics_gui.Protocol.Client.Ack.{
  set, set_command, command_expect_ok, command_rounds, exchange, is_answer, is_ok_line,
}
use freematics_gui.Protocol.Client.Secrets.{redact-set_command}
use freematics_gui.Protocol.Client.Live.{
  get_live_data, poll, live_steps, live_str, live_num, default_live, is_status_noise,
}
use freematics_gui.Protocol.Client.Live.Total.{get_live_data-ne-failed}
use freematics_gui.Tests.Toys.{whole, script_client, says}

abbrev accepted : List Read
accepted = says (codes "[BUF] 1/8\rok\r")

set_accepts :
    set (with_log script_client) (codes "apn") (codes "x") (accepted, [])
    ≡ (done tt, ([], as_bytes (codes "CFG=apn=x\r\n")))
unfolding set set_command command_expect_ok command_rounds exchange write_command read_until
    read_line read_bytes is_answer is_ok_line as_bytes from_utf8 trim is_whitespace
    eq_ignore_ascii_case
set_accepts = refl

-- With chatter alone the three attempts end in a timeout.
set_times_out :
    set script_client (codes "apn") (codes "x") (says (codes "[BUF] 1/8\r"))
    ≡ (failed no_answer, [])
unfolding set set_command command_expect_ok command_rounds exchange write_command read_until
    read_line read_bytes is_answer is_ok_line as_bytes from_utf8 trim is_whitespace
    eq_ignore_ascii_case
set_times_out = refl

get_live_data-ne-failed_example :
    (get_live_data whole whole script_client (says (codes "12\r-65\r"))).0 ≢ failed no_answer
get_live_data-ne-failed_example =
    get_live_data-ne-failed whole whole script_client (says (codes "12\r-65\r")) no_answer

-- Two answers and then silence: the two fields, and the defaults for the rest.
live_partial :
    get_live_data whole whole script_client (says (codes "12\rN/A\r"))
    ≡ (done (record (default_live whole whole) { battery_v = 12 }), [])
unfolding get_live_data poll live_steps live_str live_num default_live is_status_noise send
    write_command read_line read_bytes as_bytes from_utf8 trim is_whitespace starts_with contains
    parse_unsigned parse_signed
live_partial = refl

redact-set_command_example :
    redact (set_command (codes "wpwd") (codes "hunter2"))
    ≡ set_command (codes "wpwd") (codes "hunter2")
redact-set_command_example = redact-set_command (codes "wpwd") (codes "hunter2")
