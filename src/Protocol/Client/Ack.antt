-- ===== src/Protocol/Client/Ack.antt =====
-- protocol/client.rs: the commands that the device acknowledges, `command_expect_ok` and its users
-- `set`, `save_config` and `reboot`; and `query` with protocol/commands.rs.
use freematics_gui.Base.{
  ℕ, zero, suc, ◌+◌, Bool, ◌||◌, ◌++◌, Option, none, some, get_or, if◌then◌else◌,
}
use freematics_gui.Base.Result.{Result, ok, err}
use freematics_gui.Text.{Text, codes, text_eq, eq_ignore_ascii_case, trim}
use freematics_gui.Protocol.Port.{
  other, timed_out, IoError, Io, ◌>>=◌, ◌>>◌, pure, fail, act, ignore, tell, outcome,
}
use freematics_gui.Protocol.Client.{
  SerialClient, no_answer, redact, write_command, read_until, send, read_timeout, cmd_deadline,
  cmd_attempts, max_reads,
}

-- The lines that answer a command.
unfoldable pub is_answer : Text → Bool
is_answer t =
    eq_ignore_ascii_case t (codes "OK")
    || eq_ignore_ascii_case t (codes "ERR")
    || eq_ignore_ascii_case t (codes "ERROR")

unfoldable pub is_ok_line : Text → Bool
is_ok_line t = eq_ignore_ascii_case t (codes "OK")

-- `parse_response`
unfoldable pub parse_response : Text → Result IoError Text
parse_response raw =
    if text_eq (trim raw) (codes "ERR")
    then err (record { kind = other; message = codes "device returned ERR" })
    else ok (trim raw)

unfoldable pub build_query : Text → Text
build_query key = key ++ codes "?"

unfoldable pub build_set : Text → Text → Text
build_set key val = key ++ (codes "=" ++ val)

-- The command that `set` sends.
unfoldable pub set_command : Text → Text → Text
set_command key val = codes "CFG=" ++ (key ++ (codes "=" ++ val))

module _ {S : Type 0} (c : SerialClient S) where
  abbrev pub rejection : Text → Text → IoError
  rejection cmd resp = record {
    kind = other;
    message =
        codes "device rejected command "
        ++ (c.debug (redact cmd) ++ (codes " (" ++ (resp ++ codes ")")));
  }

  -- One round: write the command, and read until an answer comes or the time is up.
  unfoldable pub exchange : Text → Io S (Option Text)
  exchange cmd = do
    act (c.port.set_timeout read_timeout)
    ignore c.port.clear_input
    write_command c cmd
    start ← tell c.port.now
    read_until c is_answer (start + cmd_deadline) max_reads

  -- An answer is final; silence is retried.
  abbrev pub answered : Text → Io S (Unit {0}) → Option Text → Io S (Unit {0})
  answered cmd retry (some resp) = if is_ok_line resp then pure tt else fail (rejection cmd resp)
  answered cmd retry none = retry

  -- The rounds that are left, and the error of the last one.
  unfoldable pub command_rounds : Text → ℕ → Option IoError → Io S (Unit {0})
  command_rounds cmd zero last = fail (get_or last no_answer)
  command_rounds cmd (suc n) last =
      let retry : Io S (Unit {0}) = command_rounds cmd n (some no_answer) in
      exchange cmd >>= answered cmd retry

  unfoldable pub command_expect_ok : Text → Io S (Unit {0})
  command_expect_ok cmd = command_rounds cmd cmd_attempts none

  unfoldable pub set : Text → Text → Io S (Unit {0})
  set key val = command_expect_ok (set_command key val)

  unfoldable pub save_config : Io S (Unit {0})
  save_config = command_expect_ok (codes "CFG_SAVE")

  abbrev pub reboot_verdict : Option Text → Io S (Unit {0})
  reboot_verdict (some resp) =
      if is_ok_line resp
      then pure tt
      else fail (record {
        kind = other;
        message =
            codes
              "device rejected REBOOT — firmware without restart support? Reflash the bundled firmware, or power-cycle the device manually";
      })
  reboot_verdict none = fail (record {
    kind = timed_out;
    message =
        codes "no acknowledgement for REBOOT — device busy or unreachable; it was NOT restarted";
  })

  -- One write of the whole line here, where `write_command` makes two.
  unfoldable pub reboot : Io S (Unit {0})
  reboot = do
    act (c.port.set_timeout read_timeout)
    ignore c.port.clear_input
    act (c.port.write_all (codes "REBOOT\r\n"))
    act c.port.flush
    start ← tell c.port.now
    matched ← read_until c is_answer (start + cmd_deadline) max_reads
    reboot_verdict matched

  unfoldable pub query : Text → Io S Text
  query key = do raw ← send c (build_query key); λ s. (outcome (parse_response raw), s)
