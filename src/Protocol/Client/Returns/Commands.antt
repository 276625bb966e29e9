-- ===== src/Protocol/Client/Returns/Commands.antt =====
-- protocol/client.rs: whether the commands end.
use freematics_gui.Base.{
  ℕ, zero, suc, Bool, true, false, Option, some, none, get_or, if◌then◌else◌, ◌+◌,
}
use freematics_gui.Text.{Text, codes}
use freematics_gui.Text.Utf8.{Bytes, as_bytes}
use freematics_gui.Protocol.Port.{IoError, Io, act, ignore, tell, pure, fail}
use freematics_gui.Protocol.Client.{
  SerialClient, write_command, send, crlf, read_timeout, cmd_deadline, max_reads, cmd_attempts,
  no_answer,
}
use freematics_gui.Protocol.Client.Ack.{
  exchange, is_answer, answered, is_ok_line, rejection, command_rounds, command_expect_ok, set,
  save_config, set_command,
}
use freematics_gui.Protocol.Client.Returns.{
  IsFinite, Returns, pure-Returns, fail-Returns, act-Returns, ignore-Returns, bind-Returns,
  read_line-Returns, read_until-Returns,
}

module _ {S : Type 0} (c : SerialClient S) (d : IsFinite c) where
  pub write_all-Returns : (bs : Bytes) → Returns c d (act (c.port.write_all bs))
  write_all-Returns bs = act-Returns c d (c.port.write_all bs) (d.written bs)

  pub flush-Returns : Returns c d (act c.port.flush)
  flush-Returns = act-Returns c d c.port.flush d.flushed

  pub set_timeout-Returns : (ms : ℕ) → Returns c d (act (c.port.set_timeout ms))
  set_timeout-Returns ms = act-Returns c d (c.port.set_timeout ms) (d.timed ms)

  pub clear_input-Returns : Returns c d (ignore {E = IoError} c.port.clear_input)
  clear_input-Returns = ignore-Returns c d c.port.clear_input d.cleared

  pub now-Returns : Returns c d (tell {E = IoError} c.port.now)
  now-Returns s h = ((λ q. cc), d.clocked s h)

  pub write_command-Returns : (cmd : Text) → Returns c d (write_command c cmd)
  unfolding write_command
  write_command-Returns cmd =
      bind-Returns c d (act (c.port.write_all (as_bytes cmd))) _ (write_all-Returns (as_bytes cmd))
        (λ _.
          bind-Returns c d (act (c.port.write_all crlf)) _ (write_all-Returns crlf)
            (λ _. flush-Returns))

  pub send-Returns : (cmd : Text) → Returns c d (send c cmd)
  unfolding send
  send-Returns cmd =
      bind-Returns c d (act (c.port.set_timeout read_timeout)) _ (set_timeout-Returns read_timeout)
        (λ _. bind-Returns c d (ignore c.port.clear_input) _ clear_input-Returns (λ _.
          bind-Returns c d (write_command c cmd) _ (write_command-Returns cmd)
            (λ _. read_line-Returns c d)))

  pub exchange-Returns : (cmd : Text) → Returns c d (exchange c cmd)
  unfolding exchange
  exchange-Returns cmd =
      bind-Returns c d (act (c.port.set_timeout read_timeout)) _ (set_timeout-Returns read_timeout)
        (λ _. bind-Returns c d (ignore c.port.clear_input) _ clear_input-Returns (λ _.
          bind-Returns c d (write_command c cmd) _ (write_command-Returns cmd) (λ _.
            bind-Returns c d (tell c.port.now) _ now-Returns
              (λ start. read_until-Returns c d is_answer (start + cmd_deadline) max_reads))))

  verdict-Returns :
      (b : Bool) (e : IoError) → Returns c d (if b then pure {S = S} {E = IoError} tt else fail e)
  verdict-Returns true e = pure-Returns c d tt
  verdict-Returns false e = fail-Returns c d e

  answered-Returns :
      (cmd : Text) (retry : Io S (Unit {0})) (o : Option Text)
      → Returns c d retry
      → Returns c d (answered c cmd retry o)
  answered-Returns cmd retry none h = h
  answered-Returns cmd retry (some resp) h =
      verdict-Returns (is_ok_line resp) (rejection c cmd resp)

  command_rounds-Returns :
      (cmd : Text) (n : ℕ) (last : Option IoError) → Returns c d (command_rounds c cmd n last)
  unfolding command_rounds
  command_rounds-Returns cmd zero last = fail-Returns c d (get_or last no_answer)
  command_rounds-Returns cmd (suc n) last =
      bind-Returns c d (exchange c cmd) _ (exchange-Returns cmd) (λ o.
        answered-Returns cmd (command_rounds c cmd n (some no_answer)) o
          (command_rounds-Returns cmd n (some no_answer)))

  command_expect_ok-Returns : (cmd : Text) → Returns c d (command_expect_ok c cmd)
  unfolding command_expect_ok
  command_expect_ok-Returns cmd = command_rounds-Returns cmd cmd_attempts none

  pub set-Returns : (key val : Text) → Returns c d (set c key val)
  unfolding set
  set-Returns key val = command_expect_ok-Returns (set_command key val)

  pub save_config-Returns : Returns c d (save_config c)
  unfolding save_config
  save_config-Returns = command_expect_ok-Returns (codes "CFG_SAVE")
