-- ===== src/Protocol/Client.antt =====
-- protocol/client.rs: the serial client. The loops over a device's bytes and lines take the bound
-- `fuel` of the client, and the loops that the source bounds itself take the source's bounds.
pub mod Ack
pub mod Lines
pub mod Secrets
pub mod Keeps
pub mod Traffic
pub mod Answers
pub mod Returns
pub mod Dump
pub mod Live
use freematics_gui.Base.{
  ℕ, zero, suc, ◌+◌, ◌*◌, ◌≡◌, refl, Bool, true, false, not, ◌||◌, ◌&&◌, List, [], ◌∷◌, ◌++◌,
  Option, none, some, get_or, ltb, leb, ◌==◌, if◌then◌else◌, is_empty,
}
use freematics_gui.Base.Result.{Result, ok, err}
use freematics_gui.Text.{Text, codes, text_eq, eq_ignore_ascii_case, trim, split_once}
use freematics_gui.Text.Decimal.{show}
use freematics_gui.Text.Utf8.{Bytes, as_bytes, from_utf8, Decoded, text, invalid, Utf8Error}
use freematics_gui.Protocol.Port.{
  ErrorKind, unexpected_eof, timed_out, would_block, invalid_data, other, unnamed, IoError, Read,
  byte, silent, broken, Port, Outcome, done, failed, spinning, Io, ◌>>=◌, ◌>>◌, pure, fail, act,
  ignore, tell, step,
}
use freematics_gui.Protocol.Float.{Float}
use freematics_gui.Protocol.Modes.{one_of}
use freematics_gui.Protocol.Config.{DeviceConfig, from_dump_lines}

abbrev pub read_timeout : ℕ
read_timeout = 2000

abbrev pub cmd_deadline : ℕ
cmd_deadline = 8000

abbrev pub cmd_attempts : ℕ
cmd_attempts = 3

abbrev pub dump_attempts : ℕ
dump_attempts = 3

abbrev pub dump_retry_delay : ℕ
dump_retry_delay = 400

abbrev pub max_reads : ℕ
max_reads = 512

abbrev pub secret_keys : List Text
secret_keys = codes "wpwd" ∷ codes "ap_pwd" ∷ codes "apn_pass" ∷ codes "sim_pin" ∷ []

abbrev redact_pair : Text → Option (Text × Text) → Text
redact_pair cmd none = cmd
redact_pair cmd (some (key, _)) = if one_of key secret_keys then key ++ codes "=***" else cmd

-- What is logged of a command.
unfoldable pub redact : Text → Text
redact cmd = redact_pair cmd (split_once b'=' cmd)

-- The client owns its port. `debug` is the print of a text by `{:?}`, whose tables of printable
-- characters are the standard library's.
pub record SerialClient (S : Type 0) : Type 0 where
  pub port : Port S
  pub debug : Text → Text
  pub fuel : ℕ

abbrev pub no_response : IoError
no_response = record { kind = unexpected_eof; message = codes "no response from device" }

abbrev pub no_answer : IoError
no_answer = record { kind = timed_out; message = codes "no response from device" }

abbrev pub crlf : Bytes
crlf = b'\r' ∷ b'\n' ∷ []

abbrev pub is_terminator : ℕ → Bool
is_terminator b = b == b'\r' || b == b'\n'

-- `TimedOut` and `WouldBlock` end the data as `Ok(0)` does.
abbrev pub is_pause : ErrorKind → Bool
is_pause timed_out = true
is_pause would_block = true
is_pause _ = false

abbrev pub is_eof : ErrorKind → Bool
is_eof unexpected_eof = true
is_eof _ = false

-- At the end of the data: the bytes so far, or an error if there is none.
abbrev pub end_of_data : {S : Type 0} → Bytes → Io S Bytes
end_of_data [] = fail no_response
end_of_data (b ∷ bs) = pure (b ∷ bs)

-- The text of a `FromUtf8Error`.
unfoldable pub utf8_message : Utf8Error → Text
unfolding show
utf8_message e = elim e.error_len [
  | none ↦ codes "incomplete utf-8 byte sequence from index " ++ show e.valid_up_to
  | some n ↦
      codes "invalid utf-8 sequence of "
      ++ (show n ++ (codes " bytes from index " ++ show e.valid_up_to))
]

abbrev pub decoded : {S : Type 0} → Decoded → Io S Text
decoded (text s) = pure s
decoded (invalid e) = fail (record { kind = invalid_data; message = utf8_message e })

module _ {S : Type 0} (c : SerialClient S) where
  -- The loop of `read_line`, a round for each byte.
  unfoldable pub read_bytes : ℕ → Bytes → Io S Bytes
  read_bytes zero out s = (spinning, s)
  read_bytes (suc n) out s =
      let s' : S = (c.port.read s).1 in
      elim (c.port.read s).0 [
        | silent ↦ end_of_data out s'
        | broken e ↦ elim (is_pause e.kind) [ true ↦ end_of_data out s' | false ↦ (failed e, s') ]
        | byte b ↦ elim (is_terminator b) [
          | true ↦ elim (is_empty out) [ true ↦ read_bytes n out s' | false ↦ (done out, s') ]
          | false ↦ read_bytes n (out ++ b ∷ []) s'
        ]
      ]

  unfoldable pub read_line : Io S Text
  read_line = do out ← read_bytes c.fuel []; decoded (from_utf8 out)

  -- The writes that every command begins with.
  unfoldable pub write_command : Text → Io S (Unit {0})
  write_command cmd = do
    act (c.port.write_all (as_bytes cmd))
    act (c.port.write_all crlf)
    act c.port.flush

  unfoldable pub send : Text → Io S Text
  send cmd = do
    act (c.port.set_timeout read_timeout)
    ignore c.port.clear_input
    write_command cmd
    read_line

  -- The loop of `read_until`, a round for each line that may still be read.
  unfoldable pub read_until : (Text → Bool) → ℕ → ℕ → Io S (Option Text)
  read_until is_match deadline zero s = (done none, s)
  read_until is_match deadline (suc n) s =
      let s' : S = (c.port.now s).1 in
      let t : S = (read_line s').1 in
      elim (leb deadline (c.port.now s).0) [
        | true ↦ (done none, s')
        | false ↦ elim (read_line s').0 [
          | done line ↦ elim (is_match (trim line)) [
            | true ↦ (done (some (trim line)), t)
            | false ↦ read_until is_match deadline n t
          ]
          | failed e ↦ elim (is_eof e.kind) [
            | true ↦ read_until is_match deadline n t
            | false ↦ (failed e, t)
          ]
          | spinning ↦ (spinning, t)
        ]
      ]
