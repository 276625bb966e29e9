-- ===== src/Protocol/Client/Dump.antt =====
-- protocol/client.rs: `dump_config`.
pub mod Reads
pub mod Returns
use freematics_gui.Base.{
  ℕ, zero, suc, Bool, true, false, not, ◌||◌, ◌&&◌, List, [], ◌∷◌, ◌++◌, if◌then◌else◌, is_empty,
}
use freematics_gui.Base.Result.{Result, ok, err}
use freematics_gui.Text.{Text, codes, text_eq, trim}
use freematics_gui.Protocol.Float.{Float}
use freematics_gui.Protocol.Config.{DeviceConfig, from_dump_lines}
use freematics_gui.Protocol.Port.{
  timed_out, invalid_data, IoError, done, failed, spinning, Io, ◌>>=◌, ◌>>◌, pure, fail, act,
  ignore, step,
}
use freematics_gui.Protocol.Client.{
  SerialClient, is_eof, read_line, write_command, read_timeout, dump_attempts, dump_retry_delay,
}

-- "END", or the "OK" with which the firmware ends a dump.
unfoldable pub is_dump_end : Text → Bool
is_dump_end t = text_eq t (codes "END") || text_eq t (codes "OK")

abbrev pub no_dump : IoError
no_dump = record {
  kind = timed_out;
  message =
      codes
        "device did not respond to CFG_DUMP after 3 attempts — check the patched firmware is flashed, the baud rate, and that no other program is holding the port";
}

module _ {S : Type 0} (c : SerialClient S) where
  -- The inner loop, a round for each line: the lines so far, and whether the end was seen.
  unfoldable pub dump_lines : ℕ → List Text → Io S (List Text × Bool)
  dump_lines zero lines s = (spinning, s)
  dump_lines (suc n) lines s =
      let s' : S = (read_line c s).1 in
      elim (read_line c s).0 [
        | done line ↦ elim (is_dump_end (trim line)) [
          | true ↦ (done (lines, true), s')
          | false ↦ elim (is_empty (trim line)) [
            | true ↦ dump_lines n lines s'
            | false ↦ dump_lines n (lines ++ line ∷ []) s'
          ]
        ]
        | failed e ↦ elim (is_eof e.kind) [
          | true ↦ (done (lines, false), s')
          | false ↦ (failed e, s')
        ]
        | spinning ↦ (spinning, s')
      ]

  abbrev pub nap : ℕ → Io S (Unit {0})
  nap zero = pure tt
  nap (suc n) = step (c.port.sleep dump_retry_delay)

  -- The attempts that are left. There is no sleep after the last one.
  unfoldable pub dump_rounds : ℕ → Io S (List Text × Bool)
  dump_rounds zero = pure ([], false)
  dump_rounds (suc n) = do
    write_command c (codes "CFG_DUMP")
    got ← dump_lines c.fuel []
    let again : Io S (List Text × Bool) = do nap n; dump_rounds n
    elim (not (is_empty got.0) || got.1) [ true ↦ pure got | false ↦ again ]

  module _ {F : Type 0} (fl : Float F) where
    abbrev parsed : Result Text (DeviceConfig F) → Io S (DeviceConfig F)
    parsed (ok cfg) = pure cfg
    parsed (err e) = fail (record { kind = invalid_data; message = e })

    abbrev conclude : List Text × Bool → Io S (DeviceConfig F)
    conclude (lines, got_terminator) =
        if is_empty lines && not got_terminator
        then fail no_dump
        else parsed (from_dump_lines fl lines)

    unfoldable pub dump_config : Io S (DeviceConfig F)
    dump_config = do
      act (c.port.set_timeout read_timeout)
      ignore c.port.clear_input
      got ← dump_rounds dump_attempts
      conclude got
