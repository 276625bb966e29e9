-- ===== src/Protocol/Port.antt =====
-- usb/serial_port.rs, the trait `SerialPortOps`, and std::io: a port is whatever implements the
-- trait. Its operations are a parameter that the client takes; each gives its result and the state
-- of the port after it, and the clock and the sleep of the thread go with them.
use freematics_gui.Base.{ℕ, Option, none, some}
use freematics_gui.Base.Result.{Result, ok, err}
use freematics_gui.Text.{Text}
use freematics_gui.Text.Utf8.{Bytes}

-- `io::ErrorKind`; the kinds that the program does not name are told apart by a number.
pub data ErrorKind : Type 0 where
  unexpected_eof timed_out would_block invalid_data other : ErrorKind
  unnamed : ℕ → ErrorKind

pub record IoError : Type 0 where
  pub kind : ErrorKind
  pub message : Text

-- What one `read` into a buffer of one byte gives: `Ok(1)` with the byte, `Ok(0)`, or an error.
pub data Read : Type 0 where
  byte : ℕ → Read
  silent : Read
  broken : IoError → Read

-- Times are in milliseconds.
pub record Port (S : Type 0) : Type 0 where
  pub read : S → Read × S
  pub write_all : Bytes → S → Result IoError (Unit {0}) × S
  pub flush : S → Result IoError (Unit {0}) × S
  pub set_timeout : ℕ → S → Result IoError (Unit {0}) × S
  pub clear_input : S → Result IoError (Unit {0}) × S
  pub now : S → ℕ × S
  pub sleep : ℕ → S → S

-- How a call ends. `spinning` is no result of the program: it stands for a loop over the bytes of a
-- device that never pauses, which a bound on the rounds cuts short.
pub data Outcome (E A : Type 0) : Type 0 where
  done : A → Outcome E A
  failed : E → Outcome E A
  spinning : Outcome E A

-- An action on a state, such as a port, that may fail with an `E`.
abbrev pub Act : Type 0 → Type 0 → Type 0 → Type 0
Act S E A = S → Outcome E A × S

-- `io::Result` and `Result<_, String>`.
abbrev pub Io : Type 0 → Type 0 → Type 0
Io S A = Act S IoError A

abbrev pub Task : Type 0 → Type 0 → Type 0
Task S A = Act S Text A

abbrev pub outcome : {E A : Type 0} → Result E A → Outcome E A
outcome (ok a) = done a
outcome (err e) = failed e

module _ {S E A B : Type 0} where
  abbrev pub and_then : Outcome E A × S → (A → Act S E B) → Outcome E B × S
  and_then (done a, s) f = f a s
  and_then (failed e, s) f = (failed e, s)
  and_then (spinning, s) f = (spinning, s)

  infixl 5 ◌>>=◌
  abbrev pub ◌>>=◌ : Act S E A → (A → Act S E B) → Act S E B
  ◌>>=◌ m f s = and_then (m s) f

infixl 5 ◌>>◌
abbrev pub ◌>>◌ : {S E B : Type 0} → Act S E (Unit {0}) → Act S E B → Act S E B
m >> k = m >>= λ _. k

module _ {S E A : Type 0} where
  abbrev pub pure : A → Act S E A
  pure a s = (done a, s)

  abbrev pub fail : E → Act S E A
  fail e s = (failed e, s)

  abbrev pub lift : Result E A → Act S E A
  lift r s = (outcome r, s)

  -- An operation of the trait as an action.
  abbrev pub act : (S → Result E A × S) → Act S E A
  act f s = (outcome (f s).0, (f s).1)

  -- `let _ = …`: the result, an error too, is dropped.
  abbrev pub ignore : (S → Result E A × S) → Act S E (Unit {0})
  ignore f s = (done tt, (f s).1)

  abbrev recovered : Outcome E A × S → Outcome E (Option A) × S
  recovered (done a, s) = (done (some a), s)
  recovered (failed e, s) = (done none, s)
  recovered (spinning, s) = (spinning, s)

  -- A failure as `none`.
  abbrev pub attempt : Act S E A → Act S E (Option A)
  attempt m s = recovered (m s)

  abbrev pub tell : (S → A × S) → Act S E A
  tell f s = (done (f s).0, (f s).1)

abbrev pub step : {S E : Type 0} → (S → S) → Act S E (Unit {0})
step f s = (done tt, f s)

module _ {S E D A : Type 0} where
  abbrev relabelled : (E → D) → Outcome E A × S → Outcome D A × S
  relabelled f (done a, s) = (done a, s)
  relabelled f (failed e, s) = (failed (f e), s)
  relabelled f (spinning, s) = (spinning, s)

  -- `map_err`
  abbrev pub map_err : (E → D) → Act S E A → Act S D A
  map_err f m s = relabelled f (m s)
