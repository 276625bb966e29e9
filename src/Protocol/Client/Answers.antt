-- ===== src/Protocol/Client/Answers.antt =====
-- protocol/client.rs: what `set` makes of a device that answers, with other lines before its answer.
use freematics_gui.Base.{
  ℕ, zero, suc, ◌+◌, ◌<◌, ◌≡◌, refl, sym, ap, ◌∙◌, Bool, true, false, List, [], ◌∷◌, ◌++◌, All,
  length, leb, some, if◌then◌else◌, arith,
}
use mathlib.Core.Path.{subst}
use freematics_gui.Base.Result.{Result, ok}
use freematics_gui.Text.{Text, codes, trim}
use freematics_gui.Protocol.Port.{IoError, Outcome, done, failed, pure, fail}
use freematics_gui.Protocol.Client.{
  SerialClient, read_line, read_until, write_command, read_timeout, cmd_deadline, max_reads,
}
use freematics_gui.Protocol.Client.Lines.{DeliversLine, IsLine, read_line-IsLine}
use freematics_gui.Protocol.Client.Ack.{
  is_answer, is_ok_line, rejection, exchange, command_rounds, command_expect_ok, set, set_command,
  reboot, reboot_verdict,
}

if_then_else-pure :
    {S : Type 0} (b : Bool) (e : IoError) (t : S)
    → (if b then pure {S = S} tt else fail e) t ≡ ((if b then done tt else failed e), t)
if_then_else-pure true e t = refl
if_then_else-pure false e t = refl

module _ {S : Type 0} (c : SerialClient S) where
  -- The device sends the lines, and each is begun before the deadline.
  abbrev pub SendsInTime : ℕ → List Text → S → S → Type 0
  SendsInTime deadline [] s t = s ≡ t
  SendsInTime deadline (l ∷ ls) s t =
      (leb deadline (c.port.now s).0 ≡ false)
      × (u : S) × DeliversLine c.port l (c.port.now s).1 u
      × SendsInTime deadline ls u t

  -- A line that is read and passed over.
  abbrev pub IsChatter : (Text → Bool) → Text → Type 0
  IsChatter is_match l = IsLine c l × (is_match (trim l) ≡ false)

  read_until-match :
      (is_match : Text → Bool) (deadline n : ℕ) (ls : List Text) (end : Text) (s t : S)
      → length ls < n
      → All (IsChatter is_match) ls
      → IsLine c end
      → is_match (trim end) ≡ true
      → SendsInTime deadline (ls ++ end ∷ []) s t
      → read_until c is_match deadline n s ≡ (done (some (trim end)), t)
  unfolding read_until
  read_until-match is_match deadline zero ls end s t h hs line e d = absurd (omega arith)
  read_until-match is_match deadline (suc n) [] end s t h hs line e (early, u, d, same) =
      let r : read_line c (c.port.now s).1 ≡ (done end, t) =
        read_line-IsLine c end (c.port.now s).1 u line d ∙ ap (λ x. (done end, x)) same in
      rw (early, ap (λ x. x.0) r, read_until, e) (ap (λ x. (done (some (trim end)), x.1)) r)
  read_until-match is_match deadline (suc n) (l ∷ ls) end s t h ((hl, skip), hs) line e
        (early, u, d, ds) =
      let r : read_line c (c.port.now s).1 ≡ (done l, u) =
        read_line-IsLine c l (c.port.now s).1 u hl d in
      rw (early, ap (λ x. x.0) r, read_until, skip)
        (read_until-match is_match deadline n ls end (read_line c (c.port.now s).1).1 t
          (omega arith) hs line e
          (subst (λ x. SendsInTime deadline (ls ++ end ∷ []) x t) (sym (ap (λ x. x.1) r)) ds))

  -- How a command ends by its answer.
  abbrev pub verdict : Text → Text → Outcome IoError (Unit {0})
  verdict cmd resp = if is_ok_line resp then done tt else failed (rejection c cmd resp)

  pub command_expect_ok-answered :
      (cmd : Text) (ls : List Text) (end : Text) (s s1 s2 s3 t : S)
      (cleared : Result IoError (Unit {0}))
      → c.port.set_timeout read_timeout s ≡ (ok tt, s1)
      → c.port.clear_input s1 ≡ (cleared, s2)
      → write_command c cmd s2 ≡ (done tt, s3)
      → All (IsChatter is_answer) ls
      → length ls < max_reads
      → IsLine c end
      → is_answer (trim end) ≡ true
      → SendsInTime ((c.port.now s3).0 + cmd_deadline) (ls ++ end ∷ []) (c.port.now s3).1 t
      → command_expect_ok c cmd s ≡ (verdict cmd (trim end), t)
  unfolding command_expect_ok command_rounds exchange
  command_expect_ok-answered cmd ls end s s1 s2 s3 t cleared h1 h2 h3 hs few line e d =
      rw
        (
          h1,
          h2,
          h3,
          read_until-match is_answer _ max_reads ls end (c.port.now s3).1 t few hs line e d,
        )
        (if_then_else-pure (is_ok_line (trim end)) (rejection c cmd (trim end)) t)

  -- Over a port that takes its timeout and the command, a device that answers a `set` is heard at
  -- the first attempt: after lines that are no answers, fewer than 512 and in time, the answer
  -- decides how `set` ends, an OK with success and any other with a rejection, and what follows it
  -- is left unread.
  pub set-answered :
      (key val : Text) (ls : List Text) (end : Text) (s s1 s2 s3 t : S)
      (cleared : Result IoError (Unit {0}))
      → c.port.set_timeout read_timeout s ≡ (ok tt, s1)
      → c.port.clear_input s1 ≡ (cleared, s2)
      → write_command c (set_command key val) s2 ≡ (done tt, s3)
      → All (IsChatter is_answer) ls
      → length ls < max_reads
      → IsLine c end
      → is_answer (trim end) ≡ true
      → SendsInTime ((c.port.now s3).0 + cmd_deadline) (ls ++ end ∷ []) (c.port.now s3).1 t
      → set c key val s ≡ (verdict (set_command key val) (trim end), t)
  unfolding set
  set-answered key val ls end s s1 s2 s3 t cleared h1 h2 h3 hs few line e d =
      command_expect_ok-answered (set_command key val) ls end s s1 s2 s3 t cleared h1 h2 h3 hs few
        line e d

  -- The same of `reboot`, which writes its line at once and has one attempt.
  pub reboot-answered :
      (ls : List Text) (end : Text) (s s1 s2 s3 s4 t : S) (cleared : Result IoError (Unit {0}))
      → c.port.set_timeout read_timeout s ≡ (ok tt, s1)
      → c.port.clear_input s1 ≡ (cleared, s2)
      → c.port.write_all (codes "REBOOT\r\n") s2 ≡ (ok tt, s3)
      → c.port.flush s3 ≡ (ok tt, s4)
      → All (IsChatter is_answer) ls
      → length ls < max_reads
      → IsLine c end
      → is_answer (trim end) ≡ true
      → SendsInTime ((c.port.now s4).0 + cmd_deadline) (ls ++ end ∷ []) (c.port.now s4).1 t
      → reboot c s ≡ reboot_verdict c (some (trim end)) t
  unfolding reboot
  reboot-answered ls end s s1 s2 s3 s4 t cleared h1 h2 h3 h4 hs few line e d =
      rw
        (
          h1,
          h2,
          h3,
          h4,
          read_until-match is_answer _ max_reads ls end (c.port.now s4).1 t few hs line e d,
        )
        refl
