-- ===== src/Protocol/Client/Dump/Reads.antt =====
-- protocol/client.rs: what `dump_config` makes of a device that answers.
use freematics_gui.Base.{
  ℕ, zero, suc, ◌<◌, ◌≡◌, refl, sym, ap, ◌∙◌, true, false, List, [], ◌∷◌, ◌++◌, All, length,
  is_empty, append_assoc, append-nil, arith,
}
use mathlib.Core.Path.{subst}
use freematics_gui.Base.Result.{Result, ok}
use freematics_gui.Text.{Text, codes, trim}
use freematics_gui.Protocol.Float.{Float}
use freematics_gui.Protocol.Config.{DeviceConfig, from_dump_lines, apply_lines, default}
use freematics_gui.Protocol.Port.{IoError, done}
use freematics_gui.Protocol.Client.{SerialClient, read_timeout, read_line, write_command}
use freematics_gui.Protocol.Client.Lines.{DeliversLine, IsLine, read_line-IsLine}
use freematics_gui.Protocol.Client.Dump.{
  is_dump_end, dump_lines, dump_rounds, dump_config, conclude,
}

module _ {S : Type 0} (c : SerialClient S) where
  -- A line of a dump: there is something on it, and it does not end the dump.
  abbrev pub IsDumpLine : Text → Type 0
  IsDumpLine l = IsLine c l × (is_dump_end (trim l) ≡ false) × (is_empty (trim l) ≡ false)

  -- The device sends the lines.
  abbrev pub SendsLines : List Text → S → S → Type 0
  SendsLines [] s t = s ≡ t
  SendsLines (l ∷ ls) s t = (u : S) × DeliversLine c.port l s u × SendsLines ls u t

  dump_lines_until_end :
      (n : ℕ) (ls got : List Text) (end : Text) (s t : S)
      → length ls < n
      → All IsDumpLine ls
      → IsLine c end
      → is_dump_end (trim end) ≡ true
      → SendsLines (ls ++ end ∷ []) s t
      → dump_lines c n got s ≡ (done (got ++ ls, true), t)
  unfolding dump_lines
  dump_lines_until_end zero ls got end s t h hs line e d = absurd (omega arith)
  dump_lines_until_end (suc n) [] got end s t h hs line e (u, d, same) =
      let r : read_line c s ≡ (done end, t) =
        read_line-IsLine c end s u line d ∙ ap (λ x. (done end, x)) same in
      rw (ap (λ x. x.0) r, dump_lines, e, append-nil) (ap (λ x. (done (got, true), x.1)) r)
  dump_lines_until_end (suc n) (l ∷ ls) got end s t h ((hl, no_end, full), hs) line e (u, d, ds) =
      let r : read_line c s ≡ (done l, u) = read_line-IsLine c l s u hl d in
      rw (ap (λ x. x.0) r, dump_lines, no_end, full)
        (dump_lines_until_end n ls (got ++ l ∷ []) end (read_line c s).1 t (omega arith) hs line e
            (subst (λ x. SendsLines (ls ++ end ∷ []) x t) (sym (ap (λ x. x.1) r)) ds)
          ∙ ap (λ x. (done (x, true), t)) (append_assoc got (l ∷ []) ls))

  -- Lines and an end make the first attempt the last.
  dump_rounds-end :
      (n : ℕ) (ls : List Text) (s s' t : S)
      → write_command c (codes "CFG_DUMP") s ≡ (done tt, s')
      → dump_lines c c.fuel [] s' ≡ (done (ls, true), t)
      → dump_rounds c (suc n) s ≡ (done (ls, true), t)
  unfolding dump_rounds
  dump_rounds-end n [] s s' t h k = rw (h, k) refl
  dump_rounds-end n (l ∷ ls) s s' t h k = rw (h, k) refl

  module _ {F : Type 0} (fl : Float F) where
    conclude-lines :
        (ls : List Text) (t : S)
        → conclude c fl (ls, true) t ≡ (done (apply_lines fl ls (default fl)), t)
    unfolding from_dump_lines
    conclude-lines [] t = refl
    conclude-lines (l ∷ ls) t = refl

    -- Over a port that takes its timeout and the command, a device that answers the first CFG_DUMP
    -- with lines and an end is read: `dump_config` returns the configuration of these lines and
    -- leaves what follows the end unread. The lines are no ends and not
    -- blank, fewer than the bound, and each shorter than it.
    pub dump_config-reads :
        (ls : List Text) (end : Text) (s s1 s2 s3 t : S) (cleared : Result IoError (Unit {0}))
        → All IsDumpLine ls
        → length ls < c.fuel
        → IsLine c end
        → is_dump_end (trim end) ≡ true
        → c.port.set_timeout read_timeout s ≡ (ok tt, s1)
        → c.port.clear_input s1 ≡ (cleared, s2)
        → write_command c (codes "CFG_DUMP") s2 ≡ (done tt, s3)
        → SendsLines (ls ++ end ∷ []) s3 t
        → (cfg : DeviceConfig F) × (from_dump_lines fl ls ≡ ok cfg)
          × (dump_config c fl s ≡ (done cfg, t))
    unfolding dump_config from_dump_lines
    dump_config-reads ls end s s1 s2 s3 t cleared hs few line e h1 h2 h3 d = (
      apply_lines fl ls (default fl),
      refl,
      rw
          (
            h1,
            h2,
            dump_rounds-end 2 ls s2 s3 t h3
                (dump_lines_until_end c.fuel ls [] end s3 t few hs line e d),
          )
          (conclude-lines ls t),
    )
