-- ===== src/Protocol/Client/Dump/Returns.antt =====
-- protocol/client.rs: whether `dump_config` ends.
use freematics_gui.Base.{
  ℕ, zero, suc, ◌<◌, ◌≢◌, ◌++◌, List, [], ◌∷◌, Bool, true, false, not, ◌||◌, ◌&&◌, is_empty,
  if◌then◌else◌, Bool-cases, inl, inr, arith,
}
use freematics_gui.Base.Result.{Result, ok, err}
use freematics_gui.Text.{Text, codes, trim}
use freematics_gui.Protocol.Float.{Float}
use freematics_gui.Protocol.Config.{DeviceConfig, from_dump_lines}
use freematics_gui.Protocol.Port.{spinning, IoError, Io, ◌>>◌, act, ignore, pure, fail}
use freematics_gui.Protocol.Client.{
  SerialClient, is_eof, read_line, write_command, read_timeout, dump_attempts, dump_retry_delay,
}
use freematics_gui.Protocol.Client.Keeps.{Outcome-cases}
use freematics_gui.Protocol.Client.Dump.{
  is_dump_end, dump_lines, dump_rounds, dump_config, parsed, nap, no_dump,
}
use freematics_gui.Protocol.Client.Returns.{
  IsFinite, Returns, read_line-Uses, pure-Returns, fail-Returns, bind-Returns,
}
use freematics_gui.Protocol.Client.Returns.Commands.{
  set_timeout-Returns, clear_input-Returns, write_command-Returns,
}

module _ {S : Type 0} (c : SerialClient S) (d : IsFinite c) where
  -- A round of the inner loop goes on after a line only, and that has used up a byte.
  dump_lines-Returns :
      (n : ℕ) (lines : List Text) (s : S)
      → d.left s < n
      → d.left s < c.fuel
      → ((dump_lines c n lines s).0 ≢ spinning) × (d.left (dump_lines c n lines s).1 < c.fuel)
  unfolding dump_lines
  dump_lines-Returns zero lines s h k = absurd (omega arith)
  dump_lines-Returns (suc n) lines s h k =
      let s' : S = (read_line c s).1 in
      let (returns, le, used) = read_line-Uses c d s k in
      elim (Outcome-cases (read_line c s).0) [
        | inl e ↦ absurd (returns e)
        | inr (inl (x, e)) ↦ elim (Bool-cases (is_eof x.kind)) [
          | inl q ↦ rw (e, dump_lines, q) ((λ q. cc), omega arith)
          | inr q ↦ rw (e, dump_lines, q) ((λ q. cc), omega arith)
        ]
        | inr (inr (line, e)) ↦
            let lt : d.left s' < d.left s = used line e in
            elim (Bool-cases (is_dump_end (trim line))) [
              | inl q ↦ rw (e, dump_lines, q) ((λ q. cc), omega arith)
              | inr q ↦ elim (Bool-cases (is_empty (trim line))) [
                | inl r ↦
                    rw (e, dump_lines, q, r)
                      (dump_lines-Returns n lines s' (omega arith) (omega arith))
                | inr r ↦
                    rw (e, dump_lines, q, r)
                      (dump_lines-Returns n (lines ++ line ∷ []) s' (omega arith) (omega arith))
              ]
            ]
      ]

  nap-Returns : (n : ℕ) → Returns c d (nap c n)
  nap-Returns zero = pure-Returns c d tt
  nap-Returns (suc n) = λ s h. ((λ q. cc), d.slept dump_retry_delay s h)

  enough-Returns :
      (b : Bool) (got : List Text × Bool) (again : Io S (List Text × Bool))
      → Returns c d again
      → Returns c d (elim b [ true ↦ pure got | false ↦ again ])
  enough-Returns true got again h = pure-Returns c d got
  enough-Returns false got again h = h

  dump_rounds-Returns : (n : ℕ) → Returns c d (dump_rounds c n)
  unfolding dump_rounds
  dump_rounds-Returns zero = pure-Returns c d ([], false)
  dump_rounds-Returns (suc n) =
      bind-Returns c d (write_command c (codes "CFG_DUMP")) _
        (write_command-Returns c d (codes "CFG_DUMP"))
        (λ _.
          bind-Returns c d (dump_lines c c.fuel []) _ (λ s h. dump_lines-Returns c.fuel [] s h h)
            (λ got.
              enough-Returns (not (is_empty got.0) || got.1) got (nap c n >> dump_rounds c n)
                (bind-Returns c d (nap c n) _ (nap-Returns n) (λ _. dump_rounds-Returns n))))

  module _ {F : Type 0} (fl : Float F) where
    parsed-Returns : (r : Result Text (DeviceConfig F)) → Returns c d (parsed c fl r)
    parsed-Returns (ok cfg) = pure-Returns c d cfg
    parsed-Returns (err e) = fail-Returns c d _

    test-Returns :
        (b : Bool) (e : IoError) (m : Io S (DeviceConfig F))
        → Returns c d m
        → Returns c d (if b then fail e else m)
    test-Returns true e m h = fail-Returns c d e
    test-Returns false e m h = h

    pub dump_config-Returns : Returns c d (dump_config c fl)
    unfolding dump_config
    dump_config-Returns =
        bind-Returns c d (act (c.port.set_timeout read_timeout)) _
          (set_timeout-Returns c d read_timeout)
          (λ _. bind-Returns c d (ignore c.port.clear_input) _ (clear_input-Returns c d) (λ _.
            bind-Returns c d (dump_rounds c dump_attempts) _ (dump_rounds-Returns dump_attempts)
              (λ got.
                test-Returns (is_empty got.0 && not got.1) no_dump
                  (parsed c fl (from_dump_lines fl got.0))
                  (parsed-Returns (from_dump_lines fl got.0)))))

    -- `dump_config` ends, with a configuration or an error, on a device that never has more bytes to
    -- say than the bound of the client.
    pub dump_config-returns : (s : S) → d.left s < c.fuel → (dump_config c fl s).0 ≢ spinning
    dump_config-returns s h = (dump_config-Returns s h).0
