-- ===== src/Protocol/Client/Returns.antt =====
-- protocol/client.rs: which calls end, on a device that has a bounded amount to say.
pub mod Commands
use freematics_gui.Base.{
  ℕ, zero, suc, ◌≤◌, ◌<◌, ◌≡◌, ◌≢◌, refl, ◌++◌, [], ◌∷◌, Bool, true, false, Option, some, none,
  is_empty, get_or, if◌then◌else◌, ◌+◌, Bool-cases, inl, inr, leb, arith,
}
use freematics_gui.Base.Result.{Result, ok, err}
use freematics_gui.Text.{Text, codes, trim}
use freematics_gui.Text.Utf8.{Bytes, as_bytes, from_utf8, Decoded, text, invalid}
use freematics_gui.Protocol.Port.{
  byte, Outcome, done, failed, spinning, IoError, and_then, Act, ◌>>=◌, Io, act, ignore, tell, pure,
  fail, lift, attempt, map_err, step, outcome,
}
use freematics_gui.Protocol.Client.{
  SerialClient, read_bytes, read_line, read_until, write_command, send, is_terminator, is_pause,
  is_eof, end_of_data, decoded, crlf, read_timeout, cmd_deadline, max_reads, cmd_attempts,
  no_answer,
}
use freematics_gui.Protocol.Client.Lines.{Read-cases}
use freematics_gui.Protocol.Client.Keeps.{Outcome-cases}
use freematics_gui.Protocol.Client.Ack.{
  exchange, is_answer, answered, is_ok_line, rejection, command_rounds, command_expect_ok, set,
  save_config, set_command, reboot, reboot_verdict, query,
}

-- The device never has more to say than the bound of the client: `left` counts the bytes that are
-- still to come if nothing else is done to the port. A read of a byte uses up one at least, a read
-- that gives none adds none, and whatever else is done, the bound holds again.
pub record IsFinite {S : Type 0} (c : SerialClient S) : Type 0 where
  pub left : S → ℕ
  pub read_byte : (s : S) (b : ℕ) → (c.port.read s).0 ≡ byte b → left (c.port.read s).1 < left s
  pub read_le : (s : S) → left (c.port.read s).1 ≤ left s
  pub written : (bs : Bytes) (s : S) → left s < c.fuel → left (c.port.write_all bs s).1 < c.fuel
  pub flushed : (s : S) → left s < c.fuel → left (c.port.flush s).1 < c.fuel
  pub timed : (ms : ℕ) (s : S) → left s < c.fuel → left (c.port.set_timeout ms s).1 < c.fuel
  pub cleared : (s : S) → left s < c.fuel → left (c.port.clear_input s).1 < c.fuel
  pub clocked : (s : S) → left s < c.fuel → left (c.port.now s).1 < c.fuel
  pub slept : (ms : ℕ) (s : S) → left s < c.fuel → left (c.port.sleep ms s) < c.fuel

module _ {S : Type 0} (c : SerialClient S) (d : IsFinite c) where
  -- The action returns, and its result has used up bytes of the device.
  abbrev pub Uses : {A : Type 0} → ℕ → Outcome IoError A × S → Type 0
  Uses {A} k r = (r.0 ≢ spinning) × (d.left r.1 ≤ k) × ((a : A) → r.0 ≡ done a → d.left r.1 < k)

  end_of_data-Uses :
      (k : ℕ) (out : Bytes) (s : S)
      → d.left s ≤ k
      → (is_empty out ≡ false → d.left s < k)
      → Uses k (end_of_data out s)
  end_of_data-Uses k [] s h g = ((λ q. cc), h, λ a e. cc)
  end_of_data-Uses k (b ∷ out) s h g = ((λ q. cc), h, λ a e. g refl)

  read_bytes-Uses :
      (n k : ℕ) (out : Bytes) (s : S)
      → d.left s < n
      → d.left s ≤ k
      → (is_empty out ≡ false → d.left s < k)
      → Uses k (read_bytes c n out s)
  unfolding read_bytes
  read_bytes-Uses zero k out s h l g = absurd (omega arith)
  read_bytes-Uses (suc n) k out s h l g =
      let s' : S = (c.port.read s).1 in
      let le : d.left s' ≤ d.left s = d.read_le s in
      elim (Read-cases (c.port.read s).0) [
        | inl e ↦
            rw (e, read_bytes) (end_of_data-Uses k out s' (omega arith) (λ o. omega (arith, g o)))
        | inr (inl (x, e)) ↦
            rw (e, read_bytes)
              (elim (Bool-cases (is_pause x.kind)) [
                | inl p ↦ rw p (end_of_data-Uses k out s' (omega arith) (λ o. omega (arith, g o)))
                | inr p ↦ rw p ((λ q. cc), omega arith, λ a q. cc)
              ])
        | inr (inr (b, e)) ↦
            let lt : d.left s' < d.left s = d.read_byte s b e in
            rw (e, read_bytes)
              (elim (Bool-cases (is_terminator b)) [
                | inl t ↦ rw t (elim (Bool-cases (is_empty out)) [
                  | inl o ↦
                      rw o
                        (read_bytes-Uses n k out s' (omega arith) (omega arith) (λ q. omega arith))
                  | inr o ↦ rw o ((λ q. cc), omega arith, λ a q. omega arith)
                ])
                | inr t ↦ rw t (
                    read_bytes-Uses n k (out ++ b ∷ []) s' (omega arith) (omega arith)
                      (λ q. omega arith))
              ])
      ]

  decoded-Uses : (k : ℕ) (x : Decoded) (s : S) → d.left s < k → Uses k (decoded x s)
  decoded-Uses k (text l) s h = ((λ q. cc), omega arith, λ a q. h)
  decoded-Uses k (invalid e) s h = ((λ q. cc), omega arith, λ a q. h)

  decode_step-Uses :
      (k : ℕ) (r : Outcome IoError Bytes × S)
      → Uses k r
      → Uses k (and_then r (λ out. decoded (from_utf8 out)))
  decode_step-Uses k (done out, s) (h, l, g) = decoded-Uses k (from_utf8 out) s (g out refl)
  decode_step-Uses k (failed e, s) (h, l, g) = ((λ q. cc), l, λ a q. cc)
  decode_step-Uses k (spinning, s) (h, l, g) = absurd (h refl)

  pub read_line-Uses : (s : S) → d.left s < c.fuel → Uses (d.left s) (read_line c s)
  unfolding read_line
  read_line-Uses s h =
      decode_step-Uses (d.left s) (read_bytes c c.fuel [] s)
        (read_bytes-Uses c.fuel (d.left s) [] s h (omega arith) (λ q. cc))

  -- The action returns, with a value or an error, and the bound holds after it.
  abbrev pub Returns : {E A : Type 0} → Act S E A → Type 0
  Returns m = (s : S) → d.left s < c.fuel → ((m s).0 ≢ spinning) × (d.left (m s).1 < c.fuel)

  pub pure-Returns : {E A : Type 0} (a : A) → Returns (pure {S = S} {E = E} a)
  pure-Returns a s h = ((λ q. cc), h)

  pub fail-Returns : {E A : Type 0} (e : E) → Returns (fail {S = S} {E = E} {A = A} e)
  fail-Returns e s h = ((λ q. cc), h)

  outcome-ne-spinning : {E A : Type 0} (r : Result E A) → outcome r ≢ spinning
  outcome-ne-spinning (ok a) q = cc
  outcome-ne-spinning (err e) q = cc

  pub lift-Returns : {E A : Type 0} (r : Result E A) → Returns (lift {S = S} r)
  lift-Returns r s h = (outcome-ne-spinning r, h)

  pub act-Returns :
      {E A : Type 0} (f : S → Result E A × S)
      → ((s : S) → d.left s < c.fuel → d.left (f s).1 < c.fuel)
      → Returns (act f)
  act-Returns f k s h = (outcome-ne-spinning (f s).0, k s h)

  pub ignore-Returns :
      {E A : Type 0} (f : S → Result E A × S)
      → ((s : S) → d.left s < c.fuel → d.left (f s).1 < c.fuel)
      → Returns (ignore f)
  ignore-Returns f k s h = ((λ q. cc), k s h)

  and_then-Returns :
      {E A B : Type 0} (r : Outcome E A × S) (f : A → Act S E B)
      → r.0 ≢ spinning
      → d.left r.1 < c.fuel
      → ((a : A) → Returns (f a))
      → ((and_then r f).0 ≢ spinning) × (d.left (and_then r f).1 < c.fuel)
  and_then-Returns (done a, s) f h l k = k a s l
  and_then-Returns (failed e, s) f h l k = ((λ q. cc), l)
  and_then-Returns (spinning, s) f h l k = absurd (h refl)

  pub bind-Returns :
      {E A B : Type 0} (m : Act S E A) (f : A → Act S E B)
      → Returns m
      → ((a : A) → Returns (f a))
      → Returns (m >>= f)
  bind-Returns m f h k s l = and_then-Returns (m s) f (h s l).0 (h s l).1 k

  relabelled-Returns :
      {E D A : Type 0} (g : E → D) (r : Outcome E A × S)
      → r.0 ≢ spinning
      → d.left r.1 < c.fuel
      → ((map_err g (λ (s : S). r) r.1).0 ≢ spinning)
        × (d.left (map_err g (λ (s : S). r) r.1).1 < c.fuel)
  relabelled-Returns g (done a, s) h l = ((λ q. cc), l)
  relabelled-Returns g (failed e, s) h l = ((λ q. cc), l)
  relabelled-Returns g (spinning, s) h l = absurd (h refl)

  pub map_err-Returns :
      {E D A : Type 0} (g : E → D) (m : Act S E A) → Returns m → Returns (map_err g m)
  map_err-Returns g m h s l = relabelled-Returns g (m s) (h s l).0 (h s l).1

  recovered-Returns :
      {E A : Type 0} (r : Outcome E A × S)
      → r.0 ≢ spinning
      → d.left r.1 < c.fuel
      → ((attempt (λ (s : S). r) r.1).0 ≢ spinning)
        × (d.left (attempt (λ (s : S). r) r.1).1 < c.fuel)
  recovered-Returns (done a, s) h l = ((λ q. cc), l)
  recovered-Returns (failed e, s) h l = ((λ q. cc), l)
  recovered-Returns (spinning, s) h l = absurd (h refl)

  pub attempt-Returns : {E A : Type 0} (m : Act S E A) → Returns m → Returns (attempt m)
  attempt-Returns m h s l = recovered-Returns (m s) (h s l).0 (h s l).1

  pub read_line-Returns : Returns (read_line c)
  read_line-Returns s h = let (n, l, g) = read_line-Uses s h in (n, omega arith)

  pub read_until-Returns :
      (is_match : Text → Bool) (deadline n : ℕ) → Returns (read_until c is_match deadline n)
  unfolding read_until
  read_until-Returns is_match deadline zero s h = ((λ q. cc), h)
  read_until-Returns is_match deadline (suc n) s h =
      let s' : S = (c.port.now s).1 in
      let (returns, kept) = read_line-Returns s' (d.clocked s h) in
      elim (Bool-cases (leb deadline (c.port.now s).0)) [
        | inl late ↦ rw (late, read_until) ((λ q. cc), d.clocked s h)
        | inr early ↦ elim (Outcome-cases (read_line c s').0) [
          | inl e ↦ absurd (returns e)
          | inr (inl (x, e)) ↦ elim (Bool-cases (is_eof x.kind)) [
            | inl q ↦
                rw (early, read_until, e, q)
                  (read_until-Returns is_match deadline n (read_line c s').1 kept)
            | inr q ↦ rw (early, read_until, e, q) ((λ q. cc), kept)
          ]
          | inr (inr (line, e)) ↦ elim (Bool-cases (is_match (trim line))) [
            | inl q ↦ rw (early, read_until, e, q) ((λ q. cc), kept)
            | inr q ↦
                rw (early, read_until, e, q)
                  (read_until-Returns is_match deadline n (read_line c s').1 kept)
          ]
        ]
      ]
