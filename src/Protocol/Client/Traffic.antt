-- ===== src/Protocol/Client/Traffic.antt =====
-- protocol/client.rs: what the acknowledged commands send over a logged port, as languages of bytes.
use freematics_gui.Base.{
  ℕ, zero, suc, ◌+◌, ◌++◌, ◌≡◌, refl, sym, ap, ◌∙◌, List, [], ◌∷◌, Bool, true, false, Option, some,
  none, append_assoc, append-nil, arith, if◌then◌else◌, inl, inr, ◌⊎◌,
}
use freematics_gui.Text.{Text}
use freematics_gui.Text.Utf8.{Bytes, as_bytes}
use freematics_gui.Protocol.Port.{
  Port, Outcome, done, failed, spinning, IoError, and_then, Act, ◌>>=◌, Io, act, ignore, tell, pure,
  fail, map_err,
}
use freematics_gui.Protocol.Logged.{logged, with_log}
use freematics_gui.Protocol.Client.{
  SerialClient, write_command, read_until, crlf, read_timeout, cmd_deadline, max_reads,
  cmd_attempts, no_answer,
}
use freematics_gui.Protocol.Client.Keeps.{read_until-keeps}
use freematics_gui.Protocol.Client.Ack.{
  is_answer, is_ok_line, exchange, answered, rejection, command_rounds, command_expect_ok, set,
  set_command,
}

abbrev pub Language : Type 1
Language = Bytes → Type 0

abbrev pub Only : Bytes → Language
Only w bs = bs ≡ w

abbrev pub Cat : Language → Language → Language
Cat P Q bs = (u : Bytes) × (v : Bytes) × (bs ≡ u ++ v) × P u × Q v

-- One copy of `w` or more, and `n` at most.
abbrev pub Repeats : Bytes → ℕ → Language
Repeats w zero bs = ⊥
Repeats w (suc n) bs = (bs ≡ w) ⊎ Cat (Only w) (Repeats w n) bs

-- A command as it goes over the wire.
abbrev pub frame : Text → Bytes
frame cmd = as_bytes cmd ++ crlf

-- Each command in turn, once or up to three times.
abbrev pub Session : List Text → Language
Session [] bs = bs ≡ []
Session (cmd ∷ cmds) bs = Cat (Repeats (frame cmd) cmd_attempts) (Session cmds) bs

module _ {S E A : Type 0} where
  -- If the action succeeds, it has sent a text of the language, and nothing else.
  abbrev pub Sends : Act (S × Bytes) E A → Language → Type 0
  Sends m L =
      (x y : S × Bytes) (a : A) → m x ≡ (done a, y) → (bs : Bytes) × (y.1 ≡ x.1 ++ bs) × L bs

  pub Sends-weaken :
      (m : Act (S × Bytes) E A) (P Q : Language)
      → ((bs : Bytes) → P bs → Q bs)
      → Sends m P
      → Sends m Q
  Sends-weaken m P Q f h x y a e = let (bs, eb, p) = h x y a e in (bs, eb, f bs p)

  pub Sends-silent :
      (m : Act (S × Bytes) E A) → ((x : S × Bytes) → (m x).1.1 ≡ x.1) → Sends m (Only [])
  Sends-silent m h x y a e = ([], sym (ap (λ r. r.1.1) e) ∙ h x ∙ sym (append-nil x.1), refl)

module _ {S E A B : Type 0} where
  pub invert :
      (r : Outcome E A × S) (f : A → Act S E B) (b : B) (t : S)
      → and_then r f ≡ (done b, t)
      → (a : A) × (r.0 ≡ done a) × (f a r.1 ≡ (done b, t))
  invert (done a, s) f b t e = (a, refl, e)
  invert (failed x, s) f b t e = cc
  invert (spinning, s) f b t e = cc

module _ {S E A B : Type 0} where
  pub Sends-bind :
      (m : Act (S × Bytes) E A) (f : A → Act (S × Bytes) E B) (P Q : Language)
      → Sends m P
      → ((a : A) → Sends (f a) Q)
      → Sends (m >>= f) (Cat P Q)
  Sends-bind m f P Q hm hf x y b e =
      let (a, ra, rest) = invert (m x) f b y e in
      let (u, eu, pu) = hm x (m x).1 a (ap (λ o. (o, (m x).1)) ra) in
      let (v, ev, qv) = hf a (m x).1 y b rest in
      (u ++ v, ev ∙ ap (λ w. w ++ v) eu ∙ append_assoc x.1 u v, (u, v, refl, pu, qv))

  Sends-seq :
      (m : Act (S × Bytes) E A) (f : A → Act (S × Bytes) E B) (u v : Bytes)
      → Sends m (Only u)
      → ((a : A) → Sends (f a) (Only v))
      → Sends (m >>= f) (Only (u ++ v))
  Sends-seq m f u v hm hf x y b e =
      let (bs, eb, (p, q, ec, ep, eq)) = Sends-bind m f (Only u) (Only v) hm hf x y b e in
      (bs, eb, ec ∙ ap (λ w. w ++ q) ep ∙ ap (λ w. u ++ w) eq)

module _ {S E D A : Type 0} where
  map_err-done :
      (g : E → D) (r : Outcome E A × S) (a : A) (s t : S)
      → map_err g (λ (s : S). r) s ≡ (done a, t)
      → r ≡ (done a, t)
  map_err-done g (done b, s) a s' t e = ground arith
  map_err-done g (failed x, s) a s' t e = cc
  map_err-done g (spinning, s) a s' t e = cc

module _ {S E D A : Type 0} where
  pub Sends-map_err :
      (g : E → D) (m : Act (S × Bytes) E A) (L : Language) → Sends m L → Sends (map_err g m) L
  Sends-map_err g m L h x y a e = h x y a (map_err-done g (m x) a x y e)

module _ {S : Type 0} (c : SerialClient S) where
  write-Sends : (bs : Bytes) → Sends (act ((logged c.port).write_all bs)) (Only bs)
  write-Sends bs x y a e = (bs, sym (ap (λ r. r.1.1) e), refl)

  read_until-Sends :
      (is_match : Text → Bool) (deadline n : ℕ)
      → Sends (read_until (with_log c) is_match deadline n) (Only [])
  read_until-Sends is_match deadline n =
      Sends-silent (read_until (with_log c) is_match deadline n) (λ x.
        read_until-keeps (with_log c) (λ y. y.1 ≡ x.1) (λ y h. h) (λ y h. h) is_match deadline n x
          refl)

  write_command-Sends : (cmd : Text) → Sends (write_command (with_log c) cmd) (Only (frame cmd))
  unfolding write_command
  write_command-Sends cmd =
      Sends-seq _ _ (as_bytes cmd) crlf (write-Sends (as_bytes cmd))
        (λ _. Sends-seq _ _ crlf [] (write-Sends crlf) (λ _. Sends-silent _ (λ x. refl)))

  exchange-Sends : (cmd : Text) → Sends (exchange (with_log c) cmd) (Only (frame cmd))
  unfolding exchange
  exchange-Sends cmd =
      let p : Port (S × Bytes) = logged c.port in
      Sends-weaken (exchange (with_log c) cmd) (Only (frame cmd ++ [])) (Only (frame cmd))
        (λ bs h. h ∙ append-nil (frame cmd))
        (Sends-seq (act (p.set_timeout read_timeout)) _ [] (frame cmd ++ [])
          (Sends-silent (act (p.set_timeout read_timeout)) (λ x. refl))
          (λ _.
            Sends-seq (ignore p.clear_input) _ [] (frame cmd ++ [])
              (Sends-silent {E = IoError} (ignore p.clear_input) (λ x. refl))
              (λ _.
                Sends-seq (write_command (with_log c) cmd) _ (frame cmd) []
                  (write_command-Sends cmd)
                  (λ _.
                    Sends-seq (tell p.now) _ [] []
                      (Sends-silent {E = IoError} (tell p.now) (λ x. refl))
                      (λ t. read_until-Sends is_answer (t + cmd_deadline) max_reads)))))

  -- After a round nothing more is sent, or the rounds that are left send it.
  abbrev Rest : Text → ℕ → Language
  Rest cmd n bs = (bs ≡ []) ⊎ Repeats (frame cmd) n bs

  Rest-Repeats :
      (cmd : Text) (n : ℕ) (bs : Bytes)
      → Cat (Only (frame cmd)) (Rest cmd n) bs
      → Repeats (frame cmd) (suc n) bs
  Rest-Repeats cmd n bs (u, v, e, p, inl q) = inl (e ∙ ap (λ w. u ++ w) q ∙ append-nil u ∙ p)
  Rest-Repeats cmd n bs (u, v, e, p, inr q) = inr (u, v, e, p, q)

  verdict-Sends :
      (b : Bool) (x : IoError) (cmd : Text) (n : ℕ)
      → Sends {S = S} {A = Unit {0}} (if b then pure tt else fail x) (Rest cmd n)
  verdict-Sends true x cmd n s y a e =
      ([], sym (ap (λ r. r.1.1) e) ∙ sym (append-nil s.1), inl refl)
  verdict-Sends false x cmd n s y a e = cc

  answered-Sends :
      (cmd : Text) (n : ℕ) (retry : Io (S × Bytes) (Unit {0}))
      → Sends retry (Repeats (frame cmd) n)
      → (matched : Option Text) → Sends (answered (with_log c) cmd retry matched) (Rest cmd n)
  answered-Sends cmd n retry h none =
      Sends-weaken retry (Repeats (frame cmd) n) (Rest cmd n) (λ bs r. inr r) h
  answered-Sends cmd n retry h (some resp) =
      verdict-Sends (is_ok_line resp) (rejection (with_log c) cmd resp) cmd n

  command_rounds-Sends :
      (cmd : Text) (n : ℕ) (last : Option IoError)
      → Sends (command_rounds (with_log c) cmd n last) (Repeats (frame cmd) n)
  unfolding command_rounds
  command_rounds-Sends cmd zero last = λ x y a e. cc
  command_rounds-Sends cmd (suc n) last =
      Sends-weaken (command_rounds (with_log c) cmd (suc n) last)
        (Cat (Only (frame cmd)) (Rest cmd n)) (Repeats (frame cmd) (suc n)) (Rest-Repeats cmd n)
        (Sends-bind (exchange (with_log c) cmd) _ (Only (frame cmd)) (Rest cmd n)
          (exchange-Sends cmd)
          (answered-Sends cmd n _ (command_rounds-Sends cmd n (some no_answer))))

  pub command_expect_ok-Sends :
      (cmd : Text) → Sends (command_expect_ok (with_log c) cmd) (Repeats (frame cmd) cmd_attempts)
  unfolding command_expect_ok
  command_expect_ok-Sends cmd = command_rounds-Sends cmd cmd_attempts none

  -- A `set` that is reported as accepted has sent its command and a line end, once or up to three
  -- times, and nothing else.
  pub set-sent :
      (key val : Text) (s t : S) (sent sent' : Bytes)
      → set (with_log c) key val (s, sent) ≡ (done tt, (t, sent'))
      → (bs : Bytes) × (sent' ≡ sent ++ bs) × Repeats (frame (set_command key val)) cmd_attempts bs
  unfolding set
  set-sent key val s t sent sent' h =
      command_expect_ok-Sends (set_command key val) (s, sent) (t, sent') tt h
