-- ===== src/Device/Handler/Pairs.antt =====
-- firmware/overlay/serial_handler.cpp: the line of a command, and `CFG=key=val`.
use freematics_gui.Base.{
  ◌≡◌, refl, ap, ◌∙◌, [], ◌∷◌, ◌++◌, append_assoc, append-nil, All, All-append, arith,
}
use freematics_gui.Text.{
  Text, codes, is_whitespace, trim_end, split_once, Lacks, text_eq, starts_with,
}
use freematics_gui.Text.Utf8.{Bytes, as_bytes, encode_char}
use freematics_gui.Text.Ascii.{IsAscii, as_bytes-append, as_bytes-IsAscii, as_bytes-Lacks}
use freematics_gui.Text.Trim.{split_once-append}
use freematics_gui.Protocol.Config.Lines.{IsKey, IsKeyChar, IsKey-All, IsKey-Lacks}
use freematics_gui.Protocol.Client.Ack.{set_command}
use freematics_gui.Device.Strings.{trim_front, trim_back, trim, to_upper_case}
use freematics_gui.Device.Strings.Trimmed.{
  blank_whitespace, trim_back-cons, trim_back-append, trim_back-blank, drop_cr_of_trimmed,
  trim_back-as_bytes,
}
use freematics_gui.Device.Settings.{set}
use freematics_gui.Device.Handler.{
  Device, Firmware, stored, set_pair, command_line, handle_command_line, process_serial,
}

-- A key of the wire: in ASCII, not empty, without white space or `=`.
abbrev pub IsWireKey : Text → Type 0
IsWireKey k = IsKey k × IsAscii k

-- A value that one line carries whole: without a line feed, and without white space at its end.
abbrev pub IsValue : Text → Type 0
IsValue v = Lacks b'\n' v × (trim_end v ≡ v)

trim_back-key : (k : Text) → All IsKeyChar k → trim_back k ≡ k
trim_back-key [] h = unfold trim_back in refl
trim_back-key (c ∷ k) (hc, hk) = trim_back-cons c k (blank_whitespace c hc.0) (trim_back-key k hk)

trim_front-key : (k : Text) → All IsKeyChar k → trim_front k ≡ k
unfolding trim_front
trim_front-key [] h = refl
trim_front-key (c ∷ k) (hc, hk) = rw (blank_whitespace c hc.0)

trim-key : (k : Text) → IsKey k → trim k ≡ k
unfolding trim
trim-key k h = rw (trim_front-key k (IsKey-All k h)) (trim_back-key k (IsKey-All k h))

key-Lacks : (k : Text) → All IsKeyChar k → Lacks b'\n' k
unfolding is_whitespace
key-Lacks [] h = tt
key-Lacks (c ∷ k) (hc, hk) = (ground (arith, hc.0), key-Lacks k hk)

-- The line between `CFG=` and its end.
abbrev pub pair_bytes : Text → Text → Bytes
pair_bytes k v = k ++ b'=' ∷ as_bytes v

pub as_bytes-set_command :
    (k v : Text) → IsWireKey k → as_bytes (set_command k v) ≡ codes "CFG=" ++ pair_bytes k v
unfolding set_command
as_bytes-set_command k v (hk, ak) =
    as_bytes-append (codes "CFG=") _
    ∙ ap (λ x. as_bytes (codes "CFG=") ++ x)
        (as_bytes-append k _ ∙ ap (λ x. x ++ as_bytes (b'=' ∷ v)) (as_bytes-IsAscii k ak))
    ∙ (unfold as_bytes encode_char in refl)

pub set_command-Lacks :
    (k v : Text) → IsWireKey k → IsValue v → Lacks b'\n' (codes "CFG=" ++ pair_bytes k v)
set_command-Lacks k v (hk, ak) (hv, _) = All-append _ (codes "CFG=") _ (ground arith) (
    All-append _ k _ (key-Lacks k (IsKey-All k hk))
      (ground arith, as_bytes-Lacks b'\n' v (omega arith) hv))

trim_back-value : (v : Text) → trim_end v ≡ v → trim_back (b'=' ∷ as_bytes v) ≡ b'=' ∷ as_bytes v
trim_back-value v e = trim_back-cons b'=' (as_bytes v) refl (trim_back-as_bytes v e)

trim_back-body :
    (k v : Text)
    → trim_end v ≡ v
    → trim_back (codes "CFG=" ++ pair_bytes k v) ≡ codes "CFG=" ++ pair_bytes k v
trim_back-body k v e = trim_back-append (codes "CFG=" ++ k) b'=' (as_bytes v) (trim_back-value v e)

trim-body :
    (k v : Text)
    → trim_end v ≡ v
    → trim (codes "CFG=" ++ pair_bytes k v) ≡ codes "CFG=" ++ pair_bytes k v
unfolding trim trim_front
trim-body k v e = trim_back-body k v e

trim-line :
    (k v : Text)
    → trim_end v ≡ v
    → trim (codes "CFG=" ++ (pair_bytes k v ++ b'\r' ∷ [])) ≡ codes "CFG=" ++ pair_bytes k v
unfolding trim trim_front
trim-line k v e = trim_back-blank (codes "CFG=" ++ pair_bytes k v) b'\r' refl ∙ trim_back-body k v e

module _ {N F : Type 0} (fw : Firmware N F) where
  command_line-set :
      (bs : Bytes) (d : Device N F)
      → command_line fw (codes "CFG=" ++ bs) (to_upper_case (codes "CFG=" ++ bs)) d
        ≡ set_pair fw d (split_once b'=' bs)
  unfolding command_line to_upper_case text_eq starts_with
  command_line-set bs d = refl

  handle_command_line-trimmed :
      (line : Bytes) (k v : Text) (d : Device N F)
      → trim line ≡ codes "CFG=" ++ pair_bytes k v
      → IsWireKey k
      → IsValue v
      → handle_command_line fw line d ≡ stored fw d (set fw.num k (as_bytes v) d.cfg)
  unfolding handle_command_line
  handle_command_line-trimmed line k v d t (hk, ak) (hv, e) =
      rw
        (
          t,
          drop_cr_of_trimmed (codes "CFG=" ++ pair_bytes k v) (trim_back-body k v e),
          trim-body k v e,
        )
        (command_line-set (pair_bytes k v) d
          ∙ rw
              (
                split_once-append b'=' k (as_bytes v) (IsKey-Lacks k (IsKey-All k hk)),
                trim-key k hk,
              )
              refl)

  pub handle_command_line-set :
      (k v : Text) (d : Device N F)
      → IsWireKey k
      → IsValue v
      → handle_command_line fw (codes "CFG=" ++ (pair_bytes k v ++ b'\r' ∷ [])) d
        ≡ stored fw d (set fw.num k (as_bytes v) d.cfg)
  handle_command_line-set k v d hk hv =
      handle_command_line-trimmed _ k v d (trim-line k v hv.1) hk hv

  -- The same line without a carriage return.
  pub handle_command_line-bare :
      (k v : Text) (d : Device N F)
      → IsWireKey k
      → IsValue v
      → handle_command_line fw (codes "CFG=" ++ pair_bytes k v) d
        ≡ stored fw d (set fw.num k (as_bytes v) d.cfg)
  handle_command_line-bare k v d hk hv =
      handle_command_line-trimmed _ k v d (trim-body k v hv.1) hk hv

  pub process_serial-line :
      (line bs rest : Bytes) (d : Device N F)
      → Lacks b'\n' bs
      → process_serial fw line (bs ++ b'\n' ∷ rest) d ≡ (
          let (d1, out1) = handle_command_line fw (line ++ bs) d in
          let (d2, out2) = process_serial fw [] rest d1 in (d2, out1 ++ out2))
  unfolding process_serial
  process_serial-line line [] rest d h = rw (append-nil line) refl
  process_serial-line line (b ∷ bs) rest d (hb, hs) =
      ground
        (arith, process_serial-line (line ++ b ∷ []) bs rest d hs, append_assoc line (b ∷ []) bs)
