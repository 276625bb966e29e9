-- ===== src/Usb/Real/Opened.antt =====
-- usb/serial_port.rs: in what state `RealSerialPort::open` leaves the device.
use freematics_gui.Base.{ℕ, ◌≡◌, refl, ap, sym, ◌∙◌, ◌⊎◌, inl, inr, Bool, false, []}
use mathlib.Core.Path.{subst}
use freematics_gui.Base.Result.{Result, ok, err}
use freematics_gui.Text.{Text}
use freematics_gui.Text.Utf8.{Bytes}
use freematics_gui.Usb.Real.{SerialCrate, open_real, settle, opened, baud_rate, open_timeout}

module _ {W H : Type 0} (crate : SerialCrate W H) where
  -- The control lines of an open port and what it has received. A call that returns without an error
  -- has set its line, or dropped what was received; a call for one line, whether it fails or not, and
  -- a pause leave the other line as it is.
  pub record Drives : Type 0 where
    pub rts : H → W → Bool
    pub dtr : H → W → Bool
    pub received : H → W → Bytes
    pub rts_set :
        (b : Bool) (h : H) (w : W)
        → (crate.write_request_to_send b h w).0 ≡ ok tt
        → rts h (crate.write_request_to_send b h w).1 ≡ b
    pub dtr_set :
        (b : Bool) (h : H) (w : W)
        → (crate.write_data_terminal_ready b h w).0 ≡ ok tt
        → dtr h (crate.write_data_terminal_ready b h w).1 ≡ b
    pub received-clear :
        (h : H) (w : W) → (crate.clear h w).0 ≡ ok tt → received h (crate.clear h w).1 ≡ []
    pub rts_kept :
        (b : Bool) (h : H) (w : W) → rts h (crate.write_data_terminal_ready b h w).1 ≡ rts h w
    pub rts-sleep : (ms : ℕ) (h : H) (w : W) → rts h (crate.sleep ms w) ≡ rts h w
    pub dtr-sleep : (ms : ℕ) (h : H) (w : W) → dtr h (crate.sleep ms w) ≡ dtr h w
    pub rts-clear : (h : H) (w : W) → rts h (crate.clear h w).1 ≡ rts h w
    pub dtr-clear : (h : H) (w : W) → dtr h (crate.clear h w).1 ≡ dtr h w

  -- A call of the driver came back with an error.
  abbrev pub Fails : Result Text (Unit {0}) × W → Type 0
  Fails r = (e : Text) × (r.0 ≡ err e)

  abbrev pub after_rts : H → W → W
  after_rts h w = (crate.write_request_to_send false h w).1

  unit_cases : (r : Result Text (Unit {0})) → (r ≡ ok tt) ⊎ ((e : Text) × (r ≡ err e))
  unit_cases (ok tt) = inl refl
  unit_cases (err e) = inr (e, refl)

  module _ (drives : Drives) where
    -- How an open port is left, from the state in which it was opened: the device is not held in
    -- reset (RTS) unless the call for RTS failed, it is not told to enter the bootloader (DTR) unless
    -- the call for DTR failed, and nothing that it said before is left to read unless the call for
    -- that failed. These are calls with `false`, and the last is made 150 ms after them.
    pub record IsSettled (h : H) (opened_in w : W) : Type 0 where
      pub reset : (drives.rts h w ≡ false) ⊎ Fails (crate.write_request_to_send false h opened_in)
      pub bootloader :
          (drives.dtr h w ≡ false)
          ⊎ Fails (crate.write_data_terminal_ready false h (after_rts h opened_in))
      pub input :
          (drives.received h w ≡ [])
          ⊎ Fails (
              crate.clear h (
                crate.sleep 150
                  (crate.write_data_terminal_ready false h (after_rts h opened_in)).1))

    settle-IsSettled : (h : H) (w : W) → IsSettled h w (settle crate h w)
    unfolding settle
    settle-IsSettled h w =
        let w1 : W = (crate.write_request_to_send false h w).1 in
        let w2 : W = (crate.write_data_terminal_ready false h w1).1 in
        let w3 : W = crate.sleep 150 w2 in
        record {
          reset = elim (unit_cases (crate.write_request_to_send false h w).0) [
            | inl e ↦ inl (
                drives.rts-clear h w3
                ∙ drives.rts-sleep 150 h w2
                ∙ drives.rts_kept false h w1
                ∙ drives.rts_set false h w e)
            | inr f ↦ inr f
          ];
          bootloader = elim (unit_cases (crate.write_data_terminal_ready false h w1).0) [
            | inl e ↦
                inl
                  (drives.dtr-clear h w3 ∙ drives.dtr-sleep 150 h w2 ∙ drives.dtr_set false h w1 e)
            | inr f ↦ inr f
          ];
          input = elim (unit_cases (crate.clear h w3).0) [
            | inl e ↦ inl (drives.received-clear h w3 e)
            | inr f ↦ inr f
          ];
        }

    opened-IsSettled :
        (r : Result Text H × W) (h : H) (w' : W)
        → opened crate r ≡ (ok h, w')
        → (w0 : W) × (r ≡ (ok h, w0)) × IsSettled h w0 w'
    opened-IsSettled (err e, w) h w' k = cc
    opened-IsSettled (ok g, w) h w' k =
        let port : ok g ≡ ok h = ap (λ r. r.0) k in
        let same : g ≡ h = cc in
        let state : settle crate g w ≡ w' = ap (λ r. r.1) k in
        (
          w,
          rw same refl,
          rw (sym state)
              (subst (λ x. IsSettled x w (settle crate g w)) same (settle-IsSettled g w)),
        )

    -- A port that was opened at 115200 baud: each control line is down, and the input is dropped,
    -- unless the driver refused just that call, which does not make the opening fail. This holds for a
    -- driver whose calls do what they say where they return no error.
    pub open_real-IsSettled :
        (path : Text) (w : W) (h : H) (w' : W)
        → open_real crate path w ≡ (ok h, w')
        → (w0 : W) × (crate.open_path path 115200 2000 w ≡ (ok h, w0)) × IsSettled h w0 w'
    unfolding open_real
    open_real-IsSettled path w h w' k =
        opened-IsSettled (crate.open_path path baud_rate open_timeout w) h w' k
