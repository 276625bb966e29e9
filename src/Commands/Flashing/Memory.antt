-- ===== src/Commands/Flashing/Memory.antt =====
-- commands.rs, `flash_firmware_cmd` with flash/native.rs: what becomes of the flash memory of the
-- device.
use freematics_gui.Base.{
  ℕ, ◌<◌, ◌≡◌, refl, sym, ap, ◌∙◌, Bool, Bool-cases, inl, inr, Option, List, [], ◌∷◌, ◌++◌,
}
use mathlib.Core.Path.{subst}
use freematics_gui.Base.Result.{Result, ok, err, Result-cases}
use freematics_gui.Text.{Text, codes}
use freematics_gui.Text.Utf8.{Bytes}
use freematics_gui.Files.{Files}
use freematics_gui.Protocol.Port.{Outcome, done, failed, spinning, outcome}
use freematics_gui.Backup.Schema.{Json}
use freematics_gui.Flash.Native.{Espflash, Flashed, flash_bin}
use freematics_gui.Flash.Native.Memory.{Stands, Memory, flash_bin-Stands, flash_bin-kept}
use freematics_gui.Commands.Flashing.{
  FlashProgressEvent, Bundle, progress_events, firmware_data, flash_session, flash_firmware_cmd,
  all_done, flash_bytes, announced, Emitting,
}
use freematics_gui.Commands.Flashing.Gate.{Flashable, firmware_data-Flashable}

module _ {W V : Type 0} (fs : Files W) (json : Json V) (sha256_hex : Bytes → Text) (b : Bundle)
    (poisoned : W → Bool) (flash_it : Text → Bytes → W → Flashed × W) (port : Text) where
  -- What a command that succeeds has done.
  pub record Ran (firmware : Option Text) (w w' : W) (es es' : List FlashProgressEvent)
      : Type 0 where
    pub bytes : Bytes
    pub flashed : Flashed
    pub flashable : Flashable fs json sha256_hex b firmware w bytes
    pub ran : flash_it port bytes w ≡ (flashed, w')
    pub success : flashed.result ≡ ok tt
    pub emitted : es' ≡ (es ++ progress_events 0 flashed.reported) ++ all_done ∷ []

  Ran-announced :
      (firmware : Option Text) (w w' w1 : W) (es es' : List FlashProgressEvent) (bytes : Bytes)
      (reported : List ℕ) (r : Result Text (Unit {0}))
      → Flashable fs json sha256_hex b firmware w bytes
      → flash_it port bytes w ≡ (record { reported = reported; result = r }, w1)
      → announced poisoned flash_it (outcome r, (w1, es ++ progress_events 0 reported))
        ≡ (done tt, (w', es'))
      → Ran firmware w w' es es'
  Ran-announced firmware w w' w1 es es' bytes reported (ok tt) f ran h = record {
    bytes = bytes;
    flashed = record { reported = reported; result = ok tt };
    flashable = f;
    ran = ran ∙ ap (λ v. (record { reported = reported; result = ok tt }, v)) (ap (λ x. x.1.0) h);
    success = refl;
    emitted = sym (ap (λ x. x.1.1) h);
  }
  Ran-announced firmware w w' w1 es es' bytes reported (err e) f ran h =
      let bad : ◌≡◌ {A = Outcome Text (Unit {0})} (failed e) (done tt) = ap (λ x. x.0) h in cc

  Ran-bytes :
      (firmware : Option Text) (w w' : W) (es es' : List FlashProgressEvent) (bytes : Bytes)
      → firmware_data fs json sha256_hex b firmware w ≡ ok bytes
      → flash_bytes poisoned flash_it port bytes (w, es) ≡ (done tt, (w', es'))
      → Ran firmware w w' es es'
  unfolding flash_session
  Ran-bytes firmware w w' es es' [] d h =
      let bad : ◌≡◌ {A = Outcome Text (Unit {0})} (failed (codes "firmware file is empty"))
          (done tt) =
        ap (λ x. x.0) h in
      cc
  Ran-bytes firmware w w' es es' (x ∷ xs) d h = elim (Bool-cases (poisoned w)) [
    | inl p ↦
        let refused : ◌≡◌ {A = Outcome Text (Unit {0}) × Emitting W} (failed _, _)
            (done tt, (w', es')) =
          rw p at h in
        let bad : ◌≡◌ {A = Outcome Text (Unit {0})} (failed _) (done tt) = ap (λ r. r.0) refused in
        cc
    | inr free ↦
        let flashed = (flash_it port (x ∷ xs) w).0 in
        Ran-announced firmware w w' (flash_it port (x ∷ xs) w).1 es es' (x ∷ xs) flashed.reported
          flashed.result
          (firmware_data-Flashable fs json sha256_hex b firmware w (x ∷ xs) d (λ q. cc)) refl
          (rw free at h)
  ]

  -- A command that succeeds got bytes that may be flashed, and the flasher succeeded with them.
  pub flash_firmware_cmd-Ran :
      (firmware : Option Text) (w w' : W) (es es' : List FlashProgressEvent)
      → flash_firmware_cmd poisoned flash_it fs json sha256_hex b port firmware (w, es)
        ≡ (done tt, (w', es'))
      → Ran firmware w w' es es'
  unfolding flash_firmware_cmd
  flash_firmware_cmd-Ran firmware w w' es es' h =
      elim (Result-cases (firmware_data fs json sha256_hex b firmware w)) [
        | inl (bytes, e) ↦ Ran-bytes firmware w w' es es' bytes e (rw e at h)
        | inr (reason, e) ↦
            let refused : ◌≡◌ {A = Outcome Text (Unit {0}) × Emitting W} (failed reason, _)
                (done tt, (w', es')) =
              rw e at h in
            let bad : ◌≡◌ {A = Outcome Text (Unit {0})} (failed reason) (done tt) =
              ap (λ r. r.0) refused in
            cc
      ]

  announced-world :
      (x : Outcome Text (Unit {0}) × Emitting W) → (announced poisoned flash_it x).1.0 ≡ x.1.0
  announced-world (done u, (w, es)) = refl
  announced-world (failed e, (w, es)) = refl
  announced-world (spinning, x) = refl

  -- What holds of the world before, and after the flasher, holds after the command.
  world_of_bytes :
      (P : W → Type 0) (w : W) (es : List FlashProgressEvent) (bytes : Bytes)
      → P w
      → P (flash_it port bytes w).1
      → P (flash_bytes poisoned flash_it port bytes (w, es)).1.0
  unfolding flash_session
  world_of_bytes P w es [] before after = before
  world_of_bytes P w es (x ∷ xs) before after = elim (Bool-cases (poisoned w)) [
    | inl p ↦ rw p before
    | inr free ↦
        rw free
          (subst P (sym (announced-world (outcome _, ((flash_it port (x ∷ xs) w).1, _)))) after)
  ]

  pub world_of_command :
      (P : W → Type 0) (firmware : Option Text) (w : W) (es : List FlashProgressEvent)
      → P w
      → ((bytes : Bytes) → P (flash_it port bytes w).1)
      → P (flash_firmware_cmd poisoned flash_it fs json sha256_hex b port firmware (w, es)).1.0
  unfolding flash_firmware_cmd
  world_of_command P firmware w es before after =
      elim (Result-cases (firmware_data fs json sha256_hex b firmware w)) [
        | inl (bytes, e) ↦ rw e (world_of_bytes P w es bytes before (after bytes))
        | inr (reason, e) ↦ rw e before
      ]

module _ {W V H L : Type 0} (fs : Files W) (json : Json V) (sha256_hex : Bytes → Text) (b : Bundle)
    (poisoned : W → Bool) (flasher : Espflash W H L) (memory : Memory flasher) (port : Text) where
  -- When the command succeeds, the memory of the device holds at 0x10000 all the bytes of the file
  -- that was chosen, or of the bundle with the digest that its manifest names.
  pub flash_firmware_cmd-Stands :
      (firmware : Option Text) (w w' : W) (es es' : List FlashProgressEvent)
      → flash_firmware_cmd poisoned (flash_bin flasher) fs json sha256_hex b port firmware (w, es)
        ≡ (done tt, (w', es'))
      → (bytes : Bytes) × Flashable fs json sha256_hex b firmware w bytes
        × Stands (memory.cells w') 0x10000 bytes
  flash_firmware_cmd-Stands firmware w w' es es' h =
      let k =
        flash_firmware_cmd-Ran fs json sha256_hex b poisoned (flash_bin flasher) port firmware w w'
          es es' h in
      let good : (flash_bin flasher port k.bytes w).0.result ≡ ok tt =
        ap (λ r. r.0.result) k.ran ∙ k.success in
      (
        k.bytes,
        k.flashable,
        subst (λ v. Stands (memory.cells v) 0x10000 k.bytes) (ap (λ r. r.1) k.ran)
            (flash_bin-Stands flasher memory port k.bytes w good),
      )

  -- However the command ends, the memory below 0x10000, where the bootloader, the partition table and
  -- the stored configuration are, is as it was.
  pub flash_firmware_cmd-kept :
      (firmware : Option Text) (w : W) (es : List FlashProgressEvent) (a : ℕ)
      → a < 0x10000
      → memory.cells
          (flash_firmware_cmd poisoned
            (flash_bin flasher)
            fs
            json
            sha256_hex
            b
            port
            firmware
            (w, es)).1.0
          a
        ≡ memory.cells w a
  flash_firmware_cmd-kept firmware w es a low =
      world_of_command fs json sha256_hex b poisoned (flash_bin flasher) port
        (λ v. memory.cells v a ≡ memory.cells w a) firmware w es refl
        (λ bytes. flash_bin-kept flasher memory port bytes a w low)
