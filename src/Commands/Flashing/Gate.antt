-- ===== src/Commands/Flashing/Gate.antt =====
-- commands.rs: what `flash_firmware_cmd` flashes, and when.
use freematics_gui.Base.{
  ◌≡◌, ◌≢◌, refl, ap, ◌∙◌, true, false, Bool, Bool-cases, inl, inr, Option, none, some, List, [],
  ◌∷◌, ◌++◌,
}
use freematics_gui.Base.Result.{Result, ok, err, Result-cases}
use freematics_gui.Text.{Text, codes}
use freematics_gui.Text.Utf8.{Bytes}
use freematics_gui.Files.{Files}
use freematics_gui.Protocol.Port.{failed, outcome}
use freematics_gui.Backup.Schema.{Json, FirmwareInfo, get_firmware_info}
use freematics_gui.Flash.Native.{Flashed}
use freematics_gui.Flash.Sha.{verify_sha256_bytes}
use freematics_gui.Commands.Flashing.{
  FlashProgressEvent, Bundle, progress_events, firmware_data, flash_session, flash_firmware_cmd,
  all_done, flash_error, flash_bytes, announced, checked,
}

-- The event that ends the progress.
abbrev pub last_event : Result Text (Unit {0}) → FlashProgressEvent
last_event (ok u) = all_done
last_event (err e) = flash_error e

module _ {W V : Type 0} (fs : Files W) (json : Json V) (sha256_hex : Bytes → Text)
    (b : Bundle) where
  -- The bytes are what may be flashed: they are some, and either those of the file that was chosen,
  -- or those of the bundle, with the digest that its manifest names.
  abbrev pub Flashable : Option Text → W → Bytes → Type 0
  Flashable (some p) w bytes = (fs.exists p w ≡ true) × (fs.read p w ≡ ok bytes) × (bytes ≢ [])
  Flashable none w bytes =
      (info : FirmwareInfo) × (get_firmware_info json b.manifest ≡ ok info)
      × (verify_sha256_bytes sha256_hex b.image info.sha256 ≡ true)
      × (b.image ≡ bytes)
      × (bytes ≢ [])

  checked-ok :
      (info : FirmwareInfo) (bytes : Bytes)
      → checked fs json sha256_hex b info ≡ ok bytes
      → (verify_sha256_bytes sha256_hex b.image info.sha256 ≡ true) × (b.image ≡ bytes)
  checked-ok info bytes h = elim (Bool-cases (verify_sha256_bytes sha256_hex b.image info.sha256)) [
    | inl v ↦ let same : ok b.image ≡ ok bytes = rw v at h in (v, cc)
    | inr v ↦ let refused : err _ ≡ ok bytes = rw v at h in cc
  ]

  -- Bytes that `firmware_data` gives may be flashed, if there is any of them.
  pub firmware_data-Flashable :
      (firmware : Option Text) (w : W) (bytes : Bytes)
      → firmware_data fs json sha256_hex b firmware w ≡ ok bytes
      → bytes ≢ []
      → Flashable firmware w bytes
  unfolding firmware_data
  firmware_data-Flashable (some p) w bytes h full = elim (Bool-cases (fs.exists p w)) [
    | inr e ↦ let refused : err _ ≡ ok bytes = rw e at h in cc
    | inl e ↦ elim (Result-cases (fs.read p w)) [
      | inl (image, r) ↦
          let same : ok image ≡ ok bytes = rw (e, r) at h in
          let equal : image ≡ bytes = cc in (e, r ∙ ap (λ bs. ok bs) equal, full)
      | inr (x, r) ↦ let refused : err _ ≡ ok bytes = rw (e, r) at h in cc
    ]
  ]
  firmware_data-Flashable none w bytes h full =
      elim (Result-cases (get_firmware_info json b.manifest)) [
        | inl (info, i) ↦
            let good : checked fs json sha256_hex b info ≡ ok bytes = rw i at h in
            let (v, e) = checked-ok info bytes good in (info, i, v, e, full)
        | inr (x, i) ↦ let refused : err x ≡ ok bytes = rw i at h in cc
      ]

  firmware_data-ok :
      (firmware : Option Text) (w : W) (bytes : Bytes)
      → Flashable firmware w bytes
      → firmware_data fs json sha256_hex b firmware w ≡ ok bytes
  unfolding firmware_data
  firmware_data-ok (some p) w bytes (there, read, full) = rw (there, read) refl
  firmware_data-ok none w bytes (info, i, v, e, full) = rw (i, v, e) refl

  module _ (poisoned : W → Bool) (flash_bin : Text → Bytes → W → Flashed × W) (port : Text) where
    not_flashed :
        (firmware : Option Text) (w : W) (es : List FlashProgressEvent) (bytes : Bytes)
        → firmware_data fs json sha256_hex b firmware w ≡ ok bytes
        → ¬ (Flashable firmware w bytes)
        → flash_firmware_cmd poisoned flash_bin fs json sha256_hex b port firmware (w, es)
          ≡ (failed (codes "firmware file is empty"), (w, es))
    unfolding flash_firmware_cmd
    not_flashed firmware w es [] e h = rw e refl
    not_flashed firmware w es (x ∷ xs) e h =
        absurd (h (firmware_data-Flashable firmware w (x ∷ xs) e (λ q. cc)))

    -- Without bytes that may be flashed the command fails: the flasher is not called, the world
    -- stays as it is, and no event is emitted.
    pub flash_firmware_cmd-refused :
        (firmware : Option Text) (w : W) (es : List FlashProgressEvent)
        → ((bytes : Bytes) → ¬ (Flashable firmware w bytes))
        → (reason : Text) × (flash_firmware_cmd poisoned flash_bin fs json sha256_hex b port
              firmware
              (w, es)
            ≡ (failed reason, (w, es)))
    unfolding flash_firmware_cmd
    flash_firmware_cmd-refused firmware w es h =
        elim (Result-cases (firmware_data fs json sha256_hex b firmware w)) [
          | inl (bytes, e) ↦
              (codes "firmware file is empty", not_flashed firmware w es bytes e (h bytes))
          | inr (reason, e) ↦ (reason, rw e refl)
        ]

    announced-outcome :
        (r : Result Text (Unit {0})) (w : W) (es : List FlashProgressEvent)
        → announced poisoned flash_bin (outcome r, (w, es))
          ≡ (outcome r, (w, es ++ last_event r ∷ []))
    announced-outcome (ok u) w es = refl
    announced-outcome (err e) w es = refl

    flash_bytes-run :
        (w w' : W) (es : List FlashProgressEvent) (bytes : Bytes) (flashed : Flashed)
        → bytes ≢ []
        → poisoned w ≡ false
        → flash_bin port bytes w ≡ (flashed, w')
        → flash_bytes poisoned flash_bin port bytes (w, es) ≡ (
          outcome flashed.result,
          (w', (es ++ progress_events 0 flashed.reported) ++ last_event flashed.result ∷ []),
        )
    unfolding flash_session
    flash_bytes-run w w' es [] flashed full free run = absurd (full refl)
    flash_bytes-run w w' es (x ∷ xs) flashed full free run =
        rw (free, run)
          (announced-outcome flashed.result w' (es ++ progress_events 0 flashed.reported))

    Flashable-full :
        (firmware : Option Text) (w : W) (bytes : Bytes) → Flashable firmware w bytes → bytes ≢ []
    Flashable-full (some p) w bytes (there, read, full) = full
    Flashable-full none w bytes (info, i, v, e, full) = full

    pub flash_firmware_cmd-run :
        (firmware : Option Text) (w w' : W) (es : List FlashProgressEvent) (bytes : Bytes)
        (flashed : Flashed)
        → Flashable firmware w bytes
        → poisoned w ≡ false
        → flash_bin port bytes w ≡ (flashed, w')
        → flash_firmware_cmd poisoned flash_bin fs json sha256_hex b port firmware (w, es) ≡ (
          outcome flashed.result,
          (w', (es ++ progress_events 0 flashed.reported) ++ last_event flashed.result ∷ []),
        )
    unfolding flash_firmware_cmd
    flash_firmware_cmd-run firmware w w' es bytes flashed h free run =
        rw (firmware_data-ok firmware w bytes h)
          (flash_bytes-run w w' es bytes flashed (Flashable-full firmware w bytes h) free run)
