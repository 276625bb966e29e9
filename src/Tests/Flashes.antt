-- ===== src/Tests/Flashes.antt =====
-- Flashing a device whose memory is a function, at a concrete image.
use freematics_gui.Base.{
  ℕ, ◌+◌, ◌==◌, ==_refl, ◌<◌, ◌≡◌, refl, true, false, List, [], ◌∷◌, some, none, arith,
}
use freematics_gui.Base.Result.{ok, err}
use freematics_gui.Text.{Text, codes}
use freematics_gui.Text.Utf8.{Bytes}
use freematics_gui.Files.{Files}
use freematics_gui.Protocol.Port.{done}
use freematics_gui.Backup.Schema.{Json}
use freematics_gui.Flash.Native.{
  Espflash, flash_bin, init, update, verifying, finish, calls, call, percent,
}
use freematics_gui.Flash.Native.Memory.{Stands, Memory}
use freematics_gui.Commands.Threads
use freematics_gui.Commands.Flashing.{
  FlashProgressEvent, Bundle, flash_firmware_cmd, firmware_data, flash_session, progress_events,
}
use freematics_gui.Commands.Flashing.Gate.{Flashable}
use freematics_gui.Commands.Flashing.Memory.{flash_firmware_cmd-Stands, flash_firmware_cmd-kept}

-- The memory of the device.
abbrev Cells : Type 0
Cells = ℕ → ℕ

abbrev put : ℕ → Bytes → Cells → Cells
put a [] m = m
put a (b ∷ bs) m = Threads.update (put (a + 1) bs m) a b

after-ne : (a start : ℕ) → a < start → (start == a) ≡ false
after-ne a start h = ground arith

Stands-update :
    (m : Cells) (a x start : ℕ) (bs : Bytes)
    → a < start
    → Stands m start bs
    → Stands (Threads.update m a x) start bs
Stands-update m a x start [] h k = tt
Stands-update m a x start (b ∷ bs) h (k, ks) =
    (rw (after-ne a start h) k, Stands-update m a x (start + 1) bs (omega arith) ks)

next_after : (a : ℕ) → a < a + 1
next_after a = omega arith

put-Stands : (a : ℕ) (bs : Bytes) (m : Cells) → Stands (put a bs m) a bs
put-Stands a [] m = tt
put-Stands a (b ∷ bs) m = (
  rw (==_refl a) refl,
  Stands-update (put (a + 1) bs m) a b (a + 1) bs (next_after a) (put-Stands (a + 1) bs m),
)

before-ne : (i a : ℕ) → i < a → (i == a) ≡ false
before-ne i a h = ground arith

put_kept : (a i : ℕ) (bs : Bytes) (m : Cells) → i < a → put a bs m i ≡ m i
put_kept a i [] m h = refl
put_kept a i (b ∷ bs) m h = rw (before-ne i a h) (put_kept (a + 1) i bs m (omega arith))

-- A flasher that always succeeds, with two blocks.
abbrev toy_flasher : Espflash Cells Text Text
toy_flasher = record {
  open_native = λ path baud ms w. (ok path, w);
  connect = λ h stub verify skip baud w. (ok h, w);
  write_bin_to_flash = λ l addr image w. (
    (init addr 2 ∷ update 1 ∷ update 2 ∷ verifying ∷ finish false ∷ [], ok tt),
    put addr image w,
  );
}

toy_memory : Memory toy_flasher
toy_memory = record {
  cells = λ w. w;
  open_kept = λ path baud ms a w. refl;
  connect_kept = λ h stub verify skip baud a w. refl;
  write_stands = λ l addr image w e. put-Stands addr image w;
  write_kept = λ l addr a image w e h. put_kept addr a image w h;
}

abbrev one_image : Files Cells
one_image = record {
  exists = λ path w. true;
  read = λ path w. ok (codes "ab");
  read_to_string = λ path w. ok (codes "ab");
  create = λ path w. (ok tt, w);
  write_all = λ path bs w. (ok tt, w);
}

abbrev no_json : Json Text
no_json = record { from_str = λ t. err t; get = λ k v. none; as_str = λ v. none }

abbrev no_bundle : Bundle
no_bundle = record { manifest = []; image = [] }

abbrev blank_memory : Cells
blank_memory a = 255

abbrev ended_memory : Cells
ended_memory = put 0x10000 (codes "ab") blank_memory

abbrev events : List FlashProgressEvent
events =
    record { percentage = 50; stage = codes "writing" }
    ∷ record { percentage = 100; stage = codes "done" }
    ∷ record { percentage = 100; stage = codes "done" }
    ∷ []

flash-succeeds :
    flash_firmware_cmd
      (λ w. false)
      (flash_bin toy_flasher)
      one_image
      no_json
      (λ bs. bs)
      no_bundle
      (codes "COM3")
      (some (codes "fw.bin"))
      (blank_memory, [])
    ≡ (done tt, (ended_memory, events))
unfolding flash_firmware_cmd firmware_data flash_session flash_bin progress_events calls call
    percent
flash-succeeds = refl

flash_firmware_cmd-Stands_example :
    (bytes : Bytes) × Flashable one_image no_json
      (λ bs. bs)
      no_bundle
      (some (codes "fw.bin"))
      blank_memory
      bytes
    × Stands (toy_memory.cells ended_memory) 0x10000 bytes
flash_firmware_cmd-Stands_example =
    flash_firmware_cmd-Stands one_image no_json (λ bs. bs) no_bundle (λ w. false) toy_flasher
      toy_memory (codes "COM3") (some (codes "fw.bin")) blank_memory ended_memory [] events
      flash-succeeds

flash_firmware_cmd-kept_example :
    toy_memory.cells
      (flash_firmware_cmd
        (λ w. false)
        (flash_bin toy_flasher)
        one_image
        no_json
        (λ bs. bs)
        no_bundle
        (codes "COM3")
        (some (codes "fw.bin"))
        (blank_memory, [])).1.0
      0x9000
    ≡ toy_memory.cells blank_memory 0x9000
flash_firmware_cmd-kept_example =
    flash_firmware_cmd-kept one_image no_json (λ bs. bs) no_bundle (λ w. false) toy_flasher
      toy_memory (codes "COM3") (some (codes "fw.bin")) blank_memory [] 0x9000 (omega arith)

-- The lock is poisoned.
abbrev complaint : List FlashProgressEvent
complaint = record { percentage = 0; stage = codes "error: serial port lock poisoned" } ∷ []
