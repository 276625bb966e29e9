-- ===== src/Commands/Threads.antt =====
-- commands.rs, `serial_lock` and the blocking tasks of `with_serial` and `flash_firmware_cmd`: threads
-- that take one lock for a session with the world, interleaved in any order.
pub mod Order
pub mod Progress
use freematics_gui.Base.{
  ℕ, ◌==◌, Bool, true, false, if◌then◌else◌, List, [], ◌∷◌, ◌++◌, Option, none, some, ◌≡◌, ◌≢◌,
}
use freematics_gui.Text.{Text}
use freematics_gui.Protocol.Port.{Outcome, failed, spinning}
use freematics_gui.Commands.{lock_poisoned}

-- What is left of the closure of a session, an access to the world at a time: how it goes on depends
-- on what it finds there. It ends with a value for the caller, or panics, or has come to
-- `finish spinning`: its reads go on for ever, and it keeps the lock.
pub data Work (W A : Type 0) : Type 0 where
  finish : Outcome Text A → Work W A
  crash : Work W A
  access : (W → W) → (W → Work W A) → Work W A

-- What `spawn_blocking(…).await` gives: the value of the closure, or a `JoinError`.
pub data Ending (A : Type 0) : Type 0 where
  returned : Outcome Text A → Ending A
  panicked : Ending A

pub data Thread (W A : Type 0) : Type 0 where
  waiting : Work W A → Thread W A  -- before `lock()` returns
  working : Work W A → Thread W A  -- with the guard
  over : Ending A → Thread W A

-- `served` is the history of the sessions, in the order of their ends.
pub record Process (W A : Type 0) : Type 0 where
  pub world : W
  pub owner : Option ℕ
  pub poisoned : Bool
  pub threads : ℕ → Thread W A
  pub served : List (ℕ × Ending A)

abbrev pub update : {A : Type 0} → (ℕ → A) → ℕ → A → ℕ → A
update f i a j = if j == i then a else f j

module _ {W A : Type 0} where
  -- A thread gives the lock back, and its session is over.
  abbrev pub ended : Process W A → ℕ → Ending A → Bool → Process W A
  ended p i e poison = record {
    world = p.world;
    owner = none;
    poisoned = poison;
    threads = update p.threads i (over e);
    served = p.served ++ (i, e) ∷ [];
  }

  -- A thread waits while another owns the lock, for ever if that one's reads go on for ever. If a thread panics with the guard, the lock is given
  -- back poisoned, and from then on `lock()` gives an error.
  pub data Step (p : Process W A) : Process W A → Type 0 where
    acquire :
        (i : ℕ) (m : Work W A)
        → p.threads i ≡ waiting m
        → p.owner ≡ none
        → p.poisoned ≡ false
        → Step p (record p { owner = some i; threads = update p.threads i (working m) })
    refuse :
        (i : ℕ) (m : Work W A)
        → p.threads i ≡ waiting m
        → p.owner ≡ none
        → p.poisoned ≡ true
        → Step p
            (record p { threads = update p.threads i (over (returned (failed lock_poisoned))) })
    work :
        (i : ℕ) (f : W → W) (k : W → Work W A)
        → p.threads i ≡ working (access f k)
        → Step p
            (record p { world = f p.world; threads = update p.threads i (working (k p.world)) })
    release :
        (i : ℕ) (r : Outcome Text A)
        → r ≢ spinning
        → p.threads i ≡ working (finish r)
        → Step p (ended p i (returned r) p.poisoned)
    panic : (i : ℕ) → p.threads i ≡ working crash → Step p (ended p i panicked true)

  abbrev pub start : (ℕ → Work W A) → W → Process W A
  start works w = record {
    world = w;
    owner = none;
    poisoned = false;
    threads = λ i. waiting (works i);
    served = [];
  }

  pub data Reach (p : Process W A) : Process W A → Type 0 where
    here : Reach p p
    later : {q r : Process W A} → Reach p q → Step q r → Reach p r

  -- A session by itself, from first to last access.
  unfoldable pub run : Work W A → W → Ending A × W
  run (finish r) w = (returned r, w)
  run crash w = (panicked, w)
  run (access f k) w = run (k w) (f w)

  -- Sessions one after the other.
  unfoldable pub in_turn : (ℕ → Work W A) → List ℕ → W → List (ℕ × Ending A) × W
  in_turn works [] w = ([], w)
  in_turn works (i ∷ is) w =
      let (e, w') = run (works i) w in let (es, w'') = in_turn works is w' in ((i, e) ∷ es, w'')
