-- ===== src/Protocol/Client/Live/Total.antt =====
-- protocol/client.rs: how the poll of the live data may end.
use freematics_gui.Base.{◌▹◌, ◌≢◌, refl, List, [], ◌∷◌, Option, none, some}
use freematics_gui.Text.{Text}
use freematics_gui.Protocol.Float.{Float}
use freematics_gui.Protocol.Port.{
  Outcome, done, failed, spinning, IoError, Act, and_then, attempt, ◌>>=◌, Io, pure,
}
use freematics_gui.Protocol.Client.{SerialClient, send}
use freematics_gui.Protocol.Client.Live.{
  LiveData, Step, live_steps, poll, get_live_data, live_str, live_num, default_live, fill, go_on,
}

-- The action does not end in an error.
abbrev Unfailing : {S E A : Type 0} → Act S E A → Type 0
Unfailing {S} {E} m = (s : S) (e : E) → (m s).0 ≢ failed e

module _ {S E A : Type 0} where
  recovered-ne-failed : (r : Outcome E A × S) (e : E) → (attempt (λ (s : S). r) r.1).0 ≢ failed e
  recovered-ne-failed (done a, s) e q = cc
  recovered-ne-failed (failed x, s) e q = cc
  recovered-ne-failed (spinning, s) e q = cc

  attempt-Unfailing : (m : Act S E A) → Unfailing (attempt m)
  attempt-Unfailing m s e = recovered-ne-failed (m s) e

  pure-Unfailing : (a : A) → Unfailing {S = S} {E = E} {A = A} (pure a)
  pure-Unfailing a s e q = cc

module _ {S E A B : Type 0} where
  and_then-ne-failed :
      (r : Outcome E A × S) (f : A → Act S E B)
      → ((e : E) → r.0 ≢ failed e)
      → ((a : A) → Unfailing (f a))
      → (e : E) → (and_then r f).0 ≢ failed e
  and_then-ne-failed (done a, s) f h k e q = k a s e q
  and_then-ne-failed (failed x, s) f h k e q = h x refl
  and_then-ne-failed (spinning, s) f h k e q = cc

  bind-Unfailing :
      (m : Act S E A) (f : A → Act S E B)
      → Unfailing m
      → ((a : A) → Unfailing (f a))
      → Unfailing (m >>= f)
  bind-Unfailing m f h k s = and_then-ne-failed (m s) f (h s) k

module _ {S : Type 0} (c : SerialClient S) where
  live_str-Unfailing : (key : Text) → Unfailing (live_str c key)
  unfolding live_str
  live_str-Unfailing key =
      bind-Unfailing (attempt (send c key)) _ (attempt-Unfailing (send c key))
        (λ a. pure-Unfailing _)

  live_num-Unfailing :
      {T : Type 0} (parse : Text → Option T) (z : T) (key : Text)
      → Unfailing (live_num c parse z key)
  unfolding live_num
  live_num-Unfailing parse z key =
      bind-Unfailing (attempt (send c key)) _ (attempt-Unfailing (send c key))
        (λ a. pure-Unfailing _)

module _ {F D S : Type 0} (fl : Float F) (db : Float D) (c : SerialClient S) where
  abbrev AllUnfailing : List (Step fl db c) → Type 0
  AllUnfailing [] = Unit
  AllUnfailing (ask ∷ steps) = ((d : LiveData F D) → Unfailing (ask d)) × AllUnfailing steps

  fill-Unfailing :
      {T : Type 0} (ask : Io S (Option T)) (store : T → LiveData F D)
      → Unfailing ask
      → Unfailing (fill fl db c ask store)
  fill-Unfailing ask store h = bind-Unfailing ask _ h (λ a. pure-Unfailing _)

  go_on-Unfailing :
      (d : LiveData F D) (rest : LiveData F D → Io S (LiveData F D)) (o : Option (LiveData F D))
      → ((d' : LiveData F D) → Unfailing (rest d'))
      → Unfailing (go_on fl db c d rest o)
  go_on-Unfailing d rest none h = pure-Unfailing d
  go_on-Unfailing d rest (some d') h = h d'

  poll-Unfailing :
      (steps : List (Step fl db c)) (d : LiveData F D)
      → AllUnfailing steps
      → Unfailing (poll fl db c steps d)
  unfolding poll
  poll-Unfailing [] d h = pure-Unfailing d
  poll-Unfailing (ask ∷ steps) d (h, hs) =
      bind-Unfailing (ask d) _ (h d)
        (λ o. go_on-Unfailing d (poll fl db c steps) o (λ d'. poll-Unfailing steps d' hs))

  live_steps-Unfailing : AllUnfailing (live_steps fl db c)
  unfolding live_steps
  live_steps-Unfailing =
      (λ d. fill-Unfailing _ _ (live_num-Unfailing c _ _ _))
      ▹ (λ d. fill-Unfailing _ _ (live_num-Unfailing c _ _ _))
      ▹ (λ d. fill-Unfailing _ _ (live_str-Unfailing c _))
      ▹ (λ d. fill-Unfailing _ _ (live_num-Unfailing c _ _ _))
      ▹ (λ d. fill-Unfailing _ _ (live_num-Unfailing c _ _ _))
      ▹ (λ d. fill-Unfailing _ _ (live_num-Unfailing c _ _ _))
      ▹ (λ d. fill-Unfailing _ _ (live_num-Unfailing c _ _ _))
      ▹ (λ d. fill-Unfailing _ _ (live_num-Unfailing c _ _ _))
      ▹ (λ d. fill-Unfailing _ _ (live_num-Unfailing c _ _ _))
      ▹ (λ d. fill-Unfailing _ _ (live_num-Unfailing c _ _ _))
      ▹ (λ d. fill-Unfailing _ _ (live_str-Unfailing c _))
      ▹ (λ d. fill-Unfailing _ _ (live_str-Unfailing c _))
      ▹ tt

  -- `get_live_data` returns no error, whatever the port does, a failed write or read included.
  pub get_live_data-ne-failed : (s : S) (e : IoError) → (get_live_data fl db c s).0 ≢ failed e
  unfolding get_live_data
  get_live_data-ne-failed =
      poll-Unfailing (live_steps fl db c) (default_live fl db) live_steps-Unfailing
