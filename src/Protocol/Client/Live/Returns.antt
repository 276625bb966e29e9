-- ===== src/Protocol/Client/Live/Returns.antt =====
-- protocol/client.rs: whether the poll of the live data ends, and with what.
use freematics_gui.Base.{◌▹◌, ◌<◌, ◌≡◌, List, [], ◌∷◌, Option, none, some, inl, inr}
use freematics_gui.Text.{Text}
use freematics_gui.Protocol.Float.{Float}
use freematics_gui.Protocol.Port.{done, Io, attempt}
use freematics_gui.Protocol.Client.{SerialClient, send}
use freematics_gui.Protocol.Client.Keeps.{Outcome-cases}
use freematics_gui.Protocol.Client.Returns.{
  IsFinite, Returns, pure-Returns, bind-Returns, attempt-Returns,
}
use freematics_gui.Protocol.Client.Returns.Commands.{send-Returns}
use freematics_gui.Protocol.Client.Live.{
  LiveData, Step, live_steps, poll, get_live_data, live_str, live_num, default_live, fill, go_on,
}
use freematics_gui.Protocol.Client.Live.Total.{get_live_data-ne-failed}

module _ {S : Type 0} (c : SerialClient S) (x : IsFinite c) where
  live_str-Returns : (key : Text) → Returns c x (live_str c key)
  unfolding live_str
  live_str-Returns key =
      bind-Returns c x (attempt (send c key)) _
        (attempt-Returns c x (send c key) (send-Returns c x key)) (λ a. pure-Returns c x _)

  live_num-Returns :
      {T : Type 0} (parse : Text → Option T) (z : T) (key : Text)
      → Returns c x (live_num c parse z key)
  unfolding live_num
  live_num-Returns parse z key =
      bind-Returns c x (attempt (send c key)) _
        (attempt-Returns c x (send c key) (send-Returns c x key)) (λ a. pure-Returns c x _)

module _ {F D S : Type 0} (fl : Float F) (db : Float D) (c : SerialClient S) (x : IsFinite c) where
  abbrev AllReturns : List (Step fl db c) → Type 0
  AllReturns [] = Unit
  AllReturns (ask ∷ steps) = ((d : LiveData F D) → Returns c x (ask d)) × AllReturns steps

  fill-Returns :
      {T : Type 0} (ask : Io S (Option T)) (store : T → LiveData F D)
      → Returns c x ask
      → Returns c x (fill fl db c ask store)
  fill-Returns ask store h = bind-Returns c x ask _ h (λ a. pure-Returns c x _)

  go_on-Returns :
      (d : LiveData F D) (rest : LiveData F D → Io S (LiveData F D)) (o : Option (LiveData F D))
      → ((d' : LiveData F D) → Returns c x (rest d'))
      → Returns c x (go_on fl db c d rest o)
  go_on-Returns d rest none h = pure-Returns c x d
  go_on-Returns d rest (some d') h = h d'

  poll-Returns :
      (steps : List (Step fl db c)) (d : LiveData F D)
      → AllReturns steps
      → Returns c x (poll fl db c steps d)
  unfolding poll
  poll-Returns [] d h = pure-Returns c x d
  poll-Returns (ask ∷ steps) d (h, hs) =
      bind-Returns c x (ask d) _ (h d)
        (λ o. go_on-Returns d (poll fl db c steps) o (λ d'. poll-Returns steps d' hs))

  num :
      {T : Type 0} (parse : Text → Option T) (z : T) (key : Text) (store : T → LiveData F D)
      → Returns c x (fill fl db c (live_num c parse z key) store)
  num parse z key store =
      fill-Returns (live_num c parse z key) store (live_num-Returns c x parse z key)

  str :
      (key : Text) (store : Text → LiveData F D) → Returns c x (fill fl db c (live_str c key) store)
  str key store = fill-Returns (live_str c key) store (live_str-Returns c x key)

  live_steps-Returns : AllReturns (live_steps fl db c)
  unfolding live_steps
  live_steps-Returns =
      (λ d. num _ _ _ _)
      ▹ (λ d. num _ _ _ _)
      ▹ (λ d. str _ _)
      ▹ (λ d. num _ _ _ _)
      ▹ (λ d. num _ _ _ _)
      ▹ (λ d. num _ _ _ _)
      ▹ (λ d. num _ _ _ _)
      ▹ (λ d. num _ _ _ _)
      ▹ (λ d. num _ _ _ _)
      ▹ (λ d. num _ _ _ _)
      ▹ (λ d. str _ _)
      ▹ (λ d. str _ _)
      ▹ tt

  -- `get_live_data` ends with data, never with an error, on a device that never has more bytes to
  -- say than the bound of the client.
  pub get_live_data-returns :
      (s : S) → x.left s < c.fuel → (d : LiveData F D) × ((get_live_data fl db c s).0 ≡ done d)
  unfolding get_live_data
  get_live_data-returns s h = elim (Outcome-cases (get_live_data fl db c s).0) [
    | inl e ↦
        absurd ((poll-Returns (live_steps fl db c) (default_live fl db) live_steps-Returns s h).0 e)
    | inr (inl (error, e)) ↦ absurd (get_live_data-ne-failed fl db c s error e)
    | inr (inr (d, e)) ↦ (d, e)
  ]
