-- ===== src/Commands/Threads/Order.antt =====
-- commands.rs: the sessions of threads that share the lock, against sessions one after the other.
use freematics_gui.Base.{
  ℕ, ◌==◌, ==_iff, ==_refl, Bool, true, false, Bool-cases, inl, inr, List, [], ◌∷◌, ◌++◌, map, none,
  some, ◌≡◌, refl, sym, ap, ◌∙◌,
}
use mathlib.Core.Path.{subst}
use mathlib.Core.List.{map-append}
use freematics_gui.Commands.Threads.{
  Work, access, finish, crash, Ending, returned, panicked, waiting, working, over, Process, update,
  ended, Step, acquire, refuse, work, release, panic, Reach, here, later, start, run, in_turn,
}

module _ {A : Type 0} (f : ℕ → A) (i : ℕ) (a : A) where
  pub update_same : update f i a i ≡ a
  update_same = rw (==_refl i) refl

  pub update_other : (j : ℕ) → (j == i) ≡ false → update f i a j ≡ f j
  update_other j e = rw e refl

  -- What stands at an index after an update is the new thing, or is old.
  update-cases :
      (C : ℕ → A → Type 0)
      → C i a
      → ((j : ℕ) → (j == i) ≡ false → C j (f j))
      → (j : ℕ) → C j (update f i a j)
  update-cases C new old j = elim (Bool-cases (j == i)) [
    | inl e ↦ rw e (subst (λ k. C k a) (sym ((==_iff j i).0 e)) new)
    | inr e ↦ rw e (old j e)
  ]

module _ {W A : Type 0} (works : ℕ → Work W A) where
  in_turn-append :
      (is : List ℕ) (i : ℕ) (w : W)
      → in_turn works (is ++ i ∷ []) w ≡ (
        (in_turn works is w).0 ++ (i, (run (works i) (in_turn works is w).1).0) ∷ [],
        (run (works i) (in_turn works is w).1).1,
      )
  unfolding in_turn
  in_turn-append [] i w = refl
  in_turn-append (j ∷ is) i w = rw (in_turn-append is i (run (works j) w).1) refl

  -- What the threads have done so far: the sessions that are over have run one after the other, and
  -- left the world `settled`; the thread that owns the lock is on its way from there.
  pub record Inv (w : W) (p : Process W A) : Type 0 where
    pub settled : W
    pub replayed : in_turn works (map (λ (s : ℕ × Ending A). s.0) p.served) w ≡ (p.served, settled)
    pub fresh : (i : ℕ) (m : Work W A) → p.threads i ≡ waiting m → m ≡ works i
    pub unique : (i : ℕ) (m : Work W A) → p.threads i ≡ working m → p.owner ≡ some i
    pub free : p.owner ≡ none → p.world ≡ settled
    pub held :
        (i : ℕ)
        → p.owner ≡ some i
        → (m : Work W A) × (p.threads i ≡ working m) × (run m p.world ≡ run (works i) settled)
    pub closed : p.poisoned ≡ true → p.owner ≡ none

  one_owner :
      {w : W} {p : Process W A} (inv : Inv w p) (i j : ℕ) (m n : Work W A)
      → p.threads i ≡ working m
      → p.threads j ≡ working n
      → (j == i) ≡ false
      → ⊥
  one_owner inv i j m n at_i at_j other =
      let owns_i = inv.unique i m at_i in
      let owns_j = inv.unique j n at_j in
      let same : i ≡ j = cc in let differ : (j == j) ≡ false = rw same at other in cc (==_refl j)

  start-Inv : (w : W) → Inv w (start works w)
  unfolding in_turn
  start-Inv w = record {
    settled = w;
    replayed = refl;
    fresh = λ i m e. cc;
    unique = λ i m e. cc;
    free = λ e. refl;
    held = λ i e. cc;
    closed = λ e. refl;
  }

  -- The histories of the sessions that are over, with one more.
  replayed-ended :
      (served : List (ℕ × Ending A)) (i : ℕ) (e : Ending A) (w settled w' : W)
      → in_turn works (map (λ (s : ℕ × Ending A). s.0) served) w ≡ (served, settled)
      → run (works i) settled ≡ (e, w')
      → in_turn works (map (λ (s : ℕ × Ending A). s.0) (served ++ (i, e) ∷ [])) w
        ≡ (served ++ (i, e) ∷ [], w')
  replayed-ended served i e w settled w' h k =
      rw
        (
          map-append (λ (s : ℕ × Ending A). s.0) served ((i, e) ∷ []),
          in_turn-append (map (λ (s : ℕ × Ending A). s.0) served) i w,
          h,
          k,
        )
        refl

  -- A session that ends leaves its world settled.
  ended-Inv :
      (w : W) (p : Process W A) (i : ℕ) (m : Work W A) (e : Ending A) (poison : Bool)
      → Inv w p
      → p.threads i ≡ working m
      → run m p.world ≡ (e, p.world)
      → Inv w (ended p i e poison)
  ended-Inv w p i m e poison inv at result =
      let (m', at', same) = inv.held i (inv.unique i m at) in
      let equal : m' ≡ m = cc in
      record {
        settled = p.world;
        replayed =
            replayed-ended p.served i e w inv.settled p.world inv.replayed
              (sym same ∙ ap (λ x. run x p.world) equal ∙ result);
        fresh =
            update-cases p.threads i (over e) (λ j t. (n : Work W A) → t ≡ waiting n → n ≡ works j)
              (λ n q. cc) (λ j other. inv.fresh j);
        unique =
            update-cases p.threads i (over e)
              (λ j t. (n : Work W A) → t ≡ working n → none ≡ some j) (λ n q. cc)
              (λ j other n q. absurd (one_owner inv i j m n at q other));
        free = λ q. refl;
        held = λ j q. cc;
        closed = λ q. refl;
      }

  pub Step-Inv : {w : W} {p q : Process W A} → Step p q → Inv w p → Inv w q
  unfolding run
  Step-Inv {w} {p} (acquire i m at free clean) inv = record {
    settled = inv.settled;
    replayed = inv.replayed;
    fresh =
        update-cases p.threads i (working m) (λ j t. (n : Work W A) → t ≡ waiting n → n ≡ works j)
          (λ n q. cc) (λ j other. inv.fresh j);
    unique =
        update-cases p.threads i (working m)
          (λ j t. (n : Work W A) → t ≡ working n → some i ≡ some j) (λ n q. refl)
          (λ j other n q. let owns = inv.unique j n q in cc);
    free = λ q. cc;
    held = λ j q.
        let same : i ≡ j = cc in
        rw (← same) (
          m,
          update_same p.threads i (working m),
          ap (λ n. run n p.world) (inv.fresh i m at) ∙ ap (run (works i)) (inv.free free),
        );
    closed = λ q. cc;
  }
  Step-Inv {w} {p} (refuse i m at free poisoned) inv = record {
    settled = inv.settled;
    replayed = inv.replayed;
    fresh =
        update-cases p.threads i _ (λ j t. (n : Work W A) → t ≡ waiting n → n ≡ works j) (λ n q. cc)
          (λ j other. inv.fresh j);
    unique =
        update-cases p.threads i _ (λ j t. (n : Work W A) → t ≡ working n → p.owner ≡ some j)
          (λ n q. cc) (λ j other. inv.unique j);
    free = inv.free;
    held = λ j q. cc;
    closed = inv.closed;
  }
  Step-Inv {w} {p} (work i f k at) inv =
      let owns = inv.unique i (access f k) at in
      record {
        settled = inv.settled;
        replayed = inv.replayed;
        fresh =
            update-cases p.threads i (working (k p.world))
              (λ j t. (n : Work W A) → t ≡ waiting n → n ≡ works j) (λ n q. cc)
              (λ j other. inv.fresh j);
        unique =
            update-cases p.threads i (working (k p.world))
              (λ j t. (n : Work W A) → t ≡ working n → p.owner ≡ some j) (λ n q. owns)
              (λ j other. inv.unique j);
        free = λ q. cc;
        held = λ j q.
            let same : i ≡ j = cc in
            let (m, at', e) = inv.held i owns in
            let equal : m ≡ access f k = cc in
            rw (← same) (
              k p.world,
              update_same p.threads i (working (k p.world)),
              sym (ap (λ n. run n p.world) equal) ∙ e,
            );
        closed = λ q. let none_owns = inv.closed q in cc;
      }
  Step-Inv {w} {p} (release i r ends at) inv =
      ended-Inv w p i (finish r) (returned r) p.poisoned inv at refl
  Step-Inv {w} {p} (panic i at) inv = ended-Inv w p i crash panicked true inv at refl

  pub Reach-Inv : (w : W) {p : Process W A} → Reach (start works w) p → Inv w p
  Reach-Inv w here = start-Inv w
  Reach-Inv w (later r s) = Step-Inv s (Reach-Inv w r)

  -- Two threads are never in a session at once.
  pub mutual_exclusion :
      (w : W) (p : Process W A)
      → Reach (start works w) p
      → (i j : ℕ) (m n : Work W A) → p.threads i ≡ working m
      → p.threads j ≡ working n
      → i ≡ j
  mutual_exclusion w p r i j m n at_i at_j =
      let inv = Reach-Inv w r in
      let owns_i = inv.unique i m at_i in let owns_j = inv.unique j n at_j in cc

  -- However the threads are interleaved: whenever no session is under way, the world and the endings
  -- of the sessions so far are those of running these one after the other, each in one piece.
  pub sessions_in_turn :
      (w : W) (p : Process W A)
      → Reach (start works w) p
      → p.owner ≡ none
      → in_turn works (map (λ (s : ℕ × Ending A). s.0) p.served) w ≡ (p.served, p.world)
  sessions_in_turn w p r free =
      let inv = Reach-Inv w r in inv.replayed ∙ ap (λ v. (p.served, v)) (sym (inv.free free))
