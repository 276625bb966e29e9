-- ===== src/Commands/Threads/Progress.antt =====
-- commands.rs: that the lock never leaves a thread stuck, and what a panic under it does.
use freematics_gui.Base.{
  ℕ, ◌==◌, ==_iff, ◌⊎◌, true, false, Bool-cases, inl, inr, none, some, Option-cases, ◌≡◌, ◌≢◌, refl,
  sym, ap, ◌∙◌,
}
use freematics_gui.Protocol.Port.{spinning}
use freematics_gui.Commands.Threads.{
  Work, access, finish, crash, Ending, Thread, waiting, working, over, Process, update, Step,
  acquire, refuse, work, release, panic, Reach, here, later, start, returned, run,
}
use freematics_gui.Commands.Threads.Order.{Inv, Reach-Inv, update_same, update_other}

module _ {W A : Type 0} where
  Reach-trans : {p q r : Process W A} → Reach p q → Reach q r → Reach p r
  Reach-trans a here = a
  Reach-trans a (later b s) = later (Reach-trans a b) s

  -- After `p` the thread is over, nobody owns the lock, and the other threads are where they were.
  record Ended (p : Process W A) (i : ℕ) : Type 0 where
    after : Process W A
    reach : Reach p after
    ending : Ending A
    is_over : after.threads i ≡ over ending
    is_free : after.owner ≡ none
    others : (j : ℕ) → (j == i) ≡ false → after.threads j ≡ p.threads j

  -- A session that comes to an end does so in steps of its thread alone.
  session_ends :
      (m : Work W A) (p : Process W A) (i : ℕ)
      → (run m p.world).0 ≢ returned spinning
      → p.threads i ≡ working m
      → Ended p i
  unfolding run
  session_ends (finish r) p i ends at = record {
    after = _;
    reach = later here (release i r (λ e. ends (ap (λ x. returned x) e)) at);
    ending = _;
    is_over = update_same p.threads i _;
    is_free = refl;
    others = λ j other. update_other p.threads i _ j other;
  }
  session_ends crash p i ends at = record {
    after = _;
    reach = later here (panic i at);
    ending = _;
    is_over = update_same p.threads i _;
    is_free = refl;
    others = λ j other. update_other p.threads i _ j other;
  }
  session_ends (access f k) p i ends at =
      let rest =
        session_ends (k p.world)
          (record p { world = f p.world; threads = update p.threads i (working (k p.world)) }) i
          ends (update_same p.threads i _) in
      record {
        after = rest.after;
        reach = Reach-trans (later here (work i f k at)) rest.reach;
        ending = rest.ending;
        is_over = rest.is_over;
        is_free = rest.is_free;
        others = λ j other. rest.others j other ∙ update_other p.threads i _ j other;
      }

  -- A thread may still end.
  abbrev pub CanEnd : Process W A → ℕ → Type 0
  CanEnd p i = (q : Process W A) × Reach p q × (e : Ending A) × (q.threads i ≡ over e)

  CanEnd-later : {p q : Process W A} {i : ℕ} → Reach p q → CanEnd q i → CanEnd p i
  CanEnd-later a (q, b, e, o) = (q, Reach-trans a b, e, o)

  -- With the lock free, a thread that waits is served next.
  CanEnd-waiting :
      (m : Work W A) (p : Process W A) (i : ℕ)
      → p.threads i ≡ waiting m
      → p.owner ≡ none
      → (run m p.world).0 ≢ returned spinning
      → CanEnd p i
  CanEnd-waiting m p i at free ends = elim (Bool-cases p.poisoned) [
    | inl poisoned ↦ (_, later here (refuse i m at free poisoned), _, update_same p.threads i _)
    | inr clean ↦
        let rest =
          session_ends m (record p { owner = some i; threads = update p.threads i (working m) }) i
            ends (update_same p.threads i _) in
        (
          rest.after,
          Reach-trans (later here (acquire i m at free clean)) rest.reach,
          rest.ending,
          rest.is_over,
        )
  ]

  Thread-cases :
      (t : Thread W A)
      → ((m : Work W A) × (t ≡ waiting m))
        ⊎ (((m : Work W A) × (t ≡ working m)) ⊎ ((e : Ending A) × (t ≡ over e)))
  Thread-cases (waiting m) = inl (m, refl)
  Thread-cases (working m) = inr (inl (m, refl))
  Thread-cases (over e) = inr (inr (e, refl))

module _ {W A : Type 0} (works : ℕ → Work W A) (w : W) where
  CanEnd-blocked :
      (p : Process W A) (i j : ℕ) (m n : Work W A)
      → p.threads i ≡ waiting m
      → p.threads j ≡ working n
      → ((v : W) → (run m v).0 ≢ returned spinning)
      → (run n p.world).0 ≢ returned spinning
      → CanEnd p i
  CanEnd-blocked p i j m n at_i at_j ends_i ends_j = elim (Bool-cases (i == j)) [
    | inl e ↦
        let same : p.threads i ≡ p.threads j = ap p.threads ((==_iff i j).0 e) in
        absurd (apart (sym at_i ∙ same ∙ at_j))
    | inr other ↦
        let first = session_ends n p j ends_j at_j in
        CanEnd-later first.reach (
          CanEnd-waiting m first.after i (first.others i other ∙ at_i) first.is_free
            (ends_i first.after.world))
  ]
    where
      apart : waiting m ≡ working n → ⊥
      apart q = cc

  -- No thread is stuck if no session runs for ever: from every state that threads sharing the lock
  -- can reach, each thread has a way to its end, also while another owns the lock, and after a panic.
  pub threads-CanEnd :
      (p : Process W A)
      → ((j : ℕ) (v : W) → (run (works j) v).0 ≢ returned spinning)
      → Reach (start works w) p
      → (i : ℕ) → CanEnd p i
  threads-CanEnd p ends r i = elim (Thread-cases (p.threads i)) [
    | inr (inr (e, at)) ↦ (p, here, e, at)
    | inr (inl (m, at)) ↦
        let rest = session_ends m p i (owner_ends i m at) at in
        (rest.after, rest.reach, rest.ending, rest.is_over)
    | inl (m, at) ↦
        let same : m ≡ works i = (Reach-Inv works w r).fresh i m at in
        let waiting_ends : (v : W) → (run m v).0 ≢ returned spinning = λ v. rw same (ends i v) in
        elim (Option-cases p.owner) [
          | inl free ↦ CanEnd-waiting m p i at free (waiting_ends p.world)
          | inr (j, owned) ↦
              let (n, at_j, same_end) = (Reach-Inv works w r).held j owned in
              CanEnd-blocked p i j m n at at_j waiting_ends (owner_ends j n at_j)
        ]
  ]
    where
      owner_ends :
          (j : ℕ) (n : Work W A) → p.threads j ≡ working n → (run n p.world).0 ≢ returned spinning
      owner_ends j n at_j e =
          let inv = Reach-Inv works w r in
          let (n', at', same) = inv.held j (inv.unique j n at_j) in
          let equal : n' ≡ n = cc in
          ends j inv.settled (ap (λ x. x.0) (sym same ∙ ap (λ x. run x p.world) equal) ∙ e)

  Step-poisoned :
      {p q : Process W A}
      → Inv works w p
      → p.poisoned ≡ true
      → Step p q
      → (q.world ≡ p.world) × (q.poisoned ≡ true)
  Step-poisoned inv h (acquire i m at free clean) = absurd (apart (sym h ∙ clean))
    where
      apart : true ≡ false → ⊥
      apart q = cc
  Step-poisoned inv h (refuse i m at free poisoned) = (refl, h)
  Step-poisoned inv h (work i f k at) =
      let owns = inv.unique i (access f k) at in let free = inv.closed h in cc
  Step-poisoned inv h (release i r ends at) = (refl, h)
  Step-poisoned inv h (panic i at) = (refl, refl)

  -- After a panic under the lock no session touches the world again, in any interleaving.
  pub poisoned_for_good :
      (p q : Process W A)
      → Reach (start works w) p
      → p.poisoned ≡ true
      → Reach p q
      → (q.world ≡ p.world) × (q.poisoned ≡ true)
  poisoned_for_good p q r h here = (refl, h)
  poisoned_for_good p q r h (later {q = q'} s st) =
      let (same, poisoned) = poisoned_for_good p q' r h s in
      let (same', poisoned') = Step-poisoned (Reach-Inv works w (Reach-trans r s)) poisoned st in
      (same' ∙ same, poisoned')
