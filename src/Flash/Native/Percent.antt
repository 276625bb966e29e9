-- ===== src/Flash/Native/Percent.antt =====
-- flash/native.rs: the percentages that the native flasher reports.
use Prim.Native.Nat.{min}
use native.Mathlib.Nat.{le_trans, le-div_iff_mul-le, div-mul-le_self, mul-div_cancel_left}
use freematics_gui.Base.{
  ℕ, ◌*◌, ◌/◌, ◌≤◌, ◌<◌, ◌≡◌, List, [], ◌∷◌, All, All-append, arith, ◌==◌, Bool-cases, inl, inr,
}
use freematics_gui.Flash.Native.{
  Call, init, update, verifying, finish, Progress, percent, call, calls, fresh, max_usize,
}

pub percent_le : (total current : ℕ) → percent total current ≤ 100
unfolding percent
percent_le total current = ground arith

call-le :
    (p : Progress) (k : Call)
    → All (λ n. n ≤ 100) p.reported
    → All (λ n. n ≤ 100) (call p k).reported
unfolding call
call-le p (init addr total) h = All-append _ p.reported (0 ∷ []) h (omega arith)
call-le p (update current) h =
    All-append _ p.reported (percent p.total current ∷ []) h (percent_le p.total current, tt)
call-le p verifying h = h
call-le p (finish skipped) h = All-append _ p.reported (100 ∷ []) h (omega arith)

calls-le :
    (ks : List Call) (p : Progress)
    → All (λ n. n ≤ 100) p.reported
    → All (λ n. n ≤ 100) (calls p ks).reported
unfolding calls
calls-le [] p h = h
calls-le (k ∷ ks) p h = calls-le ks (call p k) (call-le p k h)

-- Every percentage that is reported is 100 at most, whatever the flasher calls, in any order.
pub reported-le : (ks : List Call) → All (λ n. n ≤ 100) (calls fresh ks).reported
reported-le ks = calls-le ks fresh tt

div_mono : (n a b : ℕ) → 0 < n → a ≤ b → a / n ≤ b / n
div_mono n a b h k = (le-div_iff_mul-le h).1 (le_trans (div-mul-le_self a n) k)

-- More bytes never report a smaller percentage, also where the product saturates.
pub percent_mono : (total a b : ℕ) → a ≤ b → percent total a ≤ percent total b
unfolding percent
percent_mono total a b h = elim (Bool-cases (total == 0)) [
  | inl z ↦ rw z (omega arith)
  | inr p ↦ rw p (
      omega (
        arith,
        div_mono total (min (a * 100) max_usize) (min (b * 100) max_usize) (ground arith)
            (omega arith),
      ))
]

min_small : (a b : ℕ) → a ≤ b → min a b ≡ a
min_small a b h = omega arith

-- With all bytes written the percentage is 100, if the total is positive and below 2^64 / 100.
pub percent_total : (total : ℕ) → 0 < total → total * 100 ≤ max_usize → percent total total ≡ 100
unfolding percent
percent_total total h k =
    ground (arith, mul-div_cancel_left 100 h, min_small (total * 100) max_usize k)
