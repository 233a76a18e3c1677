-- ===== src/Base/Table.antt =====
-- Statements over all bytes, checked value by value.
use Prim.Native.Nat.{ℕ, zero, suc, ◌<◌, ◌-◌, bit_xor}
use mathlib.Core.Path.{◌≡◌, refl}
use mathlib.Core.Bool.{Bool, true, ◌&&◌}
use native.Mathlib.Omega.{arith}
use retronet.Base.Tests.{◌==◌, ==_iff}

unfoldable pub all_below : ℕ → (ℕ → Bool) → Bool
all_below zero p = true
all_below (suc n) p = p n && all_below n p

pub all_below_lem : (n : ℕ) (p : ℕ → Bool) (x : ℕ) → all_below n p ≡ true → x < n → p x ≡ true
unfolding all_below
all_below_lem zero p x h lt = absurd (omega arith)
all_below_lem (suc n) p x h lt = ground (arith, all_below_lem n p x)

-- Two functions that agree by evaluation below `n` agree there.
pub agree_below :
    (n : ℕ) (f g : ℕ → ℕ) → all_below n (λ x. f x == g x) ≡ true → (x : ℕ) → x < n → f x ≡ g x
agree_below n f g h x lt = (==_iff (f x) (g x)).0 (all_below_lem n (λ x. f x == g x) x h lt)

abbrev pub all_pairs_below : ℕ → ℕ → (ℕ → ℕ → Bool) → Bool
all_pairs_below n m p = all_below n (λ x. all_below m (λ y. p x y))

pub all_pairs_below_lem :
    (n m : ℕ) (p : ℕ → ℕ → Bool) (x y : ℕ)
    → all_pairs_below n m p ≡ true
    → x < n
    → y < m
    → p x y ≡ true
all_pairs_below_lem n m p x y h hx hy =
    all_below_lem m (p x) y (all_below_lem n (λ x. all_below m (λ y. p x y)) x h hx) hy

complement_table : all_below 256 (λ x. bit_xor x 0xFF == 255 - x) ≡ true
unfolding all_below
complement_table = refl

pub complement8_lem : (x : ℕ) → x < 256 → bit_xor x 0xFF ≡ 255 - x
complement8_lem = agree_below 256 (λ x. bit_xor x 0xFF) (λ x. 255 - x) complement_table
