-- ===== src/Prelude/Bits.antt =====
-- `&` and `|` at variables, from the digit recursion that the native operations stand for:
-- a law for the lowest digit, `&` with a field of ones, and `&` over `|`.
use Prim.Native.Nat.{
  ℕ, zero, suc, ◌+◌, ◌-◌, ◌*◌, ◌/◌, ◌%◌, ◌^◌, ◌≤◌, ◌<◌, min, max, bit_and, bit_or, digits, bitwise,
  bit_and-bitwise, bit_or-bitwise,
}
use mathlib.Core.Path.{◌≡◌, refl, sym, ap, ◌∙◌}
use native.Mathlib.Nat.{pow-suc, pow-succ', one-le-pow, div-div-eq-div-mul, div-one, mul-one}
use native.Mathlib.Nat.{div-add-mod', mul-add-mod_self_right, mod-eq_of_lt, mod-lt}
use native.Mathlib.Omega.{arith}

module _ (rest : ℕ → ℕ) (f : ℕ → ℕ → ℕ) where
  -- Two amounts of fuel that both suffice give the same number.
  same_digits :
      (a b fuel fuel' : ℕ) → a ≤ fuel → a ≤ fuel' → digits rest f fuel a b ≡ digits rest f fuel' a b
  same_digits zero b zero zero h h' = refl
  same_digits zero b zero (suc fuel') h h' = refl
  same_digits zero b (suc fuel) zero h h' = refl
  same_digits zero b (suc fuel) (suc fuel') h h' = refl
  same_digits (suc a) b zero fuel' h h' = absurd (omega arith)
  same_digits (suc a) b (suc fuel) zero h h' = absurd (omega arith)
  same_digits (suc a) b (suc fuel) (suc fuel') h h' =
      ap (λ d. d * 2 + f (suc a % 2) (b % 2))
        (same_digits (suc a / 2) (b / 2) fuel fuel' (omega arith) (omega arith))

  lowest_digit :
      (x y : ℕ)
      → bitwise rest f (suc x) y ≡ bitwise rest f (suc x / 2) (y / 2) * 2 + f (suc x % 2) (y % 2)
  lowest_digit x y =
      ap (λ d. d * 2 + f (suc x % 2) (y % 2))
        (same_digits (suc x / 2) (y / 2) x (suc x / 2) (omega arith) (omega arith))

pub bit_or_step : (x y : ℕ) → bit_or x y ≡ max (x % 2) (y % 2) + 2 * bit_or (x / 2) (y / 2)
bit_or_step zero y = simp bit_or-bitwise (omega arith)
bit_or_step (suc x) y =
    let low = lowest_digit (λ c. c) max x y in simp bit_or-bitwise (omega (arith, low))

pub bit_and_step : (x y : ℕ) → bit_and x y ≡ min (x % 2) (y % 2) + 2 * bit_and (x / 2) (y / 2)
bit_and_step zero y = simp bit_and-bitwise (omega arith)
bit_and_step (suc x) y =
    let low = lowest_digit (λ _. 0) min x y in simp bit_and-bitwise (omega (arith, low))

-- The mask stands for a bound on the digits that are left.
pub zero-bit_and : (b : ℕ) → bit_and 0 b ≡ 0
zero-bit_and b = bit_and-bitwise 0 b

zero-bit_or : (b : ℕ) → bit_or 0 b ≡ b
zero-bit_or b = bit_or-bitwise 0 b

bit_and-zero_below : (n a : ℕ) → a < n → bit_and a 0 ≡ 0
bit_and-zero_below zero a h = absurd (omega arith)
bit_and-zero_below (suc n) zero h = zero-bit_and 0
bit_and-zero_below (suc n) (suc a) h =
    omega (arith, bit_and_step (suc a) 0, bit_and-zero_below n (suc a / 2) (omega arith))

bit_or-zero_below : (n a : ℕ) → a < n → bit_or a 0 ≡ a
bit_or-zero_below zero a h = absurd (omega arith)
bit_or-zero_below (suc n) zero h = zero-bit_or 0
bit_or-zero_below (suc n) (suc a) h =
    omega (arith, bit_or_step (suc a) 0, bit_or-zero_below n (suc a / 2) (omega arith))

pub bit_and-zero : (a : ℕ) → bit_and a 0 ≡ 0
bit_and-zero a = bit_and-zero_below (suc a) a (omega arith)

pub bit_and-one : (a : ℕ) → bit_and a 1 ≡ a % 2
bit_and-one a = omega (arith, bit_and_step a 1, bit_and-zero (a / 2))

-- `a & (m << k)` is `((a >> k) & m) << k`.
pub bit_and-shift : (k a m : ℕ) → bit_and a (m * 2 ^ k) ≡ bit_and (a / 2 ^ k) m * 2 ^ k
bit_and-shift zero a m = simp (div-one, mul-one)
bit_and-shift (suc k) a m =
    let half : m * 2 ^ suc k ≡ m * 2 ^ k * 2 = rw pow-suc (omega arith) in
    let halved : m * 2 ^ k * 2 / 2 ≡ m * 2 ^ k = omega arith in
    let twice : a / 2 / 2 ^ k ≡ a / 2 ^ suc k =
      div-div-eq-div-mul a 2 (2 ^ k) ∙ ap (λ d. a / d) (sym (pow-succ' 2 k)) in
    let below = bit_and-shift k (a / 2) m in
    let scaled : bit_and (a / 2 ^ suc k) m * 2 ^ suc k ≡ bit_and (a / 2 ^ suc k) m * 2 ^ k * 2 =
      rw pow-suc (omega arith) in
    rw half (ground (arith, bit_and_step a (m * 2 ^ k * 2)))

mod_double : (a t : ℕ) → 0 < t → a % (t * 2) ≡ a / 2 % t * 2 + a % 2
mod_double a t h =
    let parts : a ≡ a / 2 / t * (t * 2) + (a / 2 % t * 2 + a % 2) =
      omega (arith, div-add-mod' (a / 2) t) in
    ap (λ n. n % (t * 2)) parts
    ∙ mul-add-mod_self_right (a / 2 / t) (t * 2) (a / 2 % t * 2 + a % 2)
    ∙ mod-eq_of_lt (omega (arith, mod-lt (a / 2) h))

-- `a & ((1 << k) - 1)` is `a % (1 << k)`.
pub bit_and-ones : (k a : ℕ) → bit_and a (2 ^ k - 1) ≡ a % 2 ^ k
bit_and-ones zero a = bit_and-zero a ∙ omega arith
bit_and-ones (suc k) a =
    let below = bit_and-ones k (a / 2) in
    let half : (2 ^ suc k - 1) / 2 ≡ 2 ^ k - 1 = rw pow-suc (omega arith) in
    let odd : (2 ^ suc k - 1) % 2 ≡ 1 = rw pow-suc (omega (arith, one-le-pow k 2 (omega arith))) in
    ground (arith, bit_and_step a (2 ^ suc k - 1), mod_double a (2 ^ k), pow-suc 2 k)

bit_and_digits :
    (a b : ℕ)
    → (bit_and a b / 2 ≡ bit_and (a / 2) (b / 2)) × (bit_and a b % 2 ≡ min (a % 2) (b % 2))
bit_and_digits a b = omega (arith, bit_and_step a b)

pub bit_or-zero : (a : ℕ) → bit_or a 0 ≡ a
bit_or-zero a = bit_or-zero_below (suc a) a (omega arith)

pub bit_or_digits :
    (a b : ℕ) → (bit_or a b / 2 ≡ bit_or (a / 2) (b / 2)) × (bit_or a b % 2 ≡ max (a % 2) (b % 2))
bit_or_digits a b = omega (arith, bit_or_step a b)

-- One more digit.
bit_and-bit_or_step :
    (a b m : ℕ)
    → bit_and (bit_or (a / 2) (b / 2)) (m / 2)
      ≡ bit_or (bit_and (a / 2) (m / 2)) (bit_and (b / 2) (m / 2))
    → bit_and (bit_or a b) m ≡ bit_or (bit_and a m) (bit_and b m)
bit_and-bit_or_step a b m h = ground (
  arith,
  bit_and_step (bit_or a b) m,
  bit_or_step (bit_and a m) (bit_and b m),
  bit_or_digits a b,
  bit_and_digits a m,
  bit_and_digits b m,
)

bit_and-bit_or_below :
    (n a b m : ℕ) → a + b < n → bit_and (bit_or a b) m ≡ bit_or (bit_and a m) (bit_and b m)
bit_and-bit_or_below zero a b m h = absurd (omega arith)
bit_and-bit_or_below (suc n) zero b m h = simp (zero-bit_or, zero-bit_and)
bit_and-bit_or_below (suc n) (suc a) b m h =
    bit_and-bit_or_step (suc a) b m
      (bit_and-bit_or_below n (suc a / 2) (b / 2) (m / 2) (omega arith))

pub bit_and-bit_or : (a b m : ℕ) → bit_and (bit_or a b) m ≡ bit_or (bit_and a m) (bit_and b m)
bit_and-bit_or a b m = bit_and-bit_or_below (suc (a + b)) a b m (omega arith)
