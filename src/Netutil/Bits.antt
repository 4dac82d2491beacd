-- ===== src/Netutil/Bits.antt =====
-- `bit_and` with a mask of leading ones cuts the low bits off.
use Prim.Native.Nat.{min, bit_and, digits, bit_and-bitwise}
use kwrt_net_manager.Prelude.{
  ℕ, zero, suc, ◌+◌, ◌-◌, ◌*◌, ◌/◌, ◌%◌, ◌^◌, ◌≤◌, ◌<◌, ◌≡◌, refl, sym, ap, ◌∙◌, arith,
}
use native.Mathlib.Nat.{
  pow-suc, pow-succ', div-div-eq-div-mul, mul_assoc, mul_comm, mul-sub, div-lt_iff_lt-mul,
}

-- What `bit_and` stands for, with its fuel in sight.
abbrev common : ℕ → ℕ → ℕ → ℕ
common fuel = digits (λ _. 0) min fuel

common-zero : (fuel y : ℕ) → common fuel 0 y ≡ 0
common-zero zero y = refl
common-zero (suc fuel) y = refl

-- Fuel above the first number makes no difference.
common-add : (fuel more x y : ℕ) → x ≤ fuel → common (fuel + more) x y ≡ common fuel x y
common-add fuel more zero y le = common-zero (fuel + more) y ∙ sym (common-zero fuel y)
common-add zero more (suc x) y le = absurd (omega arith)
common-add (suc fuel) more (suc x) y le =
    let out : suc fuel + more ≡ suc (fuel + more) = omega arith in
    rw (out, common-add fuel more (suc x / 2) (y / 2) (omega arith)) refl

zero-bit_and : (y : ℕ) → bit_and 0 y ≡ 0
zero-bit_and y = bit_and-bitwise 0 y

-- The lowest digit and the rest.
bit_and_step : (x y : ℕ) → bit_and x y ≡ bit_and (x / 2) (y / 2) * 2 + min (x % 2) (y % 2)
bit_and_step zero y = omega (arith, zero-bit_and y, zero-bit_and (y / 2))
bit_and_step (suc x) y =
    let half : ℕ = suc x / 2 in
    let all : half + (x - half) ≡ x = omega arith in
    let same : common x half (y / 2) ≡ common half half (y / 2) =
      rw all at (common-add half (x - half) half (y / 2) (omega arith)) in
    omega (arith, same, bit_and-bitwise half (y / 2), bit_and-bitwise (suc x) y)

bit_and-le_fuel : (n a b : ℕ) → a ≤ n → bit_and a b ≤ a
bit_and-le_fuel n zero b h = omega (arith, zero-bit_and b)
bit_and-le_fuel zero (suc a) b h = absurd (omega arith)
bit_and-le_fuel (suc n) (suc a) b h =
    omega (arith, bit_and_step (suc a) b, bit_and-le_fuel n (suc a / 2) (b / 2) (omega arith))

pub bit_and-le : (a b : ℕ) → bit_and a b ≤ a
bit_and-le a b = bit_and-le_fuel a a b (omega arith)

pub pow_pos : (n : ℕ) → 0 < 2 ^ n
pow_pos zero = omega arith
pow_pos (suc n) = omega (arith, pow_pos n, pow-suc 2 n)

bit_and-zero_right : (n a : ℕ) → a ≤ n → bit_and a 0 ≡ 0
bit_and-zero_right n zero h = refl
bit_and-zero_right zero (suc a) h = absurd (omega arith)
bit_and-zero_right (suc n) (suc a) h =
    omega (arith, bit_and_step (suc a) 0, bit_and-zero_right n (suc a / 2) (omega arith))

mask_double : (k b : ℕ) → b * 2 ^ suc k ≡ b * 2 ^ k * 2
mask_double k b = ap (λ m. b * m) (pow-suc 2 k) ∙ sym (mul_assoc b (2 ^ k) 2)

-- A mask of `n` ones keeps a number below 2 ^ n.
pub bit_and_ones : (n a : ℕ) → a < 2 ^ n → bit_and a (2 ^ n - 1) ≡ a
bit_and_ones zero a h = omega (arith, bit_and-zero_right a a (omega arith))
bit_and_ones (suc n) a h =
    let half : (2 ^ suc n - 1) / 2 ≡ 2 ^ n - 1 = omega (arith, pow-suc 2 n, pow_pos n) in
    let below : bit_and (a / 2) ((2 ^ suc n - 1) / 2) ≡ a / 2 =
      rw half (bit_and_ones n (a / 2) (omega (arith, pow-suc 2 n))) in
    omega (arith, bit_and_step a (2 ^ suc n - 1), below, pow-suc 2 n, pow_pos n)

-- Zeros at the low end of the mask.
pub bit_and_shift : (k a b : ℕ) → bit_and a (b * 2 ^ k) ≡ bit_and (a / 2 ^ k) b * 2 ^ k
bit_and_shift zero a b =
    let one : b * 1 ≡ b = omega arith in
    let whole : a / 1 ≡ a = omega arith in rw (one, whole) (omega arith)
bit_and_shift (suc k) a b =
    let half : b * 2 ^ suc k / 2 ≡ b * 2 ^ k = omega (arith, mask_double k b) in
    let below : bit_and (a / 2) (b * 2 ^ suc k / 2) ≡ bit_and (a / 2 ^ suc k) b * 2 ^ k =
      rw (half, bit_and_shift k (a / 2) b, quotient) refl in
    let up : bit_and (a / 2 ^ suc k) b * 2 ^ suc k ≡ bit_and (a / 2 ^ suc k) b * 2 ^ k * 2 =
      mask_double k _ in
    omega (arith, bit_and_step a (b * 2 ^ suc k), below, up, mask_double k b)
  where
    quotient : a / 2 / 2 ^ k ≡ a / 2 ^ suc k
    quotient = div-div-eq-div-mul a 2 (2 ^ k) ∙ ap (λ m. a / m) (sym (pow-succ' 2 k))

pow_split : (p k : ℕ) → 2 ^ (p + k) ≡ 2 ^ p * 2 ^ k
pow_split p zero =
    let e : p + 0 ≡ p = omega arith in let one : 2 ^ p * 1 ≡ 2 ^ p = omega arith in rw (e, one)
pow_split p (suc k) =
    let e : p + suc k ≡ suc (p + k) = omega arith in
    rw e (
      pow-suc 2 (p + k)
      ∙ ap (λ m. m * 2) (pow_split p k)
      ∙ mul_assoc (2 ^ p) (2 ^ k) 2
      ∙ ap (λ m. 2 ^ p * m) (sym (pow-suc 2 k)))

mask_lem : (p k : ℕ) → 2 ^ (p + k) - 2 ^ k ≡ (2 ^ p - 1) * 2 ^ k
mask_lem p k =
    rw (pow_split p k) (omega (arith, mul-sub (2 ^ k) (2 ^ p) 1, mul_comm (2 ^ p - 1) (2 ^ k)))

bit_and_mask : (p k a : ℕ) → a < 2 ^ (p + k) → bit_and a (2 ^ (p + k) - 2 ^ k) ≡ a / 2 ^ k * 2 ^ k
bit_and_mask p k a h =
    rw (mask_lem p k, bit_and_shift k a (2 ^ p - 1))
      (ap (λ m. m * 2 ^ k)
        (bit_and_ones p (a / 2 ^ k) ((div-lt_iff_lt-mul (pow_pos k)).1 (rw (pow_split p k) at h))))

-- The mask with `p` leading ones of 32.
pub bit_and_prefix :
    (p a : ℕ)
    → p ≤ 32
    → a < 2 ^ 32
    → bit_and a (2 ^ 32 - 2 ^ (32 - p)) ≡ a / 2 ^ (32 - p) * 2 ^ (32 - p)
bit_and_prefix p a hp ha =
    let e : p + (32 - p) ≡ 32 = omega arith in rw e at (bit_and_mask p (32 - p) a (rw e ha))
