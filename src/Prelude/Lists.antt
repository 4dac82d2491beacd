-- ===== src/Prelude/Lists.antt =====
-- Lists measured by native numbers, and a predicate on all elements.
use Prim.Native.Nat.{ℕ, zero, suc, ◌+◌}
use mathlib.Core.Path.{◌≡◌, subst}
use mathlib.Core.Option.{Option, none, some}
use mathlib.Core.List.{List, [], ◌∷◌, ◌++◌}
use native.Mathlib.Omega.{arith}

module _ {ℓ} {A : Type ℓ} where
  abbrev pub length : List A → ℕ
  length [] = 0
  length (x ∷ xs) = suc (length xs)

  abbrev pub get_elem? : List A → ℕ → Option A
  get_elem? [] i = none
  get_elem? (x ∷ xs) zero = some x
  get_elem? (x ∷ xs) (suc i) = get_elem? xs i

  -- A write out of bounds changes nothing.
  abbrev pub set : List A → ℕ → A → List A
  set [] i v = []
  set (x ∷ xs) zero v = v ∷ xs
  set (x ∷ xs) (suc i) v = x ∷ set xs i v

  abbrev pub take : ℕ → List A → List A
  take zero xs = []
  take (suc n) [] = []
  take (suc n) (x ∷ xs) = x ∷ take n xs

  abbrev pub drop : ℕ → List A → List A
  drop zero xs = xs
  drop (suc n) [] = []
  drop (suc n) (x ∷ xs) = drop n xs

  abbrev pub replicate : ℕ → A → List A
  replicate zero a = []
  replicate (suc n) a = a ∷ replicate n a

  pub length-append : (xs ys : List A) → length (xs ++ ys) ≡ length xs + length ys
  length-append [] ys = omega arith
  length-append (x ∷ xs) ys = omega (arith, length-append xs ys)

module _ {ℓ} {A : Type ℓ} where
  pub length-set : (xs : List A) (i : ℕ) (y : A) → length (set xs i y) ≡ length xs
  length-set [] i y = omega arith
  length-set (x ∷ xs) zero y = omega arith
  length-set (x ∷ xs) (suc i) y = omega (arith, length-set xs i y)

module _ {ℓ κ} {A : Type ℓ} (P : A → Type κ) where
  abbrev pub All : List A → Type κ
  All [] = Unit
  All (x ∷ xs) = P x × All xs

  pub All-append : (xs ys : List A) → All xs → All ys → All (xs ++ ys)
  All-append [] ys hx hy = hy
  All-append (x ∷ xs) ys (p, hx) hy = (p, All-append xs ys hx hy)

  pub All-get_elem? : (xs : List A) (i : ℕ) (x : A) → get_elem? xs i ≡ some x → All xs → P x
  All-get_elem? [] i x e h = absurd (cc)
  All-get_elem? (y ∷ ys) zero x e h = let same : y ≡ x = cc in subst P same h.0
  All-get_elem? (y ∷ ys) (suc i) x e h = All-get_elem? ys i x e h.1

  pub All-set : (xs : List A) (i : ℕ) (y : A) → All xs → P y → All (set xs i y)
  All-set [] i y h p = tt
  All-set (x ∷ xs) zero y h p = (p, h.1)
  All-set (x ∷ xs) (suc i) y h p = (h.0, All-set xs i y h.1 p)

module _ {ℓ κ} {A : Type ℓ} {P Q : A → Type κ} where
  pub All-map : (xs : List A) → ((x : A) → P x → Q x) → All P xs → All Q xs
  All-map [] f h = tt
  All-map (x ∷ xs) f h = (f x h.0, All-map xs f h.1)

-- A relation holds from each element to every later one.
module _ {ℓ κ} {A : Type ℓ} (R : A → A → Type κ) where
  abbrev pub AllPairs : List A → Type κ
  AllPairs [] = Unit
  AllPairs (x ∷ xs) = All (R x) xs × AllPairs xs

  pub AllPairs-append_one :
      (xs : List A) (y : A) → AllPairs xs → All (λ x. R x y) xs → AllPairs (xs ++ y ∷ [])
  AllPairs-append_one [] y h k = (tt, tt)
  AllPairs-append_one (x ∷ xs) y h k =
      (All-append (R x) xs (y ∷ []) h.0 (k.0, tt), AllPairs-append_one xs y h.1 k.1)

  -- An element gives way to one that keeps apart from no fewer.
  pub AllPairs-set :
      (xs : List A) (i : ℕ) (x y : A)
      → get_elem? xs i ≡ some x
      → ((z : A) → R x z → R y z)
      → ((z : A) → R z x → R z y)
      → AllPairs xs
      → AllPairs (set xs i y)
  AllPairs-set [] i x y e f g h = tt
  AllPairs-set (z ∷ zs) zero x y e f g h =
      let same : z ≡ x = cc in (All-map zs f (subst (λ q. All (R q) zs) same h.0), h.1)
  AllPairs-set (z ∷ zs) (suc i) x y e f g h = (
    All-set (R z) zs i y h.0 (g z (All-get_elem? (R z) zs i x e h.0)),
    AllPairs-set zs i x y e f g h.1,
  )
