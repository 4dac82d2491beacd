-- ===== src/Netcfg/Names/Fresh.antt =====
-- internal/netcfg/ipv6_service.go: `itoa` and `nextV6ID`.
use kwrt_net_manager.Prelude.{
  ℕ, zero, suc, ◌+◌, ◌-◌, ◌*◌, ◌/◌, ◌%◌, ◌≤◌, ◌<◌, ◌≡◌, ◌≢◌, ◌⊎◌, refl, sym, ap, ◌∙◌, inl, inr,
  true, false, none, some, List, [], ◌∷◌, ◌++◌, arith, Str, str_eq, str_eq_iff, str_eq-false, ◌==◌,
  if◌then◌else◌, length, Bool-cases, Option-cases,
}
use kwrt_net_manager.Netcfg.Service.{in_set}
use kwrt_net_manager.Netcfg.Names.{itoa, itoa_loop, next_loop, next_v6_id}

-- What digits say behind a number that was read already.
value : ℕ → Str → ℕ
value n [] = n
value n (c ∷ s) = value (n * 10 + (c - 48)) s

value-itoa_loop : (fuel n : ℕ) (s : Str) → n ≤ fuel → value 0 (itoa_loop fuel n s) ≡ value n s
unfolding itoa_loop value
value-itoa_loop zero n s h = let e : 0 ≡ n = omega (arith) in ap (λ k. value k s) e
value-itoa_loop (suc fuel) n s h = elim (Bool-cases (n == 0)) [
  | inl e ↦ rw e (let z : 0 ≡ n = ground arith in ap (λ k. value k s) z)
  | inr e ↦
      let le : n / 10 ≤ fuel = ground arith in
      let back : n / 10 * 10 + (48 + n % 10 - 48) ≡ n = omega arith in
      rw e (value-itoa_loop fuel (n / 10) _ le ∙ ap (λ k. value k s) back)
]

value-itoa : (n : ℕ) → value 0 (itoa n) ≡ n
unfolding itoa value
value-itoa n = elim (Bool-cases (n == 0)) [
  | inl e ↦ rw e (ground arith)
  | inr e ↦ rw e (value-itoa_loop n n [] (omega arith))
]

pub itoa-inj : (m n : ℕ) → itoa m ≡ itoa n → m ≡ n
itoa-inj m n e = sym (value-itoa m) ∙ ap (value 0) e ∙ value-itoa n

append-inj : (p s t : Str) → p ++ s ≡ p ++ t → s ≡ t
append-inj [] s t e = e
append-inj (c ∷ p) s t e = append-inj p s t (cc)

-- What is left without a text.
without : Str → List Str → List Str
without s [] = []
without s (x ∷ xs) = let rest = without s xs in if str_eq x s then rest else x ∷ rest

length-without : (s : Str) (l : List Str) → length (without s l) ≤ length l
unfolding without
length-without s [] = omega arith
length-without s (x ∷ xs) = ground (arith, length-without s xs)

length-without_used : (s : Str) (l : List Str) → in_set l s ≡ true → length (without s l) < length l
unfolding without in_set
length-without_used s [] h = ground arith
length-without_used s (x ∷ xs) h = ground (arith, length-without s xs, length-without_used s xs)

in_set-without :
    (s t : Str) (l : List Str) → s ≢ t → in_set l t ≡ true → in_set (without s l) t ≡ true
unfolding without in_set
in_set-without s t [] ne h = h
in_set-without s t (x ∷ xs) ne h = elim (Bool-cases (str_eq x s)) [
  | inl e ↦
      let same : x ≡ s = (str_eq_iff x s).0 e in
      let other : str_eq x t ≡ false = str_eq-false x t (λ q. ne (cc)) in
      rw e (in_set-without s t xs ne (ground (arith)))
  | inr e ↦ rw e (ground (arith, in_set-without s t xs ne))
]

-- A set with `n` different texts has `n` elements or more.
count-candidates :
    (prefix : Str) (n i : ℕ) (l : List Str)
    → ((k : ℕ) → k < n → in_set l (prefix ++ itoa (i + k)) ≡ true)
    → n ≤ length l
count-candidates prefix zero i l h = omega arith
count-candidates prefix (suc n) i l h =
    let here : in_set l (prefix ++ itoa i) ≡ true =
      ap (λ j. in_set l (prefix ++ itoa j)) (omega arith) ∙ h 0 (omega arith) in
    let shorter = length-without_used _ l here in
    let rest = count-candidates prefix n (suc i) (without (prefix ++ itoa i) l) (later here) in
    omega (arith, shorter, rest)
  where
    later :
        in_set l (prefix ++ itoa i) ≡ true
        → (k : ℕ) → k < n
        → in_set (without (prefix ++ itoa i) l) (prefix ++ itoa (suc i + k)) ≡ true
    later here k lt =
        let e : suc i + k ≡ i + suc k = omega arith in
        in_set-without _ _ l
          (λ q.
            let same : i ≡ suc i + k = itoa-inj _ _ (append-inj prefix _ _ q) in
            omega (arith, same))
          (ap (λ j. in_set l (prefix ++ itoa j)) e ∙ h (suc k) (omega (arith, lt)))

-- Where the search stops and what it passed over.
pub record IsFirst (used : List Str) (prefix : Str) (from : ℕ) (id : Str) : Type 0 where
  pub number : ℕ
  pub not_before : from ≤ number
  pub named : id ≡ prefix ++ itoa number
  pub free : in_set used id ≡ false
  pub passed : (j : ℕ) → from ≤ j → j < number → in_set used (prefix ++ itoa j) ≡ true

module _ (used : List Str) (prefix : Str) where
  pub next_loop-none :
      (fuel i : ℕ)
      → next_loop fuel used prefix i ≡ none
      → (k : ℕ) → k < fuel
      → in_set used (prefix ++ itoa (i + k)) ≡ true
  unfolding next_loop
  next_loop-none zero i e k lt = absurd (omega (arith, lt))
  next_loop-none (suc fuel) i e k lt = elim (Bool-cases (in_set used (prefix ++ itoa i))) [
    | inr free ↦ absurd (ground (arith))
    | inl taken ↦ elim (Bool-cases (k == 0)) [
      | inl z ↦
          let here : i ≡ i + k = ground arith in
          ap (λ j. in_set used (prefix ++ itoa j)) (sym here) ∙ taken
      | inr more ↦
          let less : k - 1 < fuel = ground arith in
          let here : i + k ≡ suc i + (k - 1) = ground arith in
          let rest : next_loop fuel used prefix (suc i) ≡ none = ground arith in
          ap (λ j. in_set used (prefix ++ itoa j)) here
          ∙ next_loop-none fuel (suc i) rest (k - 1) less
    ]
  ]

  pub next_loop-IsFirst :
      (fuel i : ℕ) (id : Str) → next_loop fuel used prefix i ≡ some id → IsFirst used prefix i id
  unfolding next_loop
  next_loop-IsFirst zero i id e = absurd (cc)
  next_loop-IsFirst (suc fuel) i id e = elim (Bool-cases (in_set used (prefix ++ itoa i))) [
    | inr free ↦
        let named : prefix ++ itoa i ≡ id = ground arith in
        record {
          number = i;
          not_before = omega arith;
          named = sym named;
          free = ap (in_set used) (sym named) ∙ free;
          passed = λ j le lt. absurd (omega (arith, le, lt));
        }
    | inl taken ↦
        let rest : next_loop fuel used prefix (suc i) ≡ some id = ground arith in
        let found = next_loop-IsFirst fuel (suc i) id rest in
        record {
          number = found.number;
          not_before = omega (arith, found.not_before);
          named = found.named;
          free = found.free;
          passed = λ j le lt. elim (Bool-cases (j == i)) [
            | inl here ↦
                let same : j ≡ i = ground arith in
                ap (λ k. in_set used (prefix ++ itoa k)) same ∙ taken
            | inr later ↦ found.passed j (ground arith) lt
          ];
        }
  ]

  -- A round for each id that is in use and one more are enough.
  next_loop-ends :
      (fuel i : ℕ)
      → length used < fuel
      → (id : Str) × (next_loop fuel used prefix i ≡ some id) × IsFirst used prefix i id
  next_loop-ends fuel i enough = elim (Option-cases (next_loop fuel used prefix i)) [
    | inl stuck ↦
        let all = count-candidates prefix fuel i used (next_loop-none fuel i stuck) in
        absurd (omega (arith, all, enough))
    | inr (id, found) ↦ (id, found, next_loop-IsFirst fuel i id found)
  ]

-- The prefix itself, or the first number from 2 on behind it.
abbrev pub IsFresh : List Str → Str → Str → Type 0
IsFresh used prefix id =
    ((in_set used prefix ≡ false) × (id ≡ prefix))
    ⊎ ((in_set used prefix ≡ true)
        × (next_loop (suc (length used)) used prefix 2 ≡ some id)
        × IsFirst used prefix 2 id)

-- The search for an id ends: it gives the prefix when no id is the prefix, and else, within one
-- round for each id in use and one more, the prefix with the least number from 2 on that is not
-- in use.
pub next_v6_id-IsFresh :
    (used : List Str) (prefix : Str) → IsFresh used prefix (next_v6_id used prefix)
unfolding next_v6_id
next_v6_id-IsFresh used prefix = elim (Bool-cases (in_set used prefix)) [
  | inr free ↦ rw free (inl (refl, refl))
  | inl taken ↦
      let (id, found, first) = next_loop-ends used prefix (suc (length used)) 2 (omega arith) in
      rw (taken, found) (inr (refl, refl, first))
]

pub IsFresh-unused :
    (used : List Str) (prefix id : Str) → IsFresh used prefix id → in_set used id ≡ false
IsFresh-unused used prefix id (inl (free, same)) = ap (in_set used) same ∙ free
IsFresh-unused used prefix id (inr (_, _, first)) = first.free
