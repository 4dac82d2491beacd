-- ===== src/Eventbus/Ring.antt =====
-- internal/eventbus/bus.go, the ring of recent events, against a log that keeps every event.
use mathlib.Core.Path.{subst}
use kwrt_net_manager.Prelude.{
  ℕ, zero, suc, ◌+◌, ◌-◌, ◌≡◌, ◌≤◌, ◌<◌, refl, sym, ◌∙◌, inl, inr, true, false, List, [], ◌∷◌, ◌++◌,
  arith, ltb, ◌==◌, Bool-cases, length, drop, length-append, if◌then◌else◌,
}
use kwrt_net_manager.Eventbus.{Event, append_ring, newer}

module _ {A : Type 0} where
  pub drop-append : (k : ℕ) (l m : List A) → k ≤ length l → drop k (l ++ m) ≡ drop k l ++ m
  drop-append zero l m h = refl
  drop-append (suc k) [] m h = absurd (omega arith)
  drop-append (suc k) (x ∷ xs) m h = drop-append k xs m (omega arith)

  pub drop-empty : (k : ℕ) → drop {A = A} k [] ≡ []
  drop-empty zero = refl
  drop-empty (suc k) = refl

  pub drop-drop : (k : ℕ) (l : List A) → drop 1 (drop k l) ≡ drop (suc k) l
  drop-drop zero l = refl
  drop-drop (suc k) [] = refl
  drop-drop (suc k) (x ∷ xs) = drop-drop k xs

  pub length-drop : (k : ℕ) (l : List A) → length (drop k l) ≡ length l - k
  length-drop zero l = omega arith
  length-drop (suc k) [] = omega arith
  length-drop (suc k) (x ∷ xs) = omega (arith, length-drop k xs)

module _ {D : Type 0} where
  -- The last `cap` events of a log.
  abbrev pub latest : ℕ → List (Event D) → List (Event D)
  latest cap log = drop (length log - cap) log

  pub append_ring-latest :
      (cap : ℕ) (log : List (Event D)) (e : Event D)
      → 1 ≤ cap
      → append_ring cap (latest cap log) e ≡ latest cap (log ++ e ∷ [])
  unfolding append_ring
  append_ring-latest cap log e h = elim (Bool-cases (ltb (length (latest cap log)) cap)) [
    | inl room ↦
        let short : length log < cap = ground (arith, length-drop (length log - cap) log) in
        let all : length log - cap ≡ 0 = omega arith in
        let all_after : length (log ++ e ∷ []) - cap ≡ 0 =
          omega (arith, length-append log (e ∷ [])) in
        rw (room, all, all_after) refl
    | inr full ↦
        let long : cap ≤ length log = ground (arith, length-drop (length log - cap) log) in
        let one_more : length (log ++ e ∷ []) - cap ≡ suc (length log - cap) =
          omega (arith, length-append log (e ∷ [])) in
        rw
          (
            full,
            one_more,
            drop-append (suc (length log - cap)) log (e ∷ []) (omega arith),
            drop-drop (length log - cap) log,
          )
          refl
  ]

  -- The events of a log are numbered from `n` on.
  abbrev pub Numbered : ℕ → List (Event D) → Type 0
  Numbered n [] = Unit
  Numbered n (e ∷ es) = (e.seq ≡ n) × Numbered (n + 1) es

  pub Numbered-append_one :
      (n : ℕ) (log : List (Event D)) (e : Event D)
      → Numbered n log
      → e.seq ≡ n + length log
      → Numbered n (log ++ e ∷ [])
  Numbered-append_one n [] e h k = (omega arith, tt)
  Numbered-append_one n (x ∷ xs) e h k = (h.0, Numbered-append_one (n + 1) xs e h.1 (omega arith))

  pub newer-all : (s n : ℕ) (l : List (Event D)) → s < n → Numbered n l → newer s l ≡ l
  unfolding newer
  newer-all s n [] h k = refl
  newer-all s n (x ∷ xs) h k =
      let later : ltb s x.seq ≡ true = ground arith in
      rw (later, newer-all s (n + 1) xs (omega arith) k.1) refl

  pub newer-drop :
      (s n k : ℕ) (l : List (Event D))
      → Numbered n l
      → n + k ≤ s + 1
      → newer s (drop k l) ≡ newer s l
  unfolding newer
  newer-drop s n zero l h e = refl
  newer-drop s n (suc k) [] h e = refl
  newer-drop s n (suc k) (x ∷ xs) h e =
      let early : ltb s x.seq ≡ false = ground arith in
      rw early (newer-drop s (n + 1) k xs h.1 (omega arith))

  Numbered-drop : (n k : ℕ) (l : List (Event D)) → Numbered n l → Numbered (n + k) (drop k l)
  Numbered-drop n zero l h = subst (λ m. Numbered m l) (omega arith) h
  Numbered-drop n (suc k) [] h = tt
  Numbered-drop n (suc k) (x ∷ xs) h =
      subst (λ m. Numbered m (drop k xs)) (omega arith) (Numbered-drop (n + 1) k xs h.1)

  newer-from_one : (n : ℕ) (l : List (Event D)) → Numbered 1 l → newer n l ≡ drop n l
  newer-from_one n l h =
      sym (newer-drop n 1 n l h (omega arith))
      ∙ newer-all n (1 + n) (drop n l) (omega arith) (Numbered-drop 1 n l h)

  -- What `since` has to give: the events behind the n-th, as far as the ring goes back.
  abbrev pub missed : ℕ → List (Event D) → ℕ → List (Event D)
  missed cap log n = if ltb n (length log - cap) then latest cap log else drop n log

  -- When the events were put into the ring in the order of their numbers.
  pub latest-missed :
      (cap : ℕ) (log : List (Event D)) (n : ℕ)
      → Numbered 1 log
      → newer n (latest cap log) ≡ missed cap log n
  latest-missed cap log n h = elim (Bool-cases (ltb n (length log - cap))) [
    | inl old ↦ rw old (
        newer-all n (1 + (length log - cap)) (latest cap log) (ground arith)
          (Numbered-drop 1 (length log - cap) log h))
    | inr recent ↦
        let reach : 1 + (length log - cap) ≤ n + 1 = ground arith in
        rw recent (newer-drop n 1 (length log - cap) log h reach ∙ newer-from_one n log h)
  ]

  -- How often a number is given in a list of events.
  unfoldable pub times : ℕ → List (Event D) → ℕ
  times m [] = 0
  times m (e ∷ es) = let rest = times m es in if e.seq == m then suc rest else rest

  pub times-append : (m : ℕ) (l k : List (Event D)) → times m (l ++ k) ≡ times m l + times m k
  unfolding times
  times-append m [] k = omega arith
  times-append m (e ∷ es) k = ground (arith, times-append m es k)

  pub times-newer :
      (m n : ℕ) (l : List (Event D)) → times m (newer n l) ≡ (if ltb n m then times m l else 0)
  unfolding times newer
  times-newer m n [] = ground arith
  times-newer m n (e ∷ es) = ground (arith, times-newer m n es)

  pub times-drop : (m k : ℕ) (l : List (Event D)) → times m (drop k l) ≤ times m l
  unfolding times
  times-drop m zero l = omega arith
  times-drop m (suc k) [] = omega arith
  times-drop m (suc k) (e ∷ es) = ground (arith, times-drop m k es)
