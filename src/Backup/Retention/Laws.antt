-- ===== src/Backup/Retention/Laws.antt =====
-- internal/backup/scheduler.go: what `applyRetention` deletes and what it leaves.
use mathlib.Core.List.{Perm}
use mathlib.Core.List.Perm
use kwrt_net_manager.Prelude.{
  ℕ, zero, suc, ◌-◌, ◌≤◌, ◌≡◌, ◌⊎◌, refl, inl, inr, Bool, true, false, Option, some, List, [], ◌∷◌,
  ◌++◌, arith, Str, is_empty, pos, leb, ◌==◌, length, take, drop, All, All-map, AllPairs,
  Bool-cases,
}
use kwrt_net_manager.Backup.Retention.{
  Object, str_lt, older, insert_object, sort_objects, matching, expired, apply_retention,
}

str_lt-asym : (s t : Str) → str_lt s t ≡ true → str_lt t s ≡ false
unfolding str_lt
str_lt-asym [] [] h = refl
str_lt-asym [] (d ∷ t) h = refl
str_lt-asym (c ∷ s) [] h = ground arith
str_lt-asym (c ∷ s) (d ∷ t) h = ground (arith, str_lt-asym s t)

str_lt_trans : (s t u : Str) → str_lt s t ≡ true → str_lt t u ≡ true → str_lt s u ≡ true
unfolding str_lt
str_lt_trans [] [] u h k = ground arith
str_lt_trans [] (d ∷ t) [] h k = ground arith
str_lt_trans [] (d ∷ t) (e ∷ u) h k = refl
str_lt_trans (c ∷ s) [] u h k = ground arith
str_lt_trans (c ∷ s) (d ∷ t) [] h k = ground arith
str_lt_trans (c ∷ s) (d ∷ t) (e ∷ u) h k = ground (arith, str_lt_trans s t u)

older-asym : (a b : Object) → older a b ≡ true → older b a ≡ false
unfolding older
older-asym a b h = ground (arith, str_lt-asym a.key b.key)

older_trans : (a b c : Object) → older a b ≡ true → older b c ≡ true → older a c ≡ true
unfolding older
older_trans a b c h k = ground (arith, str_lt_trans a.key b.key c.key)

-- `a` may stand before `b`.
abbrev pub Before : Object → Object → Type 0
Before a b = older b a ≡ false

-- What is not older than a later object is not older than an earlier one.
Before-older : (x y z : Object) → older x y ≡ true → Before y z → Before x z
Before-older x y z h k = elim (Bool-cases (older z x)) [
  | inl sooner ↦ let bad = older_trans z x y sooner h in absurd (ground (arith))
  | inr later ↦ later
]

insert_object-All :
    (P : Object → Type 0) (x : Object) (l : List Object) → P x → All P l → All P (insert_object x l)
unfolding insert_object
insert_object-All P x [] p h = (p, tt)
insert_object-All P x (y ∷ ys) p h = elim (Bool-cases (older x y)) [
  | inl e ↦ rw e (p, h)
  | inr e ↦ rw e (h.0, insert_object-All P x ys p h.1)
]

insert_object-AllPairs :
    (x : Object) (l : List Object) → AllPairs Before l → AllPairs Before (insert_object x l)
unfolding insert_object
insert_object-AllPairs x [] h = (tt, tt)
insert_object-AllPairs x (y ∷ ys) h = elim (Bool-cases (older x y)) [
  | inl e ↦ rw e ((older-asym x y e, All-map ys (λ z k. Before-older x y z e k) h.0), h)
  | inr e ↦ rw e (insert_object-All (Before y) x ys e h.0, insert_object-AllPairs x ys h.1)
]

sort_objects-AllPairs : (l : List Object) → AllPairs Before (sort_objects l)
unfolding sort_objects
sort_objects-AllPairs [] = tt
sort_objects-AllPairs (x ∷ xs) = insert_object-AllPairs x _ (sort_objects-AllPairs xs)

insert_object-Perm : (x : Object) (l : List Object) → Perm (insert_object x l) (x ∷ l)
unfolding insert_object
insert_object-Perm x [] = Perm.rfl
insert_object-Perm x (y ∷ ys) = elim (Bool-cases (older x y)) [
  | inl e ↦ rw e Perm.rfl
  | inr e ↦ rw e (Perm.trans (Perm.cons y (insert_object-Perm x ys)) (Perm.swap x y ys))
]

sort_objects-Perm : (l : List Object) → Perm (sort_objects l) l
unfolding sort_objects
sort_objects-Perm [] = Perm.rfl
sort_objects-Perm (x ∷ xs) =
    Perm.trans (insert_object-Perm x _) (Perm.cons x (sort_objects-Perm xs))

length-insert_object : (x : Object) (l : List Object) → length (insert_object x l) ≡ suc (length l)
unfolding insert_object
length-insert_object x [] = refl
length-insert_object x (y ∷ ys) = ground (arith, length-insert_object x ys)

length-sort_objects : (l : List Object) → length (sort_objects l) ≡ length l
unfolding sort_objects
length-sort_objects [] = refl
length-sort_objects (x ∷ xs) =
    rw (length-insert_object x (sort_objects xs), length-sort_objects xs) refl

module _ {A : Type 0} where
  take-drop : (n : ℕ) (l : List A) → take n l ++ drop n l ≡ l
  take-drop zero l = refl
  take-drop (suc n) [] = refl
  take-drop (suc n) (x ∷ xs) = rw (take-drop n xs) refl

  length-drop : (n : ℕ) (l : List A) → length (drop n l) ≡ length l - n
  length-drop zero l = omega arith
  length-drop (suc n) [] = omega arith
  length-drop (suc n) (x ∷ xs) = omega (arith, length-drop n xs)

  All-drop : (P : A → Type 0) (n : ℕ) (l : List A) → All P l → All P (drop n l)
  All-drop P zero l h = h
  All-drop P (suc n) [] h = tt
  All-drop P (suc n) (x ∷ xs) h = All-drop P n xs h.1

  All-take : (P : A → Type 0) (n : ℕ) (l : List A) → All P l → All P (take n l)
  All-take P zero l h = tt
  All-take P (suc n) [] h = tt
  All-take P (suc n) (x ∷ xs) h = (h.0, All-take P n xs h.1)

  -- What is taken stands before what is left.
  AllPairs-take-drop :
      (R : A → A → Type 0) (n : ℕ) (l : List A)
      → AllPairs R l
      → All (λ a. All (R a) (drop n l)) (take n l)
  AllPairs-take-drop R zero l h = tt
  AllPairs-take-drop R (suc n) [] h = tt
  AllPairs-take-drop R (suc n) (x ∷ xs) h = (All-drop (R x) n xs h.0, AllPairs-take-drop R n xs h.1)

-- The listed objects that match are those that are deleted and those that stay; none that stays is
-- older than one that is deleted.
pub record Split (keep : ℕ) (mine gone : List Object) : Type 0 where
  pub kept : List Object
  pub all : Perm (gone ++ kept) mine
  pub newest : All (λ g. All (Before g) kept) gone
  pub enough : ((gone ≡ []) × (length mine ≤ keep)) ⊎ (length kept ≡ keep)

expired-Split : (keep : ℕ) (mine : List Object) → Split keep mine (expired keep mine)
unfolding expired
expired-Split keep mine = elim (Bool-cases (leb (length mine) keep)) [
  | inl few ↦
      rw few
        (record { kept = mine; all = Perm.rfl; newest = tt; enough = inl (refl, ground arith) })
  | inr many ↦
      let n : ℕ = length mine - keep in
      let same = take-drop n (sort_objects mine) in
      rw many (record {
        kept = drop n (sort_objects mine);
        all = rw same (sort_objects-Perm mine);
        newest = AllPairs-take-drop Before n _ (sort_objects-AllPairs mine);
        enough = inr (
            let left = length-drop n (sort_objects mine) in
            let full = length-sort_objects mine in ground (arith, left, full));
      })
]

sort_objects-All : (P : Object → Type 0) (l : List Object) → All P l → All P (sort_objects l)
unfolding sort_objects
sort_objects-All P [] h = tt
sort_objects-All P (x ∷ xs) h = insert_object-All P x _ h.0 (sort_objects-All P xs h.1)

matching-All :
    (matches : Str → Bool) (l : List Object) → All (λ o. matches o.key ≡ true) (matching matches l)
unfolding matching
matching-All matches [] = tt
matching-All matches (o ∷ os) = elim (Bool-cases (matches o.key)) [
  | inl own ↦ rw own (own, matching-All matches os)
  | inr other ↦ rw other (matching-All matches os)
]

expired-All :
    (P : Object → Type 0) (keep : ℕ) (mine : List Object) → All P mine → All P (expired keep mine)
unfolding expired
expired-All P keep mine h = elim (Bool-cases (leb (length mine) keep)) [
  | inl few ↦ rw few tt
  | inr many ↦ rw many (All-take P _ _ (sort_objects-All P mine h))
]

-- With a limit of at least one, a stable prefix and a listing, retention deletes only listed
-- objects that the schedule's matcher accepts; the other ones that it accepts stay, none of them
-- is older than a deleted one, and either nothing is deleted because there are no more than the
-- limit, or exactly as many as the limit stay.
pub apply_retention-Split :
    (keep : ℕ) (prefix : Str) (matches : Str → Bool) (list : Str → Option (List Object))
    (objs : List Object)
    → (keep == 0) ≡ false
    → is_empty prefix ≡ false
    → list prefix ≡ some objs
    → Split keep (matching matches objs) (apply_retention (pos keep) prefix (some matches) list)
      × All (λ g. matches g.key ≡ true) (apply_retention (pos keep) prefix (some matches) list)
unfolding apply_retention
apply_retention-Split keep prefix matches list objs limited stable listed =
    rw (limited, stable, listed)
      (
        expired-Split keep (matching matches objs),
        expired-All (λ g. matches g.key ≡ true) keep (matching matches objs)
            (matching-All matches objs),
      )
