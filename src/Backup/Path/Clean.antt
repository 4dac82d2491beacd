-- ===== src/Backup/Path/Clean.antt =====
-- internal/backup/path.go: `cleanKey`.
use kwrt_net_manager.Prelude.{
  ℕ, zero, suc, ◌≤◌, ◌<◌, ◌≡◌, refl, ◌∙◌, inl, inr, true, false, [], ◌∷◌, arith, Str, codes, length,
  Bool-cases,
}
use kwrt_net_manager.Go.Strings.{has_prefix, trim_prefix, remove_all}
use kwrt_net_manager.Backup.Path.{has_double, halve, clean_loop, clean_key}

halve-shorter : (k : Str) → length (halve k) ≤ length k
unfolding halve
halve-shorter [] = omega arith
halve-shorter (c ∷ []) = omega arith
halve-shorter (c ∷ d ∷ s) = ground (arith, halve-shorter s, halve-shorter (d ∷ s))

halve-has_double : (k : Str) → has_double k ≡ true → length (halve k) < length k
unfolding halve has_double
halve-has_double [] h = ground arith
halve-has_double (c ∷ []) h = ground arith
halve-has_double (c ∷ d ∷ s) h =
    ground (arith, halve-shorter s, halve-shorter (d ∷ s), halve-has_double (d ∷ s))

-- A round for each character is enough: there is no double slash behind them.
clean_loop-ends : (fuel : ℕ) (k : Str) → length k ≤ fuel → has_double (clean_loop fuel k) ≡ false
unfolding clean_loop has_double
clean_loop-ends zero [] h = refl
clean_loop-ends zero (c ∷ s) h = absurd (omega (arith, h))
clean_loop-ends (suc fuel) k h = elim (Bool-cases (has_double k)) [
  | inl double ↦ rw double (
      clean_loop-ends fuel (halve k)
        (let shorter = halve-has_double k double in omega (arith, shorter, h)))
  | inr single ↦ rw single single
]

-- A text with no double slash and no slash at its head.
abbrev pub IsClean : Str → Type 0
IsClean k = (has_double k ≡ false) × (has_prefix k (codes "/") ≡ false)

has_double-tail : (c : ℕ) (s : Str) → has_double (c ∷ s) ≡ false → has_double s ≡ false
unfolding has_double
has_double-tail c [] h = refl
has_double-tail c (d ∷ s) h = ground arith

clean_loop-fixed : (fuel : ℕ) (k : Str) → has_double k ≡ false → clean_loop fuel k ≡ k
unfolding clean_loop
clean_loop-fixed zero k h = refl
clean_loop-fixed (suc fuel) k h = rw h refl

trim_slash-IsClean : (k : Str) → has_double k ≡ false → IsClean (trim_prefix k (codes "/"))
unfolding trim_prefix has_prefix has_double
trim_slash-IsClean [] h = (refl, refl)
trim_slash-IsClean (c ∷ []) h = ground arith
trim_slash-IsClean (c ∷ d ∷ s) h = ground (arith, has_double-tail c (d ∷ s))

-- What is left without slashes.
without_slashes : Str → Str
unfolding remove_all
without_slashes = remove_all b'/'

halve-without_slashes : (k : Str) → without_slashes (halve k) ≡ without_slashes k
unfolding halve without_slashes remove_all
halve-without_slashes [] = refl
halve-without_slashes (c ∷ []) = refl
halve-without_slashes (c ∷ d ∷ s) =
    ground (arith, halve-without_slashes s, halve-without_slashes (d ∷ s))

clean_loop-without_slashes :
    (fuel : ℕ) (k : Str) → without_slashes (clean_loop fuel k) ≡ without_slashes k
unfolding clean_loop
clean_loop-without_slashes zero k = refl
clean_loop-without_slashes (suc fuel) k = elim (Bool-cases (has_double k)) [
  | inl double ↦ rw double (clean_loop-without_slashes fuel (halve k) ∙ halve-without_slashes k)
  | inr single ↦ rw single refl
]

trim_slash-without_slashes :
    (k : Str) → without_slashes (trim_prefix k (codes "/")) ≡ without_slashes k
unfolding trim_prefix has_prefix without_slashes remove_all
trim_slash-without_slashes [] = refl
trim_slash-without_slashes (c ∷ s) = ground arith

IsClean-fixed : (k : Str) → IsClean k → clean_key k ≡ k
unfolding clean_key trim_prefix
IsClean-fixed k h = rw (clean_loop-fixed (length k) k h.0, h.1) refl

-- A canonical key: clean, with the characters of the text but for its slashes, and a fixed point.
pub record IsKey (k key : Str) : Type 0 where
  pub clean : IsClean key
  pub same : remove_all b'/' key ≡ remove_all b'/' k
  pub stable : clean_key key ≡ key

-- The loop that cleans an object key ends within one round for each character: the key has no
-- double slash and no slash at its head, it has the characters of the text but for slashes, and
-- cleaning it again changes nothing.
pub clean_key-IsKey : (k : Str) → IsKey k (clean_key k)
unfolding clean_key without_slashes
clean_key-IsKey k =
    let clean =
      trim_slash-IsClean (clean_loop (length k) k) (clean_loop-ends (length k) k (omega arith)) in
    record {
      clean = clean;
      same =
          trim_slash-without_slashes (clean_loop (length k) k)
          ∙ clean_loop-without_slashes (length k) k;
      stable = IsClean-fixed _ clean;
    }
