-- ===== src/Go/Strings/Trim.antt =====
-- Trimming a trimmed text changes nothing.
use kwrt_net_manager.Prelude.{
  ◌≡◌, refl, inl, inr, false, ◌&&◌, [], ◌∷◌, arith, Str, is_empty, Bool-cases,
}
use kwrt_net_manager.Go.Strings.{is_space, trim_left, trim_right, trim_space}

-- A text that is empty or begins with a character that is no white space.
abbrev Starts : Str → Type 0
Starts [] = Unit
Starts (c ∷ _) = is_space c ≡ false

trim_left-Starts : (s : Str) → Starts (trim_left s)
unfolding trim_left
trim_left-Starts [] = tt
trim_left-Starts (c ∷ s) = elim (Bool-cases (is_space c)) [
  | inl e ↦ rw e (trim_left-Starts s)
  | inr e ↦ rw e e
]

Starts-fixed : (s : Str) → Starts s → trim_left s ≡ s
unfolding trim_left
Starts-fixed [] h = refl
Starts-fixed (c ∷ s) h = rw h

trim_right-Starts : (s : Str) → Starts s → Starts (trim_right s)
unfolding trim_right
trim_right-Starts [] h = tt
trim_right-Starts (c ∷ s) h = ground arith

trim_right_idem : (s : Str) → trim_right (trim_right s) ≡ trim_right s
unfolding trim_right
trim_right_idem [] = refl
trim_right_idem (c ∷ s) = elim (Bool-cases (is_empty (trim_right s) && is_space c)) [
  | inl e ↦ rw e
  | inr e ↦ rw (e, trim_right, trim_right_idem s, e)
]

pub trim_space_idem : (s : Str) → trim_space (trim_space s) ≡ trim_space s
unfolding trim_space
trim_space_idem s = rw (
  Starts-fixed (trim_right (trim_left s)) (trim_right-Starts _ (trim_left-Starts s)),
  trim_right_idem (trim_left s),
)
