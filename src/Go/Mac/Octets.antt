-- ===== src/Go/Mac/Octets.antt =====
-- The results of `parse_mac` are six octets, and six octets between colons are read as they are.
use kwrt_net_manager.Prelude.{
  ℕ, zero, suc, ◌<◌, ◌≡◌, refl, inl, inr, Option, none, some, List, [], ◌∷◌, arith, Str, length,
  All, Bool-cases, Option-cases, ◌==◌, ◌>>=◌,
}
use kwrt_net_manager.Go.Mac.{hex_digit, hex_byte, octets, octet_pairs, parse_mac}

abbrev pub IsOctets : ℕ → List ℕ → Type 0
IsOctets n hw = (length hw ≡ n) × All (λ b. b < 256) hw

abbrev pub OptIsOctets : ℕ → Option (List ℕ) → Type 0
OptIsOctets n none = Unit
OptIsOctets n (some hw) = IsOctets n hw

hex_digit-lt : (c x : ℕ) → hex_digit c ≡ some x → x < 16
unfolding hex_digit
hex_digit-lt c x e = ground arith

hex_byte-lt : (a b x : ℕ) → hex_byte a b ≡ some x → x < 256
unfolding hex_byte
hex_byte-lt a b x e = elim (Option-cases (hex_digit a)) [
  | inl stop ↦ ground arith
  | inr (h, eh) ↦ elim (Option-cases (hex_digit b)) [
    | inl stop ↦ ground arith
    | inr (l, el) ↦ ground (arith, hex_digit-lt a h eh, hex_digit-lt b l el)
  ]
]

cons-IsOctets :
    (n a b : ℕ) (rest : Option (List ℕ))
    → OptIsOctets n rest
    → OptIsOctets (suc n) (hex_byte a b >>= λ x. rest >>= λ xs. some (x ∷ xs))
cons-IsOctets n a b rest h = elim (Option-cases (hex_byte a b)) [
  | inl stop ↦ ground arith
  | inr (x, e) ↦ ground (arith, hex_byte-lt a b x e)
]

octets-IsOctets : (sep n : ℕ) (s : Str) → OptIsOctets n (octets sep n s)
unfolding octets
octets-IsOctets sep (suc zero) (a ∷ b ∷ []) = cons-IsOctets 0 a b (some []) (refl, tt)
octets-IsOctets sep (suc (suc n)) (a ∷ b ∷ c ∷ s) = elim (Bool-cases (c == sep)) [
  | inl same ↦ rw same (cons-IsOctets (suc n) a b _ (octets-IsOctets sep (suc n) s))
  | inr other ↦ rw other tt
]
octets-IsOctets _ _ _ = tt

abbrev twice : ℕ → ℕ
twice zero = zero
twice (suc n) = suc (suc (twice n))

cons_two-IsOctets :
    (n a b c d : ℕ) (rest : Option (List ℕ))
    → OptIsOctets n rest
    → OptIsOctets
        (suc (suc n))
        (hex_byte a b >>= λ x. hex_byte c d >>= λ y. rest >>= λ xs. some (x ∷ y ∷ xs))
cons_two-IsOctets n a b c d rest h = elim (Option-cases (hex_byte a b)) [
  | inl stop ↦ ground arith
  | inr (x, e) ↦ elim (Option-cases (hex_byte c d)) [
    | inl stop ↦ ground arith
    | inr (y, f) ↦ ground (arith, hex_byte-lt a b x e, hex_byte-lt c d y f)
  ]
]

octet_pairs-IsOctets : (n : ℕ) (s : Str) → OptIsOctets (twice n) (octet_pairs n s)
unfolding octet_pairs
octet_pairs-IsOctets (suc zero) (a ∷ b ∷ c ∷ d ∷ []) =
    cons_two-IsOctets 0 a b c d (some []) (refl, tt)
octet_pairs-IsOctets (suc (suc n)) (a ∷ b ∷ c ∷ d ∷ e ∷ s) = elim (Bool-cases (e == b'.')) [
  | inl dot ↦ rw dot (cons_two-IsOctets _ a b c d _ (octet_pairs-IsOctets (suc n) s))
  | inr other ↦ rw other tt
]
octet_pairs-IsOctets _ _ = tt

-- Six octets, each a byte.
pub parse_mac-IsOctets : (s : Str) → OptIsOctets 6 (parse_mac s)
unfolding parse_mac
parse_mac-IsOctets (a ∷ b ∷ c ∷ s) = ground (
  arith,
  octets-IsOctets b':' 6 (a ∷ b ∷ c ∷ s),
  octets-IsOctets b'-' 6 (a ∷ b ∷ c ∷ s),
  octet_pairs-IsOctets 3 (a ∷ b ∷ c ∷ s),
)
parse_mac-IsOctets _ = tt
