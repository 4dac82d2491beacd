-- ===== src/Go/Mac.antt =====
-- `net.ParseMAC`, as far as its result has six octets: the program drops every other result.
pub mod Octets
use kwrt_net_manager.Prelude.{
  ℕ, zero, suc, ◌+◌, ◌-◌, ◌*◌, ◌&&◌, Option, none, some, List, [], ◌∷◌, Str, leb, ◌==◌,
  if◌then◌else◌, ◌>>=◌,
}

unfoldable pub hex_digit : ℕ → Option ℕ
hex_digit c =
    if leb 48 c && leb c 57
    then some (c - 48)
    else if leb 97 c && leb c 102
    then some (c - 87)
    else if leb 65 c && leb c 70
    then some (c - 55)
    else none

-- `xtoi2`: two hexadecimal digits.
unfoldable pub hex_byte : ℕ → ℕ → Option ℕ
hex_byte a b = do x ← hex_digit a; y ← hex_digit b; some (x * 16 + y)

-- `n` octets with a separator between them, and nothing behind them.
unfoldable pub octets : ℕ → ℕ → Str → Option (List ℕ)
octets sep (suc zero) (a ∷ b ∷ []) = do x ← hex_byte a b; some (x ∷ [])
octets sep (suc (suc n)) (a ∷ b ∷ c ∷ s) =
    let rest = octets sep (suc n) s in
    if c == sep then (do x ← hex_byte a b; xs ← rest; some (x ∷ xs)) else none
octets _ _ _ = none

-- `n` pairs of octets with a dot between the pairs.
unfoldable pub octet_pairs : ℕ → Str → Option (List ℕ)
octet_pairs (suc zero) (a ∷ b ∷ c ∷ d ∷ []) = do
  x ← hex_byte a b
  y ← hex_byte c d
  some (x ∷ y ∷ [])
octet_pairs (suc (suc n)) (a ∷ b ∷ c ∷ d ∷ e ∷ s) =
    let rest = octet_pairs (suc n) s in
    if e == b'.'
    then (do x ← hex_byte a b; y ← hex_byte c d; xs ← rest; some (x ∷ y ∷ xs))
    else none
octet_pairs _ _ = none

parse_dotted : Str → Option (List ℕ)
parse_dotted s = octet_pairs 3 s

parse_separated : ℕ → Str → Option (List ℕ)
parse_separated sep s = octets sep 6 s

-- The third character tells the form: `:` or `-` separates octets, else the fifth must be a dot.
unfoldable pub parse_mac : Str → Option (List ℕ)
unfolding parse_separated parse_dotted
parse_mac (a ∷ b ∷ c ∷ s) =
    if c == b':'
    then parse_separated b':' (a ∷ b ∷ c ∷ s)
    else if c == b'-'
    then parse_separated b'-' (a ∷ b ∷ c ∷ s)
    else parse_dotted (a ∷ b ∷ c ∷ s)
parse_mac _ = none
