-- ===== src/Go/Strconv.antt =====
-- `strconv.ParseInt(s, 10, 64)` and `strconv.Atoi`, which agree on a 64-bit platform.
use kwrt_net_manager.Prelude.{
  ℕ, ◌+◌, ◌-◌, ◌*◌, ◌^◌, Bool, ◌&&◌, Option, none, some, [], ◌∷◌, Str, ℤ, pos, negsuc, leb, ltb,
  ◌==◌, if◌then◌else◌, ◌>>=◌,
}

unfoldable pub is_digit : ℕ → Bool
is_digit c = leb 48 c && leb c 57

-- The loop of `ParseUint` in base 10; a value past the range of uint64 is an error there, and here
-- the range of int64 is tested at the end, which is narrower.
unfoldable pub scan_digits : ℕ → Str → Option ℕ
unfolding is_digit
scan_digits n [] = some n
scan_digits n (c ∷ s) =
    let rest = scan_digits (n * 10 + (c - 48)) s in if is_digit c then rest else none

unfoldable pub parse_uint : Str → Option ℕ
unfolding scan_digits
parse_uint [] = none
parse_uint (c ∷ s) = scan_digits 0 (c ∷ s)

-- A sign, then digits; values outside of int64 are errors.
unfoldable pub parse_int : Str → Option ℤ
unfolding parse_uint
parse_int [] = none
parse_int (c ∷ s) =
    if c == b'-' then (do n ← parse_uint s; if leb n (2 ^ 63) then some (neg n) else none) else (do
      n ← parse_uint (if c == b'+' then s else c ∷ s)
      if ltb n (2 ^ 63) then some (pos n) else none)
  where
    neg : ℕ → ℤ
    neg n = if n == 0 then pos 0 else negsuc (n - 1)
