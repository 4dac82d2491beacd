-- ===== src/Netutil/MacAddr.antt =====
-- pkg/netutil/netutil.go: `NormalizeMAC` and `IsMAC`.
pub mod Laws
use kwrt_net_manager.Prelude.{
  ℕ, ◌+◌, ◌/◌, ◌%◌, Bool, not, Option, none, some, List, [], ◌∷◌, ◌++◌, Str, is_empty, ltb,
  if◌then◌else◌,
}
use kwrt_net_manager.Go.Strings.{trim_space, replace_all, to_upper}
use kwrt_net_manager.Go.Mac.{parse_mac}

-- The lower-case digit of `hex`.
unfoldable pub hex_char : ℕ → ℕ
hex_char n = if ltb n 10 then 48 + n else 87 + n

unfoldable pub byte_hex : ℕ → Str
byte_hex b = hex_char (b / 16) ∷ hex_char (b % 16) ∷ []

-- `strings.Join(parts, ":")`
unfoldable pub join_colon : List Str → Str
join_colon [] = []
join_colon (p ∷ []) = p
join_colon (p ∷ q ∷ ps) = p ++ (b':' ∷ join_colon (q ∷ ps))

unfoldable pub parts : List ℕ → List Str
parts [] = []
parts (b ∷ bs) = to_upper (byte_hex b) ∷ parts bs

unfoldable pub or_blank : Option (List ℕ) → Str
or_blank none = []
or_blank (some hw) = join_colon (parts hw)

-- Colons between six octets in upper case; the empty text for anything else.
unfoldable pub normalize_mac : Str → Str
normalize_mac s =
    let t = trim_space s in
    if is_empty t then [] else or_blank (parse_mac (replace_all b'-' b':' t))

unfoldable pub is_mac : Str → Bool
is_mac s = not (is_empty (normalize_mac s))
