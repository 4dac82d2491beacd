-- ===== src/Netcfg/Service/V6/Hex.antt =====
-- internal/netcfg/ipv6_service.go: what `generateDUID` gives passes for a DUID.
use kwrt_net_manager.Prelude.{
  ℕ, ◌/◌, ◌%◌, ◌<◌, ◌≡◌, refl, true, false, List, [], ◌∷◌, arith, Str, is_empty, ◌==◌, length, All,
  All-map,
}
use kwrt_net_manager.Go.Strings.{trim_space_lem, is_space, remove_all, all_chars}
use kwrt_net_manager.Go.Strconv.{is_digit}
use kwrt_net_manager.Netutil.MacAddr.{byte_hex, hex_char}
use kwrt_net_manager.Netcfg.Names.{is_hex_rune, is_hex_bytes}
use kwrt_net_manager.Netcfg.Service.V6.{encode_hex, generate_duid}

IsHexText : Str → Type 0
IsHexText = All (λ c. is_hex_rune c ≡ true)

hex_char-is_hex_rune : (n : ℕ) → n < 16 → is_hex_rune (hex_char n) ≡ true
unfolding is_hex_rune hex_char is_digit
hex_char-is_hex_rune n h = ground arith

is_hex_rune-no_space : (c : ℕ) → is_hex_rune c ≡ true → is_space c ≡ false
unfolding is_hex_rune is_digit is_space
is_hex_rune-no_space c h = ground arith

is_hex_rune-no_colon : (c : ℕ) → is_hex_rune c ≡ true → (c == b':') ≡ false
unfolding is_hex_rune is_digit
is_hex_rune-no_colon c h = ground arith

remove_all-IsHexText : (s : Str) → IsHexText s → remove_all b':' s ≡ s
unfolding remove_all IsHexText
remove_all-IsHexText [] h = refl
remove_all-IsHexText (c ∷ s) h = rw (is_hex_rune-no_colon c h.0, remove_all-IsHexText s h.1) refl

all_chars-IsHexText : (s : Str) → IsHexText s → all_chars is_hex_rune s ≡ true
unfolding all_chars IsHexText
all_chars-IsHexText [] h = refl
all_chars-IsHexText (c ∷ s) h = rw (h.0, all_chars-IsHexText s h.1) refl

encode_hex-IsHexText : (bs : List ℕ) → All (λ b. b < 256) bs → IsHexText (encode_hex bs)
unfolding encode_hex byte_hex IsHexText
encode_hex-IsHexText [] h = tt
encode_hex-IsHexText (b ∷ bs) (lt, h) = (
  hex_char-is_hex_rune (b / 16) (omega (arith, lt)),
  (hex_char-is_hex_rune (b % 16) (omega arith), encode_hex-IsHexText bs h),
)

encode_hex-even : (bs : List ℕ) → length (encode_hex bs) % 2 ≡ 0
unfolding encode_hex byte_hex
encode_hex-even [] = refl
encode_hex-even (b ∷ bs) = omega (arith, encode_hex-even bs)

-- A text of an even number of digits passes.
is_hex_bytes-IsHexText :
    (s : Str) → IsHexText s → is_empty s ≡ false → length s % 2 ≡ 0 → is_hex_bytes s ≡ true
unfolding is_hex_bytes IsHexText
is_hex_bytes-IsHexText s h given even =
    rw (trim_space_lem s (All-map s is_hex_rune-no_space h), remove_all-IsHexText s h)
      (ground (arith, given, even, all_chars-IsHexText s h))

pub generate_duid-is_hex_bytes :
    (bytes : List ℕ) → All (λ b. b < 256) bytes → is_hex_bytes (generate_duid bytes) ≡ true
unfolding generate_duid IsHexText is_hex_rune is_digit
generate_duid-is_hex_bytes bytes h =
    is_hex_bytes-IsHexText _ (refl, (refl, (refl, (refl, encode_hex-IsHexText bytes h)))) refl
      (omega (arith, encode_hex-even bytes))
