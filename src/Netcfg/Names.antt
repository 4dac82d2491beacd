-- ===== src/Netcfg/Names.antt =====
-- internal/netcfg/backend_uci.go, ipv6_service.go and ipv6_validate.go: names of UCI sections, fresh
-- ids, and the small readers and tests of texts.
pub mod Fresh
use kwrt_net_manager.Prelude.{
  ℕ, zero, suc, ◌+◌, ◌-◌, ◌*◌, ◌/◌, ◌%◌, ◌^◌, Bool, true, false, ◌&&◌, ◌||◌, not, Option, none,
  some, List, [], ◌∷◌, ◌++◌, map, Str, codes, str_eq, is_empty, leb, ltb, ◌==◌, if◌then◌else◌,
  length,
}
use kwrt_net_manager.Go.Strings.{trim_space, cut_byte, trim_prefix, remove_all, all_chars}
use kwrt_net_manager.Go.Strconv.{is_digit}
use kwrt_net_manager.Netutil.{is_ipv6}
use kwrt_net_manager.Netcfg.Service.{in_set}

unfoldable pub is_alnum : ℕ → Bool
unfolding is_digit
is_alnum c = (leb 97 c && leb c 122) || (leb 65 c && leb c 90) || is_digit c

abbrev pub uci_char : ℕ → ℕ
uci_char c = if is_alnum c || c == b'_' then c else b'_'

unfoldable pub starts_wrong : Str → Bool
unfolding is_digit
starts_wrong [] = true
starts_wrong (c ∷ _) = is_digit c

-- `uciName`
unfoldable pub uci_name : Str → Str
uci_name id = let s = map uci_char id in if starts_wrong s then codes "nm_" ++ s else s

-- The loop of `itoa` for n > 0; the number itself is more than its count of digits.
unfoldable pub itoa_loop : ℕ → ℕ → Str → Str
itoa_loop zero n digits = digits
itoa_loop (suc fuel) n digits =
    let more = itoa_loop fuel (n / 10) ((48 + n % 10) ∷ digits) in if n == 0 then digits else more

unfoldable pub itoa : ℕ → Str
itoa n = if n == 0 then codes "0" else itoa_loop n n []

-- The loop of `nextV6ID` from the number `i` on.
unfoldable pub next_loop : ℕ → List Str → Str → ℕ → Option Str
next_loop zero used prefix i = none
next_loop (suc fuel) used prefix i =
    let later = next_loop fuel used prefix (suc i) in
    if in_set used (prefix ++ itoa i) then later else some (prefix ++ itoa i)

abbrev pub or_else : Str → Option Str → Str
or_else s none = s
or_else s (some t) = t

-- `nextV6ID`; one round for each existing id is enough.
unfoldable pub next_v6_id : List Str → Str → Str
next_v6_id existing prefix =
    if in_set existing prefix
    then or_else prefix (next_loop (suc (length existing)) existing prefix 2)
    else prefix

-- `orV6`
unfoldable pub or_v6 : Str → Str → Str
or_v6 v def = if is_empty (trim_space v) then def else v

-- `atoiSafe`: the digits up to the first other character. An `int` wraps at 2 ^ 64; a value from
-- 2 ^ 63 on is a negative one.
unfoldable pub atoi_loop : ℕ → Str → ℕ
unfolding is_digit
atoi_loop n [] = n
atoi_loop n (c ∷ s) =
    let more = atoi_loop ((n * 10 + (c - 48)) % 2 ^ 64) s in if is_digit c then more else n

unfoldable pub atoi_safe : Str → ℕ
atoi_safe s = atoi_loop 0 s

unfoldable pub is_hex_rune : ℕ → Bool
unfolding is_digit
is_hex_rune c = is_digit c || (leb 97 c && leb c 102) || (leb 65 c && leb c 70)

-- The length is that of a text of ASCII: any other one fails the test of its characters.
unfoldable pub is_hex_bytes : Str → Bool
is_hex_bytes s =
    let t = remove_all b':' (trim_space s) in
    not (is_empty t) && length t % 2 == 0 && all_chars is_hex_rune t

unfoldable pub is_valid_host_id : Str → Bool
is_valid_host_id s =
    let t = trim_prefix (trim_space s) (codes "::") in
    not (is_empty t) && all_chars (λ c. is_hex_rune c || c == b':') t

abbrev pub short_prefix : Str → Bool
short_prefix prefix = let p = atoi_safe prefix in leb 1 p && leb p 128 && str_eq prefix (itoa p)

abbrev pub cidr_parts : Option (Str × Str) → Bool
cidr_parts none = false
cidr_parts (some (addr, prefix)) = is_ipv6 addr && short_prefix prefix

-- `isIPv6CIDR`; `%d` prints a small number as `itoa` does.
unfoldable pub is_ipv6_cidr : Str → Bool
is_ipv6_cidr s = cidr_parts (cut_byte b'/' s)
