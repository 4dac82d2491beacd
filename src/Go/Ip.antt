-- ===== src/Go/Ip.antt =====
-- `net.ParseIP` (by `netip.ParseAddr`), `net.IP.To4` and the dotted print of an IPv4 address.
pub mod Print
pub mod Bytes
pub mod RoundTrip
use kwrt_net_manager.Prelude.{
  ℕ, zero, suc, ◌+◌, ◌-◌, ◌*◌, ◌/◌, ◌%◌, Bool, true, false, ◌&&◌, ◌||◌, not, Option, none, some,
  List, [], ◌∷◌, ◌++◌, Str, str_eq, is_empty, leb, ltb, ◌==◌, if◌then◌else◌, ◌>>=◌, length, take,
  drop, replicate,
}
use kwrt_net_manager.Go.Strings.{cut_byte}
use kwrt_net_manager.Go.Strconv.{is_digit, parse_uint}

-- The loop of `parseIPv4Fields`: `val` and `digits` of the octet at hand, and the octets so far.
unfoldable pub v4_loop : Str → ℕ → ℕ → List ℕ → Option (List ℕ)
unfolding is_digit
v4_loop [] val digits done = if length done == 3 then some (done ++ val ∷ []) else none
v4_loop (c ∷ s) val digits done =
    let more = v4_loop s (val * 10 + (c - 48)) (digits + 1) done in
    let next = v4_loop s 0 0 (done ++ val ∷ []) in
    if is_digit c
    then (if digits == 1 && val == 0
        then none
        else if ltb 255 (val * 10 + (c - 48))
        then none
        else more)
    else if c == b'.'
    then (if digits == 0 || is_empty s then none else if length done == 3 then none else next)
    else none

abbrev pub parse_ipv4_fields : Str → Option (List ℕ)
parse_ipv4_fields s = v4_loop s 0 0 []

hex_val : ℕ → Option ℕ
hex_val c =
    if leb 48 c && leb c 57
    then some (c - 48)
    else if leb 97 c && leb c 102
    then some (c - 87)
    else if leb 65 c && leb c 70
    then some (c - 55)
    else none

-- One group of `parseIPv6`: its value, the number of its digits and what follows.
v6_group : Str → ℕ → ℕ → Option (ℕ × ℕ × Str)
v6_group [] digits acc = some (acc, digits, [])
v6_group (c ∷ s) digits acc = elim (hex_val c) [
  | none ↦ some (acc, digits, c ∷ s)
  | some d ↦
      if ltb 3 digits
      then none
      else if ltb 65535 (acc * 16 + d)
      then none
      else v6_group s (digits + 1) (acc * 16 + d)
]

-- Bytes read so far, the position of `::` among them, and what is left of the text.
abbrev V6 : Type 0
V6 = List ℕ × Option ℕ × Str

abbrev is_none : Option (List ℕ) → Bool
is_none none = true
is_none (some _) = false

is_some : Option ℕ → Bool
is_some none = false
is_some (some _) = true

begins_with : ℕ → Str → Bool
begins_with b [] = false
begins_with b (c ∷ _) = c == b

-- The trailing IPv4 part, `s` from its first digit on.
v6_trailer : Str → List ℕ → Option ℕ → Option V6
v6_trailer s bytes ellipsis =
    if not (is_some ellipsis) && not (length bytes == 12)
    then none
    else if ltb 16 (length bytes + 4)
    then none
    else (do four ← parse_ipv4_fields s; some (bytes ++ four, ellipsis, []))

-- What stands behind a group: the end, or a colon and more; `loop` reads the next group.
v6_next : (Str → List ℕ → Option ℕ → Option V6) → Str → List ℕ → Option ℕ → Option V6
v6_next loop [] bytes ellipsis = some (bytes, ellipsis, [])
v6_next loop (c ∷ []) bytes ellipsis = none
v6_next loop (c ∷ d ∷ s) bytes ellipsis =
    let go_on = loop (d ∷ s) bytes ellipsis in
    let behind = loop s bytes (some (length bytes)) in
    if not (c == b':')
    then none
    else if not (d == b':')
    then go_on
    else if is_some ellipsis
    then none
    else if is_empty s
    then some (bytes, some (length bytes), [])
    else behind

-- At most eight groups of two bytes.
v6_loop : ℕ → Str → List ℕ → Option ℕ → Option V6
v6_loop zero s bytes ellipsis = some (bytes, ellipsis, s)
v6_loop (suc n) s bytes ellipsis = elim (v6_group s 0 0) [
  | none ↦ none
  | some (acc, digits, rest) ↦
      if digits == 0
      then none
      else if begins_with b'.' rest
      then v6_trailer s bytes ellipsis
      else v6_next (v6_loop n) rest (bytes ++ acc / 256 ∷ acc % 256 ∷ []) ellipsis
]

-- Zeros in place of `::`.
v6_expand : List ℕ → Option ℕ → Option (List ℕ)
v6_expand bytes none = if length bytes == 16 then some bytes else none
v6_expand bytes (some at) =
    if ltb (length bytes) 16
    then some (take at bytes ++ (replicate (16 - length bytes) 0 ++ drop at bytes))
    else none

v6_finish : Option V6 → Option (List ℕ)
v6_finish none = none
v6_finish (some (bytes, ellipsis, s)) = if is_empty s then v6_expand bytes ellipsis else none

contains_byte : ℕ → Str → Bool
contains_byte b [] = false
contains_byte b (c ∷ s) = c == b || contains_byte b s

by_ellipsis : Str → Option (List ℕ)
by_ellipsis (b ∷ c ∷ s) =
    if b == b':' && c == b':'
    then (if is_empty s then some (replicate 16 0) else v6_finish (v6_loop 8 s [] (some 0)))
    else v6_finish (v6_loop 8 (b ∷ c ∷ s) [] none)
by_ellipsis s = v6_finish (v6_loop 8 s [] none)

-- `parseIPv6`; `net.ParseIP` refuses every zone, so a `%` is an error.
parse_ipv6 : Str → Option (List ℕ)
parse_ipv6 s = if contains_byte b'%' s then none else by_ellipsis s

abbrev pub v4_prefix : List ℕ
v4_prefix = replicate 10 0 ++ 255 ∷ 255 ∷ []

pub data Form : Type 0 where
  four_part colons neither : Form

-- The first of `.`, `:` and `%` decides how `netip.ParseAddr` reads the text.
form : Str → Form
form [] = neither
form (c ∷ s) =
    let later = form s in
    if c == b'.'
    then four_part
    else if c == b':'
    then colons
    else if c == b'%'
    then neither
    else later

parse_as : Form → Str → Option (List ℕ)
parse_as four_part s = do four ← parse_ipv4_fields s; some (v4_prefix ++ four)
parse_as colons s = parse_ipv6 s
parse_as neither s = none

-- The sixteen bytes of an address; an IPv4 address is stored behind `::ffff:`.
unfoldable pub parse_ip : Str → Option (List ℕ)
unfolding form parse_as parse_ipv6 by_ellipsis v6_loop v6_group hex_val v6_trailer v6_next
    begins_with is_some v6_finish v6_expand contains_byte
parse_ip s = parse_as (form s) s

-- `ip.To4()`
unfoldable pub to4 : List ℕ → Option (List ℕ)
unfolding str_eq
to4 ip = if str_eq (take 12 ip) v4_prefix then some (drop 12 ip) else none

abbrev bit_len : Form → ℕ
bit_len four_part = 32
bit_len _ = 128

abbrev is_short : Option ℕ → ℕ → Bool
is_short none most = false
is_short (some n) most = leb n most

cidr_ok : Option (Str × Str) → Bool
cidr_ok none = false
cidr_ok (some (addr, mask)) =
    if is_none (parse_ip addr) then false else is_short (parse_uint mask) (bit_len (form addr))

-- Whether `net.ParseCIDR` accepts the text.
unfoldable pub is_cidr : Str → Bool
unfolding cidr_ok form
is_cidr s = cidr_ok (cut_byte b'/' s)
