-- ===== src/Netutil/MacAddr/Laws.antt =====
-- A normalized MAC address is canonical: normalizing it again changes nothing, and two of them that
-- agree up to case are equal.
use kwrt_net_manager.Prelude.{
  ℕ, zero, suc, ◌/◌, ◌%◌, ◌<◌, ◌≡◌, refl, ap, ◌∙◌, false, inl, inr, Option, none, some, List, map,
  [], ◌∷◌, arith, Str, codes, str_eq, is_empty, All, Bool-cases, ◌==◌,
}
use kwrt_net_manager.Go.Strings.{
  is_space, trim_left, trim_right, trim_space, trim_space_lem, HasNoSpace, replace_all, upper,
  to_upper, equal_fold,
}
use kwrt_net_manager.Go.Mac.{hex_digit, hex_byte, octets, octet_pairs, parse_mac}
use kwrt_net_manager.Go.Mac.Octets.{IsOctets, OptIsOctets, parse_mac-IsOctets}
use kwrt_net_manager.Netutil.MacAddr.{
  hex_char, byte_hex, join_colon, parts, or_blank, normalize_mac,
}

normalize_hyphens : normalize_mac (codes " aa-bb-cc-dd-ee-0f ") ≡ codes "AA:BB:CC:DD:EE:0F"
unfolding normalize_mac or_blank join_colon parts byte_hex hex_char trim_space trim_left trim_right
    is_space replace_all parse_mac octets octet_pairs hex_byte hex_digit to_upper upper
normalize_hyphens = refl

normalize_dots : normalize_mac (codes "aabb.ccdd.ee0f") ≡ codes "AA:BB:CC:DD:EE:0F"
unfolding normalize_mac or_blank join_colon parts byte_hex hex_char trim_space trim_left trim_right
    is_space replace_all parse_mac octets octet_pairs hex_byte hex_digit to_upper upper
normalize_dots = refl

normalize_eight : normalize_mac (codes "aa:bb:cc:dd:ee:0f:00:11") ≡ []
unfolding normalize_mac or_blank join_colon parts byte_hex hex_char trim_space trim_left trim_right
    is_space replace_all parse_mac octets octet_pairs hex_byte hex_digit to_upper upper
normalize_eight = refl

-- One upper-case digit.
abbrev up : ℕ → ℕ
up n = upper (hex_char n)

up_facts :
    (n : ℕ)
    → n < 16
    → (is_space (up n) ≡ false)
      × (hex_digit (up n) ≡ some n)
      × ((up n == b'-') ≡ false)
      × (upper (up n) ≡ up n)
unfolding is_space upper hex_char hex_digit
up_facts n h = ground arith

hex_byte-up : (b : ℕ) → b < 256 → hex_byte (up (b / 16)) (up (b % 16)) ≡ some b
unfolding hex_byte
hex_byte-up b h =
    let high = (up_facts (b / 16) (omega arith)).1 in
    let low = (up_facts (b % 16) (omega arith)).1 in rw (high, low) (ap some (omega arith))

octets-join :
    (n : ℕ) (hw : List ℕ)
    → IsOctets (suc n) hw
    → octets b':' (suc n) (join_colon (parts hw)) ≡ some hw
unfolding octets join_colon parts byte_hex to_upper
octets-join n [] h = absurd (omega arith)
octets-join zero (b ∷ []) h = rw (hex_byte-up b h.1.0)
octets-join zero (b ∷ c ∷ hw) h = absurd (omega arith)
octets-join (suc n) (b ∷ []) h = absurd (omega arith)
octets-join (suc n) (b ∷ c ∷ hw) h =
    rw (hex_byte-up b h.1.0, octets-join n (c ∷ hw) (omega arith, h.1.1))

-- A property of the upper-case digits and of the colon holds along the whole address.
module _ (P : ℕ → Type 0) (colon : P b':') (digit : (n : ℕ) → n < 16 → P (up n)) where
  All-join : (hw : List ℕ) → All (λ b. b < 256) hw → All P (join_colon (parts hw))
  unfolding join_colon parts byte_hex to_upper
  All-join [] h = tt
  All-join (b ∷ []) h = (digit (b / 16) (omega arith), (digit (b % 16) (omega arith), tt))
  All-join (b ∷ c ∷ hw) h =
      (digit (b / 16) (omega arith), (digit (b % 16) (omega arith), (colon, All-join (c ∷ hw) h.1)))

map_fixed : (f : ℕ → ℕ) (s : Str) → All (λ c. f c ≡ c) s → map f s ≡ s
map_fixed f [] h = refl
map_fixed f (c ∷ s) h = cc (h.0, map_fixed f s h.1)

module _ (hw : List ℕ) (h : All (λ b. b < 256) hw) where
  join-HasNoSpace : HasNoSpace (join_colon (parts hw))
  unfolding is_space
  join-HasNoSpace = All-join _ refl (λ n k. (up_facts n k).0) hw h

  replace_all-join : replace_all b'-' b':' (join_colon (parts hw)) ≡ join_colon (parts hw)
  unfolding replace_all
  replace_all-join = map_fixed _ _ (All-join _ refl (λ n k. rw ((up_facts n k).2)) hw h)

  to_upper-join : to_upper (join_colon (parts hw)) ≡ join_colon (parts hw)
  unfolding to_upper upper
  to_upper-join = map_fixed _ _ (All-join _ refl (λ n k. (up_facts n k).3) hw h)

-- The third character of the print is a colon.
parse_mac_colon :
    (hw : List ℕ)
    → IsOctets 6 hw
    → parse_mac (join_colon (parts hw)) ≡ octets b':' 6 (join_colon (parts hw))
unfolding parse_mac join_colon parts byte_hex to_upper
parse_mac_colon [] h = absurd (omega arith)
parse_mac_colon (b ∷ []) h = absurd (omega arith)
parse_mac_colon (b ∷ c ∷ hw) h = refl

join-ne-empty : (hw : List ℕ) → IsOctets 6 hw → is_empty (join_colon (parts hw)) ≡ false
unfolding join_colon parts byte_hex to_upper
join-ne-empty [] h = absurd (omega arith)
join-ne-empty (b ∷ []) h = refl
join-ne-empty (b ∷ c ∷ hw) h = refl

parse_mac-join : (hw : List ℕ) → IsOctets 6 hw → parse_mac (join_colon (parts hw)) ≡ some hw
parse_mac-join hw h = parse_mac_colon hw h ∙ octets-join 5 hw h

-- What `NormalizeMAC` returns is the empty text or the print of six bytes.
data Normal : Str → Type 0 where
  blank : Normal []
  printed : (hw : List ℕ) → IsOctets 6 hw → Normal (join_colon (parts hw))

or_blank-Normal : (m : Option (List ℕ)) → OptIsOctets 6 m → Normal (or_blank m)
unfolding or_blank
or_blank-Normal none h = blank
or_blank-Normal (some hw) h = printed hw h

normalize_mac-Normal : (s : Str) → Normal (normalize_mac s)
unfolding normalize_mac
normalize_mac-Normal s = elim (Bool-cases (is_empty (trim_space s))) [
  | inl e ↦ rw e blank
  | inr e ↦ rw e (or_blank-Normal _ (parse_mac-IsOctets _))
]

normalize_printed :
    (hw : List ℕ) → IsOctets 6 hw → normalize_mac (join_colon (parts hw)) ≡ join_colon (parts hw)
unfolding normalize_mac or_blank
normalize_printed hw h = rw (
  trim_space_lem _ (join-HasNoSpace hw h.1),
  join-ne-empty hw h,
  replace_all-join hw h.1,
  parse_mac-join hw h,
)

Normal-fixed : {t : Str} → Normal t → normalize_mac t ≡ t
unfolding normalize_mac trim_space trim_left trim_right
Normal-fixed blank = refl
Normal-fixed (printed hw h) = normalize_printed hw h

Normal-to_upper : {t : Str} → Normal t → to_upper t ≡ t
unfolding to_upper
Normal-to_upper blank = refl
Normal-to_upper (printed hw h) = to_upper-join hw h.1

-- Normalizing a MAC address twice is normalizing it once.
pub normalize_mac_idem : (s : Str) → normalize_mac (normalize_mac s) ≡ normalize_mac s
normalize_mac_idem s = Normal-fixed (normalize_mac-Normal s)

-- On normalized MAC addresses the comparison without case is equality.
pub equal_fold-normalize_mac :
    (s t : Str)
    → equal_fold (normalize_mac s) (normalize_mac t) ≡ str_eq (normalize_mac s) (normalize_mac t)
unfolding equal_fold
equal_fold-normalize_mac s t =
    rw (Normal-to_upper (normalize_mac-Normal s), Normal-to_upper (normalize_mac-Normal t))
