-- ===== src/Go/Ip/RoundTrip.antt =====
-- The dotted print of an address is read back by `net.ParseIP`.
use mathlib.Core.List.{append-nil}
use kwrt_net_manager.Prelude.{
  ℕ, ◌<◌, ◌≡◌, refl, false, none, some, List, [], ◌∷◌, ◌++◌, arith, Str, is_empty, length, codes,
  All-append, ◌>>=◌, ◌∙◌,
}
use kwrt_net_manager.Go.Ip.{v4_loop, form, four_part, parse_ip, v4_prefix}
use kwrt_net_manager.Go.Ip.Print.{octet, dotted}
use kwrt_net_manager.Go.Strings.{is_space, HasNoSpace}

mapped_v4 : parse_ip (codes "::ffff:192.168.1.1") ≡ parse_ip (codes "192.168.1.1")
unfolding parse_ip v4_loop
mapped_v4 = refl

middle_zeros :
    parse_ip (codes "fe80::1:1.2.3.4")
    ≡ some (254 ∷ 128 ∷ 0 ∷ 0 ∷ 0 ∷ 0 ∷ 0 ∷ 0 ∷ 0 ∷ 0 ∷ 0 ∷ 1 ∷ 1 ∷ 2 ∷ 3 ∷ 4 ∷ [])
unfolding parse_ip v4_loop
middle_zeros = refl

too_many_groups : parse_ip (codes "1:2:3:4:5:6:7::8") ≡ none
unfolding parse_ip v4_loop
too_many_groups = refl

leading_zero : parse_ip (codes "192.168.01.1") ≡ none
unfolding parse_ip v4_loop
leading_zero = refl

v4_octet :
    (n : ℕ) (s : Str) (done : List ℕ)
    → n < 256
    → is_empty s ≡ false
    → length done < 3
    → v4_loop (octet n ++ (b'.' ∷ s)) 0 0 done ≡ v4_loop s 0 0 (done ++ n ∷ [])
unfolding octet v4_loop
v4_octet n s done h ne short = ground arith

v4_last :
    (n : ℕ) (done : List ℕ)
    → n < 256
    → length done ≡ 3
    → v4_loop (octet n) 0 0 done ≡ some (done ++ n ∷ [])
unfolding octet v4_loop
v4_last n done h full = ground arith

octet-append-ne-empty : (n : ℕ) (s : Str) → is_empty (octet n ++ s) ≡ false
unfolding octet
octet-append-ne-empty n s = ground arith

form-octet : (n : ℕ) (s : Str) → n < 256 → form (octet n ++ (b'.' ∷ s)) ≡ four_part
unfolding octet form
form-octet n s h = ground arith

octet-HasNoSpace : (n : ℕ) → n < 256 → HasNoSpace (octet n)
unfolding octet is_space
octet-HasNoSpace n h = ground arith

octet_dot-HasNoSpace :
    (n : ℕ) (s : Str) → n < 256 → HasNoSpace s → HasNoSpace (octet n ++ (b'.' ∷ s))
unfolding is_space
octet_dot-HasNoSpace n s h hs = All-append _ (octet n) _ (octet-HasNoSpace n h) (refl, hs)

parse_ip_four_part :
    (s : Str)
    → form s ≡ four_part
    → parse_ip s ≡ (v4_loop s 0 0 [] >>= λ four. some (v4_prefix ++ four))
unfolding parse_ip
parse_ip_four_part s h = ground arith

module _ (a b c d : ℕ) (ha : a < 256) (hb : b < 256) (hc : c < 256) (hd : d < 256) where
  v4_loop-dotted : v4_loop (dotted a b c d) 0 0 [] ≡ some (a ∷ b ∷ c ∷ d ∷ [])
  unfolding dotted
  v4_loop-dotted =
      v4_octet a _ [] ha (octet-append-ne-empty b _) (omega arith)
      ∙ v4_octet b _ (a ∷ []) hb (octet-append-ne-empty c _) (omega arith)
      ∙ v4_octet c _ (a ∷ b ∷ []) hc (rw (← append-nil (octet d)) (octet-append-ne-empty d []))
          (omega arith)
      ∙ v4_last d (a ∷ b ∷ c ∷ []) hd refl

  form-dotted : form (dotted a b c d) ≡ four_part
  unfolding dotted
  form-dotted = form-octet a _ ha

  pub dotted-HasNoSpace : HasNoSpace (dotted a b c d)
  unfolding dotted
  dotted-HasNoSpace =
      octet_dot-HasNoSpace a _ ha
        (octet_dot-HasNoSpace b _ hb (octet_dot-HasNoSpace c _ hc (octet-HasNoSpace d hd)))

  pub parse_ip-dotted :
      parse_ip (dotted a b c d)
      ≡ some (0 ∷ 0 ∷ 0 ∷ 0 ∷ 0 ∷ 0 ∷ 0 ∷ 0 ∷ 0 ∷ 0 ∷ 255 ∷ 255 ∷ a ∷ b ∷ c ∷ d ∷ [])
  parse_ip-dotted = rw (parse_ip_four_part _ form-dotted) (rw v4_loop-dotted)
