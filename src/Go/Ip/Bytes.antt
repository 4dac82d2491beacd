-- ===== src/Go/Ip/Bytes.antt =====
-- What `net.ParseIP` returns are bytes.
use kwrt_net_manager.Prelude.{
  ℕ, zero, suc, ◌+◌, ◌-◌, ◌*◌, ◌/◌, ◌%◌, ◌<◌, ◌≡◌, inl, inr, Option, none, some, List, [], ◌∷◌,
  ◌++◌, arith, Str, All, All-append, length, take, drop, replicate, Option-cases,
}
use kwrt_net_manager.Go.Ip.{
  v4_loop, hex_val, v6_group, V6, v6_trailer, v6_next, v6_loop, v6_expand, v6_finish, parse_ipv6,
  parse_ipv4_fields, parse_as, form, four_part, colons, neither, parse_ip, by_ellipsis, Form,
  v4_prefix,
}

abbrev pub IsBytes : List ℕ → Type 0
IsBytes = All (λ x. x < 256)

pub drop-IsBytes : (n : ℕ) (xs : List ℕ) → IsBytes xs → IsBytes (drop n xs)
drop-IsBytes zero xs h = h
drop-IsBytes (suc n) [] h = tt
drop-IsBytes (suc n) (x ∷ xs) h = drop-IsBytes n xs h.1

take-IsBytes : (n : ℕ) (xs : List ℕ) → IsBytes xs → IsBytes (take n xs)
take-IsBytes zero xs h = tt
take-IsBytes (suc n) [] h = tt
take-IsBytes (suc n) (x ∷ xs) h = (h.0, take-IsBytes n xs h.1)

zeros-IsBytes : (n : ℕ) → IsBytes (replicate n 0)
zeros-IsBytes zero = tt
zeros-IsBytes (suc n) = (omega arith, zeros-IsBytes n)

-- A result, if there is one, holds bytes.
abbrev pub OptIsBytes : Option (List ℕ) → Type 0
OptIsBytes none = Unit
OptIsBytes (some r) = IsBytes r

v4_loop-IsBytes :
    (s : Str) (val digits : ℕ) (done : List ℕ)
    → val < 256
    → IsBytes done
    → OptIsBytes (v4_loop s val digits done)
unfolding v4_loop
v4_loop-IsBytes [] val digits done hv hd =
    ground (arith, All-append (λ x. x < 256) done (val ∷ []) hd (hv, tt))
v4_loop-IsBytes (c ∷ s) val digits done hv hd =
    let pushed = All-append (λ (x : ℕ). x < 256) done (val ∷ []) hd (hv, tt) in
    ground (
      arith,
      v4_loop-IsBytes s (val * 10 + (c - 48)) (digits + 1) done,
      v4_loop-IsBytes s 0 0 (done ++ val ∷ []) (omega arith) pushed,
    )

parse_ipv4_fields-IsBytes : (s : Str) → OptIsBytes (parse_ipv4_fields s)
parse_ipv4_fields-IsBytes s = v4_loop-IsBytes s 0 0 [] (omega arith) tt

hex_val-lt : (c : ℕ) {d : ℕ} → hex_val c ≡ some d → d < 16
unfolding hex_val
hex_val-lt c e = ground arith

v6_group-lt :
    (s : Str) (digits acc g k : ℕ) (rest : Str)
    → acc < 65536
    → v6_group s digits acc ≡ some (g, k, rest)
    → g < 65536
unfolding v6_group
v6_group-lt [] digits acc g k rest h e = ground arith
v6_group-lt (c ∷ s) digits acc g k rest h e = elim (Option-cases (hex_val c)) [
  | inl stop ↦ ground arith
  | inr (d, more) ↦ ground (arith, v6_group-lt s (digits + 1) (acc * 16 + d) g k rest)
]

-- A result of the loop, if there is one, holds bytes.
abbrev V6IsBytes : Option V6 → Type 0
V6IsBytes none = Unit
V6IsBytes (some (bytes, _, _)) = IsBytes bytes

v6_trailer-IsBytes :
    (s : Str) (bytes : List ℕ) (ell : Option ℕ) → IsBytes bytes → V6IsBytes (v6_trailer s bytes ell)
unfolding v6_trailer
v6_trailer-IsBytes s bytes ell h = elim (Option-cases (parse_ipv4_fields s)) [
  | inl stop ↦ ground arith
  | inr (four, e) ↦
      ground (arith, All-append (λ x. x < 256) bytes four h (rw e at (parse_ipv4_fields-IsBytes s)))
]

v6_next-IsBytes :
    (loop : Str → List ℕ → Option ℕ → Option V6)
    → ((s : Str) (bytes : List ℕ) (ell : Option ℕ) → IsBytes bytes → V6IsBytes (loop s bytes ell))
    → (s : Str) (bytes : List ℕ) (ell : Option ℕ) → IsBytes bytes
    → V6IsBytes (v6_next loop s bytes ell)
unfolding v6_next
v6_next-IsBytes loop ih [] bytes ell h = h
v6_next-IsBytes loop ih (c ∷ []) bytes ell h = tt
v6_next-IsBytes loop ih (c ∷ d ∷ s) bytes ell h =
    ground (arith, ih (d ∷ s) bytes ell h, ih s bytes (some (length bytes)) h)

v6_loop-IsBytes :
    (n : ℕ) (s : Str) (bytes : List ℕ) (ell : Option ℕ)
    → IsBytes bytes
    → V6IsBytes (v6_loop n s bytes ell)
unfolding v6_loop
v6_loop-IsBytes zero s bytes ell h = h
v6_loop-IsBytes (suc n) s bytes ell h = elim (Option-cases (v6_group s 0 0)) [
  | inl stop ↦ rw (stop, V6IsBytes) tt
  | inr ((g, k, rest), e) ↦
      let two =
        All-append (λ (x : ℕ). x < 256) bytes (g / 256 ∷ g % 256 ∷ []) h
          (omega (arith, v6_group-lt s 0 0 g k rest (omega arith) e)) in
      rw (e, V6IsBytes)
        (ground (
          arith,
          v6_trailer-IsBytes s bytes ell h,
          v6_next-IsBytes (v6_loop n) (v6_loop-IsBytes n) rest _ ell two,
        ))
]

v6_finish-IsBytes : (m : Option V6) → V6IsBytes m → OptIsBytes (v6_finish m)
unfolding v6_finish v6_expand
v6_finish-IsBytes none h = tt
v6_finish-IsBytes (some (bytes, none, s)) h = ground arith
v6_finish-IsBytes (some (bytes, some at, s)) h =
    let zeros = zeros-IsBytes (16 - length bytes) in
    let behind = All-append (λ (x : ℕ). x < 256) _ _ zeros (drop-IsBytes at bytes h) in
    ground (arith, All-append (λ x. x < 256) (take at bytes) _ (take-IsBytes at bytes h) behind)

loop-IsBytes : (s : Str) (ell : Option ℕ) → OptIsBytes (v6_finish (v6_loop 8 s [] ell))
loop-IsBytes s ell = v6_finish-IsBytes _ (v6_loop-IsBytes 8 s [] ell tt)

by_ellipsis-IsBytes : (s : Str) → OptIsBytes (by_ellipsis s)
unfolding by_ellipsis
by_ellipsis-IsBytes [] = loop-IsBytes [] none
by_ellipsis-IsBytes (b ∷ []) = loop-IsBytes (b ∷ []) none
by_ellipsis-IsBytes (b ∷ c ∷ s) =
    ground (arith, zeros-IsBytes 16, loop-IsBytes s (some 0), loop-IsBytes (b ∷ c ∷ s) none)

parse_ipv6-IsBytes : (s : Str) → OptIsBytes (parse_ipv6 s)
unfolding parse_ipv6
parse_ipv6-IsBytes s = ground (arith, by_ellipsis-IsBytes s)

parse_as-IsBytes : (f : Form) (s : Str) → OptIsBytes (parse_as f s)
unfolding parse_as
parse_as-IsBytes four_part s = elim (Option-cases (parse_ipv4_fields s)) [
  | inl stop ↦ rw (stop, OptIsBytes) tt
  | inr (four, e) ↦
      rw (e, OptIsBytes)
        (All-append (λ x. x < 256) v4_prefix four (omega arith)
          (rw e at (parse_ipv4_fields-IsBytes s)))
]
parse_as-IsBytes colons s = parse_ipv6-IsBytes s
parse_as-IsBytes neither s = tt

pub parse_ip-IsBytes : (s : Str) → OptIsBytes (parse_ip s)
unfolding parse_ip
parse_ip-IsBytes s = parse_as-IsBytes (form s) s
