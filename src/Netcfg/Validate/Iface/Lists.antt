-- ===== src/Netcfg/Validate/Iface/Lists.antt =====
-- internal/netcfg/iface.go: the loops over the DNS servers and the further addresses of a line.
use mathlib.Core.Path.{subst}
use kwrt_net_manager.Prelude.{
  ◌≡◌, ◌≢◌, ◌∙◌, refl, ◌⊎◌, inl, inr, sym, true, false, ◌||◌, List, [], ◌∷◌, arith, Str, str_eq_iff,
  is_empty, pos, ltℤ, All, AllPairs, All-map, Bool-cases,
}
use kwrt_net_manager.Go.Strings.{trim_space}
use kwrt_net_manager.Go.Strings.Trim.{trim_space_idem}
use kwrt_net_manager.Netutil.{is_ipv4, is_ipv6}
use kwrt_net_manager.Netcfg.Result.{ok, Result-cases, >>=-eq-ok, reject-eq-ok}
use kwrt_net_manager.Netcfg.Types.{family_ipv4, family_ipv6}
use kwrt_net_manager.Netcfg.Types.Iface.{IfaceAddr}
use kwrt_net_manager.Netcfg.Service.{in_set}
use kwrt_net_manager.Netcfg.Validate.Iface.{clean_dns, check_addr, check_extra}

-- A trimmed address of a DNS server.
pub record IsServer (d : Str) : Type 0 where
  pub trimmed : trim_space d ≡ d
  pub address : (is_ipv4 d ≡ true) ⊎ (is_ipv6 d ≡ true)

pub data IsAddr (a : IfaceAddr) : Type 0 where
  v4 :
      a.family ≡ family_ipv4
      → is_ipv4 a.address ≡ true
      → ltℤ a.prefix (pos 1) || ltℤ (pos 32) a.prefix ≡ false
      → IsAddr a
  v6 :
      a.family ≡ family_ipv6
      → is_ipv6 a.address ≡ true
      → ltℤ a.prefix (pos 1) || ltℤ (pos 128) a.prefix ≡ false
      → IsAddr a

-- A key that is not among more keys is not among fewer, and is not the one that was left out.
in_set-tail : (s t : Str) (l : List Str) → in_set (s ∷ l) t ≡ false → (in_set l t ≡ false) × (s ≢ t)
unfolding in_set
in_set-tail s t l h = ground (arith, str_eq_iff s t)

pub record IsClean (seen ds : List Str) : Type 0 where
  pub valid : All IsServer ds
  pub distinct : AllPairs (λ d e. d ≢ e) ds
  pub fresh : All (λ d. in_set seen d ≡ false) ds

-- A server that is kept is an address that was not seen, in front of those kept of the rest.
pub clean_dns-kept :
    (seen : List Str) (d : Str) (ds out : List Str)
    → clean_dns seen (d ∷ ds) ≡ ok out
    → is_empty (trim_space d) ≡ false
    → ((is_ipv4 (trim_space d) ≡ true) ⊎ (is_ipv6 (trim_space d) ≡ true))
      × (in_set seen (trim_space d) ≡ false)
      × (rest : List Str) × (clean_dns (trim_space d ∷ seen) ds ≡ ok rest)
      × (trim_space d ∷ rest ≡ out)
unfolding clean_dns
clean_dns-kept seen d ds out h given =
    ground (arith, Result-cases (clean_dns (trim_space d ∷ seen) ds))

pub clean_dns-blank :
    (seen : List Str) (d : Str) (ds : List Str)
    → is_empty (trim_space d) ≡ true
    → clean_dns seen (d ∷ ds) ≡ clean_dns seen ds
unfolding clean_dns
clean_dns-blank seen d ds blank = rw blank refl

IsClean-cons :
    (seen ds : List Str) (d : Str)
    → IsServer d
    → in_set seen d ≡ false
    → IsClean (d ∷ seen) ds
    → IsClean seen (d ∷ ds)
IsClean-cons seen ds d server new h = record {
  valid = (server, h.valid);
  distinct = (All-map ds (λ e k. (in_set-tail d e seen k).1) h.fresh, h.distinct);
  fresh = (new, All-map ds (λ e k. (in_set-tail d e seen k).0) h.fresh);
}

pub clean_dns-IsClean : (seen ds out : List Str) → clean_dns seen ds ≡ ok out → IsClean seen out
unfolding clean_dns
clean_dns-IsClean seen [] [] h = record { valid = tt; distinct = tt; fresh = tt }
clean_dns-IsClean seen [] (e ∷ es) h = absurd (cc)
clean_dns-IsClean seen (d ∷ ds) out h = elim (Bool-cases (is_empty (trim_space d))) [
  | inl blank ↦ clean_dns-IsClean seen ds out (sym (clean_dns-blank seen d ds blank) ∙ h)
  | inr given ↦
      let (address, new, rest, cleaned, same) = clean_dns-kept seen d ds out h given in
      subst (IsClean seen) same (
        IsClean-cons seen rest (trim_space d)
          (record { trimmed = trim_space_idem d; address = address }) new
          (clean_dns-IsClean (trim_space d ∷ seen) ds rest cleaned))
]

check_addr-IsAddr : (a t : IfaceAddr) → check_addr a ≡ ok t → IsAddr t × (t.address ≡ a.address)
unfolding check_addr
check_addr-IsAddr a t h = ground (arith, str_eq_iff a.family family_ipv6)

-- The further addresses that pass, with the addresses that were seen before.
pub record IsExtra (seen : List Str) (as_given : List IfaceAddr) : Type 0 where
  pub valid : All IsAddr as_given
  pub distinct : AllPairs (λ a b. a.address ≢ b.address) as_given
  pub fresh : All (λ a. in_set seen a.address ≡ false) as_given

pub check_extra-cons :
    (seen : List Str) (a : IfaceAddr) (more out : List IfaceAddr)
    → check_extra seen (a ∷ more) ≡ ok out
    → (checked : IfaceAddr) × (rest : List IfaceAddr) × (check_addr a ≡ ok checked)
      × (in_set seen a.address ≡ false)
      × (check_extra (a.address ∷ seen) more ≡ ok rest)
      × (checked ∷ rest ≡ out)
unfolding check_extra
check_extra-cons seen a more out h =
    let (checked, good, behind) = >>=-eq-ok (check_addr a) _ h in
    let (_, new, behind1) = >>=-eq-ok _ _ behind in
    let (rest, later, done) = >>=-eq-ok (check_extra (a.address ∷ seen) more) _ behind1 in
    (checked, rest, good, reject-eq-ok _ _ new, later, cc (done))

IsExtra-cons :
    (seen : List Str) (a : IfaceAddr) (more : List IfaceAddr)
    → IsAddr a
    → in_set seen a.address ≡ false
    → IsExtra (a.address ∷ seen) more
    → IsExtra seen (a ∷ more)
IsExtra-cons seen a more valid new h = record {
  valid = (valid, h.valid);
  distinct = (All-map more (λ b k. (in_set-tail a.address b.address seen k).1) h.fresh, h.distinct);
  fresh = (new, All-map more (λ b k. (in_set-tail a.address b.address seen k).0) h.fresh);
}

pub check_extra-IsExtra :
    (seen : List Str) (l out : List IfaceAddr) → check_extra seen l ≡ ok out → IsExtra seen out
unfolding check_extra
check_extra-IsExtra seen [] [] h = record { valid = tt; distinct = tt; fresh = tt }
check_extra-IsExtra seen [] (b ∷ bs) h = absurd (cc)
check_extra-IsExtra seen (a ∷ more) out h =
    let (checked, rest, good, new, later, same) = check_extra-cons seen a more out h in
    let (valid, address) = check_addr-IsAddr a checked good in
    subst (IsExtra seen) same (
      IsExtra-cons seen checked rest valid (subst (λ s. in_set seen s ≡ false) (sym address) new) (
        subst (λ s. IsExtra (s ∷ seen) rest) (sym address)
          (check_extra-IsExtra (a.address ∷ seen) more rest later)))
