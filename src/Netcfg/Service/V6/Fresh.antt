-- ===== src/Netcfg/Service/V6/Fresh.antt =====
-- internal/netcfg/ipv6_service.go: the names of new lines and networks, and how their creation ends.
use mathlib.Core.Path.{subst}
use kwrt_net_manager.Prelude.{
  ℕ, zero, suc, ◌+◌, ◌/◌, ◌%◌, ◌<◌, ◌≡◌, ◌⊎◌, refl, sym, inl, inr, true, false, List, [], ◌∷◌, ◌++◌,
  map, arith, Str, codes, ◌==◌, Bool-cases,
}
use kwrt_net_manager.Go.Strings.{trim_space}
use kwrt_net_manager.Go.Strconv.{is_digit}
use kwrt_net_manager.Netcfg.Result.{ok, err, lan_configured}
use kwrt_net_manager.Netcfg.Exec.{lift, bind-ok}
use kwrt_net_manager.Netcfg.Types.V6.{WanV6, LanV6}
use kwrt_net_manager.Netcfg.Names.{
  is_alnum, starts_wrong, uci_name, uci_char, itoa, itoa_loop, or_v6,
}
use kwrt_net_manager.Netcfg.Names.Fresh.{IsFresh, next_v6_id-IsFresh, IsFresh-unused}
use kwrt_net_manager.Netcfg.Validate.V6.{validate_wan_v6, validate_lan_v6}
use kwrt_net_manager.Netcfg.Backend.{Backend, Config, Lawful}
use kwrt_net_manager.Netcfg.Service.{World, in_set}
use kwrt_net_manager.Netcfg.Service.Collection.{no_check}
use kwrt_net_manager.Netcfg.Service.Collection.Outcome.{Outcome, Stopped}
use kwrt_net_manager.Netcfg.Service.Collection.NamedEnds.{
  create_named-Outcome, create_named-Stopped,
}
use kwrt_net_manager.Netcfg.Service.V6.{
  ids_of_wan_v6, wan_name, ensure_no_lan, wan_collection, lan_collection, create_wan_v6,
  create_lan_v6,
}
use kwrt_net_manager.Netcfg.Service.V6.Kept.{
  wans_of, with_wans, Kept-wans, lans_of, with_lans, Kept-lans,
}

-- The ids that are in use.
unfoldable pub ids_of_lans : List LanV6 → List Str
ids_of_lans [] = []
ids_of_lans (l ∷ ls) = l.id ∷ ids_of_lans ls

-- Texts that `uciName` takes over character by character.
IsPlain : Str → Type 0
IsPlain s = map uci_char s ≡ s

digit-plain : (d : ℕ) → d < 10 → uci_char (48 + d) ≡ 48 + d
unfolding is_digit is_alnum
digit-plain d h = ground arith

itoa_loop-IsPlain : (fuel n : ℕ) (s : Str) → IsPlain s → IsPlain (itoa_loop fuel n s)
unfolding itoa_loop IsPlain
itoa_loop-IsPlain zero n s h = h
itoa_loop-IsPlain (suc fuel) n s h = elim (Bool-cases (n == 0)) [
  | inl e ↦ rw e h
  | inr e ↦
      rw e (itoa_loop-IsPlain fuel (n / 10) _ (rw (digit-plain (n % 10) (omega arith), h) refl))
]

itoa-IsPlain : (n : ℕ) → IsPlain (itoa n)
unfolding itoa IsPlain is_alnum is_digit
itoa-IsPlain n = elim (Bool-cases (n == 0)) [
  | inl e ↦ rw e refl
  | inr e ↦ rw e (itoa_loop-IsPlain n n [] refl)
]

-- The names that the search tries are UCI names.
uci_name-IsFresh : (used : List Str) (id : Str) → IsFresh used (codes "wan6") id → uci_name id ≡ id
unfolding uci_name starts_wrong IsPlain is_alnum is_digit
uci_name-IsFresh used id (inl (_, named)) = rw named refl
uci_name-IsFresh used id (inr (_, _, first)) = rw (first.named, itoa-IsPlain first.number) refl

-- A line with no id gets one that no stored line has.
wan_name-unused :
    (w : WanV6) (list : List WanV6)
    → trim_space w.id ≡ []
    → in_set (ids_of_wan_v6 list) (wan_name w list) ≡ false
unfolding wan_name or_v6
wan_name-unused w list blank =
    let fresh = next_v6_id-IsFresh (ids_of_wan_v6 list) (codes "wan6") in
    rw (blank, uci_name-IsFresh _ _ fresh) (IsFresh-unused _ _ _ fresh)

ensure_no_lan-taken :
    (id : Str) (l : List LanV6)
    → in_set (ids_of_lans l) id ≡ true
    → ensure_no_lan id l ≡ err lan_configured
unfolding ensure_no_lan in_set ids_of_lans
ensure_no_lan-taken id [] h = ground arith
ensure_no_lan-taken id (x ∷ xs) h = ground (arith, ensure_no_lan-taken id xs)

ensure_no_lan-free :
    (id : Str) (l : List LanV6) → in_set (ids_of_lans l) id ≡ false → ensure_no_lan id l ≡ ok tt
unfolding ensure_no_lan in_set ids_of_lans
ensure_no_lan-free id [] h = refl
ensure_no_lan-free id (x ∷ xs) h = ground (arith, ensure_no_lan-free id xs)

module _ {S : Type 0} (be : Backend S) (view : S → Config) (lawful : Lawful be view) where
  abbrev pub named_wan : WanV6 → World S → WanV6
  named_wan t w = (wan_collection be).identify (wan_name t (view w.be).wan_v6s) t

  -- Over a backend that keeps its contract, creating an IPv6 line that passes validation and
  -- has no id gives it an id that no stored line has, and either appends it to the stored
  -- lines, answers with it and publishes one event with their number, or ends in an error that
  -- publishes nothing and leaves the stored lines as they were or with the line appended.
  pub create_wan_v6-fresh :
      (x t : WanV6) (w : World S)
      → validate_wan_v6 x ≡ ok t
      → trim_space t.id ≡ []
      → (in_set (ids_of_wan_v6 (view w.be).wan_v6s) (named_wan t w).id ≡ false)
        × Outcome
            (wan_collection be)
            view
            with_wans
            w
            (codes "create")
            ((view w.be).wan_v6s ++ named_wan t w ∷ [])
            tt
            (named_wan t w)
            (create_wan_v6 be x w)
  unfolding create_wan_v6
  create_wan_v6-fresh x t w good blank = (
    wan_name-unused t (view w.be).wan_v6s blank,
    subst (Outcome (wan_collection be) view with_wans w (codes "create") _ tt (named_wan t w))
        (sym (bind-ok (lift (validate_wan_v6 x)) _ w t good))
        (create_named-Outcome (wan_collection be) view wans_of with_wans (Kept-wans be view lawful)
          no_check (wan_name t) t w refl),
  )

  abbrev pub named_lan : LanV6 → LanV6
  named_lan t = record t { id = uci_name t.interface; managed = true }

  -- Over a backend that keeps its contract, creating an IPv6 network that passes validation is
  -- an error that changes and publishes nothing when a stored network has the UCI name of its
  -- interface as id; otherwise the network is appended under that id, answered and published,
  -- or there is an error that publishes nothing.
  pub create_lan_v6-ends :
      (x t : LanV6) (w : World S)
      → validate_lan_v6 x ≡ ok t
      → ((in_set (ids_of_lans (view w.be).lan_v6s) (uci_name t.interface) ≡ true)
          × Stopped
              (lan_collection be)
              view
              lans_of
              with_lans
              (Kept-lans be view lawful)
              w
              (create_lan_v6 be x w))
        ⊎ ((in_set (ids_of_lans (view w.be).lan_v6s) (uci_name t.interface) ≡ false)
            × Outcome
                (lan_collection be)
                view
                with_lans
                w
                (codes "create")
                ((view w.be).lan_v6s ++ named_lan t ∷ [])
                tt
                (named_lan t)
                (create_lan_v6 be x w))
  unfolding create_lan_v6
  create_lan_v6-ends x t w good =
      rw (bind-ok (lift (validate_lan_v6 x)) _ w t good)
        (elim (Bool-cases (in_set (ids_of_lans (view w.be).lan_v6s) (uci_name t.interface))) [
          | inl taken ↦ inl (
            taken,
            create_named-Stopped (lan_collection be) view lans_of with_lans
                (Kept-lans be view lawful) (ensure_no_lan (uci_name t.interface))
                (λ _. uci_name t.interface) t w lan_configured
                (ensure_no_lan-taken _ (view w.be).lan_v6s taken),
          )
          | inr free ↦ inr (
            free,
            create_named-Outcome (lan_collection be) view lans_of with_lans
                (Kept-lans be view lawful) (ensure_no_lan (uci_name t.interface))
                (λ _. uci_name t.interface) t w (ensure_no_lan-free _ (view w.be).lan_v6s free),
          )
        ])
