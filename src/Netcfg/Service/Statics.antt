-- ===== src/Netcfg/Service/Statics.antt =====
-- internal/netcfg/service.go, static reservations.
pub mod Unique
pub mod Keeps
pub mod Reach
use kwrt_net_manager.Prelude.{
  ℕ, ◌+◌, Bool, true, false, ◌&&◌, ◌||◌, not, Option, none, some, List, [], ◌∷◌, ◌++◌, Str, codes,
  str_eq, is_empty, if◌then◌else◌, ◌==◌, length,
}
use kwrt_net_manager.Go.Strings.{equal_fold}
use kwrt_net_manager.Netcfg.Result.{Err, Result, ok, err, mac_taken, ip_taken}
use kwrt_net_manager.Netcfg.Exec.{Exec, pure, lift, ◌>>=◌, ◌>>◌}
use kwrt_net_manager.Netcfg.Types.{StaticLease, Lease}
use kwrt_net_manager.Netcfg.Validate.{validate_static}
use kwrt_net_manager.Netcfg.Backend.{Backend}
use kwrt_net_manager.Netcfg.Service.{World, call, publish, draw, static_changed, find_by_id}
use kwrt_net_manager.Netcfg.Service.Collection.{
  Collection, create, update, delete, set_enabled, batch,
}

-- No other reservation has the MAC or the IP; the ones with the excluded id are passed over.
unfoldable pub ensure_static_unique : List StaticLease → StaticLease → Str → Result (Unit {0})
ensure_static_unique [] s exclude_id = ok tt
ensure_static_unique (x ∷ xs) s exclude_id =
    let rest = ensure_static_unique xs s exclude_id in
    if str_eq x.id exclude_id
    then rest
    else if equal_fold x.mac s.mac
    then err mac_taken
    else if str_eq x.ip s.ip
    then err ip_taken
    else rest

-- The candidate of a dynamic lease, as `FixSubnet` and `ReserveLease` build it.
abbrev pub candidate : Str → Str → Str → Str → Str → StaticLease
candidate hostname ip mac interface remark = record {
  id = [];
  hostname = hostname;
  ip = ip;
  mac = mac;
  gateway = [];
  interface = interface;
  dns_primary = [];
  dns_secondary = [];
  remark = remark;
  enabled = true;
  route_push = false;
  managed = false;
}

-- `validateStatic` and `ensureStaticUnique` on one candidate; none for a refused one.
unfoldable pub accepts : List StaticLease → StaticLease → Option StaticLease
accepts list cand = elim (validate_static cand) [
  | err e ↦ none
  | ok checked ↦ elim (ensure_static_unique list checked []) [ err e ↦ none | ok _ ↦ some checked ]
]

module _ {S : Type 0} (be : Backend S) where
  abbrev pub static_collection : Collection S Bool StaticLease
  static_collection = record {
    load = (do l ← be.statics; arp ← be.arp_bind; pure (l, arp));
    save = λ l arp. be.save_statics l arp;
    topic = static_changed;
    prefix = codes "host";
    id_of = λ s. s.id;
    identify = λ id s. record s { id = id; managed = true };
    switch = λ on s. record s { enabled = on; managed = true };
  }

  unfoldable pub get_static : Str → Exec (World S) StaticLease
  get_static id = do list ← call be.statics; find_by_id (λ s. s.id) id list

  unfoldable pub create_static : (ℕ → Str) → StaticLease → Exec (World S) StaticLease
  create_static token s = do
    checked ← lift (validate_static s)
    create static_collection token (λ l. ensure_static_unique l checked []) checked

  unfoldable pub update_static : Str → StaticLease → Exec (World S) StaticLease
  update_static id s = do
    checked ← lift (validate_static s)
    update static_collection (λ l. ensure_static_unique l checked id) id checked

  unfoldable pub delete_static : Str → Exec (World S) (Unit {0})
  delete_static id = delete static_collection id

  unfoldable pub set_static_enabled : Str → Bool → Exec (World S) (Unit {0})
  set_static_enabled id on = set_enabled static_collection id on

  unfoldable pub batch_statics : Str → List Str → Exec (World S) (Unit {0})
  batch_statics action ids = batch static_collection action ids

  unfoldable pub set_arp_bind : Bool → Exec (World S) (Unit {0})
  set_arp_bind on = do
    loaded ← call static_collection.load
    call (be.save_statics loaded.0 on)
    publish static_changed (codes "update") (length loaded.0)

  unfoldable pub reserve_lease : (ℕ → Str) → Str → Str → Str → Str → Exec (World S) StaticLease
  reserve_lease token ip mac hostname iface =
      create_static token (candidate hostname ip mac iface [])

  -- The loop of `FixSubnet` over the leases: static leases, other interfaces and refused candidates
  -- are passed over; the list grows, so a later lease is tested against the earlier ones too.
  unfoldable pub fix_loop :
      (ℕ → Str) → Str → List Lease → List StaticLease → ℕ → Exec (World S) (List StaticLease × ℕ)
  fix_loop token iface [] list added = pure (list, added)
  fix_loop token iface (l ∷ ls) list added =
      let skip = fix_loop token iface ls list added in
      if l.is_static || (not (is_empty iface) && not (str_eq l.interface iface))
      then skip
      else elim (accepts list (candidate l.hostname l.ip l.mac l.interface l.remark)) [
        | none ↦ skip
        | some checked ↦
            (draw token (codes "host") >>= λ id.
            fix_loop token iface ls (list ++ record checked { id = id; managed = true } ∷ [])
              (added + 1))
      ]

  abbrev finish_fix : Bool → List StaticLease × ℕ → Exec (World S) ℕ
  finish_fix arp (list, added) = if added == 0 then pure 0 else (do
    call (be.save_statics list arp)
    publish static_changed (codes "create") (length list)
    pure added)

  unfoldable pub fix_subnet : (ℕ → Str) → Str → Exec (World S) ℕ
  fix_subnet token iface = do
    leases ← call be.leases
    loaded ← call static_collection.load
    fixed ← fix_loop token iface leases loaded.0 0
    finish_fix loaded.1 fixed
