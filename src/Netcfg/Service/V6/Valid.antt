-- ===== src/Netcfg/Service/V6/Valid.antt =====
-- internal/netcfg/ipv6_service.go: the validity of what is stored, and what it does not look at.
use kwrt_net_manager.Prelude.{◌≡◌, inr, Bool, true, List, Str, All}
use kwrt_net_manager.Netcfg.Types.V6.{WanV6, LanV6, PrefixStaticV6, AclV6Entry}
use kwrt_net_manager.Netcfg.Names.{is_hex_bytes}
use kwrt_net_manager.Netcfg.Validate.V6.Wan.{client, static_line, tunnel, automatic, IsWan}
use kwrt_net_manager.Netcfg.Validate.V6.Laws.{IsLan, IsPrefixStatic, IsEntryV6}
use kwrt_net_manager.Netcfg.Backend.{Config}
use kwrt_net_manager.Netcfg.Service.V6.{with_duid}

pub record AreV6 (ws : List WanV6) (ls : List LanV6) (ps : List PrefixStaticV6)
    (es : List AclV6Entry) : Type 0 where
  pub wans : All IsWan ws
  pub lans : All IsLan ls
  pub prefixes : All IsPrefixStatic ps
  pub entries : All IsEntryV6 es

abbrev pub IsV6 : Config → Type 0
IsV6 v = AreV6 v.wan_v6s v.lan_v6s v.prefix_statics_v6 v.acl_v6.entries

-- An invariant that says of the IPv6 parts no more than that they are valid.
pub record Admits (Inv : Config → Type 0) : Type 0 where
  pub sees : (v : Config) → Inv v → IsV6 v
  pub takes_wans :
      (l : List WanV6) (v : Config) → Inv v → All IsWan l → Inv (record v { wan_v6s = l })
  pub takes_lans :
      (l : List LanV6) (v : Config) → Inv v → All IsLan l → Inv (record v { lan_v6s = l })
  pub takes_prefixes :
      (l : List PrefixStaticV6) (v : Config)
      → Inv v
      → All IsPrefixStatic l
      → Inv (record v { prefix_statics_v6 = l })
  pub takes_entries :
      (l : List AclV6Entry) (mode : Str) (v : Config)
      → Inv v
      → All IsEntryV6 l
      → Inv (record v { acl_v6 = record { mode = mode; entries = l } })

pub IsV6-Admits : Admits IsV6
IsV6-Admits = record {
  sees = λ v h. h;
  takes_wans =
      λ l v h k. record { wans = k; lans = h.lans; prefixes = h.prefixes; entries = h.entries };
  takes_lans =
      λ l v h k. record { wans = h.wans; lans = k; prefixes = h.prefixes; entries = h.entries };
  takes_prefixes =
      λ l v h k. record { wans = h.wans; lans = h.lans; prefixes = k; entries = h.entries };
  takes_entries =
      λ l mode v h k. record { wans = h.wans; lans = h.lans; prefixes = h.prefixes; entries = k };
}

-- Validity does not look at ids, names and flags.
pub IsWan-edit :
    (w : WanV6) (id name : Str) (on : Bool)
    → IsWan w
    → IsWan (record w { id = id; name = name; enabled = on; managed = true })
IsWan-edit w id name on h = record {
  access = elim (h.access) [
    | client p r f c ↦ client p r f c
    | static_line p s g ↦ static_line p s g
    | tunnel p a t ↦ tunnel p a t
    | automatic p ↦ automatic p
  ];
  dns_valid = h.dns_valid;
  mtu_valid = h.mtu_valid;
}

pub IsWan-with_duid :
    (w : WanV6) (duid : Str) → is_hex_bytes duid ≡ true → IsWan w → IsWan (with_duid duid w)
IsWan-with_duid w duid good h = record {
  access = elim (h.access) [
    | client p r f _ ↦ client p r f (inr good)
    | static_line p s g ↦ static_line p s g
    | tunnel p a t ↦ tunnel p a t
    | automatic p ↦ automatic p
  ];
  dns_valid = h.dns_valid;
  mtu_valid = h.mtu_valid;
}

pub IsLan-edit :
    (l : LanV6) (id : Str) (on : Bool)
    → IsLan l
    → IsLan (record l { id = id; enabled = on; managed = true })
IsLan-edit l id on h = record {
  interface_given = h.interface_given;
  interface_trimmed = h.interface_trimmed;
  config_known = h.config_known;
  mode_known = h.mode_known;
  assign_len_valid = h.assign_len_valid;
  dns_valid = h.dns_valid;
  lease_valid = h.lease_valid;
  ra_mtu_valid = h.ra_mtu_valid;
}

pub IsPrefixStatic-edit :
    (p : PrefixStaticV6) (id : Str) (on : Bool)
    → IsPrefixStatic p
    → IsPrefixStatic (record p { id = id; enabled = on; managed = true })
IsPrefixStatic-edit p id on h = record {
  key_given = h.key_given;
  duid_valid = h.duid_valid;
  mac_canonical = h.mac_canonical;
  local_link_valid = h.local_link_valid;
  host_id_valid = h.host_id_valid;
}

pub IsEntryV6-edit :
    (e : AclV6Entry) (id : Str) (on : Bool)
    → IsEntryV6 e
    → IsEntryV6 (record e { id = id; enabled = on; managed = true })
IsEntryV6-edit e id on h = record {
  by_duid = h.by_duid;
  duid_trimmed = h.duid_trimmed;
  duid_given = h.duid_given;
  duid_valid = h.duid_valid;
}
