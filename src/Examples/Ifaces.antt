-- ===== src/Examples/Ifaces.antt =====
-- internal/netcfg, the lines at concrete records, over the store backend.
use kwrt_net_manager.Prelude.{
  ◌≡◌, ◌≤◌, refl, str_eq, none, Str, codes, pos, true, false, [], ◌∷◌, arith,
}
use kwrt_net_manager.Netcfg.Names.{itoa, itoa_loop}
use kwrt_net_manager.Netcfg.Types.Iface.{NetIface, role_lan, role_wan}
use kwrt_net_manager.Netcfg.Validate.Iface.{count_lans}
use kwrt_net_manager.Netcfg.Store.{Store, store_backend}
use kwrt_net_manager.Netcfg.Service.{World, in_set}
use kwrt_net_manager.Netcfg.Service.Ifaces.{
  save_net_iface, delete_net_iface, next_iface_id, iface_loop,
}
use kwrt_net_manager.Netcfg.Service.Ifaces.Reach.{
  IsNetwork, Reached, start, step, saved, deleted, Reached-IsNetwork,
}
use kwrt_net_manager.Netcfg.Service.Ifaces.Ends.{Ends, save_net_iface-Ends}
use kwrt_net_manager.Netcfg.Service.Ifaces.LastLan.{delete_net_iface-keeps_lan}
use kwrt_net_manager.Examples.Service.{good_disk, at_start}

abbrev line : Str → Str → NetIface
line role ip = record {
  id = [];
  name = [];
  role = role;
  proto = [];
  device = [];
  ports = [];
  ipaddr = ip;
  netmask = codes "255.255.255.0";
  gateway = [];
  dns = [];
  dns_metric = pos 0;
  dns_primary_legacy = [];
  dns_secondary_legacy = [];
  username = [];
  password = [];
  service = [];
  ac = [];
  mtu = pos 1500;
  default_gw = false;
  clone_mac = [];
  remark = [];
  extra_addrs = [];
  metric = pos 0;
  peer_dns = none;
  broadcast = [];
  force_link = none;
  auto = none;
  ip6_assign = pos 0;
  ip6_hint = [];
  ip6_gw = [];
  ip6_prefix = [];
  ip6_iface_id = [];
  keepalive = [];
  pppoe_v6 = none;
  up = true;
  runtime_ip = [];
  status = [];
}

abbrev home : NetIface
home = line role_lan (codes "192.168.1.1")

abbrev behind_home : World Store
behind_home = (save_net_iface (store_backend good_disk) home at_start).1

abbrev behind_wan : World Store
behind_wan =
    (save_net_iface (store_backend good_disk) (line role_wan (codes "10.0.0.2")) behind_home).1

abbrev behind_delete : World Store
behind_delete = (delete_net_iface (store_backend good_disk) (codes "wan") behind_wan).1

steps : Reached good_disk at_start behind_delete
steps =
    step behind_wan behind_delete
      (step behind_home behind_wan (step at_start behind_home start (saved home)) (saved _))
      (deleted (codes "wan"))

Reached-IsNetwork_example : IsNetwork behind_delete.be.mem
Reached-IsNetwork_example =
    Reached-IsNetwork good_disk at_start behind_delete steps (record { each = tt; apart = tt })

save_net_iface-Ends_example :
    Ends behind_home home (save_net_iface (store_backend good_disk) home behind_home)
save_net_iface-Ends_example = save_net_iface-Ends good_disk home behind_home

abbrev with_home : World Store
with_home = record at_start {
  be = record at_start.be {
    mem = record at_start.be.mem { net_ifaces = record home { id = codes "lan" } ∷ [] };
  };
}

delete_net_iface-keeps_lan_example :
    1
    ≤ count_lans
        (delete_net_iface (store_backend good_disk) (codes "lan") with_home).1.be.mem.net_ifaces
unfolding count_lans str_eq
delete_net_iface-keeps_lan_example =
    delete_net_iface-keeps_lan good_disk (codes "lan") with_home (tt, tt) (one_lan)
  where
    one_lan : 1 ≤ count_lans with_home.be.mem.net_ifaces
    one_lan = omega arith

-- The ids lan, lan2 and lan3 in turn.
next_ids :
    (next_iface_id [] role_lan ≡ codes "lan")
    × (next_iface_id (codes "lan" ∷ []) role_lan ≡ codes "lan2")
    × (next_iface_id (codes "lan" ∷ codes "lan2" ∷ []) role_lan ≡ codes "lan3")
unfolding next_iface_id iface_loop in_set itoa itoa_loop str_eq
next_ids = (refl, refl, refl)
