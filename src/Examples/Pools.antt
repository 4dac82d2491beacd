-- ===== src/Examples/Pools.antt =====
-- internal/netcfg/service.go, `checkPoolSubnet` on a pool behind an interface.
use kwrt_net_manager.Prelude.{◌≡◌, ◌/◌, refl, codes, some, pos, true, str_eq, arith, []}
use kwrt_net_manager.Go.Ip.{parse_ip, to4, v4_loop}
use kwrt_net_manager.Go.Ip.Print.{dotted, octet}
use kwrt_net_manager.Go.Strings.{trim_space, trim_left, trim_right, is_space}
use kwrt_net_manager.Netutil.{
  ipv4_to_uint32, uint32_to_ipv4, mask_to_prefix, mask_loop, network_base, same_subnet,
}
use kwrt_net_manager.Netutil.Range.{block}
use kwrt_net_manager.Netcfg.Result.{ok}
use kwrt_net_manager.Netcfg.Types.{Interface, DhcpServer}
use kwrt_net_manager.Netcfg.Store.{demo_interfaces}
use kwrt_net_manager.Netcfg.Service.Servers.{pool_in_interface}
use kwrt_net_manager.Netcfg.Service.Servers.Subnet.{pool_in_interface-block}
use kwrt_net_manager.Examples.Service.{lan_pool, pool_start, pool_end}

abbrev trimmed_pool : DhcpServer
trimmed_pool = record lan_pool { interface = codes "lan"; netmask = [] }

abbrev lan : Interface
lan = record {
  name = codes "lan";
  ipv4 = codes "192.168.1.1";
  netmask = codes "255.255.255.0";
  prefix = pos 24;
  is_up = true;
}

mask_read : mask_to_prefix lan.netmask ≡ some 24
unfolding mask_to_prefix mask_loop ipv4_to_uint32 parse_ip v4_loop trim_space trim_left trim_right
    is_space to4
mask_read = refl

lan_read : ipv4_to_uint32 lan.ipv4 ≡ some 3232235777
unfolding ipv4_to_uint32 parse_ip v4_loop trim_space trim_left trim_right is_space to4
lan_read = refl

accepted :
    pool_in_interface demo_interfaces trimmed_pool
    ≡ ok (record trimmed_pool { netmask = codes "255.255.255.0" })
unfolding pool_in_interface same_subnet network_base ipv4_to_uint32 uint32_to_ipv4 parse_ip v4_loop
    trim_space trim_left trim_right is_space to4 dotted octet
accepted = refl

pool_in_interface-block_example :
    (record trimmed_pool { netmask = codes "255.255.255.0" }
      ≡ record trimmed_pool { netmask = codes "255.255.255.0" })
    × (3232235900 / block 24 ≡ 3232235777 / block 24)
unfolding str_eq
pool_in_interface-block_example =
    pool_in_interface-block demo_interfaces trimmed_pool
      (record trimmed_pool { netmask = codes "255.255.255.0" }) lan 24 3232235777 3232235876
      3232235976 3232235900 refl refl mask_read lan_read pool_start pool_end (omega arith)
      (omega arith) accepted
