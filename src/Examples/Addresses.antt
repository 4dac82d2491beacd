-- ===== src/Examples/Addresses.antt =====
-- pkg/netutil at concrete texts.
use kwrt_net_manager.Prelude.{
  ◌+◌, ◌≡◌, ◌<◌, ◌≤◌, refl, arith, Str, codes, some, none, ◌^◌, ◌-◌, ◌/◌, ◌%◌, ◌==◌, ◌↔◌, pos, ◌&&◌,
  if◌then◌else◌, leb, str_eq, [],
}
use kwrt_net_manager.Go.Ip.{parse_ip, to4, v4_loop}
use kwrt_net_manager.Go.Mac.{parse_mac, octets, hex_byte, hex_digit}
use kwrt_net_manager.Go.Strings.{
  trim_space, trim_left, trim_right, is_space, equal_fold, cut_byte, fields, replace_all, to_upper,
  upper,
}
use kwrt_net_manager.Netutil.{
  ipv4_to_uint32, uint32_to_ipv4, mask_to_prefix, prefix_to_mask, same_subnet, range_count,
  dhcp_start_limit, is_ip,
}
use kwrt_net_manager.Netutil.MacAddr.{
  normalize_mac, byte_hex, hex_char, join_colon, parts, or_blank,
}
use kwrt_net_manager.Go.Strconv.{is_digit, scan_digits, parse_uint, parse_int}
use kwrt_net_manager.Netutil.Lines.{parse_exclude_line, parse_lease_line}
use kwrt_net_manager.Netutil.Lines.Laws.{
  IsRange, IsLease, parse_exclude_line-IsRange, parse_lease_line-IsLease,
}
use kwrt_net_manager.Netutil.MacAddr.Laws.{equal_fold-normalize_mac}
use kwrt_net_manager.Netutil.RoundTrip.{ipv4_to_uint32-uint32_to_ipv4}
use kwrt_net_manager.Netutil.Mask.{mask_to_prefix_iff, mask_to_prefix-prefix_to_mask}
use kwrt_net_manager.Netutil.Range.{
  block, same_subnet_lem, dhcp_start_limit_lem, range_count-addresses_in, addresses_in, pool,
  dhcp_start_limit-fits,
}

abbrev router : Str
router = codes "192.168.1.1"

abbrev first : Str
first = codes "192.168.1.100"

abbrev last : Str
last = codes "192.168.1.200"

abbrev mask24 : Str
mask24 = codes "255.255.255.0"

router_read : ipv4_to_uint32 router ≡ some 3232235777
unfolding ipv4_to_uint32 parse_ip v4_loop trim_space trim_left trim_right is_space to4
router_read = refl

first_read : ipv4_to_uint32 first ≡ some 3232235876
unfolding ipv4_to_uint32 parse_ip v4_loop trim_space trim_left trim_right is_space to4
first_read = refl

last_read : ipv4_to_uint32 last ≡ some 3232235976
unfolding ipv4_to_uint32 parse_ip v4_loop trim_space trim_left trim_right is_space to4
last_read = refl

mask_value : ipv4_to_uint32 mask24 ≡ some (2 ^ 32 - 2 ^ (32 - 24))
unfolding ipv4_to_uint32 parse_ip v4_loop trim_space trim_left trim_right is_space to4
mask_value = refl

mask_read : mask_to_prefix mask24 ≡ some 24
mask_read = (mask_to_prefix_iff mask24 24).1 (omega arith, mask_value)

ipv4_to_uint32-uint32_to_ipv4_example : ipv4_to_uint32 (uint32_to_ipv4 3232235876) ≡ some 3232235876
ipv4_to_uint32-uint32_to_ipv4_example = ipv4_to_uint32-uint32_to_ipv4 3232235876 (omega arith)

mask_to_prefix_iff_example :
    (mask_to_prefix mask24 ≡ some 24)
    ↔ ((24 ≤ 32) × (ipv4_to_uint32 mask24 ≡ some (2 ^ 32 - 2 ^ (32 - 24))))
mask_to_prefix_iff_example = mask_to_prefix_iff mask24 24

mask_to_prefix-prefix_to_mask_example : mask_to_prefix (prefix_to_mask (pos 20)) ≡ some 20
mask_to_prefix-prefix_to_mask_example = mask_to_prefix-prefix_to_mask 20 (omega arith)

same_subnet_lem_example :
    same_subnet first last mask24 ≡ (3232235876 / block 24 == 3232235976 / block 24)
same_subnet_lem_example =
    same_subnet_lem mask24 24 mask_read first last 3232235876 3232235976 first_read last_read

low_read : ipv4_to_uint32 (codes "0.0.0.3") ≡ some 3
unfolding ipv4_to_uint32 parse_ip v4_loop to4 trim_space trim_right trim_left is_space
low_read = refl

high_read : ipv4_to_uint32 (codes "0.0.0.9") ≡ some 9
unfolding ipv4_to_uint32 parse_ip v4_loop to4 trim_space trim_right trim_left is_space
high_read = refl

range_count-addresses_in_example : range_count (codes "0.0.0.3") (codes "0.0.0.9") ≡ (
    if addresses_in (codes "0.0.0.3") (codes "0.0.0.9") 12 == 0
    then none
    else some (addresses_in (codes "0.0.0.3") (codes "0.0.0.9") 12))
range_count-addresses_in_example =
    range_count-addresses_in (codes "0.0.0.3") (codes "0.0.0.9") 3 9 12 low_read high_read
      (omega arith) (omega arith)

dhcp_start_limit_lem_example : dhcp_start_limit router mask24 first last ≡ (
    if leb 3232235876 3232235976
      && (3232235876 / block 24 == 3232235777 / block 24
          && 3232235976 / block 24 == 3232235777 / block 24)
    then pool (3232235876 % block 24) (3232235976 - 3232235876 + 1)
    else none)
dhcp_start_limit_lem_example =
    dhcp_start_limit_lem mask24 24 mask_read router first last 3232235777 3232235876 3232235976
      router_read first_read last_read

dhcp_start_limit-fits_example : (0 < 101) × (100 + 101 ≤ block 24)
dhcp_start_limit-fits_example =
    dhcp_start_limit-fits router mask24 first last 24 100 101 mask_read dhcp_start_limit_lem_example

equal_fold-normalize_mac_example :
    equal_fold
      (normalize_mac (codes "aa-bb-cc-dd-ee-0f"))
      (normalize_mac (codes "AA:BB:CC:DD:EE:0F"))
    ≡ str_eq (normalize_mac (codes "aa-bb-cc-dd-ee-0f")) (normalize_mac (codes "AA:BB:CC:DD:EE:0F"))
equal_fold-normalize_mac_example =
    equal_fold-normalize_mac (codes "aa-bb-cc-dd-ee-0f") (codes "AA:BB:CC:DD:EE:0F")

exclude_line : parse_exclude_line (codes "192.168.1.100-192.168.1.200") ≡ some (first, last)
unfolding parse_exclude_line ipv4_to_uint32 parse_ip v4_loop trim_space trim_left trim_right
    is_space to4 cut_byte
exclude_line = refl

parse_exclude_line-IsRange_example : IsRange first last
parse_exclude_line-IsRange_example =
    parse_exclude_line-IsRange (codes "192.168.1.100-192.168.1.200") first last exclude_line

lease_line :
    parse_lease_line (codes "1700000000 aa:bb:cc:dd:ee:0f 192.168.1.100 phone *")
    ≡ some (record {
      expiry = pos 1700000000;
      mac = codes "AA:BB:CC:DD:EE:0F";
      ip = first;
      hostname = codes "phone";
      client_id = [];
    })
unfolding parse_lease_line ipv4_to_uint32 parse_ip v4_loop trim_space trim_left trim_right is_space
    to4 is_ip fields parse_int parse_uint scan_digits is_digit normalize_mac parse_mac octets
    hex_byte hex_digit replace_all to_upper upper byte_hex hex_char join_colon parts or_blank
lease_line = refl

parse_lease_line-IsLease_example : IsLease (record {
  expiry = pos 1700000000;
  mac = codes "AA:BB:CC:DD:EE:0F";
  ip = first;
  hostname = codes "phone";
  client_id = [];
})
parse_lease_line-IsLease_example = parse_lease_line-IsLease _ _ lease_line
