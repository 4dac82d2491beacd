-- ===== src/Netcfg/Result.antt =====
-- What a Go function of package netcfg returns beside its value: nil or an error. Errors that the
-- package makes are told apart by what they say; those of a backend are numbered.
use kwrt_net_manager.Prelude.{ℕ, Bool, true, false, ◌≡◌, refl, ◌⊎◌, inl, inr, arith}

pub data Err : Type 0 where
  not_found : Err
  bad_batch_action bad_acl_mode bad_push_mode bad_mac : Err
  empty_interface bad_pool_ends bad_pool_order bad_netmask bad_gateway bad_dns_primary
        bad_dns_secondary negative_lease bad_exclude bad_option_code pool_outside_subnet :
      Err
  bad_static_ip mac_taken ip_taken mac_listed : Err
  bad_family bad_target_v4 bad_target_v6 bad_prefix negative_metric bad_route_type bad_mtu
        bad_table :
      Err
  no_lookup bad_lookup bad_priority bad_src_dest : Err
  bad_upstream no_upstream bad_doh_url bad_doh_port bad_bootstrap empty_domain bad_domain
        bad_address :
      Err
  bad_proto bad_req_prefix bad_fixed_prefix bad_client_id bad_static_v6 bad_tunnel_peer
        bad_tunnel_prefix bad_config_type bad_dhcpv6_mode bad_assign_len bad_dns_v6 no_match_key
        bad_duid bad_local_link bad_host_id l2_not_supported bad_method lan_configured no_neighbor :
      Err
  bad_role bad_lan_ip no_username bad_wan_ip repeated_dns negative_dns_metric bad_extra_v4
        bad_extra_prefix_v4 bad_extra_v6 bad_extra_prefix_v6 bad_extra_family repeated_address
        bad_clone_mac bad_ip6_assign bad_ip6_gateway bad_ip6_prefix bad_broadcast ip_conflict
        pool_outside_lan last_lan :
      Err
  backend : ℕ → Err

pub data Result {ℓ} (A : Type ℓ) : Type ℓ where
  err : Err → Result A
  ok : A → Result A

-- `if err != nil { return err }` between two calls.
module _ {ℓ κ} {A : Type ℓ} {B : Type κ} where
  infixl 5 ◌>>=◌
  abbrev pub ◌>>=◌ : Result A → (A → Result B) → Result B
  err e >>= next = err e
  ok a >>= next = next a

module _ {κ} {B : Type κ} where
  infixl 5 ◌>>◌
  abbrev pub ◌>>◌ : Result (Unit {0}) → Result B → Result B
  first >> next = first >>= λ _. next

-- `if bad { return errors.New(…) }`
abbrev pub reject : Bool → Err → Result (Unit {0})
reject true e = err e
reject false e = ok tt

pub Result-cases {ℓ} :
    {A : Type ℓ} (r : Result A) → ((e : Err) × (r ≡ err e)) ⊎ ((a : A) × (r ≡ ok a))
Result-cases (ok a) = inr (a, refl)
Result-cases (err e) = inl (e, refl)

-- A chain that succeeds is made of calls that do.
pub >>=-eq-ok {ℓ κ} :
    {A : Type ℓ} {B : Type κ} (r : Result A) (f : A → Result B) {b : B}
    → (r >>= f) ≡ ok b
    → (a : A) × (r ≡ ok a) × (f a ≡ ok b)
>>=-eq-ok (err e) f h = ground arith
>>=-eq-ok (ok a) f h = (a, refl, h)

pub reject-eq-ok : (b : Bool) (e : Err) {u : Unit} → reject b e ≡ ok u → b ≡ false
reject-eq-ok true e h = ground arith
reject-eq-ok false e h = refl
