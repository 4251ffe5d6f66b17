-- ===== src/Network.antt =====
-- src/util/NetworkUtil.cpp and `getIp` of the messaging service: the network interface that an
-- instance uses. The interfaces of the host are an argument.
pub mod Selection
mod Examples
use zmf.Prelude.{
  Bool, true, false, Bytes, codes, Option, none, some, List, [], ◌∷◌, ◌&&◌, not, if◌then◌else◌,
}
use zmf.Prelude.Optional.{◌>>=◌}
use zmf.Config.{ConfigurationProvider, get_as_string}

-- `Poco::Net::IPAddress::Family`
pub data Family : Type 0 where
  ipv4 ipv6 : Family

-- What is asked of a `Poco::Net::NetworkInterface`; the first address is of the family, and `none`
-- is the exception where the interface has no such address.
pub record NetworkInterface : Type 0 where
  pub supports : Family → Bool
  pub first_address : Family → Option Bytes
  pub is_unicast : Family → Bool
  pub is_loopback : Bool
  pub is_point_to_point : Bool

-- The host: its interfaces in the order of `NetworkInterface::map`, `NetworkInterface::forName`
-- (`none` where that throws), and whether Poco was built with IPv6.
pub record Interfaces : Type 0 where
  pub all : List NetworkInterface
  pub for_name : Bytes → Family → Option NetworkInterface
  pub have_ipv6 : Bool

-- The loop of getNetworkInterface; `none` is the end of it.
pub first_eligible : Family → List NetworkInterface → Option NetworkInterface
first_eligible ip_version [] = none
first_eligible ip_version (i ∷ rest) =
    let others = first_eligible ip_version rest in
    if i.supports ip_version
      && (i.is_unicast ip_version && (not i.is_loopback && not i.is_point_to_point))
    then some i
    else others

-- getNetworkInterface, of a family; `none` is the exception.
unfoldable pub get_network_interface : Interfaces → Family → Option NetworkInterface
unfolding first_eligible
get_network_interface host ipv4 = first_eligible ipv4 host.all
get_network_interface host ipv6 = if host.have_ipv6 then first_eligible ipv6 host.all else none

-- getNetworkInterface, of a name
abbrev pub get_named_interface : Interfaces → Bytes → Family → Option NetworkInterface
get_named_interface host name ip_version = host.for_name name ip_version

-- getIp; `none` is an exception.
unfoldable pub get_ip : {D : Type 0} → Interfaces → ConfigurationProvider D → Option Bytes
get_ip host config = do
  (present, iface_name) ← get_as_string config (codes "ZMF_NETWORK_INTERFACE_NAME") []
  i ← elim iface_name [
    | [] ↦ get_network_interface host ipv4
    | c ∷ name ↦
        if present
        then get_named_interface host (c ∷ name) ipv4
        else get_network_interface host ipv4
  ]
  i.first_address ipv4
