-- ===== src/Network/Selection.antt =====
-- Which interface an instance uses, and the address that it tells others.
use zmf.Prelude.{
  ◌≡◌, refl, ap, Bool, true, false, Bytes, codes, Option, none, some, List, [], ◌∷◌, ◌++◌, ◌&&◌,
  not, All, arith, Bool-cases, Option-cases, inl, inr,
}
use zmf.Config.{PropertyFile, ConfigurationProvider, get_as_string}
use zmf.Config.Lookups.{IsPropertyFile, configured, answer, get_as_string_lem}
use zmf.Network.{
  Family, ipv4, NetworkInterface, Interfaces, first_eligible, get_network_interface, get_ip,
}

-- An interface over which multicasts of the family go.
abbrev pub is_eligible : Family → NetworkInterface → Bool
is_eligible ip_version i =
    i.supports ip_version
    && (i.is_unicast ip_version && (not i.is_loopback && not i.is_point_to_point))

-- The first interface of the list that is eligible, or none if none is.
abbrev pub IsChosen : Family → List NetworkInterface → Option NetworkInterface → Type 0
IsChosen ip_version all none = All (λ i. is_eligible ip_version i ≡ false) all
IsChosen ip_version all (some i) =
    (front : List NetworkInterface) × (rest : List NetworkInterface) × (all ≡ front ++ i ∷ rest)
    × (is_eligible ip_version i ≡ true)
    × All (λ j. is_eligible ip_version j ≡ false) front

IsChosen-behind :
    (ip_version : Family) (i : NetworkInterface) (all : List NetworkInterface)
    (o : Option NetworkInterface)
    → is_eligible ip_version i ≡ false
    → IsChosen ip_version all o
    → IsChosen ip_version (i ∷ all) o
IsChosen-behind ip_version i all none out chosen = (out, chosen)
IsChosen-behind ip_version i all (some j) out (front, rest, e, fits, others) =
    (i ∷ front, rest, ap (λ xs. i ∷ xs) e, fits, (out, others))

first_eligible-IsChosen :
    (ip_version : Family) (all : List NetworkInterface)
    → IsChosen ip_version all (first_eligible ip_version all)
unfolding first_eligible
first_eligible-IsChosen ip_version [] = tt
first_eligible-IsChosen ip_version (i ∷ rest) = elim (Bool-cases (is_eligible ip_version i)) [
  | inl fits ↦ rw fits ([], rest, refl, fits, tt)
  | inr out ↦ rw out (
      IsChosen-behind ip_version i rest (first_eligible ip_version rest) out
        (first_eligible-IsChosen ip_version rest))
]

get_network_interface-IsChosen :
    (host : Interfaces) → IsChosen ipv4 host.all (get_network_interface host ipv4)
unfolding get_network_interface
get_network_interface-IsChosen host = first_eligible-IsChosen ipv4 host.all

-- The first IPv4 address of an interface, if there is one and it has one.
abbrev pub address_of : Option NetworkInterface → Option Bytes
address_of none = none
address_of (some i) = i.first_address ipv4

-- The interface of the configured name, or the chosen one where no name or an empty one is
-- configured.
abbrev pub named_or : Interfaces → Option Bytes → Option NetworkInterface → Option NetworkInterface
named_or host none o = o
named_or host (some []) o = o
named_or host (some (c ∷ name)) o = host.for_name (c ∷ name) ipv4

abbrev pub interface_key : Bytes
interface_key = codes "ZMF_NETWORK_INTERFACE_NAME"

get_ip-answer :
    {D : Type 0} (host : Interfaces) (p : ConfigurationProvider D) (name : Option Bytes)
    → get_as_string p interface_key [] ≡ answer [] name
    → get_ip host p ≡ address_of (named_or host name (get_network_interface host ipv4))
unfolding get_ip
get_ip-answer host p none e = elim (Option-cases (get_network_interface host ipv4)) [
  | inl q ↦ ground arith
  | inr (i, q) ↦ ground arith
]
get_ip-answer host p (some []) e = elim (Option-cases (get_network_interface host ipv4)) [
  | inl q ↦ ground arith
  | inr (i, q) ↦ ground arith
]
get_ip-answer host p (some (c ∷ name)) e = elim (Option-cases (host.for_name (c ∷ name) ipv4)) [
  | inl q ↦ ground arith
  | inr (i, q) ↦ ground arith
]

-- The address that an instance tells others is that of the interface whose name is configured;
-- where no name or an empty one is, that of the first interface in the order of the host that
-- supports IPv4, has a unicast address, and is neither loopback nor point to point. It is the
-- first IPv4 address of that interface. getIp throws exactly if the host has no interface of the
-- name, or none that is eligible, or that interface has no IPv4 address. The getters
-- of the loaded property file must find each key that is there.
pub get_ip_lem :
    {D : Type 0} (host : Interfaces) (p : ConfigurationProvider D)
    → ((file : PropertyFile D) → p.config ≡ some file → IsPropertyFile file)
    → (o : Option NetworkInterface) × IsChosen ipv4 host.all o
      × (get_ip host p
          ≡ address_of (named_or host (configured p (λ f. f.get_string) interface_key) o))
get_ip_lem host p sane = (
  get_network_interface host ipv4,
  get_network_interface-IsChosen host,
  get_ip-answer host p (configured p (λ f. f.get_string) interface_key)
      (get_as_string_lem p sane interface_key []),
)
