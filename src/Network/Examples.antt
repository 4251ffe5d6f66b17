-- ===== src/Network/Examples.antt =====
-- A host with a loopback interface and two others.
use zmf.Prelude.{
  ◌≡◌, subst, true, false, Bytes, Option, none, some, [], ◌∷◌, codes, bytes_eq, arith,
  if◌then◌else◌,
}
use zmf.Config.Lookups.{IsPropertyFile}
use zmf.Config.Examples.{file, file-IsPropertyFile, provider}
use zmf.Network.{ipv4, NetworkInterface, Interfaces, get_ip}
use zmf.Network.Selection.{IsChosen, get_ip_lem}

abbrev plain : Bytes → NetworkInterface
plain address = record {
  supports = λ f. true;
  first_address = λ f. some address;
  is_unicast = λ f. true;
  is_loopback = false;
  is_point_to_point = false;
}

abbrev loopback : NetworkInterface
loopback = record (plain (codes "127.0.0.1")) { is_loopback = true }

abbrev first : NetworkInterface
first = plain (codes "10.0.0.5")

abbrev second : NetworkInterface
second = plain (codes "10.1.0.5")

abbrev host : Interfaces
host = record {
  all = loopback ∷ first ∷ second ∷ [];
  for_name = λ name f. if bytes_eq name (codes "eth0") then some second else none;
  have_ipv6 = false;
}

-- The file names the second interface.
get_ip_lem_example :
    (o : Option NetworkInterface) × IsChosen ipv4 host.all o
    × (get_ip host provider ≡ some (codes "10.1.0.5"))
unfolding bytes_eq
get_ip_lem_example =
    get_ip_lem host provider
      (λ f e. let same : file ≡ f = ground arith in subst IsPropertyFile same file-IsPropertyFile)
