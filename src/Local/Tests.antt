-- ===== src/Local/Tests.antt =====
-- Tests of Local.antt.
use p2p_update.Common.{
  ◌≡◌, refl, true, none, some, List, [], ◌∷◌, codes, bytes_eq, length, if◌then◌else◌, eqb, ◌==◌,
}
use p2p_update.Local.{Interface, Net, local_ipv4}

-- An InfiniBand interface, whose hardware address has eight bytes here, and a wired one.
abbrev two_interfaces : List Interface
two_interfaces =
    record {
      name = codes "ib0";
      up = true;
      hardware_addr = 1 ∷ 2 ∷ 3 ∷ 4 ∷ 5 ∷ 6 ∷ 7 ∷ 8 ∷ [];
      addrs = none;
    }
    ∷ record {
      name = codes "eth0";
      up = true;
      hardware_addr = 1 ∷ 2 ∷ 3 ∷ 4 ∷ 5 ∷ 6 ∷ [];
      addrs = some (codes "fe80::1/64" ∷ codes "10.0.0.2/8" ∷ []);
    }
    ∷ []

abbrev toy_net : Net
toy_net = record {
  parse_cidr = λ a.
      if eqb (length a) 10
      then some
          (if a == codes "10.0.0.2/8" then 10 ∷ 0 ∷ 0 ∷ 2 ∷ [] else 254 ∷ 128 ∷ 0 ∷ 0 ∷ 0 ∷ 1 ∷ [])
      else none;
  is_ipv4 = λ ip. eqb (length ip) 4;
  dials = λ ip. true;
}

ipv6_test : local_ipv4 toy_net true (some two_interfaces) ≡ some (254 ∷ 128 ∷ 0 ∷ 0 ∷ 0 ∷ 1 ∷ [])
unfolding local_ipv4
ipv6_test = refl
