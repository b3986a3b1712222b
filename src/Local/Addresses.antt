-- ===== src/Local/Addresses.antt =====
-- Which address LocalIPv4 (common.go) returns.
use p2p_update.Common.{
  ℕ, ◌≡◌, refl, Bool, true, false, not, ◌||◌, Option, none, some, List, [], ◌∷◌, ◌++◌, Text,
  if◌then◌else◌, arith, Bool-cases, Option-cases, inl, inr,
}
use p2p_update.Local.{
  Interface, Net, parsed, dial_addrs, is_excluded, or_later, dial_interfaces, local_ipv4,
}

abbrev pub find : {A : Type 0} → (A → Bool) → List A → Option A
find p [] = none
find p (x ∷ xs) = let later = find p xs in if p x then some x else later

find-append :
    {A : Type 0} (p : A → Bool) (xs ys : List A)
    → find p (xs ++ ys) ≡ elim (find p xs) [ none ↦ find p ys | some x ↦ some x ]
find-append p [] ys = refl
find-append p (x ∷ xs) ys = ground (arith, find-append p xs ys)

module _ (net : Net) where
  abbrev pub parsed_addrs : List Text → List (List ℕ)
  parsed_addrs [] = []
  parsed_addrs (a ∷ addrs) = parsed (net.parse_cidr a) ∷ parsed_addrs addrs

  -- The addresses of the interfaces that are up and not excluded, of any family.
  abbrev pub candidates : List Interface → List (List ℕ)
  candidates [] = []
  candidates (i ∷ rest) =
      let later = candidates rest in
      if is_excluded i.name || not i.up
      then later
      else elim i.addrs [ none ↦ later | some addrs ↦ parsed_addrs addrs ++ later ]

  dial_addrs-find :
      (addrs : List Text)
      → net.is_ipv4 [] ≡ false
      → dial_addrs net addrs ≡ find net.dials (parsed_addrs addrs)
  dial_addrs-find [] nil = refl
  dial_addrs-find (a ∷ addrs) nil = elim (Option-cases (net.parse_cidr a)) [
    | inl bad ↦ rw (bad, nil, dial_addrs-find addrs nil) refl
    | inr (ip, good) ↦ rw (good, dial_addrs-find addrs nil) refl
  ]

  or_later-find :
      (later : Option (List ℕ)) (o : Option (List ℕ))
      → or_later o later ≡ elim o [ none ↦ later | some x ↦ some x ]
  or_later-find later none = refl
  or_later-find later (some ip) = refl

  dial_interfaces-find :
      (ifaces : List Interface)
      → net.is_ipv4 [] ≡ false
      → dial_interfaces net ifaces ≡ find net.dials (candidates ifaces)
  dial_interfaces-find [] nil = refl
  dial_interfaces-find (i ∷ rest) nil = elim (Bool-cases (is_excluded i.name || not i.up)) [
    | inl out ↦ rw (out) (dial_interfaces-find rest nil)
    | inr used ↦ elim (Option-cases i.addrs) [
      | inl failed ↦ simp (used, failed) (dial_interfaces-find rest nil)
      | inr (addrs, given) ↦
          simp
            (
              used,
              given,
              dial_interfaces-find rest nil,
              dial_addrs-find addrs nil,
              or_later-find,
              find-append,
            )
            refl
    ]
  ]

  -- Where the server's name resolves and a nil address is no IPv4 address, LocalIPv4 returns the
  -- first address from which the server can be dialled, among all addresses of the interfaces that
  -- are up and not excluded, whatever their family, and nil if there is none.
  pub local_ipv4-find :
      (ifaces : List Interface)
      → net.is_ipv4 [] ≡ false
      → local_ipv4 net true (some ifaces) ≡ find net.dials (candidates ifaces)
  unfolding local_ipv4
  local_ipv4-find ifaces nil = dial_interfaces-find ifaces nil
