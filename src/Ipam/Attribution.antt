-- ===== src/Ipam/Attribution.antt =====
-- Which network `attribute` of internal/domain/ipam.go gives an address to.
use almanaut.Base.{
  Bool, Bool-cases, List, Option, [], all, any, arith, bool_eq, false, inl, inr, leb, list_eq,
  nat_eq, none, not, pair_eq, refl, some, string_eq, true, ℕ, ◌&&◌, ◌++◌, ◌==◌, ◌||◌, ◌∷◌, ◌≡◌, ◌≤◌,
  ◌⊎◌,
}
use almanaut.Base.Assoc.{lookup, lookup-insert}
use almanaut.Inventory.{Host, Network}
use almanaut.Base.Text.{Text}
use almanaut.Ipam.{
  Allocation, Attributed, Net, ParsedNet, allocated, attribute, attribute_hosts, attribute_ip,
  attribute_ips, attribute_to, best_net, is_longer, parse_nets,
}

module _ (net : Net) where
  -- No network that has the address has a longer prefix.
  abbrev pub none_longer : ℕ → ℕ → List ParsedNet → Bool
  none_longer ip ones parsed =
      all (λ p. not (net.has_ip p.block ip) || leb p.block.ones ones) parsed

  -- A network of the list has the index and the prefix of the given one, and the address.
  abbrev pub is_listed : ℕ → ParsedNet → List ParsedNet → Bool
  is_listed ip best parsed =
      any (λ p. p.idx == best.idx && p.block.ones == best.block.ones && net.has_ip p.block ip)
        parsed

  best_net-some :
      (ip : ℕ) (parsed : List ParsedNet) (best : ParsedNet)
      → (end : ParsedNet) × (best_net net ip parsed (some best) ≡ some end)
        × (best.block.ones ≤ end.block.ones)
        × (none_longer ip end.block.ones parsed ≡ true)
        × ((end ≡ best) ⊎ (is_listed ip end parsed ≡ true))
  unfolding best_net
  best_net-some ip [] best = (best, refl, omega arith, refl, inl refl)
  best_net-some ip (p ∷ parsed) best =
      elim (Bool-cases (net.has_ip p.block ip && is_longer net p (some best))) [
        | inl taken ↦
            let (end, found, longer, top, from) = best_net-some ip parsed p in
            (
              end,
              rw taken found,
              ground arith,
              ground arith,
              elim from [ inl same ↦ inr (ground arith) | inr listed ↦ inr (ground arith) ],
            )
        | inr left ↦
            let (end, found, longer, top, from) = best_net-some ip parsed best in
            (
              end,
              rw left found,
              longer,
              ground arith,
              elim from [ inl same ↦ inl same | inr listed ↦ inr (ground arith) ],
            )
      ]

  -- An address goes to a network that has it and whose prefix is the longest of those that do; it
  -- goes to none only if no network has it.
  pub best_net-longest :
      (ip : ℕ) (parsed : List ParsedNet)
      → ((best_net net ip parsed none ≡ none) × (any (λ p. net.has_ip p.block ip) parsed ≡ false))
        ⊎ ((best : ParsedNet) × (best_net net ip parsed none ≡ some best)
            × (is_listed ip best parsed ≡ true)
            × (none_longer ip best.block.ones parsed ≡ true))
  unfolding best_net
  best_net-longest ip [] = inl (refl, refl)
  best_net-longest ip (p ∷ parsed) = elim (Bool-cases (net.has_ip p.block ip)) [
    | inl inside ↦
        let (end, found, longer, top, from) = best_net-some ip parsed p in
        inr (
          end,
          rw inside found,
          elim from [ inl same ↦ ground arith | inr listed ↦ ground arith ],
          ground arith,
        )
    | inr outside ↦ elim (best_net-longest ip parsed) [
      | inl (found, alone) ↦ inl (rw outside found, ground arith)
      | inr (best, found, listed, top) ↦ inr (best, rw outside found, ground arith, ground arith)
    ]
  ]

  abbrev pub used_at : ℕ → Attributed → List Allocation
  used_at i st = allocated (lookup i st.used)

  attribute_to-same :
      (i : ℕ) (a : Allocation) (best : Option ParsedNet) (s t : Attributed)
      → used_at i s ≡ used_at i t
      → used_at i (attribute_to net (some i) a best s) ≡ used_at i (attribute_to net none a best t)
  unfolding attribute_to
  attribute_to-same i a none s t h = h
  attribute_to-same i a (some best) s t h = elim (Bool-cases (best.idx == i)) [
    | inl mine ↦ ground (
      arith,
      lookup-insert best.idx i (allocated (lookup best.idx s.used) ++ a ∷ []) s.used,
      lookup-insert best.idx i (allocated (lookup best.idx t.used) ++ a ∷ []) t.used,
    )
    | inr other ↦
        rw
          (
            other,
            lookup-insert best.idx i (allocated (lookup best.idx t.used) ++ a ∷ []) t.used,
            other,
          )
          h
  ]

  attribute_ip-same :
      (i : ℕ) (parsed : List ParsedNet) (host : Host) (ip : Option ℕ) (s t : Attributed)
      → used_at i s ≡ used_at i t
      → used_at i (attribute_ip net (some i) parsed host ip s)
        ≡ used_at i (attribute_ip net none parsed host ip t)
  unfolding attribute_ip
  attribute_ip-same i parsed host none s t h = h
  attribute_ip-same i parsed host (some ip) s t h =
      attribute_to-same i _ (best_net net ip parsed none) s t h

  attribute_ips-same :
      (i : ℕ) (parsed : List ParsedNet) (host : Host) (ips : List Text) (s t : Attributed)
      → used_at i s ≡ used_at i t
      → used_at i (attribute_ips net (some i) parsed host ips s)
        ≡ used_at i (attribute_ips net none parsed host ips t)
  unfolding attribute_ips
  attribute_ips-same i parsed host [] s t h = h
  attribute_ips-same i parsed host (raw ∷ ips) s t h =
      attribute_ips-same i parsed host ips _ _
        (attribute_ip-same i parsed host (net.parse_ip raw) s t h)

  attribute_hosts-same :
      (i : ℕ) (parsed : List ParsedNet) (hosts : List Host) (s t : Attributed)
      → used_at i s ≡ used_at i t
      → used_at i (attribute_hosts net (some i) parsed hosts s)
        ≡ used_at i (attribute_hosts net none parsed hosts t)
  unfolding attribute_hosts
  attribute_hosts-same i parsed [] s t h = h
  attribute_hosts-same i parsed (host ∷ hosts) s t h =
      attribute_hosts-same i parsed hosts _ _ (attribute_ips-same i parsed host host.ips s t h)

  -- The view of one network shows just the allocations that the full report gives it, in the same
  -- order.
  pub attribute-only :
      (networks : List Network) (hosts : List Host) (i : ℕ)
      → used_at i (attribute net networks hosts (some i))
        ≡ used_at i (attribute net networks hosts none)
  unfolding attribute
  attribute-only networks hosts i =
      attribute_hosts-same i (parse_nets net 0 networks) hosts _ _ refl
