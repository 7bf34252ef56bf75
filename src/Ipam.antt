-- ===== src/Ipam.antt =====
-- internal/domain/ipam.go and ipam_conflicts.go: which network a host's address belongs to, and networks
-- that share a block. An address is the number of its sixteen bytes, and Go's package `net` is a
-- parameter. A Go map is an association list.
pub mod Attribution
pub mod Overlaps
use almanaut.Base.{
  Bool, List, Option, [], bool_eq, false, if◌then◌else◌, list_eq, ltb, map, nat_eq, none, not,
  pair_eq, select, some, string_eq, true, ℕ, ◌&&◌, ◌++◌, ◌+◌, ◌==◌, ◌∷◌,
}
use almanaut.Base.Assoc.{Assoc, insert, lookup}
use almanaut.Base.Text.{Text}
use almanaut.Inventory.{Host, Network, Reservation}

-- `net.IPNet`: the masked base, the length of the prefix and of the address.
pub record Block : Type 0 where
  pub base : ℕ
  pub ones : ℕ
  pub bits : ℕ

-- The parts of package `net` that the attribution uses.
pub record Net : Type 0 where
  pub parse_ip : Text → Option ℕ
  pub show_ip : ℕ → Text
  pub parse_cidr : Text → Option Block
  -- `IPNet.Contains`
  pub has_ip : Block → ℕ → Bool

pub record Allocation : Type 0 where
  pub ip : Text
  pub host_id : ℕ
  pub host_name : Text

-- What `attribute` returns: by the network's index, and the addresses in no network.
pub record Attributed : Type 0 where
  pub used : Assoc ℕ (List Allocation)
  pub unassigned : List Allocation

-- The type `parsedNet`.
pub record ParsedNet : Type 0 where
  pub idx : ℕ
  pub block : Block

unfoldable pub reservations_for : ℕ → List Reservation → List Reservation
reservations_for id reservations = select (λ r. r.network_id == id) reservations

abbrev pub allocated : Option (List Allocation) → List Allocation
allocated none = []
allocated (some list) = list

module _ (net : Net) where
  parse_net : ℕ → Option Block → List ParsedNet → List ParsedNet
  parse_net i none later = later
  parse_net i (some b) later = record { idx = i; block = b } ∷ later

  -- An invalid CIDR leaves its network out.
  unfoldable pub parse_nets : ℕ → List Network → List ParsedNet
  unfolding parse_net
  parse_nets i [] = []
  parse_nets i (n ∷ networks) = parse_net i (net.parse_cidr n.cidr) (parse_nets (i + 1) networks)

  -- `p.ones > bestOnes`, which starts at -1.
  abbrev pub is_longer : ParsedNet → Option ParsedNet → Bool
  is_longer p none = true
  is_longer p (some best) = ltb best.block.ones p.block.ones

  -- The loop over the networks, from the best so far.
  unfoldable pub best_net : ℕ → List ParsedNet → Option ParsedNet → Option ParsedNet
  best_net ip [] best = best
  best_net ip (p ∷ parsed) best =
      best_net ip parsed (if net.has_ip p.block ip && is_longer p best then some p else best)

  -- `onlyIdx`: `none` keeps every network's allocations and the unassigned ones.
  abbrev pub keeps : Option ℕ → ℕ → Bool
  keeps none i = true
  keeps (some only) i = i == only

  -- An allocation added at the end of its network's.
  abbrev pub add_used : ℕ → Allocation → Attributed → Attributed
  add_used i a st = record st { used = insert i (allocated (lookup i st.used) ++ a ∷ []) st.used }

  attribute_to : Option ℕ → Allocation → Option ParsedNet → Attributed → Attributed
  attribute_to none a none st = record st { unassigned = st.unassigned ++ a ∷ [] }
  attribute_to (some only) a none st = st
  attribute_to only a (some best) st = if keeps only best.idx then add_used best.idx a st else st

  attribute_ip : Option ℕ → List ParsedNet → Host → Option ℕ → Attributed → Attributed
  attribute_ip only parsed h none st = st
  attribute_ip only parsed h (some ip) st =
      attribute_to only (record { ip = net.show_ip ip; host_id = h.id; host_name = h.name })
        (best_net ip parsed none) st

  attribute_ips : Option ℕ → List ParsedNet → Host → List Text → Attributed → Attributed
  attribute_ips only parsed h [] st = st
  attribute_ips only parsed h (raw ∷ ips) st =
      attribute_ips only parsed h ips (attribute_ip only parsed h (net.parse_ip raw) st)

  attribute_hosts : Option ℕ → List ParsedNet → List Host → Attributed → Attributed
  attribute_hosts only parsed [] st = st
  attribute_hosts only parsed (h ∷ hosts) st =
      attribute_hosts only parsed hosts (attribute_ips only parsed h h.ips st)

  unfoldable pub attribute : List Network → List Host → Option ℕ → Attributed
  unfolding attribute_hosts attribute_ips attribute_ip attribute_to parse_nets best_net
  attribute networks hosts only =
      attribute_hosts only (parse_nets 0 networks) hosts (record { used = []; unassigned = [] })

  -- internal/domain/ipam_conflicts.go: networks on one block, with their blocks.
  with_block : Network → Option Block → List (Network × Block) → List (Network × Block)
  with_block n none later = later
  with_block n (some b) later = (n, b) ∷ later

  unfoldable pub with_blocks : List Network → List (Network × Block)
  unfolding with_block
  with_blocks [] = []
  with_blocks (n ∷ networks) = with_block n (net.parse_cidr n.cidr) (with_blocks networks)

  abbrev pub is_same_block : Block → Block → Bool
  is_same_block a b = a.ones == b.ones && a.base == b.base

  -- The inner loop: the later networks on the block of one.
  abbrev pub pairs_with : Network × Block → List (Network × Block) → List (Network × Network)
  pairs_with x later = map (λ y. (x.0, y.0)) (select (λ y. is_same_block x.1 y.1) later)

  unfoldable pub pairs : List (Network × Block) → List (Network × Network)
  pairs [] = []
  pairs (x ∷ later) = pairs_with x later ++ pairs later

  unfoldable pub overlapping_networks : List Network → List (Network × Network)
  unfolding with_blocks pairs
  overlapping_networks networks = pairs (with_blocks networks)

  abbrev pub is_on : Block → Option Block → Bool
  is_on target none = false
  is_on target (some b) = is_same_block target b

  overlaps_of : ℕ → Option Block → List Network → List Network
  overlaps_of id none networks = []
  overlaps_of id (some b) networks =
      select (λ n. not (n.id == id) && is_on b (net.parse_cidr n.cidr)) networks

  unfoldable pub network_overlaps : Network → List Network → List Network
  unfolding overlaps_of
  network_overlaps target networks = overlaps_of target.id (net.parse_cidr target.cidr) networks
