-- ===== src/Examples/Ipam.antt =====
-- Inputs for the theorems on internal/domain/ipam.go.
use mathlib.Core.List.{Perm}
use almanaut.Base.{
  List, Option, [], any, bool_eq, false, leb, list_eq, ltb, map, nat_eq, none, pair_eq, refl, some,
  string_eq, true, ℕ, ◌&&◌, ◌++◌, ◌+◌, ◌-◌, ◌^◌, ◌∷◌, ◌≡◌, ◌⊎◌,
}
use almanaut.Base.Assoc.{insert, lookup}
use almanaut.Base.Text.{Text, text_of}
use almanaut.Inventory.{Host, Network}
use almanaut.Ipam.{Block, Net, ParsedNet, attribute, best_net, overlapping_networks, parse_nets}
use almanaut.Ipam.Overlaps.{page_pairs, page_pairs-perm}
use almanaut.Ipam.Attribution.{best_net-longest, is_listed, none_longer, used_at}

-- Addresses of eight bits, written as one character, and a network as its base and its prefix.
abbrev parse_char : Text → Option ℕ
parse_char [] = none
parse_char (c ∷ s) = some c

abbrev parse_pair : Text → Option Block
parse_pair (base ∷ ones ∷ []) = some (record { base = base; ones = ones; bits = 8 })
parse_pair s = none

abbrev bytes : Net
bytes = record {
  parse_ip = parse_char;
  show_ip = λ a. a ∷ [];
  parse_cidr = parse_pair;
  has_ip = λ b a. leb b.base a && ltb a (b.base + 2 ^ (8 - b.ones));
}

abbrev network : ℕ → Text → Network
network id cidr = record { id = id; name = text_of "lan"; cidr = cidr; gateway = [] }

-- Everything, the upper half, and a CIDR that cannot be read.
abbrev lans : List Network
lans = network 1 (0 ∷ 0 ∷ []) ∷ network 2 (128 ∷ 1 ∷ []) ∷ network 3 [] ∷ []

abbrev machine : Host
machine = record {
  id = 5;
  name = text_of "nas";
  type = "vm";
  os = [];
  cpu = [];
  ram = [];
  disk = [];
  status = [];
  ips = (200 ∷ []) ∷ [] ∷ (7 ∷ []) ∷ [];
  notes = [];
  check_address = [];
  rack_id = 0;
  rack_position = 0;
  u_height = 1;
}

abbrev wide : ParsedNet
wide = record { idx = 0; block = record { base = 0; ones = 0; bits = 8 } }

abbrev upper : ParsedNet
upper = record { idx = 1; block = record { base = 128; ones = 1; bits = 8 } }

best_net-longest_example :
    ((best_net bytes 200 (wide ∷ upper ∷ []) none ≡ none)
      × (any (λ p. bytes.has_ip p.block 200) (wide ∷ upper ∷ []) ≡ false))
    ⊎ ((best : ParsedNet) × (best_net bytes 200 (wide ∷ upper ∷ []) none ≡ some best)
        × (is_listed bytes 200 best (wide ∷ upper ∷ []) ≡ true)
        × (none_longer bytes 200 best.block.ones (wide ∷ upper ∷ []) ≡ true))
best_net-longest_example = best_net-longest bytes 200 (wide ∷ upper ∷ [])

-- The run: the longer prefix wins.
attributes :
    used_at bytes 1 (attribute bytes lans (machine ∷ []) none)
    ≡ record { ip = 200 ∷ []; host_id = 5; host_name = text_of "nas" } ∷ []
unfolding attribute best_net parse_nets lookup insert
attributes = refl

abbrev shared : List Network
shared =
    network 1 (128 ∷ 1 ∷ [])
    ∷ network 2 (0 ∷ 0 ∷ [])
    ∷ network 3 []
    ∷ network 4 (128 ∷ 1 ∷ [])
    ∷ network 5 (128 ∷ 1 ∷ [])
    ∷ []

page_pairs-perm_example :
    let found = overlapping_networks bytes shared in
    Perm (page_pairs bytes shared shared) (found ++ map (λ p. (p.1, p.0)) found)
page_pairs-perm_example = page_pairs-perm bytes shared refl

-- The run: three networks on one block are three pairs, the earlier network first.
overlaps :
    map {B = ℕ × ℕ} (λ p. (p.0.id, p.1.id)) (overlapping_networks bytes shared)
    ≡ (1, 4) ∷ (1, 5) ∷ (4, 5) ∷ []
unfolding overlapping_networks
overlaps = refl
