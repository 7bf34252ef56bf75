-- ===== src/Ipam/Overlaps.antt =====
-- The two views of internal/domain/ipam_conflicts.go on networks that share a block.
use mathlib.Core.Path.{subst}
use mathlib.Core.List.{Perm, append_assoc, perm_append_comm}
use mathlib.Core.List.Perm
use almanaut.Base.{
  Bool, Bool-cases, List, Option, Option-cases, [], ap, arith, bool_eq, contains, false,
  if◌then◌else◌, inl, inr, is_nodup, list_eq, map, nat_eq, none, not, pair_eq, refl, select, some,
  string_eq, true, ℕ, ◌&&◌, ◌++◌, ◌==◌, ◌∷◌, ◌≡◌,
}
use almanaut.Inventory.{Network}
use almanaut.Ipam.{
  Block, Net, is_on, is_same_block, network_overlaps, overlapping_networks, overlaps_of, pairs,
  pairs_with, with_block, with_blocks,
}

module _ (net : Net) where
  abbrev meets : Option Block → Option Block → Bool
  meets none other = false
  meets (some a) other = is_on net a other

  abbrev clash : Network → Network → Bool
  clash n m = meets (net.parse_cidr n.cidr) (net.parse_cidr m.cidr)

  meets_comm : (a b : Option Block) → meets a b ≡ meets b a
  meets_comm none none = refl
  meets_comm none (some b) = refl
  meets_comm (some a) none = refl
  meets_comm (some a) (some b) = ground arith

  abbrev ids : List Network → List ℕ
  ids networks = map (λ n. n.id) networks

  abbrev clashing : Network → List Network → List Network
  clashing n later = select (clash n) later

  -- The pairs of a network with some others, on its side and on theirs.
  abbrev before : Network → List Network → List (Network × Network)
  before n others = map (λ m. (n, m)) others

  abbrev behind : Network → List Network → List (Network × Network)
  behind n others = map (λ m. (m, n)) others

  abbrev flipped : List (Network × Network) → List (Network × Network)
  flipped found = map (λ p. (p.1, p.0)) found

  on_block-with_blocks :
      (n : Network) (b : Block) (networks : List Network)
      → pairs_with net (n, b) (with_blocks net networks)
        ≡ before n (select (λ m. is_on net b (net.parse_cidr m.cidr)) networks)
  unfolding with_blocks with_block
  on_block-with_blocks n b [] = refl
  on_block-with_blocks n b (m ∷ networks) = elim (Option-cases (net.parse_cidr m.cidr)) [
    | inl bad ↦ rw bad (on_block-with_blocks n b networks)
    | inr (c, good) ↦ elim (Bool-cases (is_same_block net b c)) [
      | inl same ↦ rw (good, same) (ap (λ l. (n, m) ∷ l) (on_block-with_blocks n b networks))
      | inr apart ↦ rw (good, apart) (on_block-with_blocks n b networks)
    ]
  ]

  -- A network whose CIDR cannot be read clashes with none.
  unread-clashing :
      (n : Network) (later : List Network) → net.parse_cidr n.cidr ≡ none → clashing n later ≡ []
  unread-clashing n [] bad = refl
  unread-clashing n (m ∷ later) bad = rw bad (unread-clashing n later bad)

  read-clashing :
      (n : Network) (b : Block) (later : List Network)
      → net.parse_cidr n.cidr ≡ some b
      → clashing n later ≡ select (λ m. is_on net b (net.parse_cidr m.cidr)) later
  read-clashing n b later good = ap (λ c. select (λ m. meets c (net.parse_cidr m.cidr)) later) good

  overlapping_networks-cons :
      (n : Network) (networks : List Network)
      → overlapping_networks net (n ∷ networks)
        ≡ before n (clashing n networks) ++ overlapping_networks net networks
  unfolding overlapping_networks with_blocks with_block pairs
  overlapping_networks-cons n networks = elim (Option-cases (net.parse_cidr n.cidr)) [
    | inl bad ↦ rw (unread-clashing n networks bad, bad) refl
    | inr (b, good) ↦
        rw (read-clashing n b networks good, good)
          (ap (λ l. l ++ overlapping_networks net networks) (on_block-with_blocks n b networks))
  ]

  abbrev clashing_others : Network → List Network → List Network
  clashing_others target networks = select (λ n. not (n.id == target.id) && clash target n) networks

  network_overlaps-eq :
      (target : Network) (networks : List Network)
      → network_overlaps net target networks ≡ clashing_others target networks
  unfolding network_overlaps overlaps_of
  network_overlaps-eq target networks = elim (Option-cases (net.parse_cidr target.cidr)) [
    | inl bad ↦ rw bad (no_overlaps networks)
    | inr (b, good) ↦ rw good refl
  ]
    where
      no_overlaps :
          (networks : List Network) → [] ≡ select (λ n. not (n.id == target.id) && false) networks
      no_overlaps [] = refl
      no_overlaps (n ∷ networks) = ground (arith, no_overlaps networks)

  -- The network pages of some networks, each against all of them: a network and one that its page
  -- lists.
  abbrev pub page_pairs : List Network → List Network → List (Network × Network)
  page_pairs [] networks = []
  page_pairs (n ∷ rest) networks =
      before n (network_overlaps net n networks) ++ page_pairs rest networks

  -- A network whose id none of the others has.
  fresh-clashing :
      (x : Network) (others : List Network)
      → contains (ids others) x.id ≡ false
      → clashing_others x others ≡ clashing x others
  fresh-clashing x [] h = refl
  fresh-clashing x (y ∷ others) h = ground (arith, fresh-clashing x others)

  swap_front : {A : Type 0} (xs ys zs : List A) → Perm (xs ++ (ys ++ zs)) (ys ++ (xs ++ zs))
  swap_front xs ys zs =
      subst (λ l. Perm l (ys ++ (xs ++ zs))) (append_assoc xs ys zs)
        (subst (λ l. Perm ((xs ++ ys) ++ zs) l) (append_assoc ys xs zs)
          (Perm.append_right zs (perm_append_comm xs ys)))

  network_overlaps-cons :
      (y x : Network) (networks : List Network)
      → (x.id == y.id) ≡ false
      → network_overlaps net y (x ∷ networks) ≡ (
          if clash x y
          then x ∷ network_overlaps net y networks
          else network_overlaps net y networks)
  network_overlaps-cons y x networks apart =
      rw (network_overlaps-eq y (x ∷ networks), network_overlaps-eq y networks)
        (ground (arith, apart, meets_comm (net.parse_cidr x.cidr) (net.parse_cidr y.cidr)))

  -- Every page gains an entry for each of its networks that clashes with the new one.
  page_pairs-cons :
      (x : Network) (rest networks : List Network)
      → contains (ids rest) x.id ≡ false
      → Perm
          (page_pairs rest (x ∷ networks))
          (behind x (clashing x rest) ++ page_pairs rest networks)
  page_pairs-cons x [] networks h = Perm.refl []
  page_pairs-cons x (y ∷ rest) networks h =
      let own = before y (network_overlaps net y networks) in
      let others =
        Perm.trans (Perm.append_left own (page_pairs-cons x rest networks (ground arith)))
          (swap_front own (behind x (clashing x rest)) (page_pairs rest networks)) in
      let page = network_overlaps-cons y x networks (ground arith) in
      elim (Bool-cases (clash x y)) [
        | inl met ↦ rw (page, met) (Perm.cons (y, x) others)
        | inr apart ↦ rw (page, apart) others
      ]

  flipped-before :
      (x : Network) (others : List Network) → flipped (before x others) ≡ behind x others
  flipped-before x [] = refl
  flipped-before x (y ∷ others) = ap (λ l. (y, x) ∷ l) (flipped-before x others)

  flipped-append :
      (xs ys : List (Network × Network)) → flipped (xs ++ ys) ≡ flipped xs ++ flipped ys
  flipped-append [] ys = refl
  flipped-append (p ∷ xs) ys = ap (λ l. (p.1, p.0) ∷ l) (flipped-append xs ys)

  own_page :
      (x : Network) (networks : List Network)
      → contains (ids networks) x.id ≡ false
      → network_overlaps net x (x ∷ networks) ≡ clashing x networks
  own_page x networks h =
      rw (network_overlaps-eq x (x ∷ networks)) (ground (arith, fresh-clashing x networks h))

  -- The report of networks that share a block and the networks' own pages agree: with distinct ids,
  -- the pairs of a network and one that its page lists are, up to their order, the pairs of the
  -- report and the same pairs turned around, each as often.
  pub page_pairs-perm :
      (networks : List Network)
      → is_nodup (map (λ n. n.id) networks) ≡ true
      → let found = overlapping_networks net networks in
        Perm (page_pairs networks networks) (found ++ map (λ p. (p.1, p.0)) found)
  unfolding overlapping_networks
  page_pairs-perm [] h = Perm.refl []
  page_pairs-perm (x ∷ networks) h =
      let found = overlapping_networks net networks in
      let mine = before x (clashing x networks) in
      let theirs = behind x (clashing x networks) in
      let pages = Perm.trans (page_pairs-cons x networks networks (ground arith)) (
        Perm.trans (Perm.append_left theirs (page_pairs-perm networks (ground arith)))
          (swap_front theirs found (flipped found))) in
      rw
        (
          own_page x networks (ground arith),
          overlapping_networks-cons x networks,
          flipped-append mine found,
          flipped-before x (clashing x networks),
          append_assoc mine found (theirs ++ flipped found),
        )
        (Perm.append_left mine pages)
