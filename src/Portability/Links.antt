-- ===== src/Portability/Links.antt =====
-- `pairPortLinks` of internal/store/portability.go: which cables a file's ports end up with.
use mathlib.Core.Path.{fun_ext, subst}
use almanaut.Base.{
  Bool, Bool-cases, List, Option, [], ap, arith, bool_eq, contains, false, if◌then◌else◌, inl, inr,
  is_some, list_eq, nat_eq, none, pair_eq, refl, some, string_eq, sym, true, ℕ, ◌==◌, ◌||◌, ◌↔◌,
  ◌∙◌, ◌∷◌, ◌≡◌, ◌≢◌, ◌⊎◌,
}
use almanaut.Base.Result.{Returns, bind-Returns, ok-Returns, weaken-Returns}
use almanaut.Base.Assoc.{Assoc, keys, lookup, lookup-map_values}
use almanaut.Ports.{Port}
use almanaut.Portability.{
  ImportFault, Paired, pair_port, pair_port_links, pair_ports, pair_with, set_peer, with_peer,
}

abbrev peer_or_none : Option Port → ℕ
peer_or_none none = 0
peer_or_none (some p) = p.peer_port_id

-- The peer that a list of ports has for an id; 0 for no link, and for no port.
abbrev pub peer_in : Assoc ℕ Port → ℕ → ℕ
peer_in ports k = peer_or_none (lookup k ports)

abbrev pub has_port : Assoc ℕ Port → ℕ → Bool
has_port ports k = is_some (lookup k ports)

abbrev assign : (ℕ → ℕ) → ℕ → ℕ → ℕ → ℕ
assign P id peer k = if k == id then peer else P k

-- What the loop has reached when it has been through the ports `seen`; `H` says which ports there are,
-- `P₀` which peers the file gave, and `P` which they have now.
record Linked (H : ℕ → Bool) (P₀ P : ℕ → ℕ) (seen : List ℕ) : Type 0 where
  within : (k : ℕ) → P k ≢ 0 → H k ≡ true
  sound : (k : ℕ) → P k ≢ 0 → (P₀ k ≡ P k) ⊎ (P₀ (P k) ≡ k)
  kept : (k : ℕ) → P₀ k ≢ 0 → H (P₀ k) ≡ true → P k ≡ P₀ k
  mutual_seen : (k : ℕ) → contains seen k ≡ true → P k ≢ 0 → P (P k) ≡ k

module _ (H : ℕ → Bool) (P₀ P : ℕ → ℕ) (id : ℕ) (seen : List ℕ) (none_zero : H 0 ≡ false)
    (h : Linked H P₀ P seen) where
  -- The port has no link, or its peer names it already.
  Linked-same : ((P id ≢ 0) → P (P id) ≡ id) → Linked H P₀ P (id ∷ seen)
  Linked-same same = record {
    within = h.within;
    sound = h.sound;
    kept = h.kept;
    mutual_seen = λ k here some_peer. ground (arith, h.mutual_seen k, same);
  }

  -- The peer is not in the file.
  Linked-clear : P id ≢ 0 → H (P id) ≡ false → Linked H P₀ (assign P id 0) (id ∷ seen)
  Linked-clear some_peer gone = record {
    within = λ k m. ground (arith, h.within k);
    sound = λ k m. ground (arith, h.sound k);
    kept = λ k m there. ground (arith, h.kept k, gone);
    mutual_seen = λ k here m. ground (arith, h.mutual_seen k, h.within k, gone);
  }

  -- The peer is free.
  Linked-complete :
      P id ≢ 0
      → H (P id) ≡ true
      → P (P id) ≡ 0
      → id ≢ 0
      → Linked H P₀ (assign P (P id) id) (id ∷ seen)
  Linked-complete some_peer there free pos = record {
    within = λ k m. ground (arith, h.within k, there);
    sound = λ k m. ground (arith, h.sound k, h.sound id, h.kept id);
    kept = λ k m known. ground (arith, h.kept k, free);
    mutual_seen = λ k here m. ground (arith, h.mutual_seen k, h.within k, free);
  }

module _ (ports : Assoc ℕ Port) where
  has_port-set_peer : (id peer k : ℕ) → has_port (set_peer id peer ports) k ≡ has_port ports k
  has_port-set_peer id peer k = rw (lookup-map_values (with_peer id peer) k ports) (ground arith)

  peer_in-set_peer :
      (id peer : ℕ)
      → has_port ports id ≡ true
      → (k : ℕ) → peer_in (set_peer id peer ports) k ≡ assign (peer_in ports) id peer k
  peer_in-set_peer id peer there k =
      rw (lookup-map_values (with_peer id peer) k ports) (ground (arith, there))

-- The loop's state, on lists.
record IsPaired (ports : Assoc ℕ Port) (s : Paired) (seen : List ℕ) : Type 0 where
  same_ports : (k : ℕ) → has_port s.items k ≡ has_port ports k
  linked : Linked (has_port ports) (peer_in ports) (peer_in s.items) seen

module _ (ports : Assoc ℕ Port) (none_zero : has_port ports 0 ≡ false) where
  IsPaired-write :
      (s : Paired) (id peer count : ℕ) (seen : List ℕ)
      → ((k : ℕ) → has_port s.items k ≡ has_port ports k)
      → has_port s.items id ≡ true
      → Linked (has_port ports) (peer_in ports) (assign (peer_in s.items) id peer) seen
      → IsPaired ports (record { items = set_peer id peer s.items; count = count }) seen
  IsPaired-write s id peer count seen same there h = record {
    same_ports = λ k. has_port-set_peer s.items id peer k ∙ same k;
    linked =
        subst (λ P. Linked (has_port ports) (peer_in ports) P seen)
          (sym (fun_ext (peer_in-set_peer s.items id peer there))) h;
  }

  pair_with-IsPaired :
      (id : ℕ) (s : Paired) (seen : List ℕ)
      → IsPaired ports s seen
      → has_port ports id ≡ true
      → peer_in s.items id ≢ 0
      → (found : Option Port) → lookup (peer_in s.items id) s.items ≡ found
      → Returns (λ s'. IsPaired ports s' (id ∷ seen)) (pair_with id (peer_in s.items id) found s)
  unfolding pair_with Returns
  pair_with-IsPaired id s seen h there some_peer none gone =
      IsPaired-write s id 0 _ (id ∷ seen) h.same_ports (h.same_ports id ∙ there) (
        Linked-clear (has_port ports) (peer_in ports) (peer_in s.items) id seen none_zero h.linked
          some_peer (sym (h.same_ports (peer_in s.items id)) ∙ ap is_some gone))
  pair_with-IsPaired id s seen h there some_peer (some peer) found =
      let back : peer_in s.items (peer_in s.items id) ≡ peer.peer_port_id = ap peer_or_none found in
      let known : has_port s.items (peer_in s.items id) ≡ true = ap is_some found in
      elim (Bool-cases (peer.peer_port_id == id)) [
        | inl named ↦ rw named (record {
          same_ports = h.same_ports;
          linked =
              Linked-same (has_port ports) (peer_in ports) (peer_in s.items) id seen none_zero
                h.linked (λ m. ground (arith, back, named));
        })
        | inr other ↦ elim (Bool-cases (peer.peer_port_id == 0)) [
          | inl free ↦
              rw (other, free)
                (IsPaired-write s (peer_in s.items id) id _ (id ∷ seen) h.same_ports known (
                  Linked-complete (has_port ports) (peer_in ports) (peer_in s.items) id seen
                    none_zero h.linked some_peer (sym (h.same_ports (peer_in s.items id)) ∙ known)
                    (ground (arith, back, free)) (ground (arith, none_zero, there))))
          | inr taken ↦ rw (other, taken) tt
        ]
      ]

  pair_port-IsPaired :
      (id : ℕ) (s : Paired) (seen : List ℕ)
      → IsPaired ports s seen
      → (found : Option Port) → lookup id s.items ≡ found
      → Returns (λ s'. IsPaired ports s' (id ∷ seen)) (pair_port id found s)
  unfolding pair_port Returns
  pair_port-IsPaired id s seen h none gone = record {
    same_ports = h.same_ports;
    linked =
        Linked-same (has_port ports) (peer_in ports) (peer_in s.items) id seen none_zero h.linked
          (λ m. absurd (m (ap peer_or_none gone)));
  }
  pair_port-IsPaired id s seen h (some p) found =
      let peer : peer_in s.items id ≡ p.peer_port_id = ap peer_or_none found in
      elim (Bool-cases (p.peer_port_id == 0)) [
        | inl free ↦ rw free (record {
          same_ports = h.same_ports;
          linked =
              Linked-same (has_port ports) (peer_in ports) (peer_in s.items) id seen none_zero
                h.linked (λ m. ground (arith, peer, free));
        })
        | inr linked ↦
            rw (linked, sym peer)
              (pair_with-IsPaired id s seen h (sym (h.same_ports id) ∙ ap is_some found)
                (ground (arith, peer, linked)) _ refl)
      ]

  -- The ports that the loop has been through, the last first.
  abbrev seen_after : List ℕ → List ℕ → List ℕ
  seen_after seen [] = seen
  seen_after seen (id ∷ ids) = seen_after (id ∷ seen) ids

  pair_ports-IsPaired :
      (ids : List ℕ) (s : Paired) (seen : List ℕ)
      → IsPaired ports s seen
      → Returns (λ s'. IsPaired ports s' (seen_after seen ids)) (pair_ports ids s)
  unfolding pair_ports
  pair_ports-IsPaired [] s seen h = ok-Returns ImportFault _ s h
  pair_ports-IsPaired (id ∷ ids) s seen h =
      bind-Returns _ _ (pair_port id (lookup id s.items) s) (pair_ports ids)
        (pair_port-IsPaired id s seen h (lookup id s.items) refl)
        (λ s' paired. pair_ports-IsPaired ids s' (id ∷ seen) paired)

contains-keys : (ports : Assoc ℕ Port) (k : ℕ) → contains (keys ports) k ≡ has_port ports k
unfolding keys lookup
contains-keys [] k = refl
contains-keys ((id, p) ∷ ports) k = ground (arith, contains-keys ports k)

-- The cables of a repaired list: both ends name each other, and two ports are connected exactly when
-- both are in the file and at least one of them named the other there.
pub record IsClosure (ports paired : Assoc ℕ Port) : Type 0 where
  pub same_ports : (k : ℕ) → has_port paired k ≡ has_port ports k
  pub is_mutual : (k : ℕ) → peer_in paired k ≢ 0 → peer_in paired (peer_in paired k) ≡ k
  pub connected :
      (k m : ℕ)
      → k ≢ 0
      → m ≢ 0
      → (peer_in paired k ≡ m) ↔ (
          (has_port ports k ≡ true)
          × (has_port ports m ≡ true)
          × ((peer_in ports k ≡ m) ⊎ (peer_in ports m ≡ k)))

module _ (ports : Assoc ℕ Port) (none_zero : has_port ports 0 ≡ false) where
  contains-seen_after :
      (seen ids : List ℕ) (k : ℕ)
      → contains (seen_after ports none_zero seen ids) k ≡ (contains seen k || contains ids k)
  contains-seen_after seen [] k = ground arith
  contains-seen_after seen (id ∷ ids) k = ground (arith, contains-seen_after (id ∷ seen) ids k)

  IsPaired-IsClosure :
      (s : Paired)
      → IsPaired ports s (seen_after ports none_zero [] (keys ports))
      → IsClosure ports s.items
  IsPaired-IsClosure s h =
      let mutual_of = λ (k : ℕ) (m : peer_in s.items k ≢ 0).
        h.linked.mutual_seen k
          (contains-seen_after [] (keys ports) k ∙ (contains-keys ports k ∙ h.linked.within k m))
          m in
      record {
        same_ports = h.same_ports;
        is_mutual = mutual_of;
        connected = λ k m pos_k pos_m. (
          λ e.
              let named : peer_in s.items k ≢ 0 = λ z. pos_m (sym e ∙ z) in
              let back : peer_in s.items m ≡ k = ap (peer_in s.items) (sym e) ∙ mutual_of k named in
              (
                h.linked.within k named,
                h.linked.within m (λ z. pos_k (sym back ∙ z)),
                ground (arith, h.linked.sound k),
              ),
          λ w. ground (arith, w, h.linked.kept k, h.linked.kept m, mutual_of m),
        );
      }

-- Where no port has the id 0, a list of ports that `pairPortLinks` accepts comes out with the cables of
-- `IsClosure`: no cable between two ports of the file is lost, those to other ports are cleared, and
-- each that was recorded on one end only is on both.
pub pair_port_links-IsClosure :
    (ports : Assoc ℕ Port)
    → has_port ports 0 ≡ false
    → Returns (λ s. IsClosure ports s.items) (pair_port_links ports)
unfolding pair_port_links
pair_port_links-IsClosure ports none_zero =
    weaken-Returns _ _ _
      (pair_ports-IsPaired ports none_zero (keys ports) (record { items = ports; count = 0 }) []
        (record {
          same_ports = λ k. refl;
          linked = record {
            within = λ k m. ground arith;
            sound = λ k m. inl refl;
            kept = λ k m there. refl;
            mutual_seen = λ k none m. cc;
          };
        }))
      (IsPaired-IsClosure ports none_zero)
