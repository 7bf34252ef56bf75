-- ===== src/Examples/Ports.antt =====
-- Inputs for the theorems on internal/store/port_repo.go.
use almanaut.Base.{
  [], arith, bool_eq, false, list_eq, nat_eq, none, pair_eq, refl, string_eq, ℕ, ◌∷◌, ◌≡◌,
}
use almanaut.Base.Text.{text_of}
use almanaut.Base.Assoc.{any_value, has_key, has_unique_keys, insert, lookup, map_values}
use almanaut.Base.Result.{err, ok}
use almanaut.Ports.{
  Db, Nic, Port, check_nic, connect, create, create_nic, peer_taken, update, update_nic,
}
use almanaut.Ports.Cables.Cards.{HasOwnCards}
use almanaut.Ports.Cables.Cards.Calls.{
  Changes, Changes-HasOwnCards, nic_created, nic_updated, none_yet, port_created, then_one,
}
use almanaut.Ports.Cables.{IsValid, create-IsValid, peer_of, update-IsValid}
use almanaut.Ports.Cables.Accepts.{connect-IsError}
use almanaut.Ports.Cables.ReadBack.{update-read}

abbrev port_to : ℕ → Port
port_to peer = record {
  owner_type = "host";
  owner_id = 7;
  nic_id = 0;
  name = text_of "eth0";
  mac = [];
  mgmt_only = false;
  peer_port_id = peer;
  notes = [];
}

abbrev card : ℕ → Nic
card host = record {
  host_id = host;
  name = text_of "card";
  kind = "onboard";
  model = [];
  serial = [];
  notes = [];
}

-- Ports 1 and 2 are cabled to each other, and 3 is free.
abbrev rack_db : Db
rack_db = record {
  ports = (1, port_to 2) ∷ (2, port_to 1) ∷ (3, port_to 0) ∷ [];
  nics = (5, record (card 7) { name = [] }) ∷ [];
  next_id = 4;
}

rack_db-IsValid : IsValid rack_db
unfolding lookup has_unique_keys has_key
rack_db-IsValid = record {
  unique = refl;
  no_zero = refl;
  started = omega arith;
  fresh = λ k h. ground arith;
  cabled = λ k h. ground arith;
}

-- Port 1 moves to port 3.
abbrev moved_db : Db
moved_db = record rack_db { ports = (1, port_to 3) ∷ (2, port_to 0) ∷ (3, port_to 1) ∷ [] }

moved : update rack_db 1 (port_to 3) ≡ ok moved_db
unfolding update connect check_nic lookup insert map_values any_value
moved = refl

update-IsValid_example : IsValid moved_db × (peer_of moved_db 1 ≡ 3)
update-IsValid_example = update-IsValid rack_db 1 (port_to 3) rack_db-IsValid moved

abbrev grown_db : Db
grown_db = record rack_db {
  ports = (1, port_to 2) ∷ (2, port_to 1) ∷ (3, port_to 4) ∷ (4, port_to 3) ∷ [];
  next_id = 5;
}

grown : create rack_db (port_to 3) ≡ ok (grown_db, 4)
unfolding create connect check_nic lookup insert map_values any_value
grown = refl

create-IsValid_example :
    IsValid grown_db × (lookup 4 rack_db.ports ≡ none) × (peer_of grown_db 4 ≡ 3)
create-IsValid_example = create-IsValid rack_db (port_to 3) rack_db-IsValid grown

abbrev cut_db : Db
cut_db = record rack_db { ports = (1, port_to 0) ∷ (2, port_to 0) ∷ (3, port_to 0) ∷ [] }

cut : connect rack_db 1 0 ≡ ok cut_db
unfolding connect lookup map_values
cut = refl

-- Port 3 cannot take port 1's place at port 2.
connect-IsError_example : connect rack_db 3 2 ≡ err peer_taken
unfolding lookup
connect-IsError_example = connect-IsError rack_db 3 2 {row = port_to 0} rack_db-IsValid refl

update-read_example :
    (db' : Db) × (update rack_db 1 (port_to 2) ≡ ok db')
    × ((k : ℕ) → lookup k db'.ports ≡ lookup k rack_db.ports)
unfolding lookup check_nic
update-read_example = update-read rack_db 1 (port_to 2) rack_db-IsValid refl refl

abbrev nothing : Db
nothing = record { ports = []; nics = []; next_id = 1 }

abbrev card_port : ℕ → Port
card_port nic = record {
  owner_type = "host";
  owner_id = 1;
  nic_id = nic;
  name = text_of "eth0";
  mac = [];
  mgmt_only = false;
  peer_port_id = 0;
  notes = [];
}

abbrev after_move : Db
after_move = record { ports = (1, card_port 0) ∷ []; nics = (7, card 2) ∷ []; next_id = 2 }

-- A card of host 1, a port on it, and the card moved to host 2.
card_moves : Changes nothing after_move
unfolding create create_nic update_nic check_nic connect lookup insert map_values any_value
card_moves =
    then_one
      (then_one (then_one none_yet (nic_created 7 (card 1) refl refl))
        (port_created (card_port 7) 1 refl))
      (nic_updated 7 (card 2) refl)

nothing-HasOwnCards : HasOwnCards nothing
unfolding lookup
nothing-HasOwnCards = record { passes = λ k p found. absurd (ground arith) }

Changes-HasOwnCards_example : HasOwnCards after_move
Changes-HasOwnCards_example = Changes-HasOwnCards card_moves nothing-HasOwnCards
