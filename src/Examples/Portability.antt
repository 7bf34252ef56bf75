-- ===== src/Examples/Portability.antt =====
-- Imports of the model of internal/store/portability.go at concrete inputs.
use almanaut.Base.{
  List, [], arith, bool_eq, false, inl, inr, list_eq, nat_eq, pair_eq, refl, string_eq, true, ℕ,
  ◌∷◌, ◌≡◌,
}
use almanaut.Base.Text.{Text, is_space, text_of, trim_left, trim_space}
use almanaut.Ports.{Nic, Port}
use almanaut.Base.Result.{Returns, ok}
use almanaut.Base.Assoc.{has_key, has_unique_keys, keys, lookup, map_values}
use almanaut.Resource.{Attachment, normalize_tag}
use almanaut.Portability.{
  Snapshot, check_port_nic, check_port_nics, keep, pair_port, pair_port_links, pair_ports,
  pair_with, validate_all,
}
use almanaut.Portability.Import.{
  Checks, Database, drop_dangling_refs, export, has, ids_of, import_snapshot, repair,
  validate_snapshot,
}
use almanaut.Portability.Whole.{IsConsistent, import_snapshot-IsConsistent}
use almanaut.Portability.Cabling.{IsCabled, import_snapshot-IsCabled}
use almanaut.Portability.RoundTrip.{IsSettled, import_snapshot-export, reimported}

-- Every record is valid, and the constraints admit every inventory.
abbrev checks : Checks Text
checks = record {
  is_valid = λ label id x. true;
  is_valid_nic = λ id x. true;
  is_valid_port = λ id x. true;
  is_valid_relationship = λ id x. true;
  is_valid_tag = λ id x. true;
  is_valid_entry = λ id x. true;
  is_valid_def = λ id x. true;
  is_valid_value = λ id x. true;
  admits = λ s. true;
  to_lower = λ letter. letter;
  decimal = λ n. n ∷ [];
}

abbrev port : ℕ → ℕ → Port
port nic peer = record {
  owner_type = "host";
  owner_id = 1;
  nic_id = nic;
  name = text_of "eth";
  mac = [];
  mgmt_only = false;
  peer_port_id = peer;
  notes = [];
}

abbrev network_card : Nic
network_card = record {
  host_id = 1;
  name = text_of "card";
  kind = "expansion";
  model = text_of "X550";
  serial = [];
  notes = [];
}

-- Two ports of one host, of which the first names a NIC, and a peer, and the second no peer; a tag of
-- the host, and one of a host that is not there.
abbrev file : Snapshot Text
file = record {
  version = 1;
  hosts = (1, text_of "nas") ∷ [];
  services = [];
  networks = [];
  domains = [];
  certificates = [];
  backups = [];
  hardware = [];
  subscriptions = [];
  accounts = [];
  vlans = [];
  reservations = [];
  contacts = [];
  sites = [];
  locations = [];
  racks = [];
  nics = (3, network_card) ∷ [];
  ports = (5, port 3 6) ∷ (6, port 0 0) ∷ (7, port 9 8) ∷ [];
  relationships = [];
  tags =
      (1, record { entity = ("host", 1); name = text_of "lab" })
      ∷ (2, record { entity = ("host", 2); name = text_of "old" })
      ∷ [];
  journal_entries = [];
  custom_field_defs = [];
  custom_field_values = [];
}

-- What the repairs leave of it.
abbrev repaired : Snapshot Text
repaired = record file {
  ports = (5, port 3 6) ∷ (6, port 0 5) ∷ (7, port 0 0) ∷ [];
  tags = (1, record { entity = ("host", 1); name = text_of "lab" }) ∷ [];
}

abbrev photo : Attachment
photo = record {
  entity = ("host", 2);
  filename = text_of "a.png";
  content_type = text_of "image/png";
  size = 0;
  content = [];
  uploaded_at = [];
  uploaded_by = [];
}

abbrev manual : Attachment
manual = record {
  entity = ("host", 1);
  filename = text_of "b.pdf";
  content_type = text_of "application/pdf";
  size = 0;
  content = [];
  uploaded_at = [];
  uploaded_by = [];
}

abbrev database : List Attachment → Database Text
database attachments = record {
  inventory = repaired;
  liveness_state = text_of "host 2 down" ∷ [];
  cert_probe_state = [];
  notification_state = [];
  attachments = attachments;
  changelog = [];
}

repair-file : repair file ≡ ok (repaired, 3)
unfolding repair drop_dangling_refs keep has ids_of pair_port_links pair_ports pair_port pair_with
    check_port_nics check_port_nic keys lookup map_values
repair-file = refl

import_snapshot-IsConsistent_example :
    Returns IsConsistent
      (import_snapshot checks (text_of "2026") file (database (photo ∷ manual ∷ [])))
import_snapshot-IsConsistent_example =
    import_snapshot-IsConsistent checks (text_of "2026") file (database (photo ∷ manual ∷ []))

import_snapshot-IsCabled_example :
    Returns
      (λ after. IsCabled file.ports after.inventory)
      (import_snapshot checks (text_of "2026") file (database (photo ∷ manual ∷ [])))
unfolding lookup
import_snapshot-IsCabled_example =
    import_snapshot-IsCabled checks (text_of "2026") file (database (photo ∷ manual ∷ [])) refl

database-IsSettled : IsSettled checks (database (manual ∷ []))
unfolding export validate_snapshot validate_all has_unique_keys has_key normalize_tag trim_space
    trim_left is_space has ids_of keys lookup
database-IsSettled = record {
  validated = refl;
  admitted = refl;
  unique = refl;
  lowered = refl;
  whole = record {
    ends_exist = tt;
    tagged_exist = (refl, tt);
    subjects_exist = tt;
    fields_exist = tt;
  };
  attached = (refl, tt);
  none_zero = refl;
  cabled = λ k named. ground arith;
  carded = (inr (network_card, refl, refl), (inl refl, (inl refl, tt)));
}

import_snapshot-export_example :
    import_snapshot checks
      (text_of "2026")
      (export (database (manual ∷ [])))
      (database (manual ∷ []))
    ≡ ok (reimported checks (text_of "2026") (database (manual ∷ [])))
import_snapshot-export_example =
    import_snapshot-export checks (text_of "2026") (database (manual ∷ [])) database-IsSettled
