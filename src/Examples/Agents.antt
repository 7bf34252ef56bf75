-- ===== src/Examples/Agents.antt =====
-- Inputs for the theorems on the agents' reports: internal/agentapi, internal/web/agent.go and
-- internal/store/agent_repo.go.
use almanaut.Agents.Resolve.{merge_agent_report, normalize_name, resolve, sanitize_reported_ip}
use almanaut.Agents.Hosts.{candidates, empty_host, is_valid_host}
use almanaut.Resource.Transactions.{create_entity_tx}
use almanaut.Resource.Diff.{diff_maps}
use almanaut.Base.Assoc.{Assoc, insert, keys, lookup, lookup-nil}
use almanaut.Base.Sort.{sort_by}
use almanaut.Base.Text.{Text, ascii_lower, is_space, text_lt, text_of, trim_space}
use almanaut.Base.{
  List, Option, [], ap, arith, bool_eq, false, length, list_beq_iff, list_eq, nat_beq_iff, nat_eq,
  none, pair_eq, refl, some, string_eq, sym, take, true, ℕ, ◌∙◌, ◌∷◌, ◌≡◌, ◌≢◌, ◌≤◌,
}
use almanaut.Base.Result.{Returns}
use almanaut.Inventory.{Host}
use almanaut.Resource.{Event, Kind, Tables, Value, text_value}
use almanaut.Agents.{Library, Report}
use almanaut.Agents.Store.{
  StoredReport, agent_report_retention, bound_host_ids, by_agent_id, latest_report, record_report,
  refreshed,
}
use almanaut.Agents.Reporting.{
  Db, Reply, accepted, agent_report, delete_host, report_tx, unbind_agent,
}
use almanaut.Agents.Saving.{IsKeyed, inserted-Writes}
use almanaut.Agents.Owners.{IsValid}
use almanaut.Agents.Invariant.{IsUndisturbed}
use almanaut.Agents.Requests.{agent_report-IsUndisturbed, agents-IsValid}
use almanaut.Agents.Conflicts.{is_clone_of, is_conflict, report_tx-is_conflict}
use almanaut.Agents.History.{record_report_lem, reports_of}

-- Any text that is not empty is an address.
abbrev parse_text : Text → Option Text
parse_text [] = none
parse_text (c ∷ s) = some (c ∷ s)

abbrev plain : Library Text
plain = record {
  parse_ip = parse_text;
  is_loopback = λ ip. false;
  is_link_local = λ ip. false;
  show_ip = λ ip. ip;
  to_lower = ascii_lower;
  split_host_port = λ addr. none;
  parse_number = λ s. none;
}

abbrev fields_of : Text → Option (Assoc Text (Value ℕ))
fields_of os = some ((text_of "os", text_value os) ∷ [])

-- A host's object has its operating system alone.
abbrev json : Kind Host ℕ
json = record {
  sing = "host";
  new_item = empty_host;
  id_of = λ h. h.id;
  with_id = λ id h. record h { id = id };
  label = λ h. h.name;
  is_valid = λ h. true;
  accepts = λ rows id h. true;
  on_delete = λ deleted id h. h;
  marshal = λ h. some h.os;
  decode = fields_of;
  encode = λ m. none;
  unmarshal = λ s. none;
  format_scalar = λ n. n ∷ [];
  to_lower = ascii_lower;
}

abbrev machine : ℕ → Text → Host
machine id name = record empty_host { id = id; name = name; type = "vm" }

abbrev no_hosts : Tables Host
no_hosts = record {
  rows = [];
  next_id = 0;
  relationships = [];
  tags = [];
  journal = [];
  attachments = [];
  custom_values = [];
  changelog = [];
}

abbrev nas : Host
nas = machine 1 (text_of "nas")

abbrev pve : Host
pve = machine 2 (text_of "pve")

abbrev one_host : Tables Host
one_host = record no_hosts { rows = insert 1 nas []; next_id = 2 }

abbrev two_hosts : Tables Host
two_hosts = record no_hosts { rows = insert 2 pve (insert 1 nas []); next_id = 3 }

no_hosts-IsKeyed : IsKeyed no_hosts
no_hosts-IsKeyed = record {
  keyed = λ id h e. absurd (cc (e, lookup-nil {V = Host} id));
  fresh = λ id e. absurd (cc (rw (lookup-nil {V = Host} id) at e));
}

two_hosts-IsKeyed : IsKeyed two_hosts
two_hosts-IsKeyed =
    (inserted-Writes pve one_host two_hosts
      (inserted-Writes nas no_hosts one_host no_hosts-IsKeyed refl (omega arith)
        (omega arith)).is_keyed
      refl (omega arith) (omega arith)).is_keyed

abbrev report : Text → Text → Text → Report
report agent hostname mac = record {
  schema_version = 1;
  agent_id = agent;
  agent_version = text_of "1.0";
  hostname = hostname;
  virt_kind = "vm";
  os = text_of "Debian";
  cpu = [];
  ram = [];
  disk = [];
  interfaces = record { name = text_of "eth0"; mac = mac; addrs = text_of "10.0.0.5/24" ∷ [] } ∷ [];
}

-- Agent "a" reports for the first host.
abbrev db : Db
db = record {
  hosts = two_hosts;
  agents = record {
    bindings = refreshed 1 (text_of "a") (text_of "nas|aa:01") [] ∷ [];
    reports = [];
  };
}

db-IsValid : IsValid db
unfolding lookup insert bound_host_ids
db-IsValid = record {
  keyed = two_hosts-IsKeyed;
  hosts = refl;
  agents = refl;
  bound = λ id h. rw (← (nat_beq_iff 1 id).0 (ground arith)) refl;
}

-- Agent "b" calls itself "nas" too.
abbrev namesake : Report
namesake = report (text_of "b") (text_of "NAS") (text_of "bb:02")

abbrev parse_namesake : Text → Option Report
parse_namesake raw = some namesake

agents-IsValid_example :
    ((parse : Text → Option Report) (raw now later : Text)
      → IsValid (agent_report plain json parse raw now later db).0)
    × ((id : ℕ) (actor now : Text) → Returns IsValid (unbind_agent plain json id actor now db))
    × ((id : ℕ) (actor now : Text) → Returns IsValid (delete_host plain json id actor now db))
agents-IsValid_example = agents-IsValid plain json db db-IsValid

agent_report-IsUndisturbed_example :
    IsUndisturbed (text_of "a") db (agent_report plain json parse_namesake [] [] [] db).0
agent_report-IsUndisturbed_example =
    agent_report-IsUndisturbed plain json parse_namesake [] [] [] db (text_of "a") db-IsValid
      λ r e same.
        let it : namesake ≡ r = cc e in
        let equal : false ≡ true =
          (list_beq_iff (text_of "a") (text_of "b")).1
            (same ∙ sym (ap (λ (x : Report). x.agent_id) it)) in
        cc equal

report_tx-is_conflict_example :
    is_conflict
      (report_tx plain json (report (text_of "a") (text_of "clone") (text_of "cc:03")) [] [] db)
    ≡ is_clone_of plain
        (report (text_of "a") (text_of "clone") (text_of "cc:03"))
        (by_agent_id (text_of "a") db.agents.bindings)
report_tx-is_conflict_example =
    report_tx-is_conflict plain json (report (text_of "a") (text_of "clone") (text_of "cc:03")) []
      [] db db-IsValid

abbrev arrived : StoredReport
arrived = record {
  host_id = 1;
  agent_id = text_of "a";
  received_at = [];
  agent_version = [];
  schema_version = 1;
  payload = [];
}

record_report_lem_example :
    (reports_of 1 (record_report arrived db.agents).reports
      ≡ take agent_report_retention (arrived ∷ []))
    × (length (reports_of 1 (record_report arrived db.agents).reports) ≤ agent_report_retention)
    × ((other : ℕ)
        → 1 ≢ other
        → reports_of other (record_report arrived db.agents).reports ≡ reports_of other [])
    × (latest_report 1 (record_report arrived db.agents) ≡ some arrived)
record_report_lem_example = record_report_lem arrived db.agents

abbrev reply_of : Db × List Event × Reply → Reply
reply_of (after, events, reply) = reply

-- The namesake is a host of its own, since the first host has its agent.
namesake_runs :
    reply_of (agent_report plain json parse_namesake [] [] [] db) ≡ accepted 3 (text_of "os" ∷ [])
unfolding agent_report lookup insert trim_space is_space resolve candidates sort_by text_lt
    bound_host_ids normalize_name ascii_lower is_valid_host merge_agent_report sanitize_reported_ip
    create_entity_tx diff_maps keys
namesake_runs = refl
