-- ===== src/Examples/Checks.antt =====
-- Inputs for the theorems on internal/domain/audit.go, checks.go and dates.go.
use almanaut.Base.{
  All, List, Option, [], any, bool_eq, false, list_eq, nat_eq, none, pair_eq, refl, some, string_eq,
  ℕ, ◌+◌, ◌==◌, ◌∷◌, ◌≡◌,
}
use almanaut.Base.Assoc.{insert, lookup}
use almanaut.Base.Text.{Text, text_lt, text_of}
use almanaut.Base.Sort.{IsSortedBy}
use almanaut.Inventory.{Certificate, Host, Relationship, Service}
use almanaut.Checks.{expiring_on_or_before, hosts_without_backup, mark_linked}
use almanaut.Checks.Expiry.{Due, expiring_on_or_before_lem}

abbrev host : ℕ → Host
host id = record {
  id = id;
  name = text_of "h";
  type = "vm";
  os = [];
  cpu = [];
  ram = [];
  disk = [];
  status = text_of "up";
  ips = [];
  notes = [];
  check_address = [];
  rack_id = 0;
  rack_position = 0;
  u_height = 1;
}

abbrev service : ℕ → Service
service id = record { id = id; name = text_of "s"; url = []; check_address = [] }

-- Host 1 is the target of a backup, service 3 runs on host 2.
abbrev links : List Relationship
links =
    record {
      id = 1;
      from_type = "backup";
      from_id = 9;
      to_type = "host";
      to_id = 1;
      kind = "protects";
    }
    ∷ record {
      id = 2;
      from_type = "service";
      from_id = 3;
      to_type = "host";
      to_id = 2;
      kind = "runs_on";
    }
    ∷ []

abbrev hosts : List Host
hosts = host 1 ∷ host 2 ∷ []

abbrev services : List Service
services = service 3 ∷ service 4 ∷ []

finds : hosts_without_backup hosts links ≡ host 2 ∷ []
unfolding hosts_without_backup mark_linked lookup insert
finds = refl

-- A date is its first character, in days.
abbrev first_char : Text → Option ℕ
first_char [] = none
first_char (c ∷ s) = some c

abbrev cert : ℕ → Text → Certificate
cert id day = record { id = id; subject = text_of "c"; expires_on = day }

abbrev certs : List Certificate
certs = cert 1 (40 ∷ []) ∷ cert 2 [] ∷ cert 3 (12 ∷ []) ∷ cert 4 (11 ∷ []) ∷ []

abbrev expiring : List Certificate
expiring = expiring_on_or_before first_char (λ t d. t + d) certs 10 5 (λ c. c.expires_on)

expiring_on_or_before_lem_example :
    IsSortedBy (λ a b. text_lt a.expires_on b.expires_on) expiring
    × All (λ it. Due first_char (λ t d. t + d) 15 it.expires_on) expiring
    × (any (λ c. c.id == 2) expiring ≡ false
        → All (λ it. Due first_char (λ t d. t + d) 15 it.expires_on → (it.id == 2) ≡ false) certs)
expiring_on_or_before_lem_example =
    expiring_on_or_before_lem first_char (λ t d. t + d) certs 10 5 (λ c. c.expires_on)
      (λ c. c.id == 2)
