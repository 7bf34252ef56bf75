-- ===== src/Inventory.antt =====
-- The entities of internal/domain, with the fields that the modelled rules read. Row ids are
-- natural numbers. The closed words for types and kinds are strings, all other text is code points.
use almanaut.Base.{List, String, bool_eq, list_eq, nat_eq, pair_eq, string_eq, ℕ}
use almanaut.Base.Text.{Text}

pub record Host : Type 0 where
  pub id : ℕ
  pub name : Text
  pub type : String
  pub os : Text
  pub cpu : Text
  pub ram : Text
  pub disk : Text
  pub status : Text
  pub ips : List Text
  pub notes : Text
  pub check_address : Text
  pub rack_id : ℕ
  pub rack_position : ℕ
  pub u_height : ℕ

pub record Service : Type 0 where
  pub id : ℕ
  pub name : Text
  pub url : Text
  pub check_address : Text

pub record Certificate : Type 0 where
  pub id : ℕ
  pub subject : Text
  pub expires_on : Text

pub record Hardware : Type 0 where
  pub id : ℕ
  pub name : Text
  pub warranty_end : Text
  pub rack_id : ℕ
  pub rack_position : ℕ
  pub u_height : ℕ

pub record Subscription : Type 0 where
  pub id : ℕ
  pub name : Text
  pub renewal_date : Text

-- A type and an id.
abbrev pub EntityRef : Type 0
EntityRef = String × ℕ

pub record Relationship : Type 0 where
  pub id : ℕ
  pub from_type : String
  pub from_id : ℕ
  pub to_type : String
  pub to_id : ℕ
  pub kind : String

pub record Network : Type 0 where
  pub id : ℕ
  pub name : Text
  pub cidr : Text
  pub gateway : Text

pub record Reservation : Type 0 where
  pub id : ℕ
  pub network_id : ℕ
  pub start_ip : Text
  pub end_ip : Text
