-- ===== src/Notify.antt =====
-- internal/notify/notify.go, internal/notify/multi.go and internal/store/notification_repo.go: expiry
-- notifications, sent until every channel has taken them and then no more, until the item is renewed
-- or deleted. What a channel answers in a pass is a function of the item. `Clear` and `Mark` of the
-- table may fail; a pass whose reads fail does nothing and is left out.
pub mod Sends
pub mod Passes
use almanaut.Base.{
  Bool, List, Option, String, [], all, bool_eq, false, if◌then◌else◌, list_eq, map, nat_eq, not,
  pair_eq, select, string_eq, true, ℕ, ◌++◌, ◌∷◌,
}
use almanaut.Base.Assoc.{Assoc, delete, has_key, insert}
use almanaut.Base.Text.{Text}
use almanaut.Inventory.{Certificate, Hardware, Subscription}
use almanaut.Checks.{expiring_soon, holds, renewals_due, warranty_expiring}

pub record Item : Type 0 where
  pub kind : String
  pub id : ℕ
  pub label : Text
  pub date : Text

abbrev pub Key : Type 0
Key = String × ℕ

abbrev pub key : Item → Key
key it = (it.kind, it.id)

-- The table `notification_state`: when each entity was notified.
abbrev pub Sent : Type 0
Sent = Assoc Key ℕ

-- The first loop of `decide`: the keys that are expiring, and the items not yet sent.
unfoldable pub current_keys : List Item → Assoc Key Bool → Assoc Key Bool
current_keys [] current = current
current_keys (it ∷ items) current = current_keys items (insert (key it) true current)

unfoldable pub to_notify : Sent → List Item → List Item
to_notify sent items = select (λ it. not (has_key (key it) sent)) items

-- The second loop: the keys that were sent and no longer expire.
unfoldable pub to_clear : Assoc Key Bool → Sent → List Key
to_clear current [] = []
to_clear current ((k, at) ∷ sent) =
    if holds current k then to_clear current sent else k ∷ to_clear current sent

unfoldable pub decide : List Item → Sent → List Item × List Key
decide expiring sent =
    let current = current_keys expiring [] in (to_notify sent expiring, to_clear current sent)

-- `multiSender.Send` of internal/notify/multi.go: every channel is tried, and this is what each of
-- them answers.
unfoldable pub send : List (Item → Bool) → Item → List Bool
send [] it = []
send (channel ∷ channels) it = channel it ∷ send channels it

-- No channel has failed, so the joined error is nil.
abbrev pub is_sent : List Bool → Bool
is_sent replies = all (λ reply. reply) replies

-- What a pass meets: the answers of the channels, whether the database takes a `Clear` or a `Mark`,
-- the time, and what `gather` returns.
pub record Pass : Type 0 where
  pub channels : List (Item → Bool)
  pub can_clear : Key → Bool
  pub can_mark : Item → Bool
  pub now : ℕ
  pub expiring : List Item

-- A notification that was sent, with what the channels answered and whether its item was marked.
pub record Attempt : Type 0 where
  pub item : Item
  pub replies : List Bool
  pub marked : Bool

-- The third loop of `Run` ends at the first key that cannot be cleared: whether all were, and the
-- table.
unfoldable pub clear_all : (Key → Bool) → List Key → Sent → Bool × Sent
clear_all can_clear [] sent = (true, sent)
clear_all can_clear (k ∷ ks) sent =
    let rest = clear_all can_clear ks (delete k sent) in if can_clear k then rest else (false, sent)

-- The last loop: a failed send leaves its item unmarked and goes on, a failed `Mark` ends the pass.
unfoldable pub send_all : Pass → List Item → Sent → Sent × List Attempt
unfolding send
send_all p [] sent = (sent, [])
send_all p (it ∷ items) sent =
    let replies = send p.channels it in
    let skipped = send_all p items sent in
    let marked = send_all p items (insert (key it) p.now sent) in
    if is_sent replies
    then if p.can_mark it
      then (marked.0, record { item = it; replies = replies; marked = true } ∷ marked.1)
      else (sent, record { item = it; replies = replies; marked = false } ∷ [])
    else (skipped.0, record { item = it; replies = replies; marked = false } ∷ skipped.1)

-- `Run`, after `gather`: the table and the notifications that were sent.
unfoldable pub run : Pass → Sent → Sent × List Attempt
unfolding clear_all send_all
run p sent =
    let (notify, clear) = decide p.expiring sent in
    let (cleared, after) = clear_all p.can_clear clear sent in
    if cleared then send_all p notify after else (after, [])

module _ (parse_date : Text → Option ℕ) (add_days : ℕ → ℕ → ℕ) where
  unfoldable pub gather : List Certificate → List Hardware → List Subscription → ℕ → ℕ → List Item
  gather certs hw subs now within_days =
      map (λ c. record { kind = "certificate"; id = c.id; label = c.subject; date = c.expires_on })
        (expiring_soon parse_date add_days certs now within_days)
      ++ map (λ h. record { kind = "hardware"; id = h.id; label = h.name; date = h.warranty_end })
          (warranty_expiring parse_date add_days hw now within_days)
      ++ map
          (λ s. record { kind = "subscription"; id = s.id; label = s.name; date = s.renewal_date })
          (renewals_due parse_date add_days subs now within_days)
