-- ===== src/Kuma.antt =====
-- internal/kuma/reconcile.go, syncer.go and kuma.go, and internal/store/kuma_repo.go: monitors in Uptime
-- Kuma that follow the services. Kuma is not part of the program: a pass lists the calls it makes,
-- each with the answer it gets, and what happens at each action is a parameter.
pub mod Plan
pub mod Confined
pub mod Rows
use almanaut.Base.{
  Bool, List, Option, [], bool_eq, false, if◌then◌else◌, length, list_eq, ltb, nat_eq, none, not,
  pair_eq, select, some, string_eq, true, ℕ, ◌&&◌, ◌++◌, ◌+◌, ◌==◌, ◌||◌, ◌∷◌,
}
use almanaut.Base.Assoc.{Assoc, delete, has_key, insert, lookup, retain}
use almanaut.Base.Sort.{sort_by}
use almanaut.Base.Text.{Text, text_of}
use almanaut.Inventory.{Service}

-- `raw` is the object as Kuma sent it, which the program passes back unread.
pub record Monitor : Type 0 where
  pub id : ℕ
  pub name : Text
  pub url : Text
  pub raw : Text

-- A new monitor has no id and no object yet.
abbrev pub new_monitor : Text → Text → Monitor
new_monitor name url = record { id = 0; name = name; url = url; raw = [] }

-- With the service's id: create, edit, delete, and drop the row alone.
pub data Action : Type 0 where
  create edit : ℕ → Monitor → Action
  remove : ℕ → ℕ → Action
  forget : ℕ → Action

-- The table `kuma_monitors`, from service to monitor.
abbrev pub Mapping : Type 0
Mapping = Assoc ℕ ℕ

is_http : Option (Text × Text) → Bool
is_http none = false
is_http (some (scheme, host)) =
    (scheme == text_of "http" || scheme == text_of "https") && not (host == [])

-- One managed row. Where the monitor is there and wanted, an edit keeps its id and its object.
abbrev pub edit_drifted : ℕ → ℕ → Monitor → Monitor → Option Action
edit_drifted service mid cur want =
    if not (cur.name == want.name) || not (cur.url == want.url)
    then some (edit service (record want { id = mid; raw = cur.raw }))
    else none

abbrev pub row_action : ℕ → ℕ → Option Monitor → Option Monitor → Option Action
row_action service mid (some cur) (some want) = edit_drifted service mid cur want
row_action service mid none (some want) = some (create service want)
row_action service mid (some cur) none = some (remove service mid)
row_action service mid none none = some (forget service)

abbrev pub prepend_action : Option Action → List Action → List Action
prepend_action none actions = actions
prepend_action (some a) actions = a ∷ actions

-- A row deletes no service but its own from what is desired, so each row reads all of it.
unfoldable pub managed : Assoc ℕ Monitor → Assoc ℕ Monitor → Mapping → List Action
managed desired existing [] = []
managed desired existing ((service, mid) ∷ rows) =
    prepend_action (row_action service mid (lookup mid existing) (lookup service desired))
      (managed desired existing rows)

unfoldable pub creations : Assoc ℕ Monitor → List Action
creations [] = []
creations ((service, want) ∷ rest) = create service want ∷ creations rest

abbrev pub by_id {ℓ} : {A : Type ℓ} → ℕ × A → ℕ × A → Bool
by_id a b = ltb a.0 b.0

-- `url.Parse`, as far as it is read: the scheme and the host.
module _ (parse_url : Text → Option (Text × Text)) where
  -- `monitorURL`; the URL itself is the service's.
  unfoldable pub is_monitorable : Service → Bool
  unfolding is_http
  is_monitorable s = is_http (parse_url s.url)

  -- The first loop of `plan`.
  unfoldable pub desire : List Service → Assoc ℕ Monitor → Assoc ℕ Monitor
  desire [] desired = desired
  desire (s ∷ services) desired =
      desire services
        (if is_monitorable s then insert s.id (new_monitor s.name s.url) desired else desired)

  unfoldable pub plan : List Service → Mapping → Assoc ℕ Monitor → List Action × ℕ
  unfolding managed creations
  plan services mapping existing =
      let desired = desire services [] in
      let rest = retain (λ service want. not (has_key service mapping)) desired in
      (
        managed desired existing (sort_by by_id mapping) ++ creations (sort_by by_id rest),
        length (select (λ s. not (is_monitorable s)) services),
      )

-- A call to Kuma and its answer: the new monitor's id, or whether it succeeded.
pub data Call : Type 0 where
  add_call : Monitor → Option ℕ → Call
  edit_call : Monitor → Bool → Call
  delete_call : ℕ → Bool → Call

-- What happens at one action.
pub record Fate : Type 0 where
  -- The context has ended.
  pub ended : Bool
  -- The answer to adding a monitor, and to editing or deleting one.
  pub added : Option ℕ
  pub succeeds : Bool
  -- The mapping's row can be written.
  pub writes : Bool
  -- The deletion of a monitor whose row was not written succeeds.
  pub cleans_up : Bool

pub record Summary : Type 0 where
  pub created : ℕ
  pub updated : ℕ
  pub deleted : ℕ
  pub skipped : ℕ
  pub failed : Bool

pub record PassState : Type 0 where
  pub mapping : Mapping
  pub summary : Summary

-- An error ends the pass.
abbrev pub fail : PassState → PassState
fail st = record st { summary = record (st.summary) { failed = true } }

put_row : PassState → Fate → ℕ → Monitor → Option ℕ → PassState × List Call
put_row st f service m none = (fail st, add_call m none ∷ [])
put_row st f service m (some id) =
    if f.writes
    then (
      record {
        mapping = insert service id st.mapping;
        summary = record (st.summary) { created = st.summary.created + 1 };
      },
      add_call m (some id) ∷ [],
    )
    else (fail st, add_call m (some id) ∷ delete_call id f.cleans_up ∷ [])

unfoldable pub perform : PassState → Fate → Action → PassState × List Call
unfolding put_row
perform st f (create service m) = put_row st f service m f.added
perform st f (edit service m) = (
  if f.succeeds
      then record st { summary = record (st.summary) { updated = st.summary.updated + 1 } }
      else fail st,
  edit_call m f.succeeds ∷ [],
)
perform st f (remove service mid) = (
  if f.succeeds && f.writes
      then record {
        mapping = delete service st.mapping;
        summary = record (st.summary) { deleted = st.summary.deleted + 1 };
      }
      else fail st,
  delete_call mid f.succeeds ∷ [],
)
perform st f (forget service) =
    (if f.writes then record st { mapping = delete service st.mapping } else fail st, [])

-- The loop over the actions; `fates n` is what happens at the action with that number.
unfoldable pub perform_all : (ℕ → Fate) → ℕ → PassState → List Action → PassState × List Call
perform_all fates n st [] = (st, [])
perform_all fates n st (a ∷ actions) =
    let (st', calls) = perform st (fates n) a in
    let (end, later) = perform_all fates (n + 1) st' actions in
    if (fates n).ended
    then (fail st, [])
    else if st'.summary.failed
    then (st', calls)
    else (end, calls ++ later)

-- `reconcile`, once the services, the mapping and Kuma's monitors are read.
unfoldable pub reconcile :
    (Text → Option (Text × Text))
    → (ℕ → Fate)
    → List Service
    → Mapping
    → Assoc ℕ Monitor
    → PassState × List Call
reconcile parse_url fates services mapping existing =
    let (actions, skipped) = plan parse_url services mapping existing in
    perform_all fates 0
      (record {
        mapping = mapping;
        summary = record {
          created = 0;
          updated = 0;
          deleted = 0;
          skipped = skipped;
          failed = false;
        };
      })
      actions
