-- ===== src/Webhooks/Registry.antt =====
-- The endpoints as the pages show them, and the table of internal/store/webhook_repo.go under the
-- requests of internal/web/webhooks_admin.go as an implementation of it.
use mathlib.Core.Path.{subst}
use almanaut.Base.{
  List, Option, Option-cases, [], ap, bool_eq, if◌then◌else◌, inl, inr, list_eq, nat_eq, none,
  pair_eq, refl, some, string_eq, sym, ℕ, ◌+◌, ◌==◌, ◌∙◌, ◌∷◌, ◌≡◌,
}
use almanaut.Base.Text.{Text}
use almanaut.Base.Result.{Result, Result-cases, err, ok, ◌>>=◌}
use almanaut.Webhooks.{Webhook, WebhookRepo, create, delete_row, get, update}
use almanaut.Webhooks.Admin.{
  Form, Request, WebhookFault, create_webhook, creation, delete_webhook, deletion, edit, edited,
  missing, no_secret, or_fault, parse_webhook_form, registered, serve, serve_all, settle, toggle,
  toggle_webhook, toggled, update_webhook,
}
use almanaut.Webhooks.ReadBack.{
  HasCleanFilters, checked-clean, get-create, get-delete_row, get-update, get_lem,
}

-- The endpoints by id. A deleted id is never given out again.
pub record Registry : Type 0 where
  pub hooks : ℕ → Option Webhook
  pub next : ℕ

abbrev pub put : ℕ → Option Webhook → Registry → Registry
put id w g = record g { hooks = λ k. if k == id then w else g.hooks k }

abbrev pub on_hook :
    Registry
    → Option Webhook
    → (Webhook → Result WebhookFault Registry)
    → Result WebhookFault Registry
on_hook g none next = err missing
on_hook g (some w) next = next w

abbrev pub add_hook : Text → Text → Form → Registry → Registry
add_hook secret now form g =
    record (put g.next (some (record (registered secret now form) { id = g.next })) g) {
      next = g.next + 1;
    }

-- What a request does to the endpoints.
unfoldable pub obey : Request → Registry → Result WebhookFault Registry
obey (creation drawn now form) g = do
  checked ← parse_webhook_form form
  secret ← or_fault no_secret drawn
  ok (add_hook secret now checked g)
obey (edit id form) g =
    on_hook g (g.hooks id)
      λ w. do checked ← parse_webhook_form form; ok (put id (some (edited checked w)) g)
obey (toggle id) g = on_hook g (g.hooks id) λ w. ok (put id (some (toggled w)) g)
obey (deletion id) g = ok (put id none g)

unfoldable pub obey_all : List Request → Registry → Registry × List (Option WebhookFault)
obey_all [] g = (g, [])
obey_all (request ∷ requests) g =
    let here = settle g (obey request g) in
    let later = obey_all requests here.0 in (later.0, here.1 ∷ later.1)

-- The table holds these endpoints.
pub record Shows (r : WebhookRepo) (g : Registry) : Type 0 where
  pub same_hooks : (id : ℕ) → get r id ≡ g.hooks id
  pub same_next : r.next_id ≡ g.next

-- Both refuse for one reason, or both go on, to a table that holds the endpoints.
abbrev pub Agree : Result WebhookFault WebhookRepo → Result WebhookFault Registry → Type 0
Agree (err fault) (err cause) = fault ≡ cause
Agree (ok r) (ok g) = Shows r g
Agree (err fault) (ok g) = ⊥
Agree (ok r) (err cause) = ⊥

Shows-put :
    (r after : WebhookRepo) (g : Registry) (id : ℕ) (w : Option Webhook)
    → Shows r g
    → after.next_id ≡ r.next_id
    → ((k : ℕ) → get after k ≡ (if k == id then w else get r k))
    → Shows after (put id w g)
Shows-put r after g id w h next read = record {
  same_hooks = λ k. read k ∙ rw (h.same_hooks k) refl;
  same_next = next ∙ h.same_next;
}

-- Writing back an endpoint that was read succeeds, and the table then holds it.
written-Agree :
    (r : WebhookRepo) (g : Registry) (id : ℕ) (w new : Webhook)
    → Shows r g
    → new.id ≡ id
    → get r id ≡ some w
    → new.created_at ≡ w.created_at
    → HasCleanFilters new.entity_types new.events
    → Agree (or_fault missing (update new r)) (ok (put id (some new) g))
written-Agree r g id w new h here found kept clean =
    subst
      (λ k. get r k ≡ some w → Agree (or_fault missing (update new r)) (ok (put k (some new) g)))
      here
      (λ read.
        let (after, done, next, shown) = get-update w new r read kept clean in
        rw done (Shows-put r after g new.id (some new) h next shown))
      found

toggle-Agree :
    (id : ℕ) (r : WebhookRepo) (g : Registry)
    → Shows r g
    → Agree (toggle_webhook id r) (obey (toggle id) g)
unfolding toggle_webhook obey
toggle-Agree id r g h = elim (Option-cases (get r id)) [
  | inl gone ↦ rw (sym (h.same_hooks id), gone) refl
  | inr (w, found) ↦
      let (here, clean) = get_lem r id w found in
      rw (sym (h.same_hooks id), found) (written-Agree r g id w (toggled w) h here found refl clean)
]

edit-Agree :
    (id : ℕ) (form : Form) (r : WebhookRepo) (g : Registry)
    → Shows r g
    → Agree (update_webhook id form r) (obey (edit id form) g)
unfolding update_webhook obey
edit-Agree id form r g h = elim (Option-cases (get r id)) [
  | inl gone ↦ rw (sym (h.same_hooks id), gone) refl
  | inr (w, found) ↦ elim (Result-cases (parse_webhook_form form)) [
    | inl (fault, refused) ↦ rw (sym (h.same_hooks id), found, refused) refl
    | inr (checked, parsed) ↦
        rw (sym (h.same_hooks id), found, parsed)
          (written-Agree r g id w (edited checked w) h (get_lem r id w found).0 found refl
            (checked-clean form checked parsed))
  ]
]

-- A new endpoint, once the form is checked.
added-Agree :
    (drawn : Option Text) (now : Text) (checked : Form) (r : WebhookRepo) (g : Registry)
    → Shows r g
    → HasCleanFilters checked.entity_types checked.events
    → Agree
        (or_fault no_secret drawn >>= (λ secret. ok (create (registered secret now checked) r).0))
        (or_fault no_secret drawn >>= (λ secret. ok (add_hook secret now checked g)))
unfolding create
added-Agree none now checked r g h clean = refl
added-Agree (some secret) now checked r g h clean = record {
  same_hooks = λ k.
      get-create (registered secret now checked) r k clean ∙ rw (h.same_hooks k, h.same_next) refl;
  same_next = ap (λ (n : ℕ). n + 1) h.same_next;
}

creation-Agree :
    (drawn : Option Text) (now : Text) (form : Form) (r : WebhookRepo) (g : Registry)
    → Shows r g
    → Agree (create_webhook drawn now form r) (obey (creation drawn now form) g)
unfolding create_webhook obey
creation-Agree drawn now form r g h = elim (Result-cases (parse_webhook_form form)) [
  | inl (fault, refused) ↦ rw refused refl
  | inr (checked, parsed) ↦
      rw parsed (added-Agree drawn now checked r g h (checked-clean form checked parsed))
]

deletion-Agree :
    (id : ℕ) (r : WebhookRepo) (g : Registry)
    → Shows r g
    → Agree (delete_webhook id r) (obey (deletion id) g)
unfolding delete_webhook obey delete_row
deletion-Agree id r g h = Shows-put r (delete_row id r) g id none h refl (get-delete_row r id)

serve-Agree :
    (request : Request) (r : WebhookRepo) (g : Registry)
    → Shows r g
    → Agree (serve request r) (obey request g)
unfolding serve
serve-Agree (creation drawn now form) r g h = creation-Agree drawn now form r g h
serve-Agree (edit id form) r g h = edit-Agree id form r g h
serve-Agree (toggle id) r g h = toggle-Agree id r g h
serve-Agree (deletion id) r g h = deletion-Agree id r g h

settle-Agree :
    (r : WebhookRepo) (g : Registry) (call : Result WebhookFault WebhookRepo)
    (spec : Result WebhookFault Registry)
    → Shows r g
    → Agree call spec
    → Shows (settle r call).0 (settle g spec).0 × ((settle r call).1 ≡ (settle g spec).1)
settle-Agree r g (err fault) (err cause) h same = (h, ap some same)
settle-Agree r g (ok after) (ok shown) h same = (same, refl)
settle-Agree r g (err fault) (ok shown) h same = absurd same
settle-Agree r g (ok after) (err cause) h same = absurd same

-- Whatever requests the pages send, each is answered as the registry answers it, with the same
-- reason where it is refused, and the table then holds the registry's endpoints.
pub serve_all-Shows :
    (requests : List Request) (r : WebhookRepo) (g : Registry)
    → Shows r g
    → Shows (serve_all requests r).0 (obey_all requests g).0
      × ((serve_all requests r).1 ≡ (obey_all requests g).1)
unfolding serve_all obey_all
serve_all-Shows [] r g h = (h, refl)
serve_all-Shows (request ∷ requests) r g h =
    let (here, answer) =
      settle-Agree r g (serve request r) (obey request g) h (serve-Agree request r g h) in
    let (later, answers) =
      serve_all-Shows requests (settle r (serve request r)).0 (settle g (obey request g)).0 here in
    (later, rw (answer, answers) refl)
