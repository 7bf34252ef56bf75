-- ===== src/Examples/Notify.antt =====
-- Inputs for the theorems on internal/notify/notify.go and internal/notify/multi.go.
use almanaut.Base.{
  Bool, List, [], bool_eq, false, list_eq, nat_eq, pair_eq, refl, string_eq, true, ℕ, ◌==◌, ◌∷◌,
  ◌≡◌,
}
use almanaut.Base.Assoc.{delete, has_key, insert, lookup}
use almanaut.Base.Text.{text_of}
use almanaut.Notify.{Item, Key, Pass, Sent, current_keys, decide, run, to_clear, to_notify}
use almanaut.Notify.Sends.{tries}
use almanaut.Notify.Passes.{SendsOnce, passes, passes-SendsOnce}

abbrev cert : Item
cert = record { kind = "certificate"; id = 4; label = text_of "nas"; date = text_of "2026-05-01" }

abbrev disk : Item
disk = record { kind = "hardware"; id = 4; label = text_of "disk"; date = text_of "2026-05-02" }

-- A channel that takes the certificate's notification and fails on the others.
abbrev flaky : Item → Bool
flaky it = it.kind == "certificate"

abbrev before : Sent
before = (("hardware", 9), 100) ∷ []

abbrev day : ℕ → List (Item → Bool) → List Item → Pass
day now channels expiring = record {
  channels = channels;
  can_clear = λ k. true;
  can_mark = λ it. true;
  now = now;
  expiring = expiring;
}

-- On the first day one of the two channels fails, on the second the mark of the certificate does,
-- and on the third and fourth nothing does.
abbrev four_days : List Pass
four_days =
    day 1 ((λ it. true) ∷ (λ it. false) ∷ []) (cert ∷ disk ∷ [])
    ∷ record (day 2 ((λ it. true) ∷ flaky ∷ []) (disk ∷ cert ∷ [])) {
      can_mark = λ it. it.kind == "hardware";
    }
    ∷ day 3 ((λ it. true) ∷ flaky ∷ []) (disk ∷ cert ∷ [])
    ∷ day 4 ((λ it. true) ∷ (λ it. true) ∷ []) (disk ∷ cert ∷ [])
    ∷ []

abbrev the_cert : Key
the_cert = ("certificate", 4)

passes-SendsOnce_example : SendsOnce the_cert four_days before (passes four_days before)
passes-SendsOnce_example =
    passes-SendsOnce the_cert four_days before (refl, (refl, (refl, (refl, tt))))

-- The run: the first two days leave the certificate unmarked, although a channel took it both times,
-- the third marks it, and the fourth does not send it again.
tries_of_cert : tries the_cert (passes four_days before).1 ≡ false ∷ false ∷ true ∷ []
unfolding run decide to_notify current_keys has_key insert lookup to_clear delete
tries_of_cert = refl

-- The disk is tried each day, and the last is the first that every channel takes.
tries_of_disk :
    tries ("hardware", 4) (passes four_days before).1 ≡ false ∷ false ∷ false ∷ true ∷ []
unfolding run decide to_notify current_keys has_key insert lookup to_clear delete
tries_of_disk = refl
