-- ===== src/Models/Orm.antt =====
-- Queries and writes of the Django ORM that the services use, over the database as a value.
use rfid.Prelude.{
  ◌≡◌, arith, ℕ, Option, none, some, List, [], ◌∷◌, ◌==◌, find?, nat_eq, if◌then◌else◌,
}
use rfid.Result.{Result, ok, err}
use rfid.Models.Errors.{Exception}
use rfid.Models.Rows.{RfidSession, RawRfidEvent, DeliveryAttempt, Database}

-- `with transaction.atomic()` and `@transaction.atomic`: what returns comes with the new database, and
-- what raises leaves the old one. Tests that stand before the transaction change nothing either.
abbrev pub Transaction : Type 0 → Type 0
Transaction A = Database → Result Exception (A × Database)

-- An option that a query with `get` has found nothing for raises `DoesNotExist`.
abbrev pub found : {A : Type 0} → Exception → Option A → Result Exception A
found e none = err e
found e (some a) = ok a

-- The database after a call, whether it has returned or raised.
abbrev pub after : {A : Type 0} → Result Exception (A × Database) → Database → Database
after (ok (a, db')) db = db'
after (err e) db = db

-- A table's rows have different keys, so `get(event_id=…)` finds the first match.
abbrev pub find_event : ℕ → List RawRfidEvent → Option RawRfidEvent
find_event i = find? (λ e. e.event_id == i)

-- `event.save(update_fields=…)`: the row of the same key is replaced.
abbrev pub save_event : RawRfidEvent → List RawRfidEvent → List RawRfidEvent
save_event e [] = []
save_event e (x ∷ xs) = if x.event_id == e.event_id then e ∷ xs else x ∷ save_event e xs

abbrev pub save_attempt : DeliveryAttempt → List DeliveryAttempt → List DeliveryAttempt
save_attempt a [] = []
save_attempt a (x ∷ xs) = if x.id == a.id then a ∷ xs else x ∷ save_attempt a xs

abbrev pub save_session : RfidSession → List RfidSession → List RfidSession
save_session a [] = []
save_session a (x ∷ xs) = if x.id == a.id then a ∷ xs else x ∷ save_session a xs

abbrev replaced : {A : Type 0} → A → Option A → Option A
replaced a none = none
replaced a (some _) = some a

-- A saved row is found under its key if a row was there, and no other row changes.
pub find_event-save_event :
    (j : ℕ) (e : RawRfidEvent) (events : List RawRfidEvent)
    → find_event j (save_event e events)
      ≡ (if e.event_id == j then replaced e (find_event j events) else find_event j events)
find_event-save_event j e [] = ground arith
find_event-save_event j e (x ∷ xs) = ground (arith, find_event-save_event j e xs)

-- A row that is found under a key has that key.
pub find_event-key :
    (j : ℕ) (events : List RawRfidEvent) {e : RawRfidEvent}
    → find_event j events ≡ some e
    → e.event_id ≡ j
find_event-key j [] h = cc
find_event-key j (x ∷ xs) {e} h = ground (arith, find_event-key j xs {e = e})
