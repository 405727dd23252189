-- ===== src/Session/Restart.antt =====
-- A START that Odoo sends again finds the session that it opened.
use rfid.Prelude.{
  ◌≡◌, refl, sym, ◌∙◌, subst, inl, inr, true, none, some, ◌==◌, nat_eq, string_eq, arith,
  Bool-cases, Option-cases,
}
use rfid.Result.{ok, Result-cases}
use rfid.Models.{Operation, operation_eq, status_eq, ReaderDevice, RfidSession, Database}
use rfid.Runtime.{OdooRfidCommand, start, command_eq}
use rfid.Session.Service.{
  session_of_key, enabled_reader, SessionSyncResult, reused_session, reuse, create, new_session,
  insert_session, operation_value, operation_for_reader, synchronize_start_command,
}
use text.Mathlib.TextEquality.{eq_iff}

reuse-again :
    (reader : ReaderDevice) (operation : Operation) (s : RfidSession) (db : Database)
    {r : SessionSyncResult} {db' : Database}
    → reuse reader operation s db ≡ ok (r, db')
    → (db ≡ db') × (reuse reader operation s db ≡ ok (reused_session r.session, db))
unfolding reuse
reuse-again reader operation s db h = (ground arith, ground arith)

reuse-new :
    (command : OdooRfidCommand) (reader : ReaderDevice) (operation : Operation) (db db' : Database)
    → reuse reader operation (new_session command reader operation db) db'
      ≡ ok (reused_session (new_session command reader operation db), db')
unfolding reuse
reuse-new command reader operation db db' = ground arith

create-created :
    (command : OdooRfidCommand) (reader : ReaderDevice) (operation : Operation) (db : Database)
    {r : SessionSyncResult} {db' : Database}
    → create command reader operation db ≡ ok (r, db')
    → (r.session ≡ new_session command reader operation db)
      × (db' ≡ insert_session (new_session command reader operation db) db)
unfolding create
create-created command reader operation db h = (ground arith, ground arith)

-- The service, where the reader and the operation of the command are known.
known-some :
    (command : OdooRfidCommand) (db : Database) {reader : ReaderDevice} {operation : Operation}
    {s : RfidSession}
    → (command.command == start) ≡ true
    → enabled_reader command.reader_code db.devices ≡ some reader
    → operation_for_reader reader (operation_value command.operation) ≡ ok operation
    → session_of_key command.session_key db.sessions ≡ some s
    → synchronize_start_command command db ≡ reuse reader operation s db
unfolding synchronize_start_command
known-some command db h e f i = rw (h, e, f, i) refl

known-none :
    (command : OdooRfidCommand) (db : Database) {reader : ReaderDevice} {operation : Operation}
    → (command.command == start) ≡ true
    → enabled_reader command.reader_code db.devices ≡ some reader
    → operation_for_reader reader (operation_value command.operation) ≡ ok operation
    → session_of_key command.session_key db.sessions ≡ none
    → synchronize_start_command command db ≡ create command reader operation db
unfolding synchronize_start_command
known-none command db h e f i = rw (h, e, f, i) refl

-- The key of a session that was just inserted finds it.
found-insert :
    (s : RfidSession) (db : Database)
    → session_of_key s.external_session_key (insert_session s db).sessions ≡ some s
found-insert s db = ground (arith, eq_iff s.external_session_key s.external_session_key)

again :
    (command : OdooRfidCommand) (db : Database) (reader : ReaderDevice) (operation : Operation)
    {r : SessionSyncResult} {db' : Database}
    → (command.command == start) ≡ true
    → enabled_reader command.reader_code db.devices ≡ some reader
    → operation_for_reader reader (operation_value command.operation) ≡ ok operation
    → synchronize_start_command command db ≡ ok (r, db')
    → synchronize_start_command command db' ≡ ok (reused_session r.session, db')
again command db reader operation {r} {db'} h e f g =
    elim (Option-cases (session_of_key command.session_key db.sessions)) [
      | inr (s, i) ↦
          let first = sym (known-some command db h e f i) ∙ g in
          let (same, second) = reuse-again reader operation s db first in
          subst (λ d. synchronize_start_command command d ≡ ok (reused_session r.session, d)) same
            (known-some command db h e f i ∙ second)
      | inl i ↦
          let (a, b) =
            create-created command reader operation db (sym (known-none command db h e f i) ∙ g) in
          let s = new_session command reader operation db in
          rw (a, b)
            (known-some command (insert_session s db) h e f (found-insert s db)
              ∙ reuse-new command reader operation db (insert_session s db))
    ]

-- A START that opened a session or found it, sent again at once, finds the same session active and
-- changes nothing.
pub synchronize-again :
    (command : OdooRfidCommand) (db : Database) {r : SessionSyncResult} {db' : Database}
    → synchronize_start_command command db ≡ ok (r, db')
    → synchronize_start_command command db' ≡ ok (reused_session r.session, db')
unfolding synchronize_start_command
synchronize-again command db {r} {db'} g = elim (Bool-cases (command.command == start)) [
  | inr h ↦ absurd (ground arith)
  | inl h ↦ elim (Option-cases (enabled_reader command.reader_code db.devices)) [
    | inl e ↦ absurd (ground arith)
    | inr (reader, e) ↦
        elim (Result-cases (operation_for_reader reader (operation_value command.operation))) [
          | inr (x, f) ↦ absurd (ground arith)
          | inl (operation, f) ↦ again command db reader operation h e f g
        ]
  ]
]
