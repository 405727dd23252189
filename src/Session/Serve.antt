-- ===== src/Session/Serve.antt =====
-- Whatever commands arrive, the sessions keep the constraints of their table.
use rfid.Prelude.{
  ◌<◌, ◌≡◌, ◌≢◌, inl, inr, ◌||◌, none, some, String, List, [], ◌∷◌, ◌==◌, nat_eq, string_eq, arith,
  Bool-cases, Option-cases,
}
use rfid.Prelude.Text.{strip}
use rfid.Result.{Result-cases}
use rfid.Models.{
  Operation, Status, active, closed, cancelled, status_eq, ReaderDevice, RfidSession, Database,
  Exception, cannot_close, cannot_cancel,
}
use rfid.Models.Orm.{after}
use rfid.Runtime.{OdooRfidCommand, start, command_eq}
use rfid.Session.Service.{
  session_of_key, active_session, enabled_reader, reuse, create, new_session, operation_value,
  operation_for_reader, synchronize_start_command, end_session, ended, save_ended, device_of,
  close_local_session, cancel_local_session, status_of,
}
use rfid.Session.Unique.{
  IsUnique, All-map, All-save, All-find, new-Differs, found-agrees, save-AllDiffer,
}

create-IsUnique :
    (command : OdooRfidCommand) (reader : ReaderDevice) (operation : Operation) (db : Database)
    → session_of_key command.session_key db.sessions ≡ none
    → IsUnique db
    → IsUnique (after (create command reader operation db) db)
unfolding create
create-IsUnique command reader operation db h u =
    elim (Option-cases (active_session reader.id db.sessions)) [
      | inr (s, e) ↦ rw (e, create) u
      | inl e ↦
          rw (e, create)
            (
              (omega arith, All-map (λ s i. omega arith) db.sessions u.0),
              (new-Differs (new_session command reader operation db) db.sessions u.0 h e, u.1),
            )
    ]

reuse-IsUnique :
    (reader : ReaderDevice) (operation : Operation) (existing : RfidSession) (db : Database)
    → after (reuse reader operation existing db) db ≡ db
unfolding reuse
reuse-IsUnique reader operation existing db = ground arith

synchronize-IsUnique :
    (command : OdooRfidCommand) (db : Database)
    → IsUnique db
    → IsUnique (after (synchronize_start_command command db) db)
unfolding synchronize_start_command
synchronize-IsUnique command db u = elim (Bool-cases (command.command == start)) [
  | inr h ↦ rw (h) u
  | inl h ↦ elim (Option-cases (enabled_reader command.reader_code db.devices)) [
    | inl e ↦ rw (h, e) u
    | inr (reader, e) ↦
        elim (Result-cases (operation_for_reader reader (operation_value command.operation))) [
          | inr (x, f) ↦ rw (h, e, f) u
          | inl (operation, f) ↦
              elim (Option-cases (session_of_key command.session_key db.sessions)) [
                | inl g ↦ rw (h, e, f, g) (create-IsUnique command reader operation db g u)
                | inr (s, g) ↦ rw (h, e, f, g, reuse-IsUnique reader operation s db) u
              ]
        ]
  ]
]

save_ended-IsUnique :
    (status : Status) (key : String) (s : RfidSession) (db : Database)
    → status ≢ active
    → session_of_key key db.sessions ≡ some s
    → IsUnique db
    → IsUnique (save_ended s status db).1
save_ended-IsUnique status key s db n h u = (
  All-save (λ t. t.id < db.next_id) (ended s status db) db.sessions u.0
      (All-find (λ t. t.id < db.next_id) (λ t. t.external_session_key == key) db.sessions u.0 h),
  save-AllDiffer (ended s status db) db.sessions u.1 n (found-agrees key db.sessions u.1 h),
)

end_session-IsUnique :
    (status : Status) (x : Exception) (key code : String) (db : Database)
    → status ≢ active
    → IsUnique db
    → IsUnique (after (end_session status x key code db) db)
unfolding end_session
end_session-IsUnique status x key code db n u =
    elim (Option-cases (session_of_key key db.sessions)) [
      | inl e ↦ rw (e) u
      | inr (s, e) ↦ elim (Result-cases (device_of s db)) [
        | inr (y, f) ↦ rw (e, f) u
        | inl (d, f) ↦ elim (Bool-cases (d.code == code)) [
          | inr g ↦ rw (e, f, g) u
          | inl g ↦ elim (Bool-cases (s.status == status)) [
            | inl i ↦ rw (e, f, g, i) u
            | inr i ↦ elim (Bool-cases (s.status == active)) [
              | inr j ↦ rw (e, f, g, i, j) u
              | inl j ↦ rw (e, f, g, i, j) (save_ended-IsUnique status key s db n e u)
            ]
          ]
        ]
      ]
    ]

close-IsUnique :
    (key code : String) (db : Database)
    → IsUnique db
    → IsUnique (after (close_local_session key code db) db)
unfolding close_local_session
close-IsUnique key code db u = elim (Bool-cases (strip key == "" || strip code == "")) [
  | inl h ↦ rw (h) u
  | inr h ↦ rw (h) (
      end_session-IsUnique closed (cannot_close (status_of (strip key) db)) (strip key) (strip code)
        db (λ e. cc) u)
]

cancel-IsUnique :
    (key code : String) (db : Database)
    → IsUnique db
    → IsUnique (after (cancel_local_session key code db) db)
unfolding cancel_local_session
cancel-IsUnique key code db u =
    end_session-IsUnique cancelled (cannot_cancel (status_of (strip key) db)) (strip key)
      (strip code) db (λ e. cc) u

-- The calls of the service.
pub data Request : Type 0 where
  open_session : OdooRfidCommand → Request
  close_session cancel_session : String → String → Request

abbrev pub serve : Request → Database → Database
serve (open_session command) db = after (synchronize_start_command command db) db
serve (close_session key code) db = after (close_local_session key code db) db
serve (cancel_session key code) db = after (cancel_local_session key code db) db

abbrev pub serve_all : List Request → Database → Database
serve_all [] db = db
serve_all (r ∷ requests) db = serve_all requests (serve r db)

-- If the sessions have different identifiers, all given out before, and different keys, and no reader
-- has two active ones, this stays so whatever calls to open, close and cancel sessions arrive, whether
-- they succeed or raise.
pub serve_all-IsUnique :
    (requests : List Request) (db : Database) → IsUnique db → IsUnique (serve_all requests db)
serve_all-IsUnique [] db u = u
serve_all-IsUnique (open_session command ∷ requests) db u =
    serve_all-IsUnique requests (serve (open_session command) db)
      (synchronize-IsUnique command db u)
serve_all-IsUnique (close_session key code ∷ requests) db u =
    serve_all-IsUnique requests (serve (close_session key code) db) (close-IsUnique key code db u)
serve_all-IsUnique (cancel_session key code ∷ requests) db u =
    serve_all-IsUnique requests (serve (cancel_session key code) db) (cancel-IsUnique key code db u)
