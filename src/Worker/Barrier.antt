-- ===== src/Worker/Barrier.antt =====
-- The acknowledgement of a STOP, behind the barrier.
use rfid.Prelude.{
  ◌≡◌, refl, inl, inr, Bool, true, false, String, List, All, ◌==◌, string_eq, arith, Bool-cases,
}
use rfid.Prelude.Text.{strip}
use rfid.Result.{Result, ok, err, Result-cases}
use rfid.Models.{Database}
use rfid.Runtime.{stop, command_eq, OdooRfidCommand}
use rfid.Delivery.{
  AllSent, is_final_event, require_final_session_delivery_complete, require-passes_iff,
}
use rfid.Orchestrator.{
  Failure, Ack, Call, ack, before_success_ack, Entry, World, Environment, ◌>>=◌, and_then, perform,
  hook, ack_of, require_accepted, success_ack_message, send_completed_success_ack, Keeps,
  and_then-Keeps,
}
use rfid.Worker.Hooks.{require_stop_delivery_complete}

-- The final events of the session and the reader have been sent.
abbrev pub Delivered : Ack → Database → Type 0
Delivered a db = AllSent (is_final_event db (strip a.session_key) (strip a.reader_code)) db.events

-- A call that was made on a database: if it tells Odoo that a STOP is done, the events are sent.
abbrev pub Justified : Call → Database → Type 0
Justified (ack a) db = a.command ≡ stop → a.success ≡ true → Delivered a db
Justified _ db = Unit

abbrev pub AllJustified : List Entry → Type 0
AllJustified = All (λ e. Justified e.call e.db)

-- The orchestrator's `before_success_ack` is the worker's `require_stop_delivery_complete`, which
-- reads the database.
pub record IsWired (env : Environment) (device_code : String) : Type 0 where
  pub is_set : env.has_before_success_ack ≡ true
  pub is_barrier :
      (trace : List Entry) (db : Database) (key code : String)
      → env.respond trace db (before_success_ack key code)
        ≡ (require_stop_delivery_complete device_code key code db, db)

module _ (env : Environment) (device_code : String) (wired : IsWired env device_code) where
  pub perform-Keeps :
      (c : Call) → ((db : Database) → Justified c db) → Keeps AllJustified (perform env c)
  unfolding perform
  perform-Keeps c j w p = (j w.db, p)

  -- What the barrier says when it lets a call pass.
  passed :
      (key code : String) (db : Database) {b : Bool}
      → require_stop_delivery_complete device_code key code db ≡ ok b
      → AllSent (is_final_event db (strip key) (strip code)) db.events
  unfolding require_stop_delivery_complete
  passed key code db h = elim (Bool-cases (code == device_code)) [
    | inr e ↦ absurd (ground arith)
    | inl e ↦ elim (Result-cases (require_final_session_delivery_complete key code db)) [
      | inr (x, f) ↦ absurd (ground arith)
      | inl (r, f) ↦ ((require-passes_iff key code db).0 (rw f refl)).2
    ]
  ]

  accepted-Keeps : (b : Bool) → Keeps AllJustified (require_accepted b)
  accepted-Keeps true w p = p
  accepted-Keeps false w p = p

  -- The acknowledgement of success, behind the hook.
  behind_hook :
      (c : OdooRfidCommand) (r : Result Failure (Unit {0}) × World)
      → AllJustified r.1.trace
      → (r.0 ≡ ok tt → Justified (ack_of c true (success_ack_message c.command)) r.1.db)
      → AllJustified
          (and_then
            (λ _. perform env (ack_of c true (success_ack_message c.command)) >>= require_accepted)
            r).1.trace
  unfolding perform and_then
  behind_hook c (err f, w) p j = p
  behind_hook c (ok tt, w) p j =
      and_then-Keeps AllJustified require_accepted
        (perform env (ack_of c true (success_ack_message c.command)) w) accepted-Keeps (j refl, p)

  barrier_hook :
      (c : OdooRfidCommand) (w : World)
      → AllJustified w.trace
      → AllJustified (hook env true (before_success_ack c.session_key c.reader_code) w).1.trace
        × ((hook env true (before_success_ack c.session_key c.reader_code) w).0 ≡ ok tt
            → Justified
                (ack_of c true (success_ack_message c.command))
                (hook env true (before_success_ack c.session_key c.reader_code) w).1.db)
  unfolding hook perform and_then
  barrier_hook c w p =
      rw (wired.is_barrier w.trace w.db c.session_key c.reader_code)
        (elim (Result-cases
          (require_stop_delivery_complete device_code c.session_key c.reader_code w.db)) [
            | inr (x, f) ↦ rw (f) ((tt, p), λ e. cc)
            | inl (b, f) ↦ rw (f) ((tt, p), λ e s t. passed c.session_key c.reader_code w.db f)
          ])

  pub send-Keeps : (c : OdooRfidCommand) → Keeps AllJustified (send_completed_success_ack env c)
  unfolding send_completed_success_ack hook perform
  send-Keeps c w p = elim (Bool-cases (c.command == stop)) [
    | inl h ↦
        rw (h, wired.is_set)
          (let (kept, justified) = barrier_hook c w p in behind_hook c _ kept justified)
    | inr h ↦ rw (h) (behind_hook c (ok tt, w) p (λ e s t. absurd (ground arith)))
  ]
