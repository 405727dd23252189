-- ===== src/Tests/Session.antt =====
-- A session that is opened, opened again and closed.
use rfid.Prelude.{◌≡◌, refl, true, false, none, [], ◌∷◌}
use rfid.Prelude.Text.{strip}
use rfid.Result.{ok, err}
use rfid.Models.{Database, receipt, session_not_active}
use rfid.Models.Orm.{after}
use rfid.Runtime.{OdooRfidCommand, start}
use rfid.Tests.Sample.{dock, sample}
use rfid.Session.{
  operation_by_role, operation_for_reader, SessionSyncResult, reuse, create, new_session,
  reused_session, synchronize_start_command, end_session, close_local_session, IsUnique, Request,
  close_session, serve_all, serve_all-IsUnique, synchronize-again,
}

abbrev command : OdooRfidCommand
command = record {
  session_key = "S2";
  reader_code = "receiving-door-01";
  command = start;
  revision = 7;
  picking = "WH/IN/2";
  operation = none;
}

abbrev at_rest : Database
at_rest = record sample { sessions = [] }

abbrev opened : Database
opened = after (synchronize_start_command command at_rest) at_rest

service : Unit {0}
unfolding synchronize_start_command create reuse operation_for_reader operation_by_role strip
    end_session close_local_session
service = tt

abbrev created : SessionSyncResult
created = record {
  session = new_session command dock receipt at_rest;
  created = true;
  reused = false;
}

opens : synchronize_start_command command at_rest ≡ ok (created, opened)
unfolding service
opens = refl

-- After a session is closed, its START is refused.
refused :
    synchronize_start_command command
      (serve_all (close_session "S2" " receiving-door-01 " ∷ []) opened)
    ≡ err session_not_active
unfolding service
refused = refl

synchronize-again_example :
    synchronize_start_command command opened ≡ ok (reused_session created.session, opened)
synchronize-again_example = synchronize-again command at_rest opens

serve_all-IsUnique_example :
    IsUnique (
      serve_all
        (Request.open_session command ∷ close_session "S2" "receiving-door-01" ∷ [])
        at_rest)
serve_all-IsUnique_example =
    serve_all-IsUnique (Request.open_session command ∷ close_session "S2" "receiving-door-01" ∷ [])
      at_rest (tt, tt)
