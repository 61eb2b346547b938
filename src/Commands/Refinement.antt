-- ===== src/Commands/Refinement.antt =====
-- The calls that src/mcsapi_bulk.cpp makes, as src/util_commands.cpp carries them out over a
-- connection: they do what the abstract server says.
use mariadb_columnstore_api.Prelude.{List, true, false, All, if◌then◌else◌}
use mariadb_columnstore_api.Messaging.Decode.{FitsType}
use mariadb_columnstore_api.Network.{Network}
use mariadb_columnstore_api.Bulk.Calls.{Call, Server}
use mariadb_columnstore_api.Commands.Reader.{Result}
use mariadb_columnstore_api.Commands.Finishes.{Finishes, Gives-Finishes}
use mariadb_columnstore_api.Commands.Answers.{
  Context, Wire, reader_of, granted_items, denied_items, value_of, failure_of, reply_items,
  result_of, IsAnswered,
}
use mariadb_columnstore_api.Commands.Granted.{granted-Gives}
use mariadb_columnstore_api.Commands.Denied.{denied-Finishes}

-- The reply to a call is read as the answer of the server.
pub reply-Finishes :
    (x : Context) (w : Wire) (srv : Server) (log : List Call) (c : Call)
    → IsAnswered (srv.number log c) c
    → All FitsType (reply_items w srv log c)
    → Finishes (reader_of x c) (reply_items w srv log c) (result_of w srv log c)
unfolding reply_items result_of
reply-Finishes x w srv log c answered fits =
    let n = srv.number log c in
    let lbids = srv.lbids log c in
    let hwms = srv.hwms log c in
    let good = granted_items w n lbids hwms c in
    let bad = denied_items w c in
    let value = Result.ok (value_of n lbids hwms c) in
    let reason = Result.failed (failure_of w c) in
    elim (srv.accepts log c)
        as (λ b.
          All FitsType (if b then good else bad)
          → Finishes (reader_of x c) (if b then good else bad) (if b then value else reason)) [
            | true ↦ λ fits.
                Gives-Finishes (reader_of x c) good value
                  (granted-Gives x w n lbids hwms c answered fits)
            | false ↦ denied-Finishes x w n c answered
          ]
      fits
