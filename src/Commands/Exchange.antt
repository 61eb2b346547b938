-- ===== src/Commands/Exchange.antt =====
-- A command from its start to its end, as each function of src/util_commands.cpp goes: wait for the
-- connection, send the message, wait, start to read, wait, and read the reply.
use mariadb_columnstore_api.Prelude.{List, Option, none, some}
use mariadb_columnstore_api.Std.Compression.{Snappy}
use mariadb_columnstore_api.Messaging.{empty}
use mariadb_columnstore_api.Messaging.Encode.{put_all}
use mariadb_columnstore_api.Network.{Network, Raised, Sent, UvStatus, send_data, read_data_start}
use mariadb_columnstore_api.Commands.Reader.{Result, Failure, Command}
use mariadb_columnstore_api.Commands.Loops.{Turn, run_solo_loop}

-- What libuv does in the course of a command: the turns of each wait, and what `uv_write` and
-- `uv_read_start` return.
pub record Line : Type 0 where
  pub connecting : List Turn
  pub written : UvStatus
  pub writing : List Turn
  pub started : UvStatus
  pub reading : List Turn

-- What follows a wait; `none` is a wait that goes on.
unfoldable pub waited :
    {S A : Type 0} → Option (S × Result Unit) → (S → Option (S × Result A)) → Option (S × Result A)
waited none f = none
waited (some (s, Result.failed e)) f = some (s, Result.failed e)
waited (some (s, Result.ok u)) f = f s

-- What follows a call of ColumnStoreNetwork.
unfoldable pub unless_raised :
    {S A : Type 0} → S × Raised → (S → Option (S × Result A)) → Option (S × Result A)
unless_raised (s, Raised.network_error) f = some (s, Result.failed Failure.thrown_below)
unless_raised (s, Raised.returned) f = f s

-- `readDataStart`, the wait for the reply, and the reads of it.
unfoldable pub read_reply : {A : Type 0} → Line → Command A → Network → Option (Network × Result A)
unfolding run_solo_loop waited unless_raised read_data_start
read_reply line c n =
    unless_raised (read_data_start n line.started)
      (λ n'. waited (run_solo_loop line.reading n') (λ n''. some (c.reply n'')))

-- `sendData` of the message of a command.
unfoldable pub request_packet : {A : Type 0} → Snappy → Command A → Network → UvStatus → Sent
unfolding put_all send_data
request_packet snappy c n written = send_data snappy n (put_all empty c.request) written

-- `sendData` and the wait behind it.
unfoldable pub send_request :
    {A : Type 0} → Snappy → Line → Command A → Network → Option (Network × Result A)
unfolding run_solo_loop waited unless_raised request_packet read_reply
send_request snappy line c n =
    unless_raised (request_packet snappy c n line.written).result
      (λ n'. waited (run_solo_loop line.writing n') (read_reply line c))

-- The command on a connection.
unfoldable pub exchange :
    {A : Type 0} → Snappy → Line → Command A → Network → Option (Network × Result A)
unfolding run_solo_loop waited send_request
exchange snappy line c n = waited (run_solo_loop line.connecting n) (send_request snappy line c)
