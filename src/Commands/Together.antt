-- ===== src/Commands/Together.antt =====
-- A command over the map of connections of src/util_commands.cpp does what it does over the
-- connection alone.
use mariadb_columnstore_api.Prelude.{
  ℕ, ◌≡◌, refl, ap, ◌∙◌, [], ◌∷◌, Option, none, some, All, map, arith,
}
use mariadb_columnstore_api.Std.Compression.{Snappy}
use mariadb_columnstore_api.Network.{Network, Raised, UvStatus, read_data_start}
use mariadb_columnstore_api.Driver.Config.{XmlNode}
use mariadb_columnstore_api.Commands.Reader.{Reader, Result, Command}
use mariadb_columnstore_api.Commands.Loops.{Engines, run_solo_loop, run_loop, on_engine}
use mariadb_columnstore_api.Commands.Waiting.{IsIdle}
use mariadb_columnstore_api.Commands.Alone.{
  placed, Lacks, in_place, on_engine-placed, run_loop-alone,
}
use mariadb_columnstore_api.Commands.Exchange.{
  Line, waited, unless_raised, request_packet, read_reply, send_request, exchange,
}
use mariadb_columnstore_api.Commands.Connections.{
  find_engine, get_we_connection, behind, read_engine, EngineLine, send_to_engine, read_from_engine,
  engine_exchange,
}

-- What libuv does where it runs callbacks of the connection to one PM only.
unfoldable pub on_line : ℕ → UvStatus → Line → EngineLine
unfolding on_engine
on_line pm resolved line = record {
  resolved = resolved;
  connecting = map (on_engine pm) line.connecting;
  written = line.written;
  writing = map (on_engine pm) line.writing;
  started = line.started;
  reading = map (on_engine pm) line.reading;
}

find_engine-placed :
    (before : Engines) (pm : ℕ) (after : Engines) (n : Network)
    → Lacks pm before
    → find_engine pm (placed before pm after n) ≡ some n
unfolding find_engine
find_engine-placed [] pm after n h = ground arith
find_engine-placed ((q, m) ∷ before) pm after n (other, h) =
    rw other (find_engine-placed before pm after n h)

get_we_connection-placed :
    (root : XmlNode) (resolved : UvStatus) (before : Engines) (pm : ℕ) (after : Engines)
    (n : Network)
    → Lacks pm before
    → get_we_connection root resolved pm (placed before pm after n)
      ≡ some (placed before pm after n, Result.ok tt)
unfolding get_we_connection
get_we_connection-placed root resolved before pm after n h =
    rw (find_engine-placed before pm after n h, get_we_connection) refl

read_engine-placed :
    {A : Type 0} (before : Engines) (pm : ℕ) (after : Engines) (r : Reader A) (n : Network)
    → Lacks pm before
    → read_engine pm r (placed before pm after n) ≡ some (placed before pm after (r n).0, (r n).1)
unfolding read_engine behind
read_engine-placed [] pm after r n h = ground arith
read_engine-placed ((q, m) ∷ before) pm after r n (other, h) =
    rw (other, read_engine-placed before pm after r n h) refl

waited-placed :
    {A : Type 0} (p : Network → Engines) (o : Option (Network × Result Unit))
    (f : Engines → Option (Engines × Result A)) (g : Network → Option (Network × Result A))
    → ((n : Network) → f (p n) ≡ in_place p (g n))
    → waited (in_place p o) f ≡ in_place p (waited o g)
unfolding waited in_place
waited-placed p none f g h = refl
waited-placed p (some (n, Result.ok u)) f g h = h n
waited-placed p (some (n, Result.failed e)) f g h = refl

waited-found :
    {A : Type 0} (es : Engines) (f : Engines → Option (Engines × Result A))
    → waited (some (es, Result.ok tt)) f ≡ f es
unfolding waited
waited-found es f = refl

unless_raised-placed :
    {A : Type 0} (p : Network → Engines) (r : Network × Raised)
    (f : Engines → Option (Engines × Result A)) (g : Network → Option (Network × Result A))
    → ((n : Network) → f (p n) ≡ in_place p (g n))
    → unless_raised (p r.0, r.1) f ≡ in_place p (unless_raised r g)
unfolding unless_raised in_place
unless_raised-placed p (n, Raised.returned) f g h = h n
unless_raised-placed p (n, Raised.network_error) f g h = refl

module _ {A : Type 0} (root : XmlNode) (snappy : Snappy) (line : Line) (resolved : UvStatus)
    (before after : Engines) (pm : ℕ) (c : Command A) (lacks : Lacks pm before)
    (h : All IsIdle before) (k : All IsIdle after) where
  read_from_engine-placed :
      (n : Network)
      → read_from_engine (on_line pm resolved line) pm c (placed before pm after n)
        ≡ in_place (placed before pm after) (read_reply line c n)
  unfolding read_from_engine read_reply on_line in_place
  read_from_engine-placed n =
      ap
        (λ r.
          unless_raised r
            (λ es. waited (run_loop (map (on_engine pm) line.reading) es) (read_engine pm c.reply)))
        (on_engine-placed before pm after (λ n. read_data_start n line.started) n lacks)
      ∙ unless_raised-placed (placed before pm after) (read_data_start n line.started) _
          (λ n'. waited (run_solo_loop line.reading n') (λ n''. some (c.reply n'')))
          (λ n'.
            ap (λ o. waited o (read_engine pm c.reply))
              (run_loop-alone before after pm lacks h k line.reading n')
            ∙ waited-placed (placed before pm after) (run_solo_loop line.reading n')
                (read_engine pm c.reply) (λ n''. some (c.reply n''))
                (λ n''. read_engine-placed before pm after c.reply n'' lacks))

  send_request-placed :
      (n : Network)
      → unless_raised
          (on_engine pm
            (λ n. (request_packet snappy c n line.written).result)
            (placed before pm after n))
          (λ es.
            waited
              (run_loop (map (on_engine pm) line.writing) es)
              (read_from_engine (on_line pm resolved line) pm c))
        ≡ in_place (placed before pm after) (send_request snappy line c n)
  unfolding send_request
  send_request-placed n =
      ap
        (λ r. unless_raised r (λ es.
          waited (run_loop (map (on_engine pm) line.writing) es)
            (read_from_engine (on_line pm resolved line) pm c)))
        (on_engine-placed before pm after (λ n. (request_packet snappy c n line.written).result) n
          lacks)
      ∙ unless_raised-placed (placed before pm after)
          (request_packet snappy c n line.written).result _
          (λ n'. waited (run_solo_loop line.writing n') (read_reply line c))
          (λ n'.
            ap (λ o. waited o (read_from_engine (on_line pm resolved line) pm c))
              (run_loop-alone before after pm lacks h k line.writing n')
            ∙ waited-placed (placed before pm after) (run_solo_loop line.writing n')
                (read_from_engine (on_line pm resolved line) pm c) (read_reply line c)
                read_from_engine-placed)

  -- While every other connection to a write engine is idle and the event loop runs callbacks of the
  -- connection to one PM only, a command to that PM, from the lookup of its connection in the map to
  -- the reads of its reply, does what it does over the connection alone, waiting with runSoloLoop: it
  -- has the same outcome, the connection is in the same state, and the others are as they were.
  pub engine_exchange-alone :
      (n : Network)
      → engine_exchange root snappy (on_line pm resolved line) pm c (placed before pm after n)
        ≡ in_place (placed before pm after) (exchange snappy line c n)
  unfolding engine_exchange send_to_engine exchange on_line
  engine_exchange-alone n =
      let go : Engines → Option (Engines × Result A) = λ es.
        unless_raised (on_engine pm (λ n. (request_packet snappy c n line.written).result) es)
          (λ es.
            waited (run_loop (map (on_engine pm) line.writing) es)
              (read_from_engine (on_line pm resolved line) pm c)) in
      let wait : Engines → Option (Engines × Result A) =
        λ es. waited (run_loop (map (on_engine pm) line.connecting) es) go in
      ap (λ o. waited o wait) (get_we_connection-placed root resolved before pm after n lacks)
      ∙ waited-found (placed before pm after n) wait
      ∙ ap (λ o. waited o go) (run_loop-alone before after pm lacks h k line.connecting n)
      ∙ waited-placed (placed before pm after) (run_solo_loop line.connecting n) go
          (send_request snappy line c) send_request-placed
