-- ===== src/Commands/Connections.antt =====
-- The map of connections to the write engines, and the commands that go over them, of
-- src/util_commands.cpp: getWeConnection, the exchange with runLoop, and what weClose does to the
-- map.
use mariadb_columnstore_api.Prelude.{
  ℕ, List, [], ◌∷◌, ◌++◌, Option, none, some, ◌==◌, ltb, if◌then◌else◌, take,
}
use mariadb_columnstore_api.Prelude.Digits.{to_string}
use mariadb_columnstore_api.Std.Compression.{Snappy}
use mariadb_columnstore_api.Network.{Network, Raised, UvStatus, read_data_start}
use mariadb_columnstore_api.Network.Resolving.{resolve}
use mariadb_columnstore_api.Driver.Config.{XmlNode, get_xml_node}
use mariadb_columnstore_api.Commands.Reader.{Reader, Result, Failure, Command}
use mariadb_columnstore_api.Commands.Loops.{Engines, run_loop, on_engine}
use mariadb_columnstore_api.Commands.Exchange.{waited, unless_raised, request_packet}

-- `weConnections.at(pm)`
unfoldable pub find_engine : ℕ → Engines → Option Network
find_engine pm [] = none
find_engine pm ((q, n) ∷ es) = let rest = find_engine pm es in if q == pm then some n else rest

-- `weConnections[pm] = connection`, in the order of the map.
unfoldable pub insert_engine : ℕ → Network → Engines → Engines
insert_engine pm n [] = (pm, n) ∷ []
insert_engine pm n ((q, m) ∷ es) =
    let rest = insert_engine pm n es in
    if q == pm then (q, n) ∷ es else (if ltb pm q then (pm, n) ∷ (q, m) ∷ es else (q, m) ∷ rest)

-- `weConnections.erase(pm)`
unfoldable pub erase_engine : ℕ → Engines → Engines
erase_engine pm [] = []
erase_engine pm ((q, n) ∷ es) =
    let rest = erase_engine pm es in if q == pm then rest else (q, n) ∷ rest

-- The name that `snprintf` writes into 32 bytes.
unfoldable pub engine_name : ℕ → List ℕ
unfolding to_string
engine_name pm = take 31 (
    (b'p' ∷ b'm' ∷ [])
    ++ to_string pm
    ++ (b'_' ∷ b'W' ∷ b'r' ∷ b'i' ∷ b't' ∷ b'e' ∷ b'E' ∷ b'n' ∷ b'g' ∷ b'i' ∷ b'n' ∷ b'e' ∷ b'S'
        ∷ b'e' ∷ b'r' ∷ b'v' ∷ b'e' ∷ b'r' ∷ []))

abbrev ip_addr : List ℕ
ip_addr = b'I' ∷ b'P' ∷ b'A' ∷ b'd' ∷ b'd' ∷ b'r' ∷ []

-- A connection whose construction did not throw is kept.
unfoldable pub keep_engine : ℕ → Engines → Network × Raised → Option (Engines × Result Unit)
unfolding insert_engine
keep_engine pm es (n, Raised.network_error) = some (es, Result.failed Failure.thrown_below)
keep_engine pm es (n, Raised.returned) = some (insert_engine pm n es, Result.ok tt)

-- The construction; there is no outcome where the host is NULL, of which `std::string` may not be
-- built.
unfoldable pub open_engine :
    UvStatus → ℕ → Engines → Option (List ℕ) → Option (Engines × Result Unit)
unfolding keep_engine resolve
open_engine resolved pm es none = none
open_engine resolved pm es (some host) = keep_engine pm es (resolve host resolved)

-- getWeConnection: the map has a connection to the PM behind it.
unfoldable pub get_we_connection : XmlNode → UvStatus → ℕ → Engines → Option (Engines × Result Unit)
unfolding find_engine open_engine get_xml_node engine_name
get_we_connection root resolved pm es = elim (find_engine pm es) [
  | some n ↦ some (es, Result.ok tt)
  | none ↦ open_engine resolved pm es (get_xml_node root (engine_name pm) ip_addr)
]

abbrev dbrm_controller : List ℕ
dbrm_controller =
    b'D' ∷ b'B' ∷ b'R' ∷ b'M' ∷ b'_' ∷ b'C' ∷ b'o' ∷ b'n' ∷ b't' ∷ b'r' ∷ b'o' ∷ b'l' ∷ b'l' ∷ b'e'
    ∷ b'r' ∷ []

-- The construction of the connection to the DBRM controller: it is kept where it did not throw.
unfoldable pub open_brm : UvStatus → Option (List ℕ) → Option (Option Network × Result Unit)
unfolding resolve
open_brm resolved none = none
open_brm resolved (some host) =
    let (n, raised) = resolve host resolved in
    elim raised [
      | Raised.returned ↦ some (some n, Result.ok tt)
      | Raised.network_error ↦ some (none, Result.failed Failure.thrown_below)
    ]

-- getBrmConnection: the one that there is, or a new one.
unfoldable pub get_brm_connection :
    XmlNode → UvStatus → Option Network → Option (Option Network × Result Unit)
unfolding open_brm get_xml_node
get_brm_connection root resolved (some n) = some (some n, Result.ok tt)
get_brm_connection root resolved none =
    open_brm resolved (get_xml_node root dbrm_controller ip_addr)

-- An outcome with connections before those that it is about.
unfoldable pub behind :
    {A : Type 0} → Engines → Option (Engines × Result A) → Option (Engines × Result A)
behind before none = none
behind before (some (es, r)) = some (before ++ es, r)

-- The reads of a reply from the connection to a PM; there are none where the map has none.
unfoldable pub read_engine : {A : Type 0} → ℕ → Reader A → Engines → Option (Engines × Result A)
unfolding behind
read_engine pm r [] = none
read_engine pm r ((q, n) ∷ es) =
    let rest = behind ((q, n) ∷ []) (read_engine pm r es) in
    if q == pm then some ((q, (r n).0) ∷ es, (r n).1) else rest

-- What libuv does in the course of a command to a write engine: what `uv_getaddrinfo`, `uv_write` and
-- `uv_read_start` return, and the turns of each wait.
pub record EngineLine : Type 0 where
  pub resolved : UvStatus
  pub connecting : List (Engines → Engines × Raised)
  pub written : UvStatus
  pub writing : List (Engines → Engines × Raised)
  pub started : UvStatus
  pub reading : List (Engines → Engines × Raised)

-- getWeConnection, `runLoop`, `sendData` and `runLoop`, with what follows.
unfoldable pub send_to_engine :
    {A : Type 0}
    → XmlNode
    → Snappy
    → EngineLine
    → ℕ
    → Command A
    → Engines
    → (Engines → Option (Engines × Result A))
    → Option (Engines × Result A)
unfolding get_we_connection run_loop waited unless_raised on_engine request_packet
send_to_engine root snappy line pm c es f =
    waited (get_we_connection root line.resolved pm es) (λ es1.
      waited (run_loop line.connecting es1) (λ es2.
        unless_raised (on_engine pm (λ n. (request_packet snappy c n line.written).result) es2)
          (λ es3. waited (run_loop line.writing es3) f)))

-- `readDataStart`, `runLoop`, and the reads of the reply.
unfoldable pub read_from_engine :
    {A : Type 0} → EngineLine → ℕ → Command A → Engines → Option (Engines × Result A)
unfolding run_loop waited unless_raised on_engine read_data_start read_engine
read_from_engine line pm c es =
    unless_raised (on_engine pm (λ n. read_data_start n line.started) es)
      (λ es1. waited (run_loop line.reading es1) (read_engine pm c.reply))

-- A command to a write engine, from its start to its end.
unfoldable pub engine_exchange :
    {A : Type 0}
    → XmlNode
    → Snappy
    → EngineLine
    → ℕ
    → Command A
    → Engines
    → Option (Engines × Result A)
unfolding send_to_engine read_from_engine
engine_exchange root snappy line pm c es =
    send_to_engine root snappy line pm c es (read_from_engine line pm c)

-- The end of weClose: the connection leaves the map and goes to those that are cleaned up later.
unfoldable pub leave_engine : ℕ → Engines × List Network → Engines × List Network
unfolding find_engine erase_engine
leave_engine pm (es, misc) = elim (find_engine pm es) [
  | some n ↦ (erase_engine pm es, misc ++ (n ∷ []))
  | none ↦ (erase_engine pm es, misc)
]
