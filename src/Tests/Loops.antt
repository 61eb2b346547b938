-- ===== src/Tests/Loops.antt =====
-- Runs of the event loops.
use mariadb_columnstore_api.Prelude.{
  suc, ◌<◌, ◌≡◌, refl, List, [], ◌∷◌, ◌++◌, length, arith, some, All,
}
use mariadb_columnstore_api.Network.{Network, ConStatus, Raised}
use mariadb_columnstore_api.Commands.Reader.{Result}
use mariadb_columnstore_api.Commands.Loops.{
  Turn, settled, Engines, look_on, look_over, after_look, end_round_of_all, run_loop_from, run_loop,
  on_engine,
}
use mariadb_columnstore_api.Commands.Waiting.{
  IsSettled, IsIdle, turned, Ends, run_loop-Ends, run_loop-IsIdle,
}
use mariadb_columnstore_api.Commands.Alone.{in_place}
use mariadb_columnstore_api.Network.{UvStatus}
use mariadb_columnstore_api.Driver.Config.{XmlNode, XmlNodes}
use mariadb_columnstore_api.Commands.Exchange.{Line, exchange}
use mariadb_columnstore_api.Commands.Completion.{working}
use mariadb_columnstore_api.Commands.Connections.{engine_exchange}
use mariadb_columnstore_api.Commands.WriteEngine.{we_keep_alive}
use mariadb_columnstore_api.Commands.Together.{on_line, engine_exchange-alone}
use mariadb_columnstore_api.Tests.Transport.{local}
use mariadb_columnstore_api.Tests.Fixtures.{marker}

abbrev waiting : Network
waiting = record local { con_status = ConStatus.busy }

abbrev engines : Engines
engines = (1, waiting) ∷ (2, local) ∷ []

-- A turn that leaves the connection busy, and one that completes its work.
abbrev goes_on : Turn
goes_on n = (n, Raised.returned)

abbrev completes : Turn
completes n = (record n { con_status = ConStatus.idle }, Raised.returned)

abbrev turns : List (Engines → Engines × Raised)
turns = on_engine 1 goes_on ∷ on_engine 1 completes ∷ []

engines-IsSettled : All IsSettled (turned (suc 1) turns engines)
unfolding turned on_engine IsSettled settled
engines-IsSettled = ((Result.ok tt, refl), ((Result.ok tt, refl), tt))

some_engine : 0 < length (turned (suc 1) turns engines)
unfolding turned on_engine
some_engine = omega arith

run_loop-Ends_example : Ends (run_loop turns engines)
run_loop-Ends_example = run_loop-Ends 1 turns engines (omega arith) engines-IsSettled some_engine

abbrev done_engines : Engines
done_engines = (1, local) ∷ (2, local) ∷ []

loop_returns : run_loop turns engines ≡ some (done_engines, Result.ok tt)
unfolding run_loop run_loop_from end_round_of_all after_look look_over look_on settled on_engine
loop_returns = refl

run_loop-IsIdle_example : All IsIdle done_engines
run_loop-IsIdle_example = run_loop-IsIdle turns engines done_engines loop_returns

others-IsIdle : All IsIdle ((2, local) ∷ [])
others-IsIdle = (refl, tt)

abbrev root : XmlNode
root = XmlNode.node [] [] XmlNodes.nil

-- A keep-alive on the connection to PM 1, which answers.
abbrev answering : Line
answering = working marker (goes_on ∷ completes ∷ []) (
    (
      64,
      0x37 ∷ 0xC1 ∷ 0xFB ∷ 0x14 ∷ 13 ∷ 0 ∷ 0 ∷ 0 ∷ 1 ∷ 0 ∷ 0 ∷ 0 ∷ 0 ∷ 0 ∷ 0 ∷ 0 ∷ 0 ∷ 0 ∷ 0 ∷ 0 ∷ 0
          ∷ [],
    )
    ∷ [])

engine_exchange-alone_example :
    engine_exchange root marker
      (on_line 1 UvStatus.success answering)
      1
      we_keep_alive
      ([] ++ ((1, waiting) ∷ (2, local) ∷ []))
    ≡ in_place
        (λ n. [] ++ ((1, n) ∷ (2, local) ∷ []))
        (exchange marker answering we_keep_alive waiting)
engine_exchange-alone_example =
    engine_exchange-alone root marker answering UvStatus.success [] ((2, local) ∷ []) 1
      we_keep_alive tt tt others-IsIdle waiting
