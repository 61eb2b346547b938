-- ===== src/Commands/Loops.antt =====
-- runSoloLoop and runLoop, of src/util_commands.cpp: the event loop is run until the connections are
-- idle or one of them has failed. What `uv_run` does is libuv's; here it is given, for each time
-- that it is called.
use mariadb_columnstore_api.Prelude.{
  ℕ, List, [], ◌∷◌, Bool, true, false, Option, none, some, ◌==◌, if◌then◌else◌,
}
use mariadb_columnstore_api.Network.{Network, ConStatus, Raised}
use mariadb_columnstore_api.Commands.Reader.{Result, Failure}

-- One `uv_run`, which runs callbacks of the connection; an exception of theirs ends the call.
abbrev pub Turn : Type 0
Turn = Network → Network × Raised

-- What the status of a connection says after a turn: nothing while there is more to do.
unfoldable pub settled : Network → Option (Result Unit)
settled n = elim n.con_status [
  | ConStatus.connect_error ↦ some (Result.failed (Failure.network_error n.err_msg))
  | ConStatus.net_error ↦ some (Result.failed (Failure.network_error n.err_msg))
  | ConStatus.idle ↦ some (Result.ok tt)
  | _ ↦ none
]

-- The end of a round: `rest` is the rounds that follow.
unfoldable pub stop_or :
    Network → Option (Result Unit) → Option (Network × Result Unit) → Option (Network × Result Unit)
stop_or n none rest = rest
stop_or n (some r) rest = some (n, r)

unfoldable pub end_round :
    Network × Raised → Option (Network × Result Unit) → Option (Network × Result Unit)
unfolding settled stop_or
end_round (n, Raised.network_error) rest = some (n, Result.failed Failure.thrown_below)
end_round (n, Raised.returned) rest = stop_or n (settled n) rest

-- runSoloLoop; `none` says that the loop still goes on after the turns.
unfoldable pub run_solo_loop : List Turn → Network → Option (Network × Result Unit)
unfolding end_round
run_solo_loop [] n = none
run_solo_loop (turn ∷ turns) n =
    let rest = run_solo_loop turns (turn n).0 in end_round (turn n) rest

-- The connections to the write engines, in the order of the map.
abbrev pub Engines : Type 0
Engines = List (ℕ × Network)

-- One connection of the inner loop of runLoop: an idle one sets `completed` and goes on to the rest,
-- a failed one throws, and any other clears it and ends the loop.
unfoldable pub look_on : Option (Result Unit) → Bool × Result Unit → Bool × Result Unit
look_on none rest = (false, Result.ok tt)
look_on (some (Result.ok u)) rest = rest
look_on (some (Result.failed e)) rest = (true, Result.failed e)

-- The inner loop of runLoop with the value that `completed` has before it.
unfoldable pub look_over : Bool → Engines → Bool × Result Unit
unfolding settled look_on
look_over completed [] = (completed, Result.ok tt)
look_over completed ((pm, n) ∷ engines) =
    let rest = look_over true engines in look_on (settled n) rest

-- What the end of a round makes of it: `rest` is the rounds that follow.
unfoldable pub after_look :
    Engines → Bool × Result Unit → Option (Engines × Result Unit) → Option (Engines × Result Unit)
after_look es (completed, Result.failed e) rest = some (es, Result.failed e)
after_look es (true, Result.ok u) rest = some (es, Result.ok u)
after_look es (false, Result.ok u) rest = rest

unfoldable pub end_round_of_all :
    Engines × Raised → Bool → Option (Engines × Result Unit) → Option (Engines × Result Unit)
unfolding look_over after_look
end_round_of_all (es, Raised.network_error) completed rest =
    some (es, Result.failed Failure.thrown_below)
end_round_of_all (es, Raised.returned) completed rest = after_look es (look_over completed es) rest

-- runLoop from a value of `completed`, which is carried from round to round.
unfoldable pub run_loop_from :
    Bool → List (Engines → Engines × Raised) → Engines → Option (Engines × Result Unit)
unfolding end_round_of_all look_over
run_loop_from completed [] es = none
run_loop_from completed (turn ∷ turns) es =
    let rest = run_loop_from (look_over completed (turn es).0).0 turns (turn es).0 in
    end_round_of_all (turn es) completed rest

-- runLoop
unfoldable pub run_loop :
    List (Engines → Engines × Raised) → Engines → Option (Engines × Result Unit)
unfolding run_loop_from
run_loop = run_loop_from false

-- An `uv_run` that runs callbacks of the connection to one PM only.
unfoldable pub on_engine : ℕ → Turn → Engines → Engines × Raised
on_engine pm turn [] = ([], Raised.returned)
on_engine pm turn ((q, n) ∷ es) =
    let rest = on_engine pm turn es in
    if q == pm then ((q, (turn n).0) ∷ es, (turn n).1) else ((q, n) ∷ rest.0, rest.1)
