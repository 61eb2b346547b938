-- ===== src/Commands/Waiting.antt =====
-- The loops of src/util_commands.cpp end when the connections are done, and not before.
use mariadb_columnstore_api.Prelude.{
  ℕ, zero, suc, ◌<◌, ◌≡◌, refl, sym, List, [], ◌∷◌, Bool, true, false, Option, none, some, length,
  All, arith, Option-cases, inl, inr, ◌⊎◌,
}
use mathlib.Core.Path.{subst}
use mariadb_columnstore_api.Network.{Network, ConStatus, Raised}
use mariadb_columnstore_api.Commands.Reader.{Result, Failure}
use mariadb_columnstore_api.Commands.Loops.{
  settled, Engines, look_on, look_over, after_look, end_round_of_all, run_loop_from, run_loop,
}

-- A connection that is idle or has failed.
unfoldable pub IsSettled : ℕ × Network → Type 0
unfolding settled
IsSettled (pm, n) = (r : Result Unit) × (settled n ≡ some r)

abbrev pub IsIdle : ℕ × Network → Type 0
IsIdle (pm, n) = n.con_status ≡ ConStatus.idle

-- The connections after a number of turns, whatever the loop made of them.
unfoldable pub turned : ℕ → List (Engines → Engines × Raised) → Engines → Engines
turned zero turns es = es
turned (suc k) [] es = es
turned (suc k) (turn ∷ turns) es = turned k turns (turn es).0

-- A call that returns or throws.
unfoldable pub Ends : {A : Type 0} → Option A → Type 0
Ends {A = A} o = (a : A) × (o ≡ some a)

-- Settled connections, at least one, end a round.
look_over-settled :
    (completed : Bool) (es : Engines)
    → All IsSettled es
    → (completed ≡ true) ⊎ (0 < length es)
    → (rest : Option (Engines × Result Unit)) (out : Engines)
    → Ends (after_look out (look_over completed es) rest)
unfolding look_over look_on after_look IsSettled Ends
look_over-settled completed [] h (inl e) rest out =
    subst (λ c. Ends (after_look out (c, Result.ok tt) rest)) (sym e) ((out, Result.ok tt), refl)
look_over-settled completed [] h (inr more) rest out = ground (arith, more)
look_over-settled completed ((pm, n) ∷ es) ((Result.ok u, e), h) some_one rest out =
    subst (λ o. Ends (after_look out (look_on o (look_over true es)) rest)) (sym e)
      (look_over-settled true es h (inl refl) rest out)
look_over-settled completed ((pm, n) ∷ es) ((Result.failed x, e), h) some_one rest out =
    subst (λ o. Ends (after_look out (look_on o (look_over true es)) rest)) (sym e)
      ((out, Result.failed x), refl)

-- A round that leaves the connections settled ends the loop, and so does an exception.
end_round-settled :
    (r : Engines × Raised) (completed : Bool) (rest : Option (Engines × Result Unit))
    → All IsSettled r.0
    → 0 < length r.0
    → Ends (end_round_of_all r completed rest)
unfolding end_round_of_all Ends
end_round-settled (es, Raised.network_error) completed rest h some_one =
    ((es, Result.failed Failure.thrown_below), refl)
end_round-settled (es, Raised.returned) completed rest h some_one =
    look_over-settled completed es h (inr some_one) rest es

-- A round ends the loop or leaves it to the rounds that follow.
after_look-Ends :
    (es : Engines) (l : Bool × Result Unit) (rest : Option (Engines × Result Unit))
    → Ends rest
    → Ends (after_look es l rest)
unfolding after_look Ends
after_look-Ends es (c, Result.failed e) rest h = ((es, Result.failed e), refl)
after_look-Ends es (true, Result.ok u) rest h = ((es, Result.ok u), refl)
after_look-Ends es (false, Result.ok u) rest h = h

end_round-Ends :
    (r : Engines × Raised) (completed : Bool) (rest : Option (Engines × Result Unit))
    → Ends rest
    → Ends (end_round_of_all r completed rest)
unfolding end_round_of_all Ends
end_round-Ends (es, Raised.network_error) completed rest h =
    ((es, Result.failed Failure.thrown_below), refl)
end_round-Ends (es, Raised.returned) completed rest h =
    after_look-Ends es (look_over completed es) rest h

run_loop_from-Ends :
    (completed : Bool) (k : ℕ) (turns : List (Engines → Engines × Raised)) (es : Engines)
    → k < length turns
    → All IsSettled (turned (suc k) turns es)
    → 0 < length (turned (suc k) turns es)
    → Ends (run_loop_from completed turns es)
unfolding run_loop_from turned
run_loop_from-Ends completed k [] es h s some_one = ground (arith, h)
run_loop_from-Ends completed zero (turn ∷ turns) es h s some_one =
    end_round-settled (turn es) completed _ s some_one
run_loop_from-Ends completed (suc k) (turn ∷ turns) es h s some_one =
    end_round-Ends (turn es) completed _ (
      run_loop_from-Ends (look_over completed (turn es).0).0 k turns (turn es).0 (omega arith) s
        some_one)

-- Once an `uv_run` leaves every connection to a write engine idle or failed, and there is one,
-- runLoop returns or throws, whatever the connections were like in the rounds before.
pub run_loop-Ends :
    (k : ℕ) (turns : List (Engines → Engines × Raised)) (es : Engines)
    → k < length turns
    → All IsSettled (turned (suc k) turns es)
    → 0 < length (turned (suc k) turns es)
    → Ends (run_loop turns es)
unfolding run_loop
run_loop-Ends k turns es h s some_one = run_loop_from-Ends false k turns es h s some_one

-- How a loop may return: with every connection idle.
unfoldable LeavesIdle : Option (Engines × Result Unit) → Type 0
LeavesIdle none = Unit
LeavesIdle (some (es, Result.failed e)) = Unit
LeavesIdle (some (es, Result.ok u)) = All IsIdle es

settled-idle :
    (n : Network) (u : Unit) → settled n ≡ some (Result.ok u) → n.con_status ≡ ConStatus.idle
unfolding settled
settled-idle n u h = ground arith

-- All connections are idle where the inner loop ends with `completed` set.
look_over-idle :
    (completed : Bool) (es out : Engines) (rest : Option (Engines × Result Unit))
    → (All IsIdle es → All IsIdle out)
    → LeavesIdle rest
    → LeavesIdle (after_look out (look_over completed es) rest)
unfolding look_over look_on after_look LeavesIdle
look_over-idle true [] out rest here h = here tt
look_over-idle false [] out rest here h = h
look_over-idle completed ((pm, n) ∷ es) out rest here h =
    let goal : Option (Result Unit) → Type 0 =
      λ o. LeavesIdle (after_look out (look_on o (look_over true es)) rest) in
    elim (Option-cases (settled n)) [
      | inl e ↦ subst goal (sym e) h
      | inr (Result.ok u, e) ↦
          subst goal (sym e)
            (look_over-idle true es out rest (λ more. here (settled-idle n u e, more)) h)
      | inr (Result.failed x, e) ↦ subst goal (sym e) tt
    ]

round-idle :
    (r : Engines × Raised) (completed : Bool) (rest : Option (Engines × Result Unit))
    → LeavesIdle rest
    → LeavesIdle (end_round_of_all r completed rest)
unfolding end_round_of_all LeavesIdle
round-idle (es, Raised.network_error) completed rest h = tt
round-idle (es, Raised.returned) completed rest h = look_over-idle completed es es rest (λ a. a) h

run_loop_from-idle :
    (completed : Bool) (turns : List (Engines → Engines × Raised)) (es : Engines)
    → LeavesIdle (run_loop_from completed turns es)
unfolding run_loop_from LeavesIdle
run_loop_from-idle completed [] es = tt
run_loop_from-idle completed (turn ∷ turns) es =
    round-idle (turn es) completed _
      (run_loop_from-idle (look_over completed (turn es).0).0 turns (turn es).0)

LeavesIdle-some :
    (o : Option (Engines × Result Unit)) (es : Engines)
    → o ≡ some (es, Result.ok tt)
    → LeavesIdle o
    → All IsIdle es
unfolding LeavesIdle
LeavesIdle-some o es e h = subst LeavesIdle e h

-- Where runLoop returns without an exception, every connection to a write engine is idle.
pub run_loop-IsIdle :
    (turns : List (Engines → Engines × Raised)) (es es' : Engines)
    → run_loop turns es ≡ some (es', Result.ok tt)
    → All IsIdle es'
unfolding run_loop
run_loop-IsIdle turns es es' returns =
    LeavesIdle-some (run_loop turns es) es' returns (run_loop_from-idle false turns es)
