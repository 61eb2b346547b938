-- ===== src/Commands/Alone.antt =====
-- While the other connections to write engines are idle, runLoop of src/util_commands.cpp waits as
-- runSoloLoop does.
use mariadb_columnstore_api.Prelude.{
  ℕ, ◌≡◌, refl, ap, ◌∙◌, List, [], ◌∷◌, ◌++◌, Bool, true, false, Option, none, some, All, map, ◌==◌,
  arith,
}
use mariadb_columnstore_api.Network.{Network, ConStatus, Raised}
use mariadb_columnstore_api.Commands.Reader.{Result}
use mariadb_columnstore_api.Commands.Loops.{
  Turn, settled, stop_or, end_round, run_solo_loop, Engines, look_on, look_over, after_look,
  end_round_of_all, run_loop_from, run_loop, on_engine,
}
use mariadb_columnstore_api.Commands.Waiting.{IsIdle}

-- The connections with that of one PM in its place.
abbrev pub placed : Engines → ℕ → Engines → Network → Engines
placed before pm behind n = before ++ ((pm, n) ∷ behind)

-- A PM that a list of connections does not have.
abbrev pub Lacks : ℕ → Engines → Type 0
Lacks pm es = All (λ e. (e.0 == pm) ≡ false) es

unfoldable pub in_place :
    {A : Type 0} → (Network → Engines) → Option (Network × Result A) → Option (Engines × Result A)
in_place f none = none
in_place f (some (n, r)) = some (f n, r)

pub on_engine-placed :
    (before : Engines) (pm : ℕ) (behind : Engines) (turn : Turn) (n : Network)
    → Lacks pm before
    → on_engine pm turn (placed before pm behind n)
      ≡ (placed before pm behind (turn n).0, (turn n).1)
unfolding on_engine
on_engine-placed [] pm behind turn n h = ground arith
on_engine-placed ((q, m) ∷ before) pm behind turn n (other, h) =
    rw other (ap (λ r. ((q, m) ∷ r.0, r.1)) (on_engine-placed before pm behind turn n h))

settled-idle : (n : Network) → n.con_status ≡ ConStatus.idle → settled n ≡ some (Result.ok tt)
unfolding settled
settled-idle n h = rw h refl

look_over-idle : (es : Engines) → All IsIdle es → look_over true es ≡ (true, Result.ok tt)
unfolding look_over look_on
look_over-idle [] h = refl
look_over-idle ((pm, n) ∷ es) (idle, h) =
    ap (λ o. look_on o (look_over true es)) (settled-idle n idle) ∙ look_over-idle es h

look_over-placed :
    (before : Engines) (pm : ℕ) (behind : Engines) (n : Network) (completed : Bool)
    → All IsIdle before
    → All IsIdle behind
    → look_over completed (placed before pm behind n) ≡ look_on (settled n) (true, Result.ok tt)
unfolding look_over look_on
look_over-placed [] pm behind n completed h k = ap (look_on (settled n)) (look_over-idle behind k)
look_over-placed ((q, m) ∷ before) pm behind n completed (idle, h) k =
    ap (λ o. look_on o (look_over true (placed before pm behind n))) (settled-idle m idle)
    ∙ look_over-placed before pm behind n true h k

-- The same end of a round.
stop_or-placed :
    (f : Network → Engines) (n : Network) (o : Option (Result Unit))
    (rest : Option (Network × Result Unit))
    → after_look (f n) (look_on o (true, Result.ok tt)) (in_place f rest)
      ≡ in_place f (stop_or n o rest)
unfolding after_look look_on in_place stop_or
stop_or-placed f n none rest = refl
stop_or-placed f n (some (Result.ok u)) rest = refl
stop_or-placed f n (some (Result.failed e)) rest = refl

module _ (before behind : Engines) (pm : ℕ) (lacks : Lacks pm before) (h : All IsIdle before)
    (k : All IsIdle behind) where
  end_round-placed :
      (r : Network × Raised) (completed : Bool) (rest : Option (Network × Result Unit))
      → end_round_of_all
          (placed before pm behind r.0, r.1)
          completed
          (in_place (placed before pm behind) rest)
        ≡ in_place (placed before pm behind) (end_round r rest)
  unfolding end_round_of_all end_round in_place
  end_round-placed (n, Raised.network_error) completed rest = refl
  end_round-placed (n, Raised.returned) completed rest =
      ap (λ l. after_look (placed before pm behind n) l (in_place (placed before pm behind) rest))
        (look_over-placed before pm behind n completed h k)
      ∙ stop_or-placed (placed before pm behind) n (settled n) rest

  run_loop_from-alone :
      (completed : Bool) (turns : List Turn) (n : Network)
      → run_loop_from completed (map (on_engine pm) turns) (placed before pm behind n)
        ≡ in_place (placed before pm behind) (run_solo_loop turns n)
  unfolding run_loop_from run_solo_loop in_place
  run_loop_from-alone completed [] n = refl
  run_loop_from-alone completed (turn ∷ turns) n =
      rw
        (
          on_engine-placed before pm behind turn n lacks,
          run_loop_from-alone (look_over completed (placed before pm behind (turn n).0)).0 turns
              (turn n).0,
        )
        (end_round-placed (turn n) completed (run_solo_loop turns (turn n).0))

  -- While every other connection to a write engine is idle and the event loop runs callbacks of one
  -- connection only, runLoop does what runSoloLoop does for that connection: it returns or throws
  -- after the same turn, the connection is in the same state, and the others are as they were.
  pub run_loop-alone :
      (turns : List Turn) (n : Network)
      → run_loop (map (on_engine pm) turns) (placed before pm behind n)
        ≡ in_place (placed before pm behind) (run_solo_loop turns n)
  unfolding run_loop
  run_loop-alone turns n = run_loop_from-alone false turns n
