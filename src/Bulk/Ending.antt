-- ===== src/Bulk/Ending.antt =====
-- What the steps of commit and rollback leave, and the PMs that they commit and undo.
use mariadb_columnstore_api.Prelude.{
  ℕ, List, [], ◌∷◌, ◌++◌, true, false, ◌≡◌, refl, sym, ap, ◌∙◌, if◌then◌else◌,
}
use mathlib.Core.List.{append_assoc, append-nil, flatten, map}
use mariadb_columnstore_api.Bulk.{BulkInsert, Exit, Error, then_do, call, for_each}
use mariadb_columnstore_api.Bulk.Calls.{Server, Call}
use Exit.{done, raised}
use Call.{we_bulk_commit, we_bulk_rollback}

-- The PMs whose data the calls commit, and those whose data the calls undo.
unfoldable pub committed : List Call → List ℕ
committed [] = []
committed (we_bulk_commit pm u s t o ∷ cs) = pm ∷ committed cs
committed (_ ∷ cs) = committed cs

unfoldable pub undone : List Call → List ℕ
undone [] = []
undone (we_bulk_rollback pm u s l o ∷ cs) = pm ∷ undone cs
undone (_ ∷ cs) = undone cs

committed-append : (xs ys : List Call) → committed (xs ++ ys) ≡ committed xs ++ committed ys
unfolding committed
committed-append [] ys = refl
committed-append (we_bulk_commit pm u s t o ∷ xs) ys = ap (◌∷◌ pm) (committed-append xs ys)
committed-append (_ ∷ xs) ys = committed-append xs ys

pub undone-append : (xs ys : List Call) → undone (xs ++ ys) ≡ undone xs ++ undone ys
unfolding undone
undone-append [] ys = refl
undone-append (we_bulk_rollback pm u s l o ∷ xs) ys = ap (◌∷◌ pm) (undone-append xs ys)
undone-append (_ ∷ xs) ys = undone-append xs ys

-- What no step before the last one changes.
pub record Keeps (b b' : BulkInsert) : Type 0 where
  pub closed_is : b'.transaction_closed ≡ b.transaction_closed
  pub auto_rollback_is : b'.auto_rollback ≡ b.auto_rollback
  pub pm_list_is : b'.pm_list ≡ b.pm_list

pub Keeps-refl : (b : BulkInsert) → Keeps b b
Keeps-refl b = record { closed_is = refl; auto_rollback_is = refl; pm_list_is = refl }

pub Keeps-trans : (a b c : BulkInsert) → Keeps a b → Keeps b c → Keeps a c
Keeps-trans a b c k l = record {
  closed_is = l.closed_is ∙ k.closed_is;
  auto_rollback_is = l.auto_rollback_is ∙ k.auto_rollback_is;
  pm_list_is = l.pm_list_is ∙ k.pm_list_is;
}

-- What a step from `b` leads to: when it returns, the PMs `cs` were committed and `us` undone.
unfoldable pub Effect : BulkInsert → List ℕ → List ℕ → BulkInsert × Exit → Type 0
Effect b cs us (b', done) =
    Keeps b b' × (committed b'.log ≡ committed b.log ++ cs) × (undone b'.log ≡ undone b.log ++ us)
Effect b cs us (b', raised e) = Keeps b b'

pub then_do-Effect :
    (b : BulkInsert) (cs us cs' us' : List ℕ) (r : BulkInsert × Exit)
    (f : BulkInsert → BulkInsert × Exit)
    → Effect b cs us r
    → ((b' : BulkInsert) → Keeps b b' → Effect b' cs' us' (f b'))
    → Effect b (cs ++ cs') (us ++ us') (then_do r f)
unfolding Effect then_do
then_do-Effect b cs us cs' us' (b', done) f (keeps, cps, ups) next =
    behind b cs us cs' us' b' (f b') keeps cps ups (next b' keeps)
  where
    behind :
        (b : BulkInsert) (cs us cs' us' : List ℕ) (b' : BulkInsert) (r : BulkInsert × Exit)
        → Keeps b b'
        → committed b'.log ≡ committed b.log ++ cs
        → undone b'.log ≡ undone b.log ++ us
        → Effect b' cs' us' r
        → Effect b (cs ++ cs') (us ++ us') r
    behind b cs us cs' us' b' (b2, done) keeps cps ups (keeps', cps', ups') = (
      Keeps-trans b b' b2 keeps keeps',
      cps' ∙ ap (λ l. l ++ cs') cps ∙ append_assoc (committed b.log) cs cs',
      ups' ∙ ap (λ l. l ++ us') ups ∙ append_assoc (undone b.log) us us',
    )
    behind b cs us cs' us' b' (b2, raised e) keeps cps ups keeps' = Keeps-trans b b' b2 keeps keeps'
then_do-Effect b cs us cs' us' (b', raised e) f keeps next = keeps

pub call-Effect :
    (srv : Server) (c : Call) (b : BulkInsert)
    → Effect b (committed (c ∷ [])) (undone (c ∷ [])) (call srv c b)
unfolding call Effect
call-Effect srv c b =
    elim (srv.accepts b.log c)
      as (λ x. Effect b (committed (c ∷ [])) (undone (c ∷ [])) (
        if x
        then (record b { log = b.log ++ (c ∷ []) }, done)
        else (record b { log = b.log ++ (c ∷ []) }, raised Error.refused))) [
          | true ↦ (
            record { closed_is = refl; auto_rollback_is = refl; pm_list_is = refl },
            committed-append b.log (c ∷ []),
            undone-append b.log (c ∷ []),
          )
          | false ↦ record { closed_is = refl; auto_rollback_is = refl; pm_list_is = refl }
        ]

-- A step for each PM that commits and undoes what `g` and `h` say.
pub for_each-Effect :
    (f : ℕ → BulkInsert → BulkInsert × Exit) (g h : ℕ → List ℕ)
    → ((pm : ℕ) (b : BulkInsert) → Effect b (g pm) (h pm) (f pm b))
    → (pms : List ℕ) (b : BulkInsert)
    → Effect b (flatten (map g pms)) (flatten (map h pms)) (for_each pms f b)
unfolding for_each flatten Effect
for_each-Effect f g h each [] b =
    (Keeps-refl b, sym (append-nil (committed b.log)), sym (append-nil (undone b.log)))
for_each-Effect f g h each (pm ∷ pms) b =
    then_do-Effect b (g pm) (h pm) (flatten (map g pms)) (flatten (map h pms)) (f pm b)
      (for_each pms f) (each pm b) (λ b' keeps. for_each-Effect f g h each pms b')
