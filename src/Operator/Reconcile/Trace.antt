-- ===== src/Operator/Reconcile/Trace.antt =====
-- Predicates on the calls of a reconciler, kept from call to call.
use shulker.Prelude.{List, ◌∷◌, ◌≡◌, refl}
use shulker.Outcome.{Outcome, ok, panicked, running}
use shulker.Result.{Result, err}
use shulker.KubeUtils.Builder.{BuilderReconcilerError}
use shulker.Operator.Reconcile.{ReconcilerError, Run, Replies, call, on_reply}
use shulker.Operator.Reconcile.Cluster.{of_builder}

-- After a call, what holds of the calls up to it must hold after each value that it may give.
on_reply_keeps :
    {Step A B : Type 0} (P : List Step → Type 0) (reply : Outcome (Result ReconcilerError A))
    (following : A → Run Step B) (calls : List Step)
    → P calls
    → ((a : A) → reply ≡ ok (Result.ok a) → P (following a calls).1)
    → P (on_reply reply following calls).1
unfolding on_reply
on_reply_keeps P (ok (Result.ok a)) following calls h k = k a refl
on_reply_keeps P (ok (err e)) following calls h k = h
on_reply_keeps P panicked following calls h k = h
on_reply_keeps P running following calls h k = h

pub call_keeps :
    {Step A B : Type 0} (P : List Step → Type 0) (step : Step) (replies : Replies Step A)
    (following : A → Run Step B) (calls : List Step)
    → P (step ∷ calls)
    → ((a : A) → replies calls ≡ ok (Result.ok a) → P (following a (step ∷ calls)).1)
    → P (call step replies following calls).1
unfolding call
call_keeps P step replies following calls h k =
    on_reply_keeps P (replies calls) following (step ∷ calls) h k

pub of_builder-eq-ok :
    {A : Type 0} (reply : Outcome (Result BuilderReconcilerError A)) {a : A}
    → of_builder reply ≡ ok (Result.ok a)
    → reply ≡ ok (Result.ok a)
of_builder-eq-ok (ok (Result.ok b)) h = cc
of_builder-eq-ok (ok (err e)) h = cc
of_builder-eq-ok panicked h = cc
of_builder-eq-ok running h = cc
