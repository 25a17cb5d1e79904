-- ===== src/Jobs/Worker.antt =====
-- `run_worker` of src/worker/runner.py. `handle` says whether the handler returns, for the number of
-- the call; `stopped` whether the stop event is set before an iteration.
use lexicon_revision.Prelude.{
  ℕ, zero, suc, Text, Bool, Option, none, some, List, [], ◌∷◌, ◌++◌, Result, ok, err, if◌then◌else◌,
}
use lexicon_revision.Jobs.Queue.{IngestJobMessage, ReceivedJob, DecodeError, IngestJobQueue}

-- The state of the queue, the number of iterations, the receipts of poison messages, and the jobs that
-- the handler completed and failed.
pub record WorkerState (Q : Type 0) : Type 0 where
  pub queue : Q
  pub iterations : ℕ
  pub poison : List Text
  pub completed : List IngestJobMessage
  pub failed : List IngestJobMessage
  pub undeleted : List Text

module _ {Q : Type 0} (queue : IngestJobQueue Q) (receipts : ℕ → Text)
    (handle : ℕ → IngestJobMessage → Bool) (stopped : ℕ → Bool) where
  -- `queue.delete`, whose failure is logged
  unfoldable pub finish_job : ReceivedJob → WorkerState Q → WorkerState Q
  finish_job job s =
      let (deleted, q) = queue.delete job.receipt s.queue in
      record s {
        queue = q;
        completed = s.completed ++ job.message ∷ [];
        undeleted = if deleted then s.undeleted else s.undeleted ++ job.receipt ∷ [];
      }

  unfoldable pub work_on :
      ℕ → Result DecodeError (Option ReceivedJob) → WorkerState Q → WorkerState Q
  work_on n (err e) s = record s { poison = s.poison ++ e.receipt ∷ [] }
  work_on n (ok none) s = s
  work_on n (ok (some job)) s =
      if handle n job.message
      then finish_job job s
      else record s { failed = s.failed ++ job.message ∷ [] }

  unfoldable pub iterate : WorkerState Q → WorkerState Q
  iterate s =
      let (received, q) = queue.receive (receipts s.iterations) s.queue in
      work_on s.iterations received (record s { queue = q; iterations = suc s.iterations })

  -- with this many iterations left of `max_iterations`
  unfoldable pub run_worker : ℕ → WorkerState Q → WorkerState Q
  run_worker zero s = s
  run_worker (suc left) s =
      let rest = run_worker left (iterate s) in if stopped s.iterations then s else rest
