-- ===== src/Jobs/Tests.antt =====
-- Two jobs, of which the first fails.
use lexicon_revision.Prelude.{
  ℕ, ◌+◌, nat_eq, Text, text_HasEq, text_eq, codes, contains, Bool, false, [], ◌∷◌, ◌≡◌, refl,
}
use lexicon_revision.Jobs.Queue.{
  cambridge, IngestJobMessage, InMemoryIngestJobQueue, set_item, pop, receive_from, receive, delete,
  in_memory,
}
use lexicon_revision.Jobs.Worker.{WorkerState, finish_job, work_on, iterate, run_worker}
use lexicon_revision.Jobs.Conservation.{count, held, AreFresh, AreDistinct, run_worker-total}

abbrev message : Text → IngestJobMessage
message job_id = record {
  job_id = job_id;
  collection = codes "exams";
  paper_object_key = codes "papers/2020.pdf";
  parser = cambridge;
  university = codes "cam";
}

abbrev receipt : ℕ → Text
receipt n = n ∷ []

abbrev handle : ℕ → IngestJobMessage → Bool
handle n m = nat_eq n 1

abbrev never : ℕ → Bool
never n = false

abbrev start : WorkerState InMemoryIngestJobQueue
start = record {
  queue = record { pending = message (codes "a") ∷ message (codes "b") ∷ []; in_flight = [] };
  iterations = 0;
  poison = [];
  completed = [];
  failed = [];
  undeleted = [];
}

-- the first job is in flight and the second is done
abbrev stop : WorkerState InMemoryIngestJobQueue
stop = record {
  queue = record { pending = []; in_flight = (receipt 0, message (codes "a")) ∷ [] };
  iterations = 3;
  poison = [];
  completed = message (codes "b") ∷ [];
  failed = message (codes "a") ∷ [];
  undeleted = [];
}

three_iterations : run_worker in_memory receipt handle never 3 start ≡ stop
unfolding run_worker iterate work_on finish_job receive receive_from delete set_item pop text_eq
three_iterations = refl

receipts_distinct : AreDistinct receipt
receipts_distinct j k e = cc

receipts_fresh : AreFresh receipt 0 start.queue
unfolding contains
receipts_fresh k h = refl

run_worker-total_example :
    held (codes "a") (run_worker in_memory receipt handle never 3 start).queue
      + count (codes "a") (run_worker in_memory receipt handle never 3 start).completed
    ≡ held (codes "a") start.queue + count (codes "a") []
run_worker-total_example =
    run_worker-total receipt handle never 3 start (codes "a") receipts_distinct receipts_fresh
