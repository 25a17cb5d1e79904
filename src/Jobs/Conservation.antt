-- ===== src/Jobs/Conservation.antt =====
-- The jobs that the queue of src/jobs/queue.py holds while src/worker/runner.py runs.
use lexicon_revision.Prelude.{
  ℕ, zero, suc, ◌+◌, ◌≤◌, Text, text_HasEq, text_eq, text_eq_iff, text_eq_comm, ◌==◌, contains, map,
  Bool, false, Bool-cases, Option, some, List, [], ◌∷◌, ◌++◌, ◌≡◌, refl, ap, ◌∙◌, inl, inr, ok,
  if◌then◌else◌, arith,
}
use lexicon_revision.Jobs.Queue.{
  IngestJobMessage, ReceivedJob, InMemoryIngestJobQueue, set_item, pop, receive_from, receive,
  requeue_in_flight, in_flight_count, delete, in_memory,
}
use lexicon_revision.Jobs.Worker.{WorkerState, finish_job, work_on, iterate, run_worker}

abbrev pub keys : List (Text × IngestJobMessage) → List Text
keys items = map (λ item. item.0) items

abbrev pub messages : List (Text × IngestJobMessage) → List IngestJobMessage
messages items = map (λ item. item.1) items

-- how many messages of the list are of the job
unfoldable pub count : Text → List IngestJobMessage → ℕ
count job_id [] = 0
count job_id (m ∷ ms) = (if m.job_id == job_id then 1 else 0) + count job_id ms

count-append :
    (j : Text) (ms ns : List IngestJobMessage) → count j (ms ++ ns) ≡ count j ms + count j ns
unfolding count
count-append j [] ns = omega arith
count-append j (m ∷ ms) ns = omega (arith, count-append j ms ns)

set_item_fresh :
    (key : Text) (m : IngestJobMessage) (items : List (Text × IngestJobMessage))
    → contains (keys items) key ≡ false
    → set_item key m items ≡ items ++ (key, m) ∷ []
unfolding set_item contains
set_item_fresh key m [] h = refl
set_item_fresh key m (item ∷ items) h =
    ground (arith, text_eq_comm key item.0, set_item_fresh key m items)

pop_fresh :
    (key : Text) (m : IngestJobMessage) (items : List (Text × IngestJobMessage))
    → contains (keys items) key ≡ false
    → pop key (items ++ (key, m) ∷ []) ≡ items
unfolding pop contains
pop_fresh key m [] h = ground (arith, text_eq_iff key key)
pop_fresh key m (item ∷ items) h = ground (arith, text_eq_comm key item.0, pop_fresh key m items)

-- how often the queue holds the job, waiting or in flight
unfoldable pub held : Text → InMemoryIngestJobQueue → ℕ
held j q = count j q.pending + count j (messages q.in_flight)

messages-append :
    (xs ys : List (Text × IngestJobMessage)) → messages (xs ++ ys) ≡ messages xs ++ messages ys
messages-append [] ys = refl
messages-append (x ∷ xs) ys = ap (λ (l : List IngestJobMessage). x.1 ∷ l) (messages-append xs ys)

contains-keys_append :
    (xs : List (Text × IngestJobMessage)) (key other : Text) (m : IngestJobMessage)
    → text_eq other key ≡ false
    → contains (keys (xs ++ (key, m) ∷ [])) other ≡ contains (keys xs) other
unfolding contains
contains-keys_append [] key other m h = ground arith
contains-keys_append (x ∷ xs) key other m h = ground (arith, contains-keys_append xs key other m)

-- the receipts from the `n`-th on are not in use
abbrev pub AreFresh : (ℕ → Text) → ℕ → InMemoryIngestJobQueue → Type 0
AreFresh receipts n q = (k : ℕ) → n ≤ k → contains (keys q.in_flight) (receipts k) ≡ false

abbrev pub AreDistinct : (ℕ → Text) → Type 0
AreDistinct receipts = (j k : ℕ) → receipts j ≡ receipts k → j ≡ k

module _ (receipts : ℕ → Text) (handle : ℕ → IngestJobMessage → Bool) (stopped : ℕ → Bool) where
  abbrev total : Text → WorkerState InMemoryIngestJobQueue → ℕ
  total j s = held j s.queue + count j s.completed

  -- one iteration: what it does to the job, and which receipts stay fresh
  abbrev IsKept : WorkerState InMemoryIngestJobQueue → WorkerState InMemoryIngestJobQueue → Type 0
  IsKept s t =
      (t.iterations ≡ suc s.iterations)
      × ((j : Text) → total j t ≡ total j s)
      × AreFresh receipts (suc s.iterations) t.queue

  module _ (s : WorkerState InMemoryIngestJobQueue) (m : IngestJobMessage)
      (rest : List IngestJobMessage) where
    abbrev key : Text
    key = receipts s.iterations

    abbrev job : ReceivedJob
    job = record { message = m; receipt = key }

    -- the state behind the receipt of the first job
    abbrev moved : List (Text × IngestJobMessage) → WorkerState InMemoryIngestJobQueue
    moved items = record s {
      queue = record { pending = rest; in_flight = items };
      iterations = suc s.iterations;
    }

    receive-eq :
        s.queue.pending ≡ m ∷ rest
        → contains (keys s.queue.in_flight) key ≡ false
        → receive key s.queue
          ≡ (some job, record { pending = rest; in_flight = s.queue.in_flight ++ (key, m) ∷ [] })
    unfolding receive receive_from
    receive-eq e fresh =
        simp (receive, receive_from, e, set_item_fresh key m s.queue.in_flight fresh)

    iterate-eq :
        s.queue.pending ≡ m ∷ rest
        → contains (keys s.queue.in_flight) key ≡ false
        → iterate in_memory receipts handle stopped s ≡ (
            if handle s.iterations m
            then finish_job in_memory receipts handle stopped job
                (moved (s.queue.in_flight ++ (key, m) ∷ []))
            else record (moved (s.queue.in_flight ++ (key, m) ∷ [])) {
              failed = s.failed ++ m ∷ [];
            })
    unfolding iterate work_on
    iterate-eq e fresh =
        ap
          (λ (r : Option ReceivedJob × InMemoryIngestJobQueue).
            work_on in_memory receipts handle stopped s.iterations (ok r.0)
              (record s { queue = r.1; iterations = suc s.iterations }))
          (receive-eq e fresh)

    -- the job is gone from the queue once it is completed
    finish_job-eq :
        contains (keys s.queue.in_flight) key ≡ false
        → finish_job in_memory receipts handle stopped job
            (moved (s.queue.in_flight ++ (key, m) ∷ []))
          ≡ record (moved s.queue.in_flight) { completed = s.completed ++ m ∷ [] }
    unfolding finish_job delete
    finish_job-eq fresh =
        ap
          (λ (items : List (Text × IngestJobMessage)). record (moved items) {
            completed = s.completed ++ m ∷ [];
          })
          (pop_fresh key m s.queue.in_flight fresh)

    total_completed :
        (j : Text)
        → s.queue.pending ≡ m ∷ rest
        → total j (record (moved s.queue.in_flight) { completed = s.completed ++ m ∷ [] })
          ≡ total j s
    unfolding held count
    total_completed j e = rw (held, e) (omega (arith, count-append j s.completed (m ∷ [])))

    total_failed :
        (j : Text)
        → s.queue.pending ≡ m ∷ rest
        → total j
            (record (moved (s.queue.in_flight ++ (key, m) ∷ [])) { failed = s.failed ++ m ∷ [] })
          ≡ total j s
    unfolding held count
    total_failed j e =
        rw (held, e, messages-append s.queue.in_flight ((key, m) ∷ []))
          (omega (arith, count-append j (messages s.queue.in_flight) (m ∷ [])))

  IsKept-iterate :
      (s : WorkerState InMemoryIngestJobQueue)
      → AreDistinct receipts
      → AreFresh receipts s.iterations s.queue
      → IsKept s (iterate in_memory receipts handle stopped s)
  unfolding iterate work_on receive receive_from
  IsKept-iterate s d f = go s.queue.pending refl
    where
      later : AreFresh receipts (suc s.iterations) s.queue
      later k h = f k (omega arith)

      fresh : contains (keys s.queue.in_flight) (receipts s.iterations) ≡ false
      fresh = f s.iterations (omega arith)

      apart : (k : ℕ) → suc s.iterations ≤ k → text_eq (receipts k) (receipts s.iterations) ≡ false
      apart k h = elim (Bool-cases (text_eq (receipts k) (receipts s.iterations))) [
        | inr q ↦ q
        | inl q ↦
            absurd (
              too_early (d k s.iterations ((text_eq_iff (receipts k) (receipts s.iterations)).0 q)))
      ]
        where
          too_early : k ≡ s.iterations → ⊥
          too_early q = omega arith

      go :
          (p : List IngestJobMessage)
          → s.queue.pending ≡ p
          → IsKept s (iterate in_memory receipts handle stopped s)
      go [] e = simp (iterate, receive, receive_from, e) (refl, λ j. refl, later)
      go (m ∷ rest) e = elim (Bool-cases (handle s.iterations m)) [
        | inl q ↦
            rw (iterate-eq s m rest e fresh, q, finish_job-eq s m rest fresh)
              (refl, λ j. total_completed s m rest j e, later)
        | inr q ↦
            rw (iterate-eq s m rest e fresh, q)
              (
                refl,
                λ j. total_failed s m rest j e,
                λ k h.
                    contains-keys_append s.queue.in_flight (receipts s.iterations) (receipts k) m
                      (apart k h)
                    ∙ f k (omega arith),
              )
      ]

  -- If the receipts are fresh and distinct, then after any number of iterations every job is in the
  -- queue or completed, taken together, exactly as often as before: none is lost or doubled, and none
  -- leaves the queue but by completion.
  pub run_worker-total :
      (left : ℕ) (s : WorkerState InMemoryIngestJobQueue) (job_id : Text)
      → AreDistinct receipts
      → AreFresh receipts s.iterations s.queue
      → held job_id (run_worker in_memory receipts handle stopped left s).queue
          + count job_id (run_worker in_memory receipts handle stopped left s).completed
        ≡ held job_id s.queue + count job_id s.completed
  unfolding run_worker
  run_worker-total zero s j d f = refl
  run_worker-total (suc left) s j d f = elim (Bool-cases (stopped s.iterations)) [
    | inl q ↦ rw (run_worker, q) refl
    | inr q ↦ rw (run_worker, q) (run_worker-total left t j d fresh ∙ step.1 j)
  ]
    where
      t : WorkerState InMemoryIngestJobQueue
      t = iterate in_memory receipts handle stopped s

      step : IsKept s t
      step = IsKept-iterate s d f

      fresh : AreFresh receipts t.iterations t.queue
      fresh k h = step.2 k (rw (← step.0) h)

-- The expiry of the timeouts makes every job in flight available again: each job is held as often as
-- before, and none is in flight.
pub requeue_in_flight-held :
    (q : InMemoryIngestJobQueue) (job_id : Text)
    → (held job_id (requeue_in_flight q) ≡ held job_id q)
      × (in_flight_count (requeue_in_flight q) ≡ 0)
unfolding held requeue_in_flight in_flight_count count
requeue_in_flight-held q j = (omega (arith, count-append j q.pending (messages q.in_flight)), refl)
