-- ===== src/Jobs/Queue.antt =====
-- src/jobs/models.py and src/jobs/queue.py. A receipt is the `uuid4()` that a call of `receive` draws.
use lexicon_revision.Prelude.{
  ℕ, Text, text_HasEq, ◌==◌, length, map, Bool, true, Option, none, some, List, [], ◌∷◌, ◌++◌,
  Result, ok, if◌then◌else◌,
}

pub data ParserName : Type 0 where
  cambridge uoe : ParserName

-- without `schema_version`, which is constant, and the time of the enqueuing
pub record IngestJobMessage : Type 0 where
  pub job_id : Text
  pub collection : Text
  pub paper_object_key : Text
  pub parser : ParserName
  pub university : Text

pub record ReceivedJob : Type 0 where
  pub message : IngestJobMessage
  pub receipt : Text

-- `IngestJobDecodeError`
pub record DecodeError : Type 0 where
  pub receipt : Text

-- What the worker uses of a queue with the state `Q`; `receive` draws the receipt, if it needs one.
pub record IngestJobQueue (Q : Type 0) : Type 0 where
  pub receive : Text → Q → Result DecodeError (Option ReceivedJob) × Q
  pub delete : Text → Q → Bool × Q

pub record InMemoryIngestJobQueue : Type 0 where
  pub pending : List IngestJobMessage
  pub in_flight : List (Text × IngestJobMessage)

-- `d[key] = value` of a `dict`
unfoldable pub set_item :
    Text → IngestJobMessage → List (Text × IngestJobMessage) → List (Text × IngestJobMessage)
set_item key value [] = (key, value) ∷ []
set_item key value (item ∷ items) =
    let rest = set_item key value items in
    if item.0 == key then (key, value) ∷ items else item ∷ rest

-- `d.pop(key, None)`
unfoldable pub pop : Text → List (Text × IngestJobMessage) → List (Text × IngestJobMessage)
pop key [] = []
pop key (item ∷ items) = let rest = pop key items in if item.0 == key then items else item ∷ rest

unfoldable pub enqueue : IngestJobMessage → InMemoryIngestJobQueue → InMemoryIngestJobQueue
enqueue message q = record q { pending = q.pending ++ message ∷ [] }

-- behind `if not self._pending`
unfoldable pub receive_from :
    Text
    → InMemoryIngestJobQueue
    → List IngestJobMessage
    → Option ReceivedJob × InMemoryIngestJobQueue
receive_from receipt q [] = (none, q)
receive_from receipt q (message ∷ rest) = (
  some (record { message = message; receipt = receipt }),
  record { pending = rest; in_flight = set_item receipt message q.in_flight },
)

unfoldable pub receive : Text → InMemoryIngestJobQueue → Option ReceivedJob × InMemoryIngestJobQueue
receive receipt q = receive_from receipt q q.pending

unfoldable pub delete : Text → InMemoryIngestJobQueue → InMemoryIngestJobQueue
delete receipt q = record q { in_flight = pop receipt q.in_flight }

-- what the expiry of all visibility timeouts does
unfoldable pub requeue_in_flight : InMemoryIngestJobQueue → InMemoryIngestJobQueue
requeue_in_flight q = record {
  pending = q.pending ++ map (λ item. item.1) q.in_flight;
  in_flight = [];
}

unfoldable pub in_flight_count : InMemoryIngestJobQueue → ℕ
in_flight_count q = length q.in_flight

-- neither operation of the queue in memory raises
abbrev pub in_memory : IngestJobQueue InMemoryIngestJobQueue
in_memory = record {
  receive = λ receipt q. (let (job, r) = receive receipt q in (ok job, r));
  delete = λ receipt q. (true, delete receipt q);
}
