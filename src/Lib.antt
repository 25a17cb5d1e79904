-- ===== src/Lib.antt =====
-- Lexicon Revision: search over past exam papers and study answers grounded in what was
-- retrieved.
--
-- The program under src/ answers requests (main.py) from a retrieval collection that it may read
-- (access/), finds chunks of papers (search/), and has a language model write a study answer from
-- them (study/). An offline part cuts papers into chunks (chunking/) and indexes them
-- (ingestion/), for jobs of a queue (jobs/, worker/); artifacts lie in an object store
-- (storage/).
--
-- Prelude holds what the modules share. A `str` is the list of its code points (`Text`), a set is
-- a list, a `dict` an association list, a score (a finite float that the program only compares)
-- is its rank among the finite floats. A `for` loop is a recursion on the list over the record of
-- what the loop changes. Code that may raise returns a `Result`, code that changes a state an
-- `Action`.
--
-- Access (src/access/). Models and Email have the records and errors of models.py, errors.py and
-- email.py. Tables has the tables that repository.py reads and writes and its queries
-- (`has_active_membership`, `ensure_active_membership`, `get_collection_access`,
-- `get_manual_access_override`, `_domain_rule_matches`), Users its
-- `get_or_create_user_for_identity`, Affiliation the `resolve_verified_email` of affiliation.py,
-- and Service the `resolve_identity` and `authorize_collection` of service.py; Listing has the
-- access states that `list_collections` shows. A repository method is one transaction; what it
-- committed stays when a later step raises. The clock, `str.lower` and the new user id are
-- parameters. Not modelled: the other columns of the listings, and the request resolvers of
-- auth.py.
--
-- Study (src/study/). Models and Requests have the records of models.py, planning/models.py,
-- planning/intent.py, reflection.py and of the search result. Validation is validation.py,
-- Packing is packing.py (over an arbitrary estimator, and with the heuristic one). Service has
-- the helpers and, in Responses, the budgets and response builders of service.py. Graph is
-- graph.py: State the `StudyGraphState` and the `World` of calls and log entries, Retrieval the
-- nodes plan, direct_response and retrieve, Reflection grade and reflect, Answering pack,
-- generate, validate and respond, Run the edges and the walk along them, as fuel LangGraph's
-- limit of 25 steps; the longest walk takes 10. Planner is the `_build_plan` of
-- planning/planner.py. The planner, the search, the provider, the clock, the prompt templates
-- (Jinja) and the parsing of JSON (pydantic) are the record `Deps`; a call is numbered, so that
-- it may answer anew each time. What the constructors of pydantic require of a response is asked
-- where a node constructs it; the objects that the code is given satisfy their own constraints.
-- Not modelled: the telemetry, latencies, and the metadata, media and render blocks of a chunk,
-- which the study part hands on.
--
-- Jobs. Queue is jobs/queue.py: the interface that the worker uses and the queue in memory;
-- Worker is the `run_worker` of worker/runner.py over any such queue, the iterations that are
-- left as the recursion. The handler and the stop event are parameters, and so are the receipts
-- (`uuid4()`). Not modelled: the SQS client and what the handler does.
--
-- Search (src/search/, src/metadata_schema/). Schema has the records and the validator of
-- metadata_schema/schema.py and the `build_chunk_metadata` of mapping.py; Filtering is
-- filtering.py; Service is the `search` of pg_service.py with its cache of schemas. The SQL of
-- pg_repository.py, the embedder and the reranker are the record `SearchBackend`. The loop over
-- the rows is a recursion on them. Media is media_refs.py on dictionaries of JSON values, as a
-- table of the fields with their checks; Media/Stored the validator and the materialization of
-- media_sidecar.py, with `presign_get` as a parameter. Not modelled: the repository's SQL, the
-- telemetry, the sidecar's file, and the fields that a result hands on.
--
-- Excerpts. Study/Excerpts is the part of excerpt_blocks.py that cuts a chunk's blocks to the
-- budget; Rendering has the flat text and the inline math of src/rendering/blocks.py, whose fuel
-- is one more than the length of the text: each step takes at least one character.
--
-- Storage (src/storage/). Keys is keys.py, Local is local.py over a disk of files and directories
-- (Disk), Presign the presigned URLs of local.py, with the keyed digest and the escaping of URLs
-- as parameters, Manifest is manifest.py over JSON values. Not modelled: S3, the upload of
-- conversions, and the configuration.
--
-- Web. The routes `/search` and `/study` of src/main.py: Usage has the usage log, Guards what
-- stands before a call of a service, with runtime/limits.py, and Routes the two routes, which
-- have their `try` block in common, with the parts that differ as the record `Route`. The
-- services and the rate limiter are parameters over states of their own; an exception is its
-- kind, an `HTTPException` its status. Access and Search are used as they are modelled. Not
-- modelled: the other routes, the middleware, and the details of a log entry.
--
-- Not modelled: the parsers of chunking/, which rest on regular expressions; ingestion/, which
-- runs a converter; the providers of models, which are HTTP clients; the configuration, which
-- reads environment variables; the tables and migrations of db/; the frontend, infrastructure and
-- scripts.
pub mod Access
pub mod Jobs
pub mod Prelude
pub mod Rendering
pub mod Search
pub mod Storage
pub mod Study
pub mod Web
