-- ===== src/Lib.antt =====
-- Verification of the Salesforce Master Service, which extracts an organization's data from
-- Salesforce in jobs that survive failures, and offers them through a signed HTTP interface.
--
-- The parts and the files that model them:
--   Status: src/app/models/enums.py, the statuses of a job and the valid transitions. Its child
--     Transitions holds the lifecycle as a relation.
--   Job, Session, JobService: src/app/models/job.py and src/app/services/job_service.py. A method
--     takes a context, the state of the session with the number of clock readings so far, and gives
--     it back with its result. The session is a record of the operations that SQLAlchemy offers on
--     the table `jobs`, with its documented behaviour as laws; Session/Memory meets them. Queries
--     holds the methods over many jobs; Steps, Methods, Crashes, Detection, Cleanup, Stops and History the
--     proofs.
--   Errors, Retry: src/app/salesforce/exceptions.py and src/app/resilience/retry.py. An exception is
--     a value. The function that is retried is given by the outcome of each of its calls, the random
--     numbers and the function are parameters. The asynchronous loop runs on fuel, two more than
--     `max_retries`: each round takes one attempt, and the last finds the loop's condition false.
--   Redact, Auth: src/app/salesforce/auth_client.py. Redact has what is taken out of a value before
--     it is logged; JSON inside of a text is scrubbed on fuel, the size of the value's texts. Auth
--     has the token cache, Auth/Grants the requests with their errors, Auth/Client the public
--     methods, which take the cache and give it back. HTTP is given by the outcome of each attempt,
--     `json`, `cryptography` and the file of a key are parameters.
--   BatchApi: src/app/salesforce/batch_api_client.py: BatchApi/Jobs has the requests on one job,
--     BatchApi/Downloads the streams. A generator is what it yields, how it ends, and what it leaves
--     in `last_result_meta`. The loop over the pages runs on fuel: more than there are pages.
--   Hmac: src/app/security/hmac.py. The nonce store and the audit trail are the state; the clock's
--     readings, the settings and the request are arguments, SHA-256 and HMAC-SHA-256 parameters.
--     Hmac/Halves has the two halves of a verification, before and after the wait for the body, and
--     the requests of one process, whose halves come in any order: the nonces of a process are its
--     own, and the Dockerfile starts two. Hmac/Signing has the headers that a client signs.
--   Dlq: src/app/resilience/dlq.py and src/app/models/failed_external_call.py, the redaction of a
--     payload and the row that is written, with what the factory and the session may raise.
--   Normalizers: src/app/normalization/normalizers.py, a record being a dict of `json` values.
--   Flow: what the services share: the world of a request (the jobs, the audit events, the
--     credentials in memory, the tasks started) and steps on it that may raise.
--   Normalization, Extraction: src/app/services/normalization_service.py and
--     src/app/services/extraction_service.py, as flows over the job service. Files, the object
--     storage and the polling service are records of operations that they take.
--   Polling: src/app/services/batch_polling_service.py, which fills the last of these. Its loop runs
--     on fuel: one more than the readings of the clock before the first one past the deadline.
--   Files: src/app/services/batch_file_service.py: the check of a path component and the loop that
--     reads a page of rows. Files/Disk has the files that are saved and removed, Files/Schema the
--     inference of a schema.
--   Config: src/app/core/config.py, the validators of the settings by the names of their methods, and
--     those that a class with several bases is left with.
--   Routes: src/app/api/routes/scan.py and the routes of normalization.py and maintenance.py beside it
--     that change jobs, with the services that each request makes, behind the request signing, and
--     the handler of exceptions of src/app/main.py. Routes/Credentials has
--     src/app/api/routes/credentials.py.
--   Json, Utils: the values of `json`, and src/app/core/utils.py.
--   Base: conditions, comparisons, dicts, lists, text and integers, as Python has them.
--   Tests: each theorem at a concrete input.
-- The job service is used by the extraction and the normalization, the retry loop around the calls
-- of Salesforce, whose failures the exceptions classify, and the routes are behind the request
-- signing.
--
-- Times are microseconds, durations of a delay whole numbers; Python's integers are unbounded, and
-- so are the numbers here. A background workflow runs as a whole between two requests, and a retry is
-- not cancelled while it sleeps. Lower case and the digits of `isdigit` are those of ASCII.
-- Not modelled: the life of the clients' connections (the polling takes the calls of the client as a
-- record), the other routes, the audit's table (its events are kept as a list), the queries to
-- Salesforce, logging, the set-up of FastAPI and SQLAlchemy, and the object storage: text, and calls of
-- other libraries in the main.
mod Base
pub mod Status
pub mod Json
pub mod Utils
pub mod Redact
pub mod Errors
pub mod Retry
pub mod Auth
pub mod BatchApi
pub mod Hmac
pub mod Config
pub mod Job
pub mod Session
pub mod JobService
pub mod Dlq
pub mod Normalizers
pub mod Flow
pub mod Normalization
pub mod Files
pub mod Extraction
pub mod Polling
pub mod Routes
pub mod Tests
