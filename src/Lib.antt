-- ===== src/Lib.antt =====
-- Prompt Flow AI: papers that faculty members send by email are ingested, checked, extracted, routed
-- and stored. This library models the pipeline's own logic.
--
-- The parts, and the files that model them:
-- * module2-email-worker/app (Ingest): `process_single_email` of worker.py and its loop are
--   Ingest/Worker and Ingest/Worker/Email; the domain lock is Ingest/Domain, services/redis_dedup.py
--   is Ingest/Dedup, services/clamav.py is Ingest/Scan, the multipart upload of services/s3_uploader.py is
--   Ingest/Upload, models/events.py is Ingest/Event, and the
--   parsed email, the settings, hashing and redaction are Ingest/Mail.
-- * module3-ai-worker/app (Extract): `process_message` of pipeline.py and its loop are
--   Extract/Pipeline and Extract/Pipeline/Loop; routing/engine.py is Extract/Routing, the cascade of
--   services/extraction is Extract/Cascade and Extract/Tiers, services/verification.py is
--   Extract/Verification, services/directory/service.py is Extract/Directory, and models/schemas.py
--   is Extract/Schemas, Extract/Payload and Extract/Event.
-- * Kafka is the producer that both modules call, with its retry loop: what the attempts meet is a
--   schedule that every theorem leaves open. Redis is the server as a parameter: a service that
--   answers by the documented laws of SETEX, EXISTS and DEL; Redis/Memory is one for runs.
-- * module4-storage/app (Storage): `_build_paper_create` of consumer.py is Storage/Build,
--   `_process_message`, its retry and `run_consumer` are Storage/Consumer; models/schemas.py is
--   Storage/Schemas. The HTTP interface is Storage/Api:
--   Tables has the tables, policies and triggers of migrations/versions/001_initial_schema.py,
--   Context `rls_context` of main.py with database.py, Papers the creation of a paper and
--   Updates its update, with repository/repository.py, Reads the other endpoints, and Steps all of
--   them as steps of the database. A request is a function of the headers, the clock and the new
--   identifier; the rows of a table are a list, and JSON snapshots are the rows themselves. The
--   migration's unique indexes hold the time of creation, those of models/orm.py do not: the
--   interface and the consumer, which inserts by it, follow the migration, which is what is run.
-- * module5-search/app (Search): utils/rrf.py is Search/Rrf, services/search_service.py with the cache
--   of services/redis_service.py is Search/Service, repositories/paper_repository.py is
--   Search/Repository, and auth.py is Search/Access.
-- * module6-reports/app (Reports): `run_generation` of services/report_service.py and its gate are
--   Reports/Generation; what a session sees follows app/database.py. routes/reports.py, auth.py and
--   services/s3_service.py are Reports/Access.
-- * module1-auth/app (Auth): models/jwt.py is Auth/Roles, middleware/ratelimit.py is Auth/RateLimit,
--   services/jwt_service.py, services/audit.py and the caller checks of dependencies.py are
--   Auth/Tokens, its `DBSession` is Auth/Pool, routes/auth.py is Auth/Login, routes/users.py is
--   Auth/Users, and routes/m2m.py and routes/directory.py are Auth/Services. Auth/Steps gathers the
--   endpoints into one step relation.
-- Module 2 publishes an event that module 3 consumes; Ingest/Worker/Email/Built reads the one as the
-- other.
--
-- A handler maps the state before it to its result and the state after it; an exception that leaves it is a
-- value. Clocks, UUIDs, SHA-256, compiled regular expressions, spaCy, HTTP, S3, Bedrock and the
-- ClamAV daemon are parameters, gathered in the record `World` or `Sources` of the module. Texts
-- that the code walks are lists of code points; confidences are counted in hundredths, overall
-- scores in ten-thousandths, and times in seconds. Two loops run on fuel,
-- `stream` of Ingest/Scan and `upload_parts` of Ingest/Upload: the length of the file, with one round
-- more for the second, is enough, since every round takes at least one byte. Polling loops run over a list of polls.
--
-- Not modelled: facets, suggestions and cache invalidation of module 5, the searches of module 4,
-- logging, sleeps, health endpoints, Gmail access and MIME parsing, JSON parsing, the
-- running of migrations, and the infrastructure code.
pub mod Prelude
pub mod Redis
pub mod Kafka
pub mod Http
pub mod Auth
pub mod Extract
pub mod Ingest
pub mod Reports
pub mod Search
pub mod Storage
