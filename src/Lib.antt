-- ===== src/Lib.antt =====
-- PGVectorRAGIndexer: the server side of a document indexer and search service. Documents are cut
-- into chunks, which PostgreSQL keeps (the table document_chunks) and from which an index in
-- LanceDB is derived. Around that store stand the parts that decide who may do what: API keys,
-- users and roles, the visibility of documents and grants of collections, locks of documents, the
-- quarantine of documents whose file is gone, the rate limit, and the license.
--
-- The parts and the files that model them (paths from the root of the repository):
-- - Locks: document_locks.py. The table document_locks is a list of rows; acquire_lock,
--   release_lock, check_lock and the others are functions from the table to an answer and the
--   table after it.
-- - Roles: role_permissions.py. A Store holds the table roles, the JSON file and the cache;
--   load_role_config reads them in the order of the code.
-- - Users: users.py. ApiKeys: the table part of auth.py. Auth: the dependencies of auth.py that
--   admit a request, from require_api_key to require_admin.
-- - Chunks: the row of document_chunks. Visibility: document_visibility.py. Quarantine:
--   quarantine.py. Grants: collection_grants.py.
-- - Readiness: the globals, the readiness check and the repair thread of retriever_v2.py.
--   Writes: indexing_write_transaction.py with the calls of DocumentRepository in database.py
--   that it makes.
-- - Paths: path_utils.py. CanonicalIdentity: canonical_identity.py.
-- - RateLimit: rate_limit.py (the limiter, RateLimit/Paths and RateLimit/Middleware).
-- - License: license.py and license_utils.py.
-- - WatchedFolders: the table part of watched_folders.py, with WatchedFolders/Updates for the
--   settings and scan marks and WatchedFolders/Transitions for transition_scope. Scan:
--   scan_folder of that file, with what it does after the last file. IndexingRuns:
--   indexing_runs.py.
-- - Indexer: indexer_v2.py (index_document and index_batch) with get_document_by_id of
--   database.py.
-- - Scheduler: server_scheduler.py; Scheduler/Cron reads the schedules, and Scheduler/Lease is
--   the advisory lock of several replicas.
-- - DocumentTree: get_tree_children of document_tree.py, one level of the folders that the paths
--   of the documents form.
-- - ServerSettings: server_settings_store.py, the table server_settings with the license keys
--   that an administrator stacks.
-- - VirtualRoots: virtual_roots.py, the table virtual_roots and the resolution of virtual paths
--   on a POSIX system.
-- - Retention: apply_retention of retention_policy.py (apply_policy), with the deletions of
--   activity_log.py and saml_auth.py; those of the quarantine and of the indexing runs are in
--   Quarantine and IndexingRuns.
-- - Base and Sql hold what the parts share: equality and tests, texts, and the statements of SQL
--   with their three truth values.
--
-- How the parts interact: Auth resolves a key by ApiKeys, the user of the key by Users and the
-- permissions of the user by Roles; Visibility and Grants do the same for search. Quarantine,
-- Visibility and Writes work on the same rows of Chunks. A write announces itself to Readiness,
-- which serves the index only in between. The scheduler lists the folders of WatchedFolders that
-- are due and hands each to Scan, which calls Indexer for every file, Indexer calls Writes, and
-- after the files Scan sets the keys of CanonicalIdentity and the marks of Quarantine.
--
-- Conventions. A function of the code that changes a table takes the table and returns the new
-- one. Link says for each call whether the database answers: `down` is the exception of the call,
-- after which the transaction is rolled back and the table is as before. Time is a number of
-- seconds. Ids, hashes and random values are arguments. Texts of messages and the order of
-- listings are left out. Where the order of rows decides what `fetchone` gives, it is the order of
-- the list.
--
-- Bounds and fuel: the only loop on fuel is the collapse of doubled slashes in CanonicalIdentity;
-- its fuel is the number of characters, and CanonicalIdentity/Collapse shows that this is enough,
-- since each turn shortens the text.
--
-- Outside the model: PostgreSQL, LanceDB, FastAPI, PyJWT and SHA-256 themselves; concurrency
-- inside one call (each call is one step, so that runs are sequences of calls); the desktop
-- application, the routers, the scripts, the migrations, the document parsers and embedding
-- models, SCIM and SAML; and the maintenance loop and the ranking of search results. Files, the
-- embedding service and the JSON of the metadata are arguments.
pub mod Base
pub mod Sql
pub mod Locks
pub mod Roles
pub mod Users
pub mod ApiKeys
pub mod Auth
pub mod Chunks
pub mod Visibility
pub mod Quarantine
pub mod Grants
pub mod Readiness
pub mod Writes
pub mod Paths
pub mod CanonicalIdentity
pub mod RateLimit
pub mod License
pub mod WatchedFolders
pub mod Indexer
pub mod IndexingRuns
pub mod Scan
pub mod Scheduler
pub mod DocumentTree
pub mod ServerSettings
pub mod VirtualRoots
pub mod Retention
