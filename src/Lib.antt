-- ===== src/Lib.antt =====
-- A model of the server of Secure Messenger (app/): the API that stores accounts, chats, media and
-- opaque MLS messages in PostgreSQL and tells connected devices about changes.
--
-- The parts and their files:
--   Prelude     texts as code points, tables as lists of rows, and the lemmas on both
--   Model       app/models.py: a record for each table, and the database `Db` with the counters that
--               hand out integer keys; Model/Samples holds small tables for tests
--   Http        app/dependencies.py `get_db`: a handler is an action on a database session, with the
--               committed tables and the session's own copy, that ends with a value, an HTTP error or
--               another exception; `handle` runs one request. Http/Ends has a rule for each statement
--               that carries a predicate from the start of a handler to its end
--   Queries     SELECT statements that several routers share
--   Serializers app/services/serializers.py
--   Uploads     app/services/uploads.py: the checks on images and avatars
--   Chats       app/routers/chats.py: Direct, Groups and Invitations hold the handlers; Effects says
--               what each does to the tables; Valid is the invariant of the chat tables; Requests
--               serves any of the requests, and Ownership proves the invariant for them; Demotion is
--               the one request that breaks it; Expiry is about invitations past their time;
--               Listings are the requests that only read
--   E2ee        app/routers/e2ee.py: Envelopes (publishing and listing), KeyPackages (uploading and
--               claiming), Identity (identity keys and security events), Directory (the listings of
--               devices and identities)
--   Services    app/services/: SessionStore, Realtime and RateLimit, each with its state in memory;
--               RateLimit/RedisCounters is the limiter with Redis,
--               SessionStore/Contract is what a session store promises, and RedisStore the variant of
--               the session store that keeps its state in Redis. Realtime/Endpoint and Sockets are the
--               WebSocket endpoint of app/routers/realtime.py; ObjectStorage is what a storage
--               promises and the storage on local files
--   Core        app/core/: Metrics, the counters of the process, Settings, the tests of the
--               settings before the server starts, and ProxyHeaders
--   Auth        app/auth.py (Passwords), app/dependencies.py (Dependencies) and app/routers/auth.py:
--               Registration (register and its search for a free username),
--               Tokens (login, refresh and logout on the rows), Devices (revocation, with the stores)
--               Requests (the requests on tokens with the limiter and the session store)
--               and Twofa, which is app/twofa.py
--   Users       app/routers/users.py: Profiles, Blocks and Search
--   Media       app/routers/media.py: Attachments (quota and access), Objects (their bytes in the
--               object storage) and Stickers (packs, positions, subscriptions and listings)
--
-- Correspondence: a handler keeps the name of the Python function, and its statements stand in the
-- order of the source. `raise HTTPException` is `raise_if` or `or_raise`; session.add, delete and
-- assignments to rows are `modify`; a `commit` that meets a unique index is written as the test of
-- the index, and `interleave` marks where commits of other sessions matter: they are a parameter.
-- Uuids, token digests and SHA-256 are parameters or numbers, since the code only compares them.
-- Times are microseconds in ℕ and the integers of the source are unbounded, so there is no
-- wrap-around. Every loop is over a list but the search for a free username, whose fuel is two more
-- than there are users: each turn but the last rules out another user.
--
-- Not modelled: the Redis variant of the connections, S3, the wiring in app/main.py, the reading of
-- the settings from the environment, the migrations, the checks of request bodies by pydantic, the
-- frontend.
pub mod Prelude
pub mod Model
pub mod Http
pub mod Queries
pub mod Serializers
pub mod Uploads
pub mod Chats
pub mod E2ee
pub mod Services
pub mod Auth
pub mod Core
pub mod Users
pub mod Media
