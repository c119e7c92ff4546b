-- ===== src/Lib.antt =====
-- Cobrust Studio: the router of completions, the tools of the agent loop, the session and the records.
--
-- The program is a local server. `crates/studio-router` sends a completion request to one of several
-- providers, with a cache on disk, retries and a ledger of every attempt; `crates/studio-server` has
-- the HTTP routes and a bounded agent loop that lets a model call tools in the project; and
-- `crates/studio-store` keeps an index of the project's records.
--
-- Files and the code that they model:
--   * Provider.antt: crates/studio-router/src/provider.rs, the types of a completion and the
--     classification of errors.
--   * Config.antt, Config/: crates/studio-router/src/config.rs, the configuration, `ProviderModel::parse`
--     (`parse`) and `RouterConfig::validate` (`validate`).
--   * Ledger.antt, Ledger/Log.antt: crates/studio-router/src/ledger.rs, the records with their
--     constructors, and the file with one record on a line, whose writes may be cut short.
--   * Adapter.antt, Adapter/: crates/studio-router/src/anthropic.rs and crates/studio-router/src/openai.rs.
--     `new`, `build_body`, `complete` and `complete_stream` are in Adapter/Anthropic.antt and
--     Adapter/OpenAi.antt; Adapter.antt has the loops over the pieces and the frames of a stream, which
--     the two have in common, and an HTTP client as a parameter.
--   * Host.antt, Files.antt: what the router runs on. `Host` has the clock, the random numbers, the
--     floats, the providers and a fault oracle that each file operation asks first.
--   * Cache.antt, Cache/: crates/studio-router/src/cache.rs. `Cache::get` and `Cache::put` are
--     `cache_get` and `cache_put`, step by step on a disk; the digest and the JSON codec are the
--     parameter `Codec`.
--   * Router.antt, Router/: crates/studio-router/src/router.rs. `try_provider` is
--     `RouterHandle::try_provider`, its loop is `attempts` and one round of it `turn`; `walk` and
--     `dispatch_ctx` are the functions over the preferred models; Router/Policy.antt has the retry
--     policy, the latency table and the order; Router/Builder.antt has `RouterBuilder::build`.
--   * Agent.antt, Agent/: crates/studio-server/src/agent_loop.rs, the tool policy, the reader of the
--     model's directives, the path guards and the cut of a command's output. System.antt has what the
--     tools run on, Tools.antt, Tree.antt and Execute.antt the tools and `execute_tool`.
--   * Agent/Turn.antt, Agent/Turn/: crates/studio-server/src/routes/agent_turn.rs, the check of a request
--     (`validate_request`) and the loop (`run_loop`); a turn takes the router by its dispatch.
--   * Store.antt, Store/Session.antt, Routes.antt: the errors of crates/studio-store and of the routes, and
--     crates/studio-store/src/session.rs over its table.
--   * Secret.antt, Secret/: crates/studio-server/src/secret.rs. `SessionKey::derive`, `SessionKey::seal` and
--     `SessionKey::open` are `derive`, `seal` and `open_blob`.
--   * Persist.antt, Persist/: crates/studio-server/src/persist.rs, the three backends of the passphrase.
--   * Login.antt, Login/: crates/studio-server/src/routes/login.rs, the handlers on the state of the server;
--     Login/Boot.antt has `auto_unlock_on_boot` and `inject_dev_key` of crates/studio-server/src/lib.rs.
--   * Store/Documents.antt, Store/Markdown.antt, Store/Yaml.antt, Store/Slug.antt, Store/Adr.antt and
--     Store/Finding.antt: crates/studio-store/src/adr.rs and crates/studio-store/src/finding.rs. What the
--     two have in common, `reindex`, `get` and the end of `create`, is stated for a `Kind` of document.
--   * Store/View.antt, Store/View/: crates/studio-store/src/ledger.rs, the view of the router's ledger.
--   * Store/Watch.antt, Store/Watch/: crates/studio-store/src/watch.rs, the callback with its channel
--     (`on_notify`) and the stream that debounces (`poll_next`); `run` is a sequence of both.
--   * Store/Root.antt, Store/Root/: crates/studio-store/src/lib.rs, `Store::open` as `open_store`.
--   * RouterInit.antt, RouterInit/: crates/studio-server/src/router_init.rs, the router at the start, and
--     Synthetic.antt: crates/studio-server/src/synthetic.rs.
--   * Models.antt, Models/, Auth.antt, Auth/ and Api.antt, Api/: the handlers of models.rs, of auth.rs, and
--     of adr.rs, finding.rs, ledger.rs and events.rs in crates/studio-server/src/routes. Api.antt has the
--     envelopes of crates/studio-server/src/sse.rs, too.
--   * Dispatch.antt, Dispatch/: crates/studio-server/src/routes/dispatch.rs; `dispatch_sse` takes the router
--     by its dispatch, and returns the events of its stream.
--   * Steps.antt: the sequence of steps with early returns that these parts are written in.
--   * Json.antt, Base.antt, Base/: values of JSON, and shared types and lemmas.
--   * Tests.antt, Tests/: runs on concrete data.
--
-- How the parts interact: a login derives a key, checks it on the blob of the session store, seals the
-- secret under it, writes the blob, and gives the passphrase to the backend, from which the next start
-- derives the key again. `try_provider` asks the cache, then calls the provider, stores the answer,
-- updates the latency table and appends to the ledger, in the order of the source. What happened
-- before an error stays, so each operation returns its state beside the result. A store that is opened
-- indexes the documents and then the file that the router writes. The state also lists
-- the calls of providers and the sleeps, in order.
--
-- Bounds and fuel: the inner loop over the frames of a stream runs on the length of its buffer, since a
-- frame takes two characters at least (`drain-fuel` in Adapter/Frames.antt). `project_tree` runs on 10002 rounds, one more than its limit of entries and the root
-- need; a turn has one round for each of its iterations, 16 at most. The retry loop runs
-- on 256 rounds: the limit of attempts is a `u8`, and the attempt number is one, so it ends within them.
-- The strides of a short answer run on the number of its characters, since a stride is one at least. A
-- number is printed on 20 rounds, the digits of a `u64`. A `u32` or `u64` is a number with its cut or
-- saturation written out. A text is the list of its code points, and a place that counts bytes adds the
-- lengths in UTF-8. The row ids of SQLite are natural numbers, since no statement writes a negative one.
--
-- Not modelled: concurrent requests (each has the state for itself), the start of the server with its
-- arguments, its static files, the health, version and project routes, the desktop shell and the front
-- end. HTTP, notify, TOML, YAML, JSON text, base64, SQLite, Argon2id, AES-GCM, blake3, floats, random
-- numbers and symbolic links belong to libraries and to the system, and are parameters. While a reindex
-- runs, nothing else writes the files that it reads. A piece of a stream is decoded as a whole by a
-- parameter, as the code does it, so what a character that is cut becomes is left open.
pub mod Adapter
pub mod Base
pub mod Json
pub mod Provider
pub mod Config
pub mod Ledger
pub mod Host
pub mod Files
pub mod Cache
pub mod Router
pub mod Agent
pub mod Store
pub mod Steps
pub mod Routes
pub mod Secret
pub mod Persist
pub mod Login
pub mod Dispatch
pub mod Auth
pub mod Api
pub mod Synthetic
pub mod RouterInit
pub mod Models
pub mod Tests
