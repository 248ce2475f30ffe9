-- ===== src/Lib.antt =====
-- ModelSwitch is a gateway that sends each request for a language model to one of several upstream
-- accounts. This library models its core in src-tauri/src: what a channel is and when it may serve,
-- what a failure or a success does to it, how requests and tokens are limited, what a virtual key may
-- spend, which channel a request is sent to, and how a request is dispatched from its arrival to its
-- response.
--
-- The parts, and the code that each is about:
--   Base            the types and lists that all share, with what is used of Rust's standard library
--   F64             the arithmetic of f64, as a record of functions that the definitions take
--   Glob            channel/mod.rs, matches_glob
--   Channel         channel/mod.rs, the types and the methods of Channel, and the provider's names
--   Manager         channel/manager.rs, ChannelManager: Backoff for the minutes of a breaker, Repeated
--                   for failures in a row, Rotation for get_credential, Breaker for all events, Dispatch
--                   for those of requests
--   Trackers        router/active_requests.rs, router/cooldown.rs and router/latency_tracker.rs
--   RateLimiter     proxy/rate_limiter.rs: Window for BucketedWindow, Channels for RateLimiter, Keys
--                   for KeyRateLimiter
--   Router          router/weighted.rs, router/strategy.rs, router/mod.rs in Select, router/fallback.rs
--                   in Fallback, and router/affinity.rs in Affinity
--   VirtualKey      virtual_key/key.rs, virtual_key/spend.rs in Spend, virtual_key/store.rs in Store
--   RequestCache    proxy/cache.rs, RequestCache and CacheMode, and InFlightRequests in InFlight
--   ProviderBudget  provider_budget.rs
--   Registry        model_registry.rs, ModelRegistry
--   Dispatch        proxy/dispatch.rs, proxy/attempt.rs and the non-streaming part of
--                   proxy/response.rs: Plan for the models, their order and the retries, Select for the
--                   channel of an attempt, State for AppState, Attempt for try_channel_attempt,
--                   Telemetry for the task after a response, Loop for the two loops of dispatch,
--                   Request for dispatch as a whole
--   Samples         the values that the tests of all parts use
-- Router.Select reads a channel through Channel, counts through Trackers and limits through
-- RateLimiter; Manager changes the channels that it reads. Dispatch composes all of them: a request
-- reserves on VirtualKey, looks into RequestCache, walks the chain of Router.Fallback, asks
-- Router.Select for a channel of each attempt, tells Manager and Trackers how the attempt went, and
-- leaves the rest to a task that settles the reservation.
--
-- How the code is read. A method that takes a lock is one step on the state that the lock guards, so
-- that concurrent calls are a sequence of steps in some order. A clock that a method reads is an
-- argument, read once in a call: nanoseconds for chrono and Instant, milliseconds in a window. An
-- unsigned integer of w bits is a native number with its wrap-around or saturation written out, as in
-- a release build. A Uuid is a number, a string is its UTF-8 bytes, an f64 is the number of its bits.
-- A HashMap is an association list; a theorem that speaks of all its values holds for every order of
-- them. An index out of range is `panicked` in get_credential; in a window, where it cannot happen,
-- it changes nothing. The arithmetic of f64, the random generator, the credential store, the lower
-- casing of text, the hash of a key and the replies of Redis are arguments; their laws stand in
-- Floats, Rng and ThresholdExact.
-- Dispatch is about requests that are not streamed. What an attempt meets outside of the state is a
-- record World, one for each attempt by its number: the clocks, the answers of Redis, the estimate of
-- the tokens, the length of the body, and the response of the upstream server with its cost in cents.
-- What other requests do while one waits in the cache is an argument too, and otherwise a request runs
-- alone. The task that a response starts is a value in the state until run_task runs it.
-- All recursion is structural, so there is no fuel: the inner loop of dispatch recurs on the attempts
-- that a model has left, and the outer one on the chain.
--
-- Not modelled: the fields of a channel that no modelled function reads; the panics of chrono for
-- dates out of its range; writing state to files; metrics and logs; the token bucket of
-- proxy/rate_limiter.rs, the 95th percentile of router/latency_tracker.rs and the address lists of
-- virtual_key/key.rs; what proxy/cache.rs makes a key of; streamed responses, the quota store, the
-- rewriting of a request's body and its translation, and the guardrails' rules, of which dispatch only
-- sees the verdict; the header and body fields that a request's session, group and key are read from;
-- and everything over the network, such as health checks and quota collection.
pub mod Base
pub mod Glob
pub mod Channel
pub mod F64
pub mod Samples
pub mod Manager
pub mod Trackers
pub mod RateLimiter
pub mod Router
pub mod VirtualKey
pub mod RequestCache
pub mod ProviderBudget
pub mod Registry
pub mod Dispatch
