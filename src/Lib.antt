-- ===== src/Lib.antt =====
-- netspy is a crawling framework. A run of it is a loop through a task queue: workers take requests
-- from a collector, which fills itself from the queue; a worker paces itself by the throttle of the
-- domain, downloads, judges the status code, runs the user's callback, and hands new requests to the
-- request buffer, which filters fingerprints and puts the rest into the queue. With Redis many nodes
-- share the queue, the filter and the clock of a domain. A batch spider keeps its tasks in a table with
-- a state column, and a master turns that table into a queue, batch after batch. A scheduler starts the
-- buffers and workers of a node, asks again and again whether the run is over, and when it is, or the
-- time is up, returns or dumps the requests that still wait in the node. Proxies and accounts come from pools that rest an entry
-- which failed.
--
-- Which file models which part, from the repository's root:
--   Request, Request/Codec             netspy/network/request.py: the constructor, to_dict, from_dict, copy
--   TaskQueue/Memory                   netspy/core/task_queue.py: MemoryTaskQueue
--   TaskQueue/Scripts                  the Lua scripts _TAKE_LUA, _RECLAIM_LUA, _RENEW_LUA of that file
--   TaskQueue/Leased                   RedisTaskQueue of that file: _take is `take`, empty is `is_empty`
--   TaskQueue/Operations               its commands as the steps of any number of nodes, with the blocking pop of
--                                      `get` and the lease that follows it apart
--   Collector                          netspy/core/collector.py
--   RequestBuffer                      netspy/buffer/request_buffer.py
--   ItemBuffer, ItemBuffer/Persist     netspy/buffer/item_buffer.py
--   Dedup                              netspy/dedup: lite_filter.py, bloom_filter.py, redis_filter.py (_ADD_LUA)
--   Throttle, Throttle/Global          netspy/network/throttle.py, netspy/network/global_throttle.py
--   Circuit, Status, Exceptions        netspy/network/circuit.py, netspy/network/status.py, netspy/exceptions.py
--   Parser, Parser/Worker              netspy/core/parser_control.py: _fail is `give_up`, _dispatch is
--                                      `dispatch`, one turn of the loop of `run` is `run_one`
--   Batch/Store                        netspy/core/batch_store.py (MemoryBatchStore)
--   Batch/Monitor, Batch/Lock          netspy/core/batch_monitor.py: its rounds, and its lock in Redis
--   Scheduler                          netspy/core/base_scheduler.py, netspy/core/scheduler.py (AirScheduler)
--   Scheduler/Wait                     _wait_until_done of base_scheduler.py
--   Scheduler/Redis                    netspy/core/redis_scheduler.py: the end check of RedisScheduler, and
--                                      `is_task_done`, that of RedisTaskScheduler
--   Scheduler/Shutdown                 _on_shutdown and the heartbeat of redis_scheduler.py, _teardown
--   Scheduler/Replay                   _replay_failed_requests, _seed_requests and _seed_or_skip of both, and
--                                      _poll of netspy/core/redis_task_scheduler.py
--   ProxyPool                          netspy/network/proxy_pool/api.py: the last locked section of get_proxy
--                                      is `take_turn`, the two of _fetch are `begin_fetch` and `refill`
--   UserPool                           netspy/network/user_pool/local.py
--   UserPool/Redis, /Middleware        redis.py and middleware.py beside it: process_request is `mount`
--   Downloader, Downloader/Proxies     netspy/network/downloader/_common.py
--   Waiting                            the bounded wait that _wait_for_user and pick_proxy share
--   Response, AntiBot                  netspy/network/response.py, netspy/network/antibot.py
--   Cache                              netspy/network/cache.py, and download_request of
--                                      netspy/network/downloader/__init__.py
--   Robots, Middleware                 netspy/network/robots.py, netspy/network/middleware.py
--   Alert                              AlertManager of netspy/utils/alert.py
--   RetryCommand                       netspy/commands/retry.py
-- The files below these hold lemmas and are named for what they are about. Base holds shared helpers;
-- Tests and TaskQueue/Tests hold runs on small inputs.
--
-- How code becomes definitions. A method is a function of the object's state that returns the answer
-- and the new state; a section under a lock, and a Redis script, is one atomic step, and concurrent
-- nodes are an explicit sequence of steps. An exception is a value: `raised` of Outcome, or a Boolean
-- that says whether the call returned. Clocks are read at the call and come in as an argument, in
-- milliseconds (seconds in Batch); a random factor is a function. Numbers are natural numbers.
--
-- What is not in the repository is a parameter. Redis is the records `SortedSets`, `BitArrays`, `Cells`
-- and `LockKey` with the documented laws of their commands (Redis/Reference and the tests satisfy them); JSON,
-- base64, str.upper, str.lower, the searches of regular expressions, the digests and the parsers of dates are
-- functions; the user's parser, the middleware and the downloader answer a worker through `Hooks`; logins,
-- robots.txt rules and downloads of the retry command are functions. The size of a Bloom filter, computed in
-- floating point, is a number; the pipelines are the `Sink` of the item buffer.
--
-- Loops go over lists, and _tick, run_one and _poll are single turns of the loops that run until they
-- are stopped. Three loops are on fuel: _wait_until_done and the bounded waits of Waiting, whose fuel is
-- a bound on their time, as a round takes a millisecond or more, and _drain_leftovers, whose fuel is a
-- bound on the length of the queue.
--
-- Not modelled: threads' timers, signals, semaphores, sleeping and logging, SQL, the HTTP clients and the
-- browser, the pipelines, the spiders' configuration, and the command line but for the retry command.
pub mod Base
pub mod Redis
pub mod Request
pub mod TaskQueue
pub mod Collector
pub mod RequestBuffer
pub mod Dedup
pub mod Throttle
pub mod Exceptions
pub mod Circuit
pub mod Status
pub mod Batch
pub mod Tests
pub mod Parser
pub mod ProxyPool
pub mod Scheduler
pub mod UserPool
pub mod RetryCommand
pub mod Response
pub mod AntiBot
pub mod Cache
pub mod Robots
pub mod Waiting
pub mod Downloader
pub mod Alert
pub mod Middleware
pub mod ItemBuffer
