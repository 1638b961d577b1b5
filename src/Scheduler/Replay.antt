-- ===== src/Scheduler/Replay.antt =====
-- How a run starts: the replay of failed requests, the seeds and the seed lock of
-- core/base_scheduler.py and core/redis_scheduler.py, and the poller of core/redis_task_scheduler.py.
-- An exception that leaves one of them ends it; what it has done so far stays.
use netspy.Base.{
  ℕ, zero, suc, ◌+◌, String, Bool, true, false, not, Option, none, some, List, [], ◌∷◌, Outcome,
  returned, raised, if◌then◌else◌, leb,
}
use netspy.Request.{Request}
use netspy.Request.Codec.{from_dict}
use netspy.TaskQueue.Leased.{Json}
use netspy.TaskQueue.Interface.{TaskQueue}
use netspy.RequestBuffer.{Filter, RequestBuffer, put, flush}

-- A place for failed requests and the one that they are moved to while they are replayed: the file and
-- its `.replaying`, or the Redis list and the staging key of the node.
pub record Store : Type 0 where
  pub failed : Option (List String)
  pub staging : Option (List String)

-- `Request.from_dict(tools.loads_json(line))`, none where either raises, as on a blank line
unfoldable pub read_request : Json → String → Option Request
read_request j line = elim (j.loads line) [ none ↦ none | some d ↦ from_dict j.upper d ]

module _ {Q D : Type 0} (T : TaskQueue Q) (F : Filter D) (fingerprint : Request → String)
    (limit : ℕ) (j : Json) where
  abbrev pub Counted : Type 0
  Counted = Bool × ℕ × RequestBuffer Q D

  -- one more request, if its put returned
  abbrev pub one_more : Bool → Counted → RequestBuffer Q D → Counted
  one_more true (ended, count, b'') b' = (ended, suc count, b'')
  one_more false later b' = (false, 0, b')

  -- One line, then the others: the fingerprint of a replayed request is known, so it skips the filter.
  abbrev pub replay_line :
      Option Request → (RequestBuffer Q D → Counted) → RequestBuffer Q D → Counted
  replay_line none again b = again b
  replay_line (some r) again b =
      let (accepted, b') = put T F fingerprint limit (record r { filter_repeat = false }) b in
      one_more accepted (again b') b'

  -- The loop over the lines: whether it ended, the count, and the buffer.
  unfoldable pub replay_lines : List String → RequestBuffer Q D → Counted
  replay_lines [] b = (true, 0, b)
  replay_lines (line ∷ rest) b = replay_line (read_request j line) (replay_lines rest) b

  -- `_replay_failed_requests` of one process. `retries` is RETRY_FAILED_ON_START, `moves` and `reads` say
  -- whether the rename and the reading of the file succeed.
  abbrev pub end_file : List String → Counted → Outcome ℕ × Store × RequestBuffer Q D
  end_file lines (true, count, b) = (returned count, record { failed = none; staging = none }, b)
  end_file lines (false, count, b) = (raised, record { failed = none; staging = some lines }, b)

  abbrev pub replay_staged :
      Bool → List String → RequestBuffer Q D → Outcome ℕ × Store × RequestBuffer Q D
  replay_staged false lines b = (returned 0, record { failed = none; staging = some lines }, b)
  replay_staged true lines b = end_file lines (replay_lines lines b)

  abbrev pub replay_from :
      Bool
      → Bool
      → Option (List String)
      → Store
      → RequestBuffer Q D
      → Outcome ℕ × Store × RequestBuffer Q D
  replay_from moves reads none s b = (returned 0, s, b)
  replay_from moves reads (some lines) s b =
      if moves then replay_staged reads lines b else (returned 0, s, b)

  unfoldable pub replay_failed_requests :
      Bool → Bool → Bool → Store → RequestBuffer Q D → Outcome ℕ × Store × RequestBuffer Q D
  replay_failed_requests retries moves reads s b =
      if retries then replay_from moves reads s.failed s b else (returned 0, s, b)

  -- the end of the distributed one, after the file's `n`: the staging key goes after the flush
  abbrev pub end_list : ℕ → List String → Counted → Outcome ℕ × Store × RequestBuffer Q D
  end_list n lines (false, count, b) = (raised, record { failed = none; staging = some lines }, b)
  end_list n lines (true, count, b) =
      let (flushed, b') = flush T F fingerprint b in
      if flushed
      then (returned (n + count), record { failed = none; staging = none }, b')
      else (raised, record { failed = none; staging = some lines }, b')

  abbrev pub replay_list :
      ℕ → Option (List String) → Store → RequestBuffer Q D → Outcome ℕ × Store × RequestBuffer Q D
  replay_list n none s b = (returned n, s, b)
  replay_list n (some lines) s b = end_list n lines (replay_lines lines b)

  -- `RedisScheduler._replay_failed_requests`, where Redis answers, from what the file's replay left
  unfoldable pub replay_redis :
      Bool → Outcome ℕ → Store → RequestBuffer Q D → Outcome ℕ × Store × RequestBuffer Q D
  replay_redis false file s b = (returned 0, s, b)
  replay_redis true raised s b = (raised, s, b)
  replay_redis true (returned count) s b = replay_list count s.failed s b

  -- the loop of `_seed_requests` over what `start_requests` yields, none where that is no request
  unfoldable pub seed_all : List (Option Request) → RequestBuffer Q D → Bool × ℕ × RequestBuffer Q D
  seed_all [] b = (true, 0, b)
  seed_all (none ∷ rest) b = (false, 0, b)
  seed_all (some r ∷ rest) b =
      let (accepted, b') = put T F fingerprint limit r b in
      let (ended, count, b'') = seed_all rest b' in
      if accepted then (ended, suc count, b'') else (false, 0, b')

  -- `_seed_requests`, after the replay
  unfoldable pub seed_requests :
      Outcome ℕ → List (Option Request) → RequestBuffer Q D → Outcome ℕ × RequestBuffer Q D
  seed_requests raised seeds b = (raised, b)
  seed_requests (returned count) seeds b =
      let (ended, seeded, b') = seed_all seeds b in
      let (flushed, b'') = flush T F fingerprint b' in
      if not ended
      then (raised, b')
      else if flushed
      then (returned (count + seeded), b'')
      else (raised, b'')

  -- `_seed_or_skip`, without the replay that the seeding makes: whether this node got the lock decides
  unfoldable pub seed_or_skip :
      Bool → List (Option Request) → RequestBuffer Q D → Outcome ℕ × RequestBuffer Q D
  seed_or_skip acquired seeds b =
      if not acquired
      then (returned 0, b)
      else if not (T.is_empty b.queue)
      then (returned 0, b)
      else seed_requests (returned 0) seeds b

  -- One task of `_poll`: its requests up to an exception, of `task_requests` or of the buffer.
  unfoldable pub poll_task : List (Option Request) → RequestBuffer Q D → ℕ × RequestBuffer Q D
  poll_task [] b = (0, b)
  poll_task (none ∷ rest) b = (0, b)
  poll_task (some r ∷ rest) b =
      let (accepted, b') = put T F fingerprint limit r b in
      let (count, b'') = poll_task rest b' in if accepted then (suc count, b'') else (0, b')

  unfoldable pub poll_tasks : List (List (Option Request)) → RequestBuffer Q D → RequestBuffer Q D
  poll_tasks [] b = b
  poll_tasks (task ∷ rest) b = poll_tasks rest (poll_task task b).1

-- `_TaskPoller`
pub record Poller : Type 0 where
  pub exhausted : Bool
  pub empty_polls : ℕ

-- What a poll makes of the poller: `fetched` is how many tasks came, none where the fetch raised;
-- `polls` is TASK_EXHAUST_POLLS.
unfoldable pub poll : ℕ → Option ℕ → Poller → Poller
poll polls none p = p
poll polls (some zero) p =
    if leb polls (p.empty_polls + 1)
    then record { exhausted = true; empty_polls = p.empty_polls + 1 }
    else record p { empty_polls = p.empty_polls + 1 }
poll polls (some (suc n)) p = record { exhausted = false; empty_polls = 0 }
