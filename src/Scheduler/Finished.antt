-- ===== src/Scheduler/Finished.antt =====
-- What a node of several has seen when it decides that the run is done.
use netspy.Base.{
  ap, ltb, ℕ, String, ◌≡◌, refl, Bool, true, false, not, Option, none, some, List, [], ◌∷◌, length,
  all, All, arith, if◌then◌else◌, String_eq, Bool-cases, inl, inr, sym, ◌∙◌, subst,
}
use netspy.Base.Dict.{Dict, lookup}
use netspy.Redis.Rows.{Rows}
use netspy.Redis.SortedSet.{SortedSets}
use netspy.TaskQueue.Scripts.{Tables}
use netspy.TaskQueue.Keys.{score}
use netspy.TaskQueue.Leased.{Json, is_empty, qsize, inflight_count, reclaim_expired}
use netspy.Collector.{is_nil, is_empty as is_idle}
use netspy.Scheduler.{Node, local_idle}
use netspy.Scheduler.Redis.{
  Settings, Numbers, Reading, RedisNode, redis_queue, is_working, none_working, all_nodes_idle,
  in_startup_grace, with_tables, check_idle, is_done, is_task_done,
}

abbrev pub entries : Option (Dict String String) → Dict String String
entries none = []
entries (some es) = es

-- Nothing is left to do here; the queue was empty in the tables `seen`, nothing was in flight when that was read,
-- and no live heartbeat told of a pending request.
pub record IsQuiet (S : SortedSets) (s : Settings) (p : Numbers) (r : Reading) (seen : Tables S.Z)
    (n : RedisNode S.Z) : Type 0 where
  pub no_requests : n.node.pending ≡ []
  pub no_items : n.node.items ≡ []
  pub none_buffered : n.node.buffered ≡ []
  pub none_in_progress : n.node.in_progress ≡ []
  pub no_worker : all (λ b. not b) n.node.busy ≡ true
  pub none_queued : (m : String) → score S m seen.queue ≡ none
  pub none_in_flight : (m : String) → score S m n.node.queue.inflight ≡ none
  pub none_elsewhere : All (λ e. is_working s p r.now e.1 ≡ false) (entries r.heartbeats)

is_nil_lem {ℓ} : {A : Type ℓ} (xs : List A) → is_nil xs ≡ true → xs ≡ []
is_nil_lem [] h = refl
is_nil_lem (x ∷ xs) h = cc

none_working_lem :
    (s : Settings) (p : Numbers) (now : ℕ) (es : Dict String String)
    → none_working s p now es ≡ true
    → All (λ e. is_working s p now e.1 ≡ false) es
unfolding none_working
none_working_lem s p now [] h = tt
none_working_lem s p now ((k, raw) ∷ es) h = elim (Bool-cases (is_working s p now raw)) [
  | inl t ↦ cc (t, h)
  | inr t ↦ (t, none_working_lem s p now es (ground (arith, t, h)))
]

idle_elsewhere :
    (s : Settings) (p : Numbers) (now : ℕ) (o : Option (Dict String String))
    → all_nodes_idle s p now o ≡ true
    → All (λ e. is_working s p now e.1 ≡ false) (entries o)
unfolding all_nodes_idle
idle_elsewhere s p now none h = tt
idle_elsewhere s p now (some es) h = none_working_lem s p now es h

no_rows : (m : String) (rs : Rows) → length rs ≡ 0 → lookup m rs ≡ none
unfolding lookup
no_rows m [] h = refl
no_rows m (r ∷ rs) h = absurd (omega (arith, h))

no_score : (S : SortedSets) (m : String) (z : S.Z) → S.zcard z ≡ 0 → score S m z ≡ none
unfolding score
no_score S m z h = no_rows m (S.rows z) (sym (S.zcard_lem z) ∙ h)

check-if :
    {Z : Type 0} (alive waits : Bool) (n n' : RedisNode Z) (c : Bool × RedisNode Z)
    → (if alive then (false, n) else if waits then (false, n') else c).0 ≡ true
    → (c.0 ≡ true) × ((if alive then (false, n) else if waits then (false, n') else c).1 ≡ c.1)
check-if true waits n n' c h = cc
check-if false true n n' c h = cc
check-if false false n n' c h = (h, refl)

-- the steps of `check_idle`, and what has let the check through
abbrev checked : {Z : Type 0} (a b c d e : Bool) (x y z : RedisNode Z) → Bool × RedisNode Z
checked a b c d e x y z =
    if a
    then (false, x)
    else if b
    then (false, x)
    else if c
    then (false, y)
    else if d
    then (false, z)
    else (e, z)

check-steps :
    {Z : Type 0} (a b c d e : Bool) (x y z : RedisNode Z)
    → (checked a b c d e x y z).0 ≡ true
    → (a ≡ false)
      × (b ≡ false)
      × (c ≡ false)
      × (d ≡ false)
      × (e ≡ true)
      × ((checked a b c d e x y z).1 ≡ z)
check-steps true b c d e x y z h = cc
check-steps false true c d e x y z h = cc
check-steps false false true d e x y z h = cc
check-steps false false false true e x y z h = cc
check-steps false false false false e x y z h = (refl, refl, refl, refl, h, refl)

module _ (S : SortedSets) (j : Json) (s : Settings) (p : Numbers) where
  open S use {Z}

  idle_here :
      (now : ℕ) (up : Bool) (n : Node (Tables Z))
      → local_idle (redis_queue S j s now up) n ≡ true
      → ((is_nil n.pending ≡ true)
          × (is_nil n.items ≡ true)
          × (is_nil n.buffered ≡ true)
          × (is_nil n.in_progress ≡ true)
          × (all (λ b. not b) n.busy ≡ true))
  unfolding local_idle is_idle
  idle_here now up n h = ground (arith, h)

  module _ (first second : Tables Z → Tables Z) where
    -- the tables when the queue is read
    abbrev pub seen_in : Reading → RedisNode Z → Tables Z
    seen_in r n = first (reclaim_expired S j s.lease r.now r.up s.reclaim_limit n.node.queue).1

    -- the tables when the tasks in flight are read
    abbrev pub read_in : Reading → RedisNode Z → Tables Z
    read_in r n = second (seen_in r n)

    -- the node when its own idleness is checked
    reclaimed_in : Reading → RedisNode Z → Node (Tables Z)
    reclaimed_in r n = record n.node {
      queue = (reclaim_expired S j s.lease r.now r.up s.reclaim_limit n.node.queue).1;
    }

    tables_quiet :
        (r : Reading) (n : RedisNode Z)
        → (check_idle S j s p r first second n).0 ≡ true
        → (local_idle (redis_queue S j s r.now r.up) (reclaimed_in r n) ≡ true)
          × (S.zcard (seen_in r n).queue ≡ 0)
          × (S.zcard (read_in r n).inflight ≡ 0)
          × (all_nodes_idle s p r.now r.heartbeats ≡ true)
          × ((check_idle S j s p r first second n).1 ≡ with_tables S j s (read_in r n) n)
    unfolding check_idle is_empty qsize inflight_count reclaimed_in
    tables_quiet r n h =
        let tables = (reclaim_expired S j s.lease r.now r.up s.reclaim_limit n.node.queue).1 in
        let c =
          check-steps
            (ltb 0 (reclaim_expired S j s.lease r.now r.up s.reclaim_limit n.node.queue).0)
            (not (local_idle (redis_queue S j s r.now r.up) (with_tables S j s tables n).node))
            (not (is_empty S j (seen_in r n))) (ltb 0 (inflight_count S j (read_in r n)))
            (all_nodes_idle s p r.now r.heartbeats) (with_tables S j s tables n)
            (with_tables S j s (seen_in r n) n) (with_tables S j s (read_in r n) n) h in
        (ground (arith, c.1), ground (arith, c.2), ground (arith, c.3), c.4, c.5)

    IsQuiet-check_idle :
        (r : Reading) (n : RedisNode Z)
        → (check_idle S j s p r first second n).0 ≡ true
        → IsQuiet S s p r (seen_in r n) (check_idle S j s p r first second n).1
    unfolding reclaimed_in
    IsQuiet-check_idle r n h =
        let t = tables_quiet r n h in
        let idle = idle_here r.now r.up (reclaimed_in r n) t.0 in
        subst (IsQuiet S s p r (seen_in r n)) (sym t.4) (record {
          no_requests = is_nil_lem n.node.pending idle.0;
          no_items = is_nil_lem n.node.items idle.1;
          none_buffered = is_nil_lem n.node.buffered idle.2;
          none_in_progress = is_nil_lem n.node.in_progress idle.3;
          no_worker = idle.4;
          none_queued = λ m. no_score S m (seen_in r n).queue t.1;
          none_in_flight = λ m. no_score S m (read_in r n).inflight t.2;
          none_elsewhere = idle_elsewhere s p r.now r.heartbeats t.3;
        })

    -- Where `_is_done` says that the run is over: this node holds no request and no item and none of its workers
    -- is busy, the queue was empty when it was read, nothing is in flight when that is read, and no live
    -- heartbeat tells of a pending request. What others move from the tasks in flight to the queue between the
    -- two reads is not seen.
    pub is_done-IsQuiet :
        (r : Reading) (n : RedisNode Z)
        → (is_done S j s p r first second n).0 ≡ true
        → IsQuiet S s p r
            (seen_in r (in_startup_grace S j s r.monotonic n).1)
            (is_done S j s p r first second n).1
    unfolding is_done
    is_done-IsQuiet r n h =
        let n' : RedisNode Z = (in_startup_grace S j s r.monotonic n).1 in
        let c =
          check-if s.keep_alive (in_startup_grace S j s r.monotonic n).0 n n'
            (check_idle S j s p r first second n') h in
        subst (IsQuiet S s p r (seen_in r n')) (sym c.1) (IsQuiet-check_idle r n' c.0)

    pub done_tables :
        (r : Reading) (n : RedisNode Z)
        → (is_done S j s p r first second n).0 ≡ true
        → (is_done S j s p r first second n).1.node.queue
          ≡ read_in r (in_startup_grace S j s r.monotonic n).1
    unfolding is_done
    done_tables r n h =
        let n' : RedisNode Z = (in_startup_grace S j s r.monotonic n).1 in
        let c =
          check-if s.keep_alive (in_startup_grace S j s r.monotonic n).0 n n'
            (check_idle S j s p r first second n') h in
        ap (λ a. a.node.queue) (c.1 ∙ (tables_quiet r n' c.0).4)

  -- A node that stays alive never reclaims: `_is_done` leaves it as it is.
  pub is_done-keep_alive :
      (r : Reading) (first second : Tables Z → Tables Z) (n : RedisNode Z)
      → s.keep_alive ≡ true
      → is_done S j s p r first second n ≡ (false, n)
  unfolding is_done
  is_done-keep_alive r first second n h = rw h refl

  -- `RedisTaskScheduler._is_done` does not look at the tasks in flight: whatever other nodes have taken and not
  -- acknowledged, the answer is the same.
  pub is_task_done-inflight :
      (exhausted : Bool) (r : Reading) (n : RedisNode Z) (z : Z)
      → let node : Node (Tables Z) = record n.node {
        queue = record n.node.queue { inflight = z };
      } in
        is_task_done S j s p exhausted r (record n { node = node })
        ≡ is_task_done S j s p exhausted r n
  unfolding is_task_done local_idle is_idle is_empty qsize
  is_task_done-inflight exhausted r n z = refl
