-- ===== src/Scheduler/Drained.antt =====
-- What the scheduler of one process dumps when it stops: what waits in its buffers and its queue. The requests
-- that its workers still have in progress are neither drained nor dumped.
use netspy.Base.{
  ℕ, zero, suc, ◌<◌, ◌≡◌, refl, true, List, [], ◌∷◌, ◌++◌, map, length, returned, arith,
  append_assoc, ap, ◌∙◌,
}
use netspy.Request.{Request}
use netspy.Request.Codec.{to_dict}
use netspy.TaskQueue.Leased.{Json}
use netspy.TaskQueue.Memory.{MemoryTaskQueue, Entry, get}
use netspy.TaskQueue.Interface.{memory_queue}
use netspy.Collector.{drain}
use netspy.Scheduler.Returned.{lines-append}
use netspy.Scheduler.{Node, Disk, lines, drain_queue, dump_requests, drain_leftovers, on_shutdown}

-- the requests of the queue, in the order in which they are taken
abbrev pub queued : MemoryTaskQueue → List Request
queued q = map (λ e. e.request) q.entries

drain_all :
    (es : List Entry) (seq fuel : ℕ)
    → length es < fuel
    → (drain_queue memory_queue fuel (record { entries = es; next_seq = seq })).0
      ≡ returned (map (λ e. e.request) es)
unfolding drain_queue get
drain_all es seq zero h = absurd (omega arith)
drain_all [] seq (suc fuel) h = refl
drain_all (e ∷ es) seq (suc fuel) h = rw (drain_all es seq fuel (omega (arith, h))) refl

-- `_drain_leftovers` of a node on the memory queue ends after as many turns as the queue has requests, and
-- one more, and DUMP_UNFINISHED_ON_EXIT then appends to the file of failed requests, if it can be written: the
-- requests that wait in the request buffer, those that the collector holds back, and those of the queue. The
-- requests in progress are not among them.
pub on_shutdown-lines :
    (j : Json) (n : Node MemoryTaskQueue) (d : Disk) (fuel : ℕ)
    → d.writable ≡ true
    → length n.queue.entries < fuel
    → lines (on_shutdown memory_queue j true fuel n d).failed_requests
      ≡ lines d.failed_requests
        ++ map
            (λ r. j.dumps (to_dict r))
            (n.pending ++ (map (λ o. o.request) n.buffered ++ queued n.queue))
unfolding on_shutdown drain_leftovers dump_requests drain
on_shutdown-lines j n d fuel w h = rw (drain_all n.queue.entries n.queue.next_seq fuel h) (
    lines-append j ((n.pending ++ map (λ o. o.request) n.buffered) ++ queued n.queue) d w
    ∙ ap (λ rs. lines d.failed_requests ++ map (λ r. j.dumps (to_dict r)) rs)
        (append_assoc n.pending (map (λ o. o.request) n.buffered) (queued n.queue)))
