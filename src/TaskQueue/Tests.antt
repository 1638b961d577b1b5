-- ===== src/TaskQueue/Tests.antt =====
-- Runs of the queues on small inputs.
use netspy.Base.{
  ◌≡◌, refl, true, false, String, Option, none, some, List, [], ◌∷◌, if◌then◌else◌, ◌==◌, String_eq,
  returned, raised, arith, take as take_first,
}
use netspy.Base.Dict.{lookup, remove}
use netspy.Redis.Reference.{sorted_rows, after_pop, put, insert_row}
use netspy.Redis.Rows.{contains}
use netspy.Request.{Request, defaults, init, http_part, custom_part}
use netspy.Request.Codec.{to_dict, from_dict, clash}
use netspy.Request.RoundTrip.{IsWellFormed, stored_view, init-IsWellFormed}
use netspy.Request.Examples.{get_request}
use netspy.TaskQueue.Scripts.{Tables, take_script, lease_all}
use netspy.TaskQueue.Keys.{score}
use netspy.TaskQueue.Leased.{
  Json, pop, decode, decode_all, payload, take, put as queue_request, reclaim_expired,
}
use netspy.TaskQueue.Memory.{empty_queue, get_batch}
use netspy.TaskQueue.Memory.Order.{puts as puts_all, insert_all, get_batch-puts}
use netspy.TaskQueue.Operations.{Operation, Fleet, takes, pops, puts, leases, reclaims, run}
use netspy.TaskQueue.History.{is_known, IsAway, is_known-run, IsAway-run}
use netspy.TaskQueue.Recovery.{decode-payload, take-put, reclaim-take, take_malformed}

abbrev or_empty : Option String → String
or_empty none = ""
or_empty (some s) = s

-- a JSON library that reads back the requests of `get_request`, which their URL determines
abbrev json : Json
json = record {
  upper = λ s. s;
  dumps = λ d. or_empty d.url;
  loads = λ s. if s == "" then none else some (to_dict (get_request s));
}

abbrev no_tasks : Tables sorted_rows.Z
no_tasks = record { queue = sorted_rows.nil; inflight = sorted_rows.nil }

-- one task queued, one queued that does not decode, one in flight until 900
abbrev three_tasks : Tables sorted_rows.Z
three_tasks = record {
  queue = sorted_rows.zadd 5 "a" (sorted_rows.zadd 7 "" sorted_rows.nil);
  inflight = sorted_rows.zadd 900 "b" sorted_rows.nil;
}

abbrev request_a : Request
request_a = get_request "a"

request_a-IsWellFormed : IsWellFormed json.upper request_a
unfolding init http_part custom_part
request_a-IsWellFormed = init-IsWellFormed (λ m. m) "a" "GET" defaults [] refl refl

decode_a : decode sorted_rows json (some "a") ≡ returned (some (stored_view request_a))
unfolding payload to_dict init http_part custom_part
decode_a = decode-payload sorted_rows json request_a refl request_a-IsWellFormed

known_a : is_known sorted_rows json 100 "a" (record { tables = three_tasks; in_hand = [] }) ≡ true
unfolding is_known score put insert_row lookup remove contains
known_a = refl

abbrev others : List Operation
others = takes 3 true 2 ∷ reclaims 200 true 10 ∷ pops ∷ puts (get_request "c") ∷ leases 201 "a" ∷ []

abbrev three_known : Fleet sorted_rows.Z
three_known = record { tables = three_tasks; in_hand = [] }

is_known-run_example :
    is_known sorted_rows json 100 "a" (run sorted_rows json 100 others three_known) ≡ true
is_known-run_example =
    is_known-run sorted_rows json 100 "a" (stored_view request_a) decode_a (omega arith) others
      three_known (refl, (refl, (refl, (refl, (refl, tt))))) known_a

b_IsAway : IsAway sorted_rows json 100 "b" 900 three_known
unfolding score put insert_row lookup remove contains
b_IsAway = record { unqueued = refl; not_popped = refl; until = λ d e. ground (arith, e) }

puts_other : (payload sorted_rows json (get_request "c") == "b") ≡ false
unfolding payload to_dict init http_part custom_part
puts_other = refl

IsAway-run_example :
    IsAway sorted_rows json 100 "b" 900 (run sorted_rows json 100 others three_known)
IsAway-run_example =
    IsAway-run sorted_rows json 100 "b" 900 (omega arith) others three_known
      (omega arith, (omega arith, (tt, (puts_other, (tt, tt))))) b_IsAway

popped_a : contains "a" (pop sorted_rows json 100 3 2 three_tasks).0 ≡ true
unfolding pop take_script put insert_row contains lookup remove
popped_a = refl

popped_one : contains "a" (pop sorted_rows json 100 3 1 three_tasks).0 ≡ true
unfolding pop take_script put insert_row contains lookup remove
popped_one = refl

popped_bad : contains "" (pop sorted_rows json 100 3 2 three_tasks).0 ≡ true
unfolding pop take_script put insert_row contains lookup remove
popped_bad = refl

decode_bad : decode sorted_rows json (some "") ≡ raised
unfolding decode
decode_bad = refl

abbrev after_take : Tables sorted_rows.Z
after_take = (take sorted_rows json 100 3 true 2 three_tasks).1

reclaim-take_example :
    let after = (reclaim_expired sorted_rows json 100 103 true 10 after_take).1 in
    (score sorted_rows "a" after.queue ≡ some 0) × (score sorted_rows "a" after.inflight ≡ none)
unfolding take pop take_script put insert_row contains lookup remove lease_all decode_all decode
    from_dict to_dict clash init http_part custom_part
reclaim-take_example =
    reclaim-take sorted_rows json 100 3 103 2 10 true three_tasks "a" (omega arith) (omega arith)
      popped_a (omega arith)

take-put_example :
    (take sorted_rows json 100 3 true 1 (queue_request sorted_rows json request_a no_tasks)).0
    ≡ returned (
        record (stored_view request_a) { lease_token = some (payload sorted_rows json request_a) }
        ∷ [])
unfolding to_dict init
take-put_example =
    take-put sorted_rows json 100 3 1 true request_a no_tasks (omega arith) refl
      request_a-IsWellFormed refl

scores :
    (score sorted_rows "a" three_tasks.queue ≡ some 5)
    × (score sorted_rows "" (take sorted_rows json 100 3 true 1 three_tasks).1.queue ≡ some 7)
unfolding score put insert_row take pop take_script contains decode_all decode lookup remove
    lease_all from_dict to_dict clash init http_part custom_part after_pop
scores = (refl, refl)

take_malformed_example :
    ((take sorted_rows json 100 3 true 2 three_tasks).0 ≡ raised)
    × (score sorted_rows "a" (take sorted_rows json 100 3 true 2 three_tasks).1.inflight ≡ some 103)
take_malformed_example =
    take_malformed sorted_rows json 100 3 2 true three_tasks "" "a" (omega arith) decode_bad
      popped_bad popped_a

get_batch-puts_example :
    (get_batch 2 (puts_all (get_request "x" ∷ get_request "y" ∷ []) empty_queue)).0
    ≡ take_first 2 (insert_all (get_request "x" ∷ get_request "y" ∷ []) [])
get_batch-puts_example = get_batch-puts (get_request "x" ∷ get_request "y" ∷ []) 2
