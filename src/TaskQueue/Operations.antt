-- ===== src/TaskQueue/Operations.antt =====
-- The Redis queue as a system of steps: the atomic commands of any number of nodes, in any order. Leases are on.
use netspy.Base.{
  ==_iff, ℕ, ◌+◌, ◌<◌, String, ◌≡◌, refl, Bool, false, some, List, [], ◌∷◌, ◌++◌, arith, ◌==◌,
  String_eq, returned, if◌then◌else◌,
}
use netspy.Redis.Rows.{members, contains}
use netspy.Redis.SortedSet.{SortedSets}
use netspy.Request.{Request}
use netspy.TaskQueue.Scripts.{Tables}
use netspy.TaskQueue.Keys.{score, score-zadd}
use netspy.TaskQueue.Leased.{Json, put, decode, done, take, reclaim_expired, renew, get_blocking}

-- One atomic command of a node, with the clock that it reads and whether Redis answers it.
pub data Operation : Type 0 where
  puts : Request → Operation
  takes : ℕ → Bool → ℕ → Operation
  -- the blocking pop of `get`
  pops : Operation
  -- what `get` does with the member that its blocking pop has taken: the lease is a command of its own
  leases : ℕ → String → Operation
  -- a node dies, or Redis does not answer it, between its blocking pop and the lease of what it took
  loses : String → Operation
  finishes : Bool → Request → Operation
  reclaims : ℕ → Bool → ℕ → Operation
  renews : ℕ → Bool → List Request → Operation

-- The tables in Redis, and the members that blocking pops have taken and that are not leased yet.
pub record Fleet (Z : Type 0) : Type 0 where
  pub tables : Tables Z
  pub in_hand : List String

unfoldable pub remove_one : String → List String → List String
remove_one m [] = []
remove_one m (x ∷ xs) = let rest = remove_one m xs in if x == m then xs else x ∷ rest

pub contains-remove_one :
    (x m : String) (xs : List String)
    → (x == m) ≡ false
    → contains m (remove_one x xs) ≡ contains m xs
unfolding contains remove_one
contains-remove_one x m [] h = refl
contains-remove_one x m (y ∷ xs) h =
    ground (arith, h, contains-remove_one x m xs h, ==_iff y x, ==_iff y m, ==_iff x m)

pub contains-removed :
    (x m : String) (xs : List String) → contains m xs ≡ false → contains m (remove_one x xs) ≡ false
unfolding contains remove_one
contains-removed x m [] h = refl
contains-removed x m (y ∷ xs) h = ground (arith, h, contains-removed x m xs)

module _ (S : SortedSets) (j : Json) (lease : ℕ) where
  open S use {Z, zpopmin}

  unfoldable pub step : Operation → Fleet Z → Fleet Z
  step (puts r) f = record f { tables = put S j r f.tables }
  step (takes now up count) f = record f { tables = (take S j lease now up count f.tables).1 }
  step pops f = record {
    tables = record f.tables { queue = (zpopmin 1 f.tables.queue).1 };
    in_hand = f.in_hand ++ members (zpopmin 1 f.tables.queue).0;
  }
  step (leases now m) f =
      if contains m f.in_hand
      then record {
        tables = (get_blocking S j lease now (m ∷ []) f.tables).1;
        in_hand = remove_one m f.in_hand;
      }
      else f
  step (loses m) f = record f { in_hand = remove_one m f.in_hand }
  step (finishes up r) f = record f { tables = done S j up r f.tables }
  step (reclaims now up limit) f = record f {
    tables = (reclaim_expired S j lease now up limit f.tables).1;
  }
  step (renews now up rs) f = record f { tables = (renew S j lease now up rs f.tables).1 }

  unfoldable pub run : List Operation → Fleet Z → Fleet Z
  run [] f = f
  run (o ∷ os) f = run os (step o f)

  module _ (m : String) (r : Request) (decodes : decode S j (some m) ≡ returned (some r))
      (on : 0 < lease) where
    pub leased :
        (now : ℕ) (t : Tables Z)
        → score S m (get_blocking S j lease now (m ∷ []) t).1.inflight ≡ some (now + lease)
    unfolding get_blocking
    leased now t = ground (arith, decodes, score-zadd S (now + lease) m m t.inflight, ==_iff m m)

  pub other_leased :
      (now : ℕ) (x m : String) (t : Tables Z)
      → (x == m) ≡ false
      → score S m (get_blocking S j lease now (x ∷ []) t).1.inflight ≡ score S m t.inflight
  unfolding get_blocking
  other_leased now x m t h = ground (arith, h, score-zadd S (now + lease) x m t.inflight)

  pub queue-get_blocking :
      (now : ℕ) (x : String) (t : Tables Z)
      → (get_blocking S j lease now (x ∷ []) t).1.queue ≡ t.queue
  unfolding get_blocking
  queue-get_blocking now x t = ground arith
