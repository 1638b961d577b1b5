-- ===== src/Scheduler/Replayed.antt =====
-- What a replay of failed requests keeps, wherever it is cut off.
use netspy.Base.{
  ℕ, ◌+◌, String, ◌≡◌, refl, Bool, true, false, Option, none, some, List, [], ◌∷◌, Outcome,
  returned, raised, arith, if◌then◌else◌, tally, is_some, subst, sym,
}
use netspy.Request.{Request}
use netspy.TaskQueue.Leased.{Json}
use netspy.TaskQueue.Interface.{TaskQueue}
use netspy.RequestBuffer.{Filter, RequestBuffer, put}
use netspy.RequestBuffer.Logged.{IsCounted, everything}
use netspy.RequestBuffer.Conserved.{accounted, put-conserved}
use netspy.Scheduler.Replay.{
  Store, read_request, replay_line, one_more, replay_lines, replay_failed_requests, replay_from,
  end_file,
}

module _ {Q D : Type 0} (T : TaskQueue Q) (F : Filter D) (fingerprint : Request → String)
    (limit : ℕ) (j : Json) where
  -- how many lines are requests
  abbrev pub readable : List String → ℕ
  readable lines = tally (λ line. is_some (read_request j line)) lines

  module _ (count : Q → ℕ) (law : IsCounted T everything count) where
    -- queued, waiting, or counted as duplicates
    abbrev pub total : RequestBuffer Q D → ℕ
    total b = accounted T F fingerprint everything count law b + b.dedup_dropped

    -- a loop that ended has put every request
    abbrev AllPut : ℕ → ℕ → Bool × ℕ × RequestBuffer Q D → Type 0
    AllPut n before (true, k, b) = (k ≡ n) × (total b ≡ before + n)
    AllPut n before (false, k, b) = Unit {0}

    AllPut-more :
        (n before : ℕ) (accepted : Bool) (later : Bool × ℕ × RequestBuffer Q D)
        (b : RequestBuffer Q D)
        → AllPut n (before + 1) later
        → AllPut (1 + n) before (one_more T F fingerprint limit j accepted later b)
    AllPut-more n before false later b h = tt
    AllPut-more n before true (false, k, b') b h = tt
    AllPut-more n before true (true, k, b') b h = (omega (arith, h.0), omega (arith, h.1))

    AllPut-line :
        (n : ℕ) (o : Option Request) (again : RequestBuffer Q D → Bool × ℕ × RequestBuffer Q D)
        (b : RequestBuffer Q D)
        → ((b : RequestBuffer Q D) → AllPut n (total b) (again b))
        → AllPut
            ((if is_some o then 1 else 0) + n)
            (total b)
            (replay_line T F fingerprint limit j o again b)
    AllPut-line n none again b f = subst (λ m. AllPut m (total b) (again b)) (omega arith) (f b)
    AllPut-line n (some r) again b f =
        let unfiltered : Request = record r { filter_repeat = false } in
        let after = put T F fingerprint limit unfiltered b in
        AllPut-more n (total b) after.0 (again after.1) after.1 (
          subst (λ t. AllPut n t (again after.1))
            (put-conserved T F fingerprint count law limit unfiltered b) (f after.1))

    all_put :
        (lines : List String) (b : RequestBuffer Q D)
        → AllPut (readable lines) (total b) (replay_lines T F fingerprint limit j lines b)
    unfolding replay_lines
    all_put [] b = (refl, omega arith)
    all_put (line ∷ rest) b =
        AllPut-line (readable rest) (read_request j line)
          (replay_lines T F fingerprint limit j rest) b (all_put rest)

    -- What a replay from `n` requests on leaves: if it returns, the staging place is gone and every request
    -- of its lines is queued, waits or is a duplicate; if it raises, the staging place has all the lines.
    abbrev pub Safe : ℕ → List String → ℕ → Outcome ℕ × Store × RequestBuffer Q D → Type 0
    Safe n lines before (returned k, s, b) =
        (s.staging ≡ none) × (k ≡ n + readable lines) × (total b ≡ before + readable lines)
    Safe n lines before (raised, s, b) = s.staging ≡ some lines

    Safe-staged :
        (lines : List String) (before : ℕ) (a : Bool × ℕ × RequestBuffer Q D)
        → AllPut (readable lines) before a
        → Safe 0 lines before (end_file T F fingerprint limit j lines a)
    Safe-staged lines before (false, k, b) h = refl
    Safe-staged lines before (true, k, b) h = (refl, omega (arith, h.0), h.1)

    -- Over a queue that counts each put that returns and none that raises, with a file of failed requests that can be moved and read and
    -- RETRY_FAILED_ON_START on, the replay of the file does the same with the file's staging copy.
    pub replay_failed_requests-Safe :
        (lines : List String) (s : Store) (b : RequestBuffer Q D)
        → s.failed ≡ some lines
        → Safe 0 lines (total b) (replay_failed_requests T F fingerprint limit j true true true s b)
    unfolding replay_failed_requests
    replay_failed_requests-Safe lines s b h =
        subst (λ o. Safe 0 lines (total b) (replay_from T F fingerprint limit j true true o s b))
          (sym h)
          (Safe-staged lines (total b) (replay_lines T F fingerprint limit j lines b)
            (all_put lines b))
