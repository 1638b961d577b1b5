-- ===== src/ItemBuffer.antt =====
-- buffer/item_buffer.py: data waits here with the request that produced it, and is acknowledged to the
-- task queue only after it is stored or dumped. An owner is the identity of a request, a hook the number
-- of a function. The locked sections of one thread run in order; the timer, the log, the cache of
-- pipelines and `close` are left out.
pub mod Persist
pub mod Placed
pub mod Acknowledged
pub mod Hooks
use netspy.Base.{
  ℕ, suc, ◌+◌, ◌≡◌, String, Bool, true, false, ◌&&◌, ◌||◌, not, Option, none, some, List, [], ◌∷◌,
  ◌++◌, if◌then◌else◌, ◌==◌, String_eq, ℕ_eq, any, length, Outcome,
}
use netspy.Base.Dict.{Dict, lookup_or, insert, remove}

-- `_Norm`: what `_normalize` makes of an item
pub record Norm : Type 0 where
  pub table : String
  pub is_update : Bool
  pub row : String
  pub fingerprint : Option String
  pub update_keys : List String
  pub pipelines : Option (List String)

-- What the buffer works with. `normalize` is `none` where `_normalize` raises (it runs the item's own
-- code); `write` is `_write`, which turns exceptions into `false`; `resolves` and `dumps` say whether
-- `_resolve_pipelines` and `_dump_failed` return.
pub record Sink (D : Type 0) : Type 0 where
  pub normalize : String → Option Norm
  pub get : String → D → Outcome Bool
  pub add : String → D → Bool × D
  pub defaults : List String
  pub resolves : Option (List String) → Bool
  pub write : String → List Norm → Bool
  pub dumps : List Norm → Bool
  -- ITEM_FILTER_ENABLE
  pub filters : Bool

pub record ItemBuffer (D : Type 0) : Type 0 where
  pub pending : List (String × Option ℕ)
  pub after_persist : Dict ℕ (List ℕ)
  pub dedup : D
  -- the tasks acknowledged and the hooks run, in order
  pub acked : List ℕ
  pub ran : List ℕ
  -- the rows written by all their pipelines, those dumped, and the counters
  pub stored : List Norm
  pub dumped : List Norm
  pub item_dedup_dropped : ℕ
  pub dedup_degraded : ℕ

abbrev pub owned_by : ℕ → Option ℕ → Bool
owned_by owner none = false
owned_by owner (some o) = o == owner

module _ {D : Type 0} where
  unfoldable pub owns : ℕ → ItemBuffer D → Bool
  owns owner b = any (λ e. owned_by owner e.1) b.pending

  unfoldable pub register : ℕ → ℕ → ItemBuffer D → ItemBuffer D
  register owner fn b = record b {
    after_persist = insert owner (lookup_or [] owner b.after_persist ++ fn ∷ []) b.after_persist;
  }

  unfoldable pub after_persist_if_pending : ℕ → ℕ → ItemBuffer D → Bool × ItemBuffer D
  after_persist_if_pending owner fn b =
      if owns owner b then (true, register owner fn b) else (false, b)

  -- `_run_after_persist`; exceptions of the hooks are caught
  unfoldable pub run_after_persist : ℕ → ItemBuffer D → ItemBuffer D
  run_after_persist owner b = record b {
    after_persist = remove owner b.after_persist;
    ran = b.ran ++ lookup_or [] owner b.after_persist;
  }

  -- `_ack_all` with an `ack`, whose exceptions are caught
  unfoldable pub ack_all : List ℕ → ItemBuffer D → ItemBuffer D
  ack_all [] b = b
  ack_all (owner ∷ os) b =
      let b' = run_after_persist owner b in
      ack_all os (record b' { acked = b'.acked ++ owner ∷ [] })

-- `{id(owner): owner ...}`: each owner once, where it first stands
unfoldable pub add_owner : Option ℕ → List ℕ → List ℕ
add_owner none os = os
add_owner (some o) os = if any (λ x. x == o) os then os else os ++ o ∷ []

unfoldable pub owners_from : List (String × Option ℕ) → List ℕ → List ℕ
owners_from [] os = os
owners_from (e ∷ es) os = owners_from es (add_owner e.1 os)

unfoldable pub owners : List (String × Option ℕ) → List ℕ
owners es = owners_from es []
