-- ===== src/Alert.antt =====
-- `AlertManager` of utils/alert.py: when an alert is due, and how often it is sent. Times are milliseconds; a
-- rate is a fraction; the channels, each guarded on its own, and the texts are left out.
pub mod Spaced
use netspy.Base.{
  ℕ, zero, suc, ◌+◌, ◌-◌, ◌*◌, ◌≤◌, ◌<◌, String, Bool, true, false, not, ◌&&◌, ◌||◌, Option, none,
  some, List, [], ◌∷◌, ◌++◌, Outcome, returned, raised, if◌then◌else◌, ltb, leb, nat_eq, String_eq,
}
use netspy.Base.Dict.{Dict, lookup, insert}

-- a rate as a fraction
pub record Rate : Type 0 where
  pub num : ℕ
  pub den : ℕ

-- the WARNING settings, and DEDUP_WARN_FILL_RATE
pub record Settings : Type 0 where
  pub enable : Bool
  pub interval : ℕ
  pub stall_seconds : ℕ
  pub min_requests : ℕ
  pub failed_rate : Rate
  pub failed_count : ℕ
  pub fill_rate : Rate

pub record AlertManager : Type 0 where
  pub last_ok : ℕ
  pub last_progress : ℕ
  pub last_sent : Dict String ℕ

-- part / whole >= rate, for a positive whole
abbrev pub reaches : Rate → ℕ → ℕ → Bool
reaches rate part whole = leb (rate.num * whole) (part * rate.den)

-- an alert that was sent less than the interval ago; one that never was is sent
abbrev pub sent_lately : ℕ → ℕ → Option ℕ → Bool
sent_lately interval now none = false
sent_lately interval now (some last) = ltb (now - last) interval

-- `_fire`: whether the alert is sent
unfoldable pub fire : ℕ → String → ℕ → AlertManager → Bool × AlertManager
fire interval key now m =
    if sent_lately interval now (lookup key m.last_sent)
    then (false, m)
    else (true, record m { last_sent = insert key now m.last_sent })

-- an alert whose condition holds
unfoldable pub fire_if : Bool → ℕ → String → ℕ → AlertManager → AlertManager
unfolding fire
fire_if due interval key now m = if due then (fire interval key now m).1 else m

-- a new success is progress
unfoldable pub note_progress : ℕ → ℕ → AlertManager → AlertManager
note_progress ok now m =
    if ltb m.last_ok ok then record m { last_ok = ok; last_progress = now } else m

-- the count and the capacity of the filter, if it has both
abbrev pub is_full : Rate → Option (ℕ × ℕ) → Bool
is_full rate none = false
is_full rate (some (count, capacity)) =
    ltb 0 rate.num && ltb 0 capacity && leb (capacity * rate.num) (count * rate.den)

-- `check`, by the counters; `clock` is the reading in `_fire`. The failure rate of no requests divides by
-- zero, which raises where WARNING_MIN_REQUESTS is 0.
unfoldable pub check :
    Settings → ℕ → (String → ℕ) → ℕ → ℕ → Option (ℕ × ℕ) → AlertManager → Outcome AlertManager
unfolding fire_if note_progress
check s now clock ok failed filter m =
    let total = ok + failed in
    let m1 : AlertManager = note_progress ok now m in
    let m2 : AlertManager =
      fire_if (ltb 0 s.stall_seconds && ltb 0 total && ltb s.stall_seconds (now - m1.last_progress))
        s.interval "stall" (clock "stall") m1 in
    let m3 : AlertManager =
      fire_if (leb s.min_requests total && reaches s.failed_rate failed total) s.interval
        "failed_rate" (clock "failed_rate") m2 in
    let m4 : AlertManager =
      fire_if (ltb 0 s.failed_count && leb s.failed_count failed) s.interval "failed_count"
        (clock "failed_count") m3 in
    let m5 : AlertManager =
      fire_if (is_full s.fill_rate filter) s.interval "dedup_fill" (clock "dedup_fill") m4 in
    if not s.enable
    then returned m
    else if leb s.min_requests total && nat_eq total 0
    then raised
    else returned m5
