-- ===== src/ProxyPool/Handed.antt =====
-- Which proxies are handed out after a report.
use netspy.Base.{
  ℕ, zero, suc, ◌+◌, ◌-◌, ◌*◌, ◌^◌, ◌≤◌, ◌<◌, ◌≡◌, refl, max, length, String, Bool, true, false,
  not, ◌||◌, Option, some, List, [], ◌∷◌, arith, if◌then◌else◌, ltb, ◌==◌, String_eq, All,
  All-append, Bool-cases, inl, inr, ◌∙◌, Bool-cases,
}
use netspy.Base.Dict.{lookup, insert, remove, lookup-insert}
use netspy.ProxyPool.{
  Settings, ApiProxyPool, begin_fetch, take_turn, report_good, report_bad, report_suspect, close,
  raw, ban_time, in_a_row, later, too_soon,
}
use netspy.ProxyPool.Banned.{
  lasts, is_out, covers, Call, turn, begins, refills, good, bad, suspect, closes, after, answer,
  handed, given, Within, is_out-prune, is_out-drop, is_out-same, out_choose, is_out-refill,
  OutAfter,
}

pow_pos : (n : ℕ) → 1 ≤ 2 ^ n
pow_pos zero = omega arith
pow_pos (suc n) = omega (arith, pow_pos n)

le-mul : (a b : ℕ) → 1 ≤ b → a ≤ a * b
le-mul a zero h = absurd (omega arith)
le-mul a (suc b) h = grind arith

-- the first ban is the shortest
lasts-ban_time :
    (s : Settings) (start x now n : ℕ)
    → covers s start x ≡ true
    → start ≤ now
    → lasts x (some (later now (ban_time s n))) ≡ true
unfolding covers ban_time
lasts-ban_time s start x now n c h =
    ground (arith, c, h, le-mul s.ban_seconds (2 ^ (n - 1)) (pow_pos (n - 1)))

out-if :
    (x : ℕ) (k : String) (b : Bool) (p q : ApiProxyPool)
    → is_out x k p ≡ true
    → is_out x k q ≡ true
    → is_out x k (if b then p else q) ≡ true
out-if x k true p q hp hq = hp
out-if x k false p q hp hq = hq

-- Writing a ban that lasts to `x` at least.
lookup-banned :
    (x : ℕ) (o : Option ℕ) (k q r : String) (p : ApiProxyPool)
    → lasts x (some o) ≡ true
    → is_out x k p ≡ true
    → lasts x (lookup k (insert q o (insert r o p.banned))) ≡ true
unfolding is_out
lookup-banned x o k q r p l e =
    ground (arith, l, e, lookup-insert q k o (insert r o p.banned), lookup-insert r k o p.banned)

is_out-report_bad :
    (s : Settings) (start x now : ℕ) (k q : String) (p : ApiProxyPool)
    → covers s start x ≡ true
    → start ≤ now
    → is_out x k p ≡ true
    → is_out x k (report_bad s now q p) ≡ true
unfolding report_bad
is_out-report_bad s start x now k q p c h e =
    let n = in_a_row s now (raw q) p.fails + 1 in
    is_out-drop x k (raw q) _
    ∙ unfold is_out in
      lookup-banned x (later now (ban_time s n)) k q (raw q) p (lasts-ban_time s start x now n c h)
        e

is_out-report_suspect :
    (s : Settings) (start x now then_ : ℕ) (k q : String) (p : ApiProxyPool)
    → covers s start x ≡ true
    → start ≤ then_
    → is_out x k p ≡ true
    → is_out x k (report_suspect s now then_ q p) ≡ true
unfolding report_suspect
is_out-report_suspect s start x now then_ k q p c h e =
    let n = in_a_row s now (raw q) p.suspects + 1 in
    let cleared : ApiProxyPool = record p { suspects = remove (raw q) p.suspects } in
    let noted : ApiProxyPool = record p { suspects = insert (raw q) (n, now) p.suspects } in
    out-if x k (ltb n (max s.suspect_ban_after 1)) noted (report_bad s then_ q cleared)
      (is_out-same x k p noted refl ∙ e)
      (is_out-report_bad s start x then_ k q cleared c h (is_out-same x k p cleared refl ∙ e))

out_take_turn :
    (s : Settings) (x : ℕ) (k : String) (clock : ℕ → ℕ) (p : ApiProxyPool)
    → ((i : ℕ) → clock i < x)
    → is_out x k p ≡ true
    → All (λ q. (q == k) ≡ false) (given (take_turn s clock p).0)
      × (is_out x k (take_turn s clock p).1 ≡ true)
unfolding take_turn OutAfter
out_take_turn s x k clock p h e = out_choose s x k clock (length p.pool) p h e

is_out-begin_fetch :
    (s : Settings) (x now : ℕ) (k : String) (has_api : Bool) (p : ApiProxyPool)
    → now < x
    → is_out x k p ≡ true
    → is_out x k (begin_fetch s has_api now p).1 ≡ true
unfolding begin_fetch
is_out-begin_fetch s x now k has_api p h e =
    let asked : ApiProxyPool = record p { last_fetch = some now } in
    elim (Bool-cases (not has_api || too_soon s now p.last_fetch)) [
      | inl t ↦ rw t e
      | inr t ↦ rw t (is_out-prune s x now k asked h (is_out-same x k p asked refl ∙ e))
    ]

is_out-report_good :
    (x : ℕ) (k q : String) (p : ApiProxyPool)
    → is_out x k p ≡ true
    → is_out x k (report_good q p) ≡ true
unfolding report_good is_out
is_out-report_good x k q p e = ground (arith, e)

is_out-close : (x : ℕ) (k : String) (p : ApiProxyPool) → is_out x k (close p) ≡ is_out x k p
unfolding close is_out
is_out-close x k p = refl

-- One call keeps a proxy out that is out, and does not hand it out.
out_after :
    (s : Settings) (start x : ℕ) (k : String) (call : Call) (p : ApiProxyPool)
    → covers s start x ≡ true
    → Within start x call
    → is_out x k p ≡ true
    → All (λ q. (q == k) ≡ false) (answer s call p) × (is_out x k (after s call p) ≡ true)
unfolding after
out_after s start x k (turn clock) p c w e = out_take_turn s x k clock p (λ i. (w i).1) e
out_after s start x k (begins has_api now) p c w e =
    (tt, is_out-begin_fetch s x now k has_api p w.1 e)
out_after s start x k (refills now qs) p c w e = (tt, is_out-refill x now k qs p w.1 e)
out_after s start x k (good q) p c w e = (tt, is_out-report_good x k q p e)
out_after s start x k (bad now q) p c w e = (tt, is_out-report_bad s start x now k q p c w.0 e)
out_after s start x k (suspect now then_ q) p c w e =
    (tt, is_out-report_suspect s start x now then_ k q p c w.0 e)
out_after s start x k closes p c w e = (tt, is_out-close x k p ∙ e)

handed_out :
    (s : Settings) (start x : ℕ) (k : String) (calls : List Call) (p : ApiProxyPool)
    → covers s start x ≡ true
    → All (Within start x) calls
    → is_out x k p ≡ true
    → All (λ q. (q == k) ≡ false) (handed s calls p)
unfolding handed
handed_out s start x k [] p c w e = tt
handed_out s start x k (call ∷ calls) p c w e =
    let now = out_after s start x k call p c w.0 e in
    All-append (λ q. (q == k) ≡ false) (answer s call p) (handed s calls (after s call p)) now.0
      (handed_out s start x k calls (after s call p) c w.1 now.1)

is_out-reported :
    (s : Settings) (start x : ℕ) (k q : String) (p : ApiProxyPool)
    → covers s start x ≡ true
    → ((q == k) || (raw q == k)) ≡ true
    → is_out x k (report_bad s start q p) ≡ true
unfolding report_bad
is_out-reported s start x k q p c h =
    let n = in_a_row s start (raw q) p.fails + 1 in
    let until = later start (ban_time s n) in
    is_out-drop x k (raw q) _
    ∙ unfold is_out in
      ground (
        arith,
        h,
        lasts-ban_time s start x start n c (omega arith),
        lookup-insert q k until (insert (raw q) until p.banned),
        lookup-insert (raw q) k until p.banned,
      )

-- After `report_bad` of a proxy, neither its name as reported nor its part after "://" is an entry that
-- `get_proxy` hands out, through any calls of the pool whose clock readings lie from the report on and
-- before `x`: `x` comes at most the shorter of PROXY_BAN_SECONDS and PROXY_BAN_MAX_SECONDS after the
-- report, or is any time where PROXY_BAN_SECONDS is 0.
pub handed-report_bad :
    (s : Settings) (start x : ℕ) (proxy k : String) (calls : List Call) (p : ApiProxyPool)
    → covers s start x ≡ true
    → ((proxy == k) || (raw proxy == k)) ≡ true
    → All (Within start x) calls
    → All (λ entry. (entry == k) ≡ false) (handed s calls (report_bad s start proxy p))
handed-report_bad s start x proxy k calls p c h w =
    handed_out s start x k calls (report_bad s start proxy p) c w
      (is_out-reported s start x k proxy p c h)
