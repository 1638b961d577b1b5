-- ===== src/Tests/Proxies.antt =====
-- Runs of network/proxy_pool/api.py, network/downloader/_common.py and utils/alert.py.
use netspy.Base.{
  ◌||◌, ℕ, ◌+◌, ◌≤◌, ◌≡◌, refl, max, String, Bool, true, false, none, some, List, [], ◌∷◌, arith,
  if◌then◌else◌, returned, raised, tally, length, All, ◌==◌, String_eq, leb, ltb, Bool-cases, inl,
  inr,
}
use netspy.Base.Dict.{Dict, lookup, lookup_or, has}
use netspy.Base.Text.{last_part, has_mark}
use netspy.Request.Examples.{get_request}
use netspy.Request.{init, http_part}
use netspy.ProxyPool.{
  Settings, ApiProxyPool, prune, is_banned, in_a_row, raw, contains, take_turn, report_bad,
}
use netspy.ProxyPool.Banned.{Call, turn, begins, refills, good, suspect, covers, handed}
use netspy.ProxyPool.Handed.{handed-report_bad}
use netspy.ProxyPool.Pruned.{IsPool, prune_lem}
use netspy.ProxyPool.Turns.{first_ready, take_turn-first}
use netspy.Downloader.{get_or_create}
use netspy.Downloader.Sessions.{clients, created, get_or_create-kept}
use netspy.Downloader.Proxies.{ProxyPool, explicit_proxy, pick_proxy, attempt_proxy, proxy_trial}
use netspy.Downloader.Proxies
use netspy.Waiting.{Advances}
use netspy.Downloader.Hidden.{is_hidden, pick_proxy-hidden}
use netspy.Downloader.Capped.{within, read_capped_lem}
use netspy.Downloader.{read_capped, join, exceeds}

abbrev settings : Settings
settings = record {
  ban_seconds = 60000;
  ban_max_seconds = 600000;
  max_use_times = 50;
  suspect_ban_after = 3;
  min_interval = 1000;
}

-- two proxies, the second of which has failed before
abbrev two_proxies : ApiProxyPool
two_proxies = record {
  pool = "10.0.0.1:80" ∷ "10.0.0.2:80" ∷ [];
  use_count = ("10.0.0.1:80", 3) ∷ [];
  banned = ("10.0.0.2:80", some 900) ∷ [];
  fails = ("10.0.0.2:80", (1, 840)) ∷ [];
  suspects = ("10.0.0.1:80", (1, 990)) ∷ [];
  last_fetch = none;
}

abbrev calls : List Call
calls =
    turn (λ n. 1010)
    ∷ suspect 1020 1021 "http://10.0.0.2:80"
    ∷ begins true 1030
    ∷ refills 1040 ("10.0.0.1:80" ∷ "10.0.0.3:80" ∷ [])
    ∷ good "http://10.0.0.1:80"
    ∷ turn (λ n. 60999)
    ∷ []

handed-report_bad_example :
    All
      (λ entry. (entry == "10.0.0.1:80") ≡ false)
      (handed settings calls (report_bad settings 1000 "http://10.0.0.1:80" two_proxies))
unfolding covers raw last_part has_mark
handed-report_bad_example =
    handed-report_bad settings 1000 61000 "http://10.0.0.1:80" "10.0.0.1:80" calls two_proxies refl
      refl
      (
        λ n. (omega arith, omega arith),
        (
          (omega arith, omega arith),
          (
            (omega arith, omega arith),
            ((omega arith, omega arith), (tt, (λ n. (omega arith, omega arith), tt))),
          ),
        ),
      )

two_proxies-IsPool : IsPool two_proxies
unfolding has
two_proxies-IsPool = record {
  unique_bans = (refl, tt);
  unique_fails = (refl, tt);
  unique_suspects = (refl, tt);
  unique_counts = (refl, tt);
}

prune_lem_example :
    ((is_banned "10.0.0.2:80" 1000 (prune settings 950 two_proxies)).0
      ≡ (is_banned "10.0.0.2:80" 1000 two_proxies).0)
    × (in_a_row settings 1000 "10.0.0.2:80" (prune settings 950 two_proxies).fails
        ≡ in_a_row settings 1000 "10.0.0.2:80" two_proxies.fails)
    × (in_a_row settings 1000 "10.0.0.2:80" (prune settings 950 two_proxies).suspects
        ≡ in_a_row settings 1000 "10.0.0.2:80" two_proxies.suspects)
    × (lookup_or 0 "10.0.0.2:80" (prune settings 950 two_proxies).use_count ≡ (
        if contains "10.0.0.2:80" two_proxies.pool || (is_banned "10.0.0.2:80" 950 two_proxies).0
        then lookup_or 0 "10.0.0.2:80" two_proxies.use_count
        else 0))
unfolding lookup_or
prune_lem_example =
    prune_lem settings 950 1000 "10.0.0.2:80" two_proxies (omega arith) two_proxies-IsPool
      (omega arith) (omega arith)

take_turn-first_example :
    (take_turn settings (λ n. 800) two_proxies).0
    ≡ returned (first_ready 800 two_proxies.banned two_proxies.pool)
unfolding contains
take_turn-first_example = take_turn-first settings 800 two_proxies (refl, (refl, tt))

-- clients as numbers, under a capacity of two
abbrev two_clients : Dict String ℕ
two_clients = ("a", 5) ∷ ("b", 6) ∷ []

abbrev any_client : ℕ → Bool
any_client n = true

get_or_create-kept_example :
    let (client, closed, after) = get_or_create {K = String} {C = ℕ} "c" 7 2 two_clients in
    (clients any_client after + tally any_client closed
      ≡ clients any_client two_clients + created (lookup "c" two_clients) 7 any_client)
    × (lookup "c" after ≡ some client)
    × (length after ≤ max 2 1)
unfolding has
get_or_create-kept_example =
    get_or_create-kept any_client "c" 7 2 two_clients (refl, (refl, tt)) (omega arith)

abbrev body : List (List ℕ)
body = (1 ∷ 2 ∷ []) ∷ (3 ∷ 4 ∷ []) ∷ []

read_capped_lem_example : read_capped 3 (some 2) body ≡ (
    if leb 3 0
    then returned (join body)
    else if exceeds 3 (some 2)
    then raised
    else within 3 (join body))
read_capped_lem_example = read_capped_lem 3 (some 2) body

-- a pool whose state is the clock, and which has a proxy from time 300 on
abbrev late_pool : ProxyPool ℕ
late_pool = record {
  get_proxy = λ now. ((if ltb now 300 then none else some "http://10.0.0.1:80"), now);
  report_bad = λ proxy now. now;
  report_suspect = none;
  report_good = none;
  clock = λ now. now;
  sleep = λ now. now + 100;
}

abbrev proxy_settings : Proxies.Settings
proxy_settings = record { allow_direct = false; wait_timeout = 1000 }

no_explicit : explicit_proxy (get_request "http://a/") none ≡ none
unfolding explicit_proxy init http_part lookup
no_explicit = refl

late_stays : (now : ℕ) → (attempt_proxy proxy_settings none (some late_pool) now).1 ≡ now
late_stays now = elim (Bool-cases (ltb now 300)) [ inl e ↦ rw e refl | inr e ↦ rw e refl ]

late_advances : Advances (proxy_trial proxy_settings none late_pool)
late_advances now = omega (
  arith,
  late_stays now,
  late_stays ((attempt_proxy proxy_settings none (some late_pool) now).1 + 100),
)

pick_proxy-hidden_example :
    is_hidden proxy_settings late_pool
      (pick_proxy proxy_settings 1002 (get_request "http://a/") none (some late_pool) 0)
    ≡ true
pick_proxy-hidden_example =
    pick_proxy-hidden proxy_settings late_pool (get_request "http://a/") none 0 refl no_explicit
      late_advances
