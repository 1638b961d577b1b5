-- ===== src/Robots.antt =====
-- network/robots.py: the rules of each domain, fetched once and kept for a time, and the Crawl-delay that they
-- declare, which the throttle of Throttle.antt takes. Times and delays are milliseconds. The locks, one for
-- each domain, are left out, and so is the log; a text is the list of its lines.
pub mod Obeyed
use netspy.Base.{
  ℕ, ◌+◌, ◌-◌, String, Bool, true, false, not, ◌&&◌, ◌||◌, Option, none, some, List, [], ◌∷◌, ◌++◌,
  if◌then◌else◌, ltb, leb, nat_eq, ◌==◌, String_eq,
}
use netspy.Base.Dict.{Dict, lookup, insert}
use netspy.Base.Text.{has_mark, before, after}
use netspy.Throttle.{DomainThrottle, set_domain_delay}

-- `str.strip`, `str.lower`, and `float`, none where it raises ValueError
pub record Texts : Type 0 where
  pub strip : String → String
  pub lower : String → String
  pub float : String → Option ℕ

-- what the loop of `parse_crawl_delay` keeps
pub record Reader : Type 0 where
  pub delays : Dict String ℕ
  pub group : List String
  pub seen_rule : Bool

abbrev pub new_reader : Reader
new_reader = record { delays = []; group = []; seen_rule = false }

-- `for agent in group: delays[agent] = seconds`
unfoldable pub set_all : List String → ℕ → Dict String ℕ → Dict String ℕ
set_all [] seconds d = d
set_all (agent ∷ group) seconds d = set_all group seconds (insert agent seconds d)

-- a `user-agent` line: a new group after a rule
unfoldable pub add_agent : String → Reader → Reader
add_agent agent r =
    if r.seen_rule
    then record r { group = agent ∷ []; seen_rule = false }
    else record r { group = r.group ++ agent ∷ [] }

-- a `crawl-delay` line
unfoldable pub set_delay : Option ℕ → Reader → Reader
set_delay none r = record r { seen_rule = true }
set_delay (some seconds) r = record r {
  delays = set_all r.group seconds r.delays;
  seen_rule = true;
}

-- a line by its key and its value
unfoldable pub read_rule : Texts → String → String → Reader → Reader
read_rule x key value r =
    if key == "user-agent"
    then add_agent (x.lower value) r
    else if key == "crawl-delay"
    then set_delay (x.float value) r
    else if key == "allow" || key == "disallow" || key == "sitemap"
    then record r { seen_rule = true }
    else r

unfoldable pub read_line : Texts → String → Reader → Reader
read_line x raw r =
    let line = x.strip (before "#" raw) in
    if line == "" || not (has_mark ":" line)
    then r
    else read_rule x (x.lower (x.strip (before ":" line))) (x.strip (after ":" line)) r

unfoldable pub read_lines : Texts → List String → Reader → Reader
read_lines x [] r = r
read_lines x (line ∷ rest) r = read_lines x rest (read_line x line r)

-- the own entry, else that of "*"
abbrev pub or_any : Option ℕ → Option ℕ → Option ℕ
or_any none other = other
or_any (some seconds) other = some seconds

unfoldable pub parse_crawl_delay : Texts → List String → String → Option ℕ
parse_crawl_delay x text useragent =
    let delays = (read_lines x text new_reader).delays in
    or_any (lookup (x.lower useragent) delays) (lookup "*" delays)

-- `_Entry`; `R` is the rules of the standard library's parser
pub record Entry (R : Type 0) : Type 0 where
  pub parser : Option R
  pub text : List String
  pub fetched_at : ℕ

-- The standard library's parser: its answer on an agent and a URL, none where it raises.
pub record Parser (R : Type 0) : Type 0 where
  pub parse : List String → Option R
  pub can_fetch : R → String → String → Option Bool

-- ROBOTS_CACHE_TTL and ROBOTS_USER_AGENT
pub record Settings : Type 0 where
  pub cache_ttl : ℕ
  pub user_agent : String

-- the cache and the throttle that it feeds
pub record Robots (R : Type 0) : Type 0 where
  pub entries : Dict String (Entry R)
  pub throttle : DomainThrottle

module _ {R : Type 0} (x : Texts) (p : Parser R) (s : Settings) where
  abbrev pub parsed : List String → Option R → Option R × List String
  parsed text none = (none, [])
  parsed text (some rules) = (some rules, text)

  -- `_fetch`, by the status and the text of the response, none where the download raises: whatever cannot be had counts
  -- as no rules
  unfoldable pub fetch : Option (ℕ × List String) → Option R × List String
  fetch none = (none, [])
  fetch (some (code, text)) =
      if nat_eq code 404 || (leb 400 code && ltb code 500)
      then (none, [])
      else if not (leb 200 code && ltb code 300)
      then (none, [])
      else parsed text (p.parse text)

  -- `_fresh`
  unfoldable pub is_fresh : ℕ → Entry R → Bool
  is_fresh now e = leb s.cache_ttl 0 || ltb (now - e.fetched_at) s.cache_ttl

  abbrev pub set_if_positive : String → Option ℕ → DomainThrottle → DomainThrottle
  set_if_positive domain none t = t
  set_if_positive domain (some seconds) t =
      if ltb 0 seconds then set_domain_delay domain seconds t else t

  abbrev pub has_rules : Option R → Bool
  has_rules none = false
  has_rules (some rules) = true

  -- `_apply_crawl_delay`
  unfoldable pub apply_crawl_delay : String → Entry R → DomainThrottle → DomainThrottle
  apply_crawl_delay domain e t =
      if has_rules e.parser
      then set_if_positive domain (parse_crawl_delay x e.text s.user_agent) t
      else t

  -- the part of `_entry` that fetches
  unfoldable pub new_entry : Option (ℕ × List String) → ℕ → String → Robots R → Entry R × Robots R
  new_entry response later domain r =
      let (rules, text) = fetch response in
      let e : Entry R = record { parser = rules; text = text; fetched_at = later } in
      (
        e,
        record {
          entries = insert domain e r.entries;
          throttle = apply_crawl_delay domain e r.throttle;
        },
      )

  abbrev pub kept_or_new :
      Option (Entry R) → Option (ℕ × List String) → ℕ → ℕ → String → Robots R → Entry R × Robots R
  kept_or_new none response now later domain r = new_entry response later domain r
  kept_or_new (some e) response now later domain r =
      if is_fresh now e then (e, r) else new_entry response later domain r

  -- `_entry` of a URL's domain: `response` is what a request for robots.txt would give, `now` and `later`
  -- the clock before and after it
  unfoldable pub entry : Option (ℕ × List String) → ℕ → ℕ → String → Robots R → Entry R × Robots R
  entry response now later domain r =
      kept_or_new (lookup domain r.entries) response now later domain r

  abbrev pub allows : Option R → String → Bool
  allows none url = true
  allows (some rules) url = elim (p.can_fetch rules s.user_agent url) [ none ↦ true | some b ↦ b ]

  -- `RobotsCache.allowed`
  unfoldable pub allowed :
      Option (ℕ × List String) → ℕ → ℕ → String → String → Robots R → Bool × Robots R
  allowed response now later domain url r =
      let (e, r') = entry response now later domain r in (allows e.parser url, r')

  -- the module's `allowed`; the test is ROBOTS_OBEY
  unfoldable pub obeyed :
      Bool → Option (ℕ × List String) → ℕ → ℕ → String → String → Robots R → Bool × Robots R
  obeyed obey response now later domain url r =
      if obey then allowed response now later domain url r else (true, r)

  -- `RobotsCache.crawl_delay`
  unfoldable pub crawl_delay :
      Option (ℕ × List String) → ℕ → ℕ → String → Robots R → Option ℕ × Robots R
  crawl_delay response now later domain r =
      let (e, r') = entry response now later domain r in
      ((if has_rules e.parser then parse_crawl_delay x e.text s.user_agent else none), r')
