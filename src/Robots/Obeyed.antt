-- ===== src/Robots/Obeyed.antt =====
-- When the rules of a domain are fetched, and how their delay reaches the throttle.
use netspy.Base.{
  ℕ, ◌≤◌, ◌≡◌, refl, String, true, false, Option, none, some, List, [], ◌∷◌, arith, ◌==◌, ==_refl,
  String_eq, All, Bool-cases, inl, inr, sym, ap, ◌∙◌, subst,
}
use netspy.Base.Dict.{lookup, lookup-insert, lookup_or-insert}
use netspy.Throttle.{DomainThrottle, set_domain_delay, interval}
use netspy.Throttle
use netspy.Robots.{
  Texts, Parser, Settings, Robots, Entry, parse_crawl_delay, fetch, is_fresh, new_entry,
  kept_or_new, entry, apply_crawl_delay, set_if_positive,
}

-- a visit to a domain: what a request for its robots.txt would give, and the clock before and after it
pub record Visit : Type 0 where
  pub response : Option (ℕ × List String)
  pub now : ℕ
  pub later : ℕ
  pub domain : String

module _ {R : Type 0} (x : Texts) (p : Parser R) (s : Settings) where
  unfoldable pub visit : Visit → Robots R → Entry R × Robots R
  visit v r = entry x p s v.response v.now v.later v.domain r

  unfoldable pub visits : List Visit → Robots R → Robots R
  unfolding visit
  visits [] r = r
  visits (v ∷ vs) r = visits vs (visit v r).1

  kept_new :
      (v : Visit) (r : Robots R)
      → let a = new_entry x p s v.response v.later v.domain r in
        lookup v.domain a.1.entries ≡ some a.0
  unfolding new_entry
  kept_new v r =
      let e : Entry R = (new_entry x p s v.response v.later v.domain r).0 in
      ground (arith, lookup-insert v.domain v.domain e r.entries, ==_refl v.domain)

  kept_visit :
      (v : Visit) (o : Option (Entry R)) (r : Robots R)
      → lookup v.domain r.entries ≡ o
      → let a = kept_or_new x p s o v.response v.now v.later v.domain r in
        lookup v.domain a.1.entries ≡ some a.0
  kept_visit v none r h = kept_new v r
  kept_visit v (some e) r h = elim (Bool-cases (is_fresh x p s v.now e)) [
    | inl f ↦ rw f h
    | inr f ↦ rw f (kept_new v r)
  ]

  other_visit :
      (v : Visit) (domain : String) (o : Option (Entry R)) (r : Robots R)
      → (v.domain == domain) ≡ false
      → lookup domain (kept_or_new x p s o v.response v.now v.later v.domain r).1.entries
        ≡ lookup domain r.entries
  unfolding new_entry
  other_visit v domain none r h =
      let e : Entry R = (new_entry x p s v.response v.later v.domain r).0 in
      ground (arith, h, lookup-insert v.domain domain e r.entries)
  other_visit v domain (some e) r h =
      let new : Entry R = (new_entry x p s v.response v.later v.domain r).0 in
      ground (arith, h, lookup-insert v.domain domain new r.entries)

  other_visits :
      (vs : List Visit) (domain : String) (r : Robots R)
      → All (λ v. (v.domain == domain) ≡ false) vs
      → lookup domain (visits vs r).entries ≡ lookup domain r.entries
  unfolding visits visit entry
  other_visits [] domain r h = refl
  other_visits (v ∷ vs) domain r h =
      other_visits vs domain (visit v r).1 h.1
      ∙ other_visit v domain (lookup v.domain r.entries) r h.0

  fresh_visit :
      (v : Visit) (e : Entry R) (o : Option (Entry R)) (r : Robots R)
      → o ≡ some e
      → is_fresh x p s v.now e ≡ true
      → kept_or_new x p s o v.response v.now v.later v.domain r ≡ (e, r)
  fresh_visit v e none r h f = cc
  fresh_visit v e (some e') r h f = ground (arith, h, f)

  -- A visit to a domain, visits to other domains, and a second visit to the domain while its entry is
  -- fresh: the second finds the entry of the first, whatever a request for robots.txt would give by then,
  -- and changes neither the cache nor the throttle.
  pub visit-visits :
      (v again : Visit) (vs : List Visit) (r : Robots R)
      → again.domain ≡ v.domain
      → All (λ u. (u.domain == v.domain) ≡ false) vs
      → is_fresh x p s again.now (visit v r).0 ≡ true
      → let r' = visits vs (visit v r).1 in visit again r' ≡ ((visit v r).0, r')
  unfolding visit entry
  visit-visits v again vs r d h f =
      let e : Entry R = (visit v r).0 in
      let r' : Robots R = visits vs (visit v r).1 in
      let found : lookup again.domain r'.entries ≡ some e =
        ap (λ k. lookup k r'.entries) d
        ∙ other_visits vs v.domain (visit v r).1 h
        ∙ kept_visit v (lookup v.domain r.entries) r refl in
      fresh_visit again e (lookup again.domain r'.entries) r' found f

  throttle-fetched :
      (domain : String) (later seconds : ℕ) (rules : R) (text : List String)
      (found : Option R × List String) (d : DomainThrottle)
      → found ≡ (some rules, text)
      → parse_crawl_delay x text s.user_agent ≡ some seconds
      → apply_crawl_delay x p s domain
          (record { parser = found.0; text = found.1; fetched_at = later })
          d
        ≡ set_if_positive x p s domain (some seconds) d
  unfolding apply_crawl_delay
  throttle-fetched domain later seconds rules text found d f c = rw (f, c) refl

  throttle-visit :
      (v : Visit) (rules : R) (text : List String) (seconds : ℕ) (r : Robots R)
      → lookup v.domain r.entries ≡ none
      → fetch x p s v.response ≡ (some rules, text)
      → parse_crawl_delay x text s.user_agent ≡ some seconds
      → (visit v r).1.throttle ≡ set_if_positive x p s v.domain (some seconds) r.throttle
  unfolding visit entry new_entry
  throttle-visit v rules text seconds r l f c =
      rw l (
        throttle-fetched v.domain v.later seconds rules text (fetch x p s v.response) r.throttle f
          c)

  interval-positive :
      (t : Throttle.Settings) (uniform : ℕ → ℕ) (domain : String) (seconds : ℕ) (d : DomainThrottle)
      → t.randomize ≡ false
      → seconds ≤ interval t uniform domain (set_if_positive x p s domain (some seconds) d)
  unfolding interval set_domain_delay
  interval-positive t uniform domain seconds d n =
      ground (arith, n, lookup_or-insert 0 domain domain seconds d.domain_delay, ==_refl domain)

  -- After a visit that fetches rules with a positive Crawl-delay, the interval between the starts on the
  -- domain is at least that delay, where no random factor is applied to it.
  pub interval-visit :
      (v : Visit) (t : Throttle.Settings) (uniform : ℕ → ℕ) (rules : R) (text : List String)
      (seconds : ℕ) (r : Robots R)
      → lookup v.domain r.entries ≡ none
      → fetch x p s v.response ≡ (some rules, text)
      → parse_crawl_delay x text s.user_agent ≡ some seconds
      → t.randomize ≡ false
      → seconds ≤ interval t uniform v.domain (visit v r).1.throttle
  interval-visit v t uniform rules text seconds r l f c n =
      subst (λ u. seconds ≤ interval t uniform v.domain u)
        (sym (throttle-visit v rules text seconds r l f c))
        (interval-positive t uniform v.domain seconds r.throttle n)
