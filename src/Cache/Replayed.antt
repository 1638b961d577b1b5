-- ===== src/Cache/Replayed.antt =====
-- What a request gets from the cache after a download, with other calls in between.
use netspy.Base.{
  ℕ, ◌≡◌, refl, ap, ◌∙◌, Bool, true, false, String, Option, [], ◌∷◌, All, none, some, List, ◌⊎◌,
  inl, inr, arith, ◌==◌, ==_refl, ==_sound, Bool-cases, String_eq,
}
use netspy.Base.Dict.{lookup, insert, lookup-insert}
use netspy.Exceptions.{Exception}
use netspy.Request.{Request}
use netspy.Response.{Response, Stored, Texts, to_dict, seen}
use netspy.Response.RoundTrip.{IsWellFormed, from_dict-to_dict}
use netspy.Status.{classify}
use netspy.AntiBot.{Bytes, detect}
use netspy.Cache.{
  File, Files, Json, Settings, is_ok_verdict, is_cacheable, is_expired, read_file, read_entry, load,
  store, keep_unless_blocked, cached_or_new, after_download, download_request,
}

-- a call: the request, whether its write succeeds, and the clock before and after the download
pub record Call : Type 0 where
  pub request : Request
  pub writes : Bool
  pub now : ℕ
  pub later : ℕ

module _ {S T N : Type 0} (x : Texts S) (j : Json S T) (fingerprint : Request → String)
    (s : Settings) (b : Bytes) (download : Request → N → (Response ⊎ Exception) × N) where
  unfoldable pub call : Call → Files T → N → (Response ⊎ Exception) × Files T × N
  call c files n =
      download_request x j fingerprint s b download c.request c.writes c.now c.later files n

  unfoldable pub calls : List Call → Files T → N → Files T × N
  calls [] files n = (files, n)
  calls (c ∷ rest) files n = let (a, files', n') = call c files n in calls rest files' n'

module _ {S T : Type 0} (x : Texts S) (j : Json S T) (fingerprint : Request → String) (s : Settings)
    (b64_law : (c : List ℕ) → x.b64decode (x.b64encode c) ≡ some c)
    (json_law : (d : Stored S) → j.loads (j.dumps d) ≡ some d) where
  read_file-stored :
      (q : Request) (r : Response) (now : ℕ)
      → IsWellFormed x.lower r
      → read_file x j fingerprint s q (record { text = j.dumps (to_dict x r); mtime = now })
        ≡ some (record r { request = some q })
  unfolding read_file
  read_file-stored q r now w = rw (json_law (to_dict x r), from_dict-to_dict x b64_law r w) refl

  load-hit :
      (q : Request) (f : File T) (now : ℕ) (files : Files T)
      → s.cache_enable ≡ true
      → is_cacheable q ≡ true
      → lookup (fingerprint q) files ≡ some f
      → is_expired s now f ≡ false
      → load x j fingerprint s q now files ≡ read_file x j fingerprint s q f
  unfolding load read_entry
  load-hit q f now files on c held fresh = ground (arith, on, c, held, fresh)

  -- what `store` writes
  abbrev pub entry_of : Response → ℕ → File T
  entry_of r now = record { text = j.dumps (to_dict x r); mtime = now }

  load-stored :
      (q : Request) (k : String) (r : Response) (t now : ℕ) (files : Files T)
      → IsWellFormed x.lower r
      → s.cache_enable ≡ true
      → is_cacheable q ≡ true
      → (fingerprint q == k) ≡ true
      → lookup k files ≡ some (entry_of r t)
      → is_expired s now (entry_of r t) ≡ false
      → load x j fingerprint s q now files ≡ some (record r { request = some q })
  load-stored q k r t now files w on c same held fresh =
      load-hit q (entry_of r t) now files on c
        (ap (λ i. lookup i files) (==_sound (fingerprint q) k same) ∙ held) fresh
      ∙ read_file-stored q r t w

  own_entry : (k : String) (f : File T) (files : Files T) → lookup k (insert k f files) ≡ some f
  own_entry k f files = ground (arith, lookup-insert k k f files, ==_refl k)

  store-other :
      (q : Request) (r : Response) (writes : Bool) (now : ℕ) (k : String) (files : Files T)
      → (fingerprint q == k) ≡ false
      → lookup k (store x j fingerprint s q r writes now files) ≡ lookup k files
  unfolding store
  store-other q r writes now k files other =
      let f : File T = record { text = j.dumps (to_dict x r); mtime = now } in
      ground (arith, other, lookup-insert (fingerprint q) k f files)

  store-uncached :
      (q : Request) (r : Response) (writes : Bool) (now : ℕ) (files : Files T)
      → is_cacheable q ≡ false
      → store x j fingerprint s q r writes now files ≡ files
  unfolding store
  store-uncached q r writes now files h = ground (arith, h)

  module _ {N : Type 0} (b : Bytes) (download : Request → N → (Response ⊎ Exception) × N) where
    keep_unless_blocked-kept :
        (q : Request) (r : Response) (writes : Bool) (now : ℕ) (k : String) (files : Files T)
        → lookup k (store x j fingerprint s q r writes now files) ≡ lookup k files
        → lookup k (keep_unless_blocked x j fingerprint s b download q r writes now files).1
          ≡ lookup k files
    unfolding keep_unless_blocked
    keep_unless_blocked-kept q r writes now k files h = ground (arith, h)

    after_download-kept :
        (q : Request) (a : (Response ⊎ Exception) × N) (writes : Bool) (now : ℕ) (k : String)
        (files : Files T)
        → ((r : Response)
            → lookup k (store x j fingerprint s q r writes now files) ≡ lookup k files)
        → lookup k (after_download x j fingerprint s b download q a writes now files).1
          ≡ lookup k files
    unfolding after_download
    after_download-kept q (inr e, n) writes now k files h = refl
    after_download-kept q (inl r, n) writes now k files h =
        keep_unless_blocked-kept q r writes now k files (h r)

    cached_or_new-kept :
        (o : Option Response) (q : Request) (writes : Bool) (later : ℕ) (k : String)
        (files : Files T) (n : N)
        → ((r : Response)
            → lookup k (store x j fingerprint s q r writes later files) ≡ lookup k files)
        → lookup k (cached_or_new x j fingerprint s b download o q writes later files n).1
          ≡ lookup k files
    cached_or_new-kept none q writes later k files n h =
        after_download-kept q (download q n) writes later k files h
    cached_or_new-kept (some r) q writes later k files n h = refl

    call-kept :
        (c : Call) (k : String) (files : Files T) (n : N)
        → ((r : Response)
            → lookup k (store x j fingerprint s c.request r c.writes c.later files)
              ≡ lookup k files)
        → lookup k (call x j fingerprint s b download c files n).1 ≡ lookup k files
    unfolding call download_request
    call-kept c k files n h =
        cached_or_new-kept (load x j fingerprint s c.request c.now files) c.request c.writes c.later
          k files n h

    call-hit :
        (c : Call) (r : Response) (files : Files T) (n : N)
        → load x j fingerprint s c.request c.now files ≡ some r
        → call x j fingerprint s b download c files n ≡ (inl r, files, n)
    unfolding call download_request
    call-hit c r files n h =
        ap (λ o. cached_or_new x j fingerprint s b download o c.request c.writes c.later files n) h

    call-held :
        (c : Call) (k : String) (r : Response) (t : ℕ) (files : Files T) (n : N)
        → IsWellFormed x.lower r
        → s.cache_enable ≡ true
        → is_expired s c.now (entry_of r t) ≡ false
        → lookup k files ≡ some (entry_of r t)
        → lookup k (call x j fingerprint s b download c files n).1 ≡ some (entry_of r t)
    call-held c k r t files n w on fresh held = elim (Bool-cases (fingerprint c.request == k)) [
      | inr other ↦
          call-kept c k files n (λ a. store-other c.request a c.writes c.later k files other) ∙ held
      | inl same ↦ elim (Bool-cases (is_cacheable c.request)) [
        | inr h ↦
            call-kept c k files n
              (λ a. ap (lookup k) (store-uncached c.request a c.writes c.later files h))
            ∙ held
        | inl h ↦
            ap (λ a. lookup k a.1)
              (call-hit c (record r { request = some c.request }) files n
                (load-stored c.request k r t c.now files w on h same held fresh))
            ∙ held
      ]
    ]

    calls-held :
        (cs : List Call) (k : String) (r : Response) (t : ℕ) (files : Files T) (n : N)
        → IsWellFormed x.lower r
        → s.cache_enable ≡ true
        → All (λ c. is_expired s c.now (entry_of r t) ≡ false) cs
        → lookup k files ≡ some (entry_of r t)
        → lookup k (calls x j fingerprint s b download cs files n).0 ≡ some (entry_of r t)
    unfolding calls
    calls-held [] k r t files n w on fresh held = held
    calls-held (c ∷ cs) k r t files n w on fresh held =
        let (a, files', n') = call x j fingerprint s b download c files n in
        calls-held cs k r t files' n' w on fresh.1 (call-held c k r t files n w on fresh.0 held)

    first-stored :
        (c : Call) (r : Response) (files : Files T) (n n' : N)
        → s.cache_enable ≡ true
        → is_cacheable c.request ≡ true
        → c.writes ≡ true
        → load x j fingerprint s c.request c.now files ≡ none
        → download c.request n ≡ (inl r, n')
        → is_ok_verdict (classify s.policy (seen r)) ≡ true
        → detect b r ≡ none
        → call x j fingerprint s b download c files n
          ≡ (inl r, insert (fingerprint c.request) (entry_of r c.later) files, n')
    unfolding call download_request after_download keep_unless_blocked store
    first-stored c r files n n' on g writes miss d good clean =
        rw (miss, d) (ground (arith, on, g, writes, good, clean))

    -- Let base64 and JSON read back what they write. With the cache on, let a GET request miss it and be downloaded with a response whose status the policy
    -- accepts, which no rule on blocked pages matches, whose header names are in lower case and stand once,
    -- and whose write succeeds. Then after any calls made before the entry expires, whichever requests and
    -- answers they have, each call of a GET request with the same fingerprint before then returns that
    -- response, with itself as the request, without the throttle or the network, and writes nothing.
    pub download_request-replayed :
        (c again : Call) (cs : List Call) (r : Response) (files : Files T) (n n' : N)
        → IsWellFormed x.lower r
        → s.cache_enable ≡ true
        → is_cacheable c.request ≡ true
        → c.writes ≡ true
        → load x j fingerprint s c.request c.now files ≡ none
        → download c.request n ≡ (inl r, n')
        → is_ok_verdict (classify s.policy (seen r)) ≡ true
        → detect b r ≡ none
        → All (λ a. is_expired s a.now (entry_of r c.later) ≡ false) (again ∷ cs)
        → is_cacheable again.request ≡ true
        → fingerprint again.request ≡ fingerprint c.request
        → let later = calls x j fingerprint s b download (c ∷ cs) files n in
          call x j fingerprint s b download again later.0 later.1
          ≡ (inl (record r { request = some again.request }), later.0, later.1)
    unfolding calls
    download_request-replayed c again cs r files n n' w on g writes miss d good clean fresh g'
          same =
        let k = fingerprint c.request in
        let held =
          calls-held cs k r c.later (call x j fingerprint s b download c files n).1
            (call x j fingerprint s b download c files n).2 w on fresh.1
            (rw (first-stored c r files n n' on g writes miss d good clean)
              (own_entry k (entry_of r c.later) files)) in
        call-hit again (record r { request = some again.request })
          (calls x j fingerprint s b download (c ∷ cs) files n).0
          (calls x j fingerprint s b download (c ∷ cs) files n).1
          (load-stored again.request k r c.later again.now
            (calls x j fingerprint s b download (c ∷ cs) files n).0 w on g' (rw same (==_refl k))
            held fresh.0)
