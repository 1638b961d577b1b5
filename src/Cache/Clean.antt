-- ===== src/Cache/Clean.antt =====
-- Which pages the files of the response cache hold.
use netspy.Base.{
  ℕ, ◌≡◌, refl, Option-cases, Bool, true, false, ◌&&◌, String, Option, none, some, List, [], ◌∷◌,
  All, ◌⊎◌, inl, inr, arith, ◌==◌, String_eq, Bool-cases,
}
use netspy.Base.Dict.{insert}
use netspy.Exceptions.{Exception}
use netspy.Request.{Request}
use netspy.Response.{◌>>=◌, Response, Stored, Texts, to_dict, from_dict, seen}
use netspy.Response.RoundTrip.{IsWellFormed, from_dict-to_dict}
use netspy.Status.{classify}
use netspy.AntiBot.{
  Bytes, detect, has_marker, looks_like_cloudflare, looks_like_akamai, looks_like_js_redirect,
}
use netspy.Cache.{
  File, Files, Json, Settings, is_ok_verdict, load, store, keep_unless_blocked, after_download,
  cached_or_new, download_request,
}
use netspy.Cache.Replayed.{Call, call, calls}

abbrev none_found : Option String → Bool
none_found none = true
none_found (some kind) = false

-- the answer of a download: a response is as its constructor makes it
abbrev pub Whole : (String → String) → Response ⊎ Exception → Type 0
Whole lower (inl r) = IsWellFormed lower r
Whole lower (inr e) = Unit

module _ {S T : Type 0} (x : Texts S) (j : Json S T) (s : Settings) (b : Bytes) where
  abbrev judge : Option Response → Bool
  judge none = true
  judge (some r) = is_ok_verdict (classify s.policy (seen r)) && none_found (detect b r)

  -- the file can be replayed: its page, if it can be read, has a status that the policy accepts and no mark of
  -- a blocked page
  unfoldable pub is_clean : File T → Bool
  is_clean f = judge (j.loads f.text >>= from_dict x)

  abbrev pub Clean : Files T → Type 0
  Clean files = All (λ e. is_clean e.1 ≡ true) files

  Clean-insert :
      (k : String) (f : File T) (files : Files T)
      → is_clean f ≡ true
      → Clean files
      → Clean (insert k f files)
  unfolding insert
  Clean-insert k f [] c a = (c, tt)
  Clean-insert k f ((i, g) ∷ files) c a = elim (Bool-cases (i == k)) [
    | inl e ↦ rw e (c, a.1)
    | inr e ↦ rw e (a.0, Clean-insert k f files c a.1)
  ]

  detect-unasked : (r : Response) → detect b (record r { request = none }) ≡ detect b r
  unfolding detect has_marker looks_like_cloudflare looks_like_akamai looks_like_js_redirect
  detect-unasked r = refl

  module _ (fingerprint : Request → String)
      (b64_law : (c : List ℕ) → x.b64decode (x.b64encode c) ≡ some c)
      (json_law : (d : Stored S) → j.loads (j.dumps d) ≡ some d) where
    is_clean-stored :
        (r : Response) (now : ℕ)
        → IsWellFormed x.lower r
        → is_ok_verdict (classify s.policy (seen r)) ≡ true
        → detect b r ≡ none
        → is_clean (record { text = j.dumps (to_dict x r); mtime = now }) ≡ true
    unfolding is_clean seen
    is_clean-stored r now w good clean =
        rw (json_law (to_dict x r), from_dict-to_dict x b64_law r w)
          (rw (detect-unasked r, clean) (ground (arith, good)))

    Clean-store :
        (q : Request) (r : Response) (writes : Bool) (now : ℕ) (files : Files T)
        → IsWellFormed x.lower r
        → detect b r ≡ none
        → Clean files
        → Clean (store x j fingerprint s q r writes now files)
    unfolding store
    Clean-store q r writes now files w clean a =
        elim (Bool-cases (is_ok_verdict (classify s.policy (seen r)))) [
          | inr e ↦ rw e (ground (arith, a))
          | inl e ↦ rw e (
              ground (
                arith,
                a,
                Clean-insert (fingerprint q) (record { text = j.dumps (to_dict x r); mtime = now })
                    files (is_clean-stored r now w e clean) a,
              ))
        ]

    module _ {N : Type 0} (download : Request → N → (Response ⊎ Exception) × N) where
      Clean-keep_unless_blocked :
          (q : Request) (r : Response) (writes : Bool) (now : ℕ) (files : Files T)
          → s.antibot_detect ≡ true
          → IsWellFormed x.lower r
          → Clean files
          → Clean (keep_unless_blocked x j fingerprint s b download q r writes now files).1
      unfolding keep_unless_blocked is_clean
      Clean-keep_unless_blocked q r writes now files on w a = elim (Option-cases (detect b r)) [
        | inl e ↦ rw (on, e) (Clean-store q r writes now files w e a)
        | inr (kind, e) ↦ rw (on, e) a
      ]

      Clean-after_download :
          (q : Request) (a : (Response ⊎ Exception) × N) (writes : Bool) (now : ℕ) (files : Files T)
          → s.antibot_detect ≡ true
          → Whole x.lower a.0
          → Clean files
          → Clean (after_download x j fingerprint s b download q a writes now files).1
      unfolding after_download
      Clean-after_download q (inr e, n) writes now files on w c = c
      Clean-after_download q (inl r, n) writes now files on w c =
          Clean-keep_unless_blocked q r writes now files on w c

      Clean-cached_or_new :
          (o : Option Response) (q : Request) (writes : Bool) (now : ℕ) (files : Files T) (n : N)
          → s.antibot_detect ≡ true
          → Whole x.lower (download q n).0
          → Clean files
          → Clean (cached_or_new x j fingerprint s b download o q writes now files n).1
      Clean-cached_or_new (some r) q writes now files n on w c = c
      Clean-cached_or_new none q writes now files n on w c =
          Clean-after_download q (download q n) writes now files on w c

      -- Let base64 and JSON read back what they write. With ANTIBOT_DETECT, whatever calls are made, with whatever downloads and at whatever times, each file
      -- of a cache that had only clean files is clean: its page has a status that the policy accepts, and no
      -- rule on blocked pages matches it. The responses that the downloader gives have header names that are
      -- in lower case and stand once.
      pub Clean-calls :
          (whole : (q : Request) (n : N) → Whole x.lower (download q n).0) (cs : List Call)
          (files : Files T) (n : N)
          → s.antibot_detect ≡ true
          → Clean files
          → Clean (calls x j fingerprint s b download cs files n).0
      unfolding calls call download_request
      Clean-calls whole [] files n on c = c
      Clean-calls whole (k ∷ cs) files n on c =
          let (a, files', n') = call x j fingerprint s b download k files n in
          Clean-calls whole cs files' n' on (
            Clean-cached_or_new (load x j fingerprint s k.request k.now files) k.request k.writes
              k.later files n on (whole k.request n) c)
