-- ===== src/Cache.antt =====
-- network/cache.py, and `download_request` of network/downloader/__init__.py, which uses it. The files below
-- RESPONSE_CACHE_PATH are a dictionary from a request's fingerprint, which names the file, to the text of the
-- file, of a type `T`, and the time at which it was written. A part file that a failed write leaves behind
-- is never read and left out. `N` is the state of the throttle and the network.
pub mod Replayed
pub mod Clean
use netspy.Base.{
  ℕ, ◌+◌, ◌-◌, String, Bool, true, false, not, ◌&&◌, ◌||◌, Option, none, some, List, [],
  if◌then◌else◌, ltb, length, ◌==◌, String_eq, ◌⊎◌, inl, inr,
}
use netspy.Base.Dict.{Dict, lookup, insert}
use netspy.Exceptions.{Exception, antibot}
use netspy.Request.{Request}
use netspy.Response.{◌>>=◌, Response, Stored, Texts, to_dict, from_dict, seen}
use netspy.Status.{Policy, Verdict, ok, retry, fail, classify}
use netspy.AntiBot.{Bytes, detect}

pub record File (T : Type 0) : Type 0 where
  pub text : T
  pub mtime : ℕ

abbrev pub Files : Type 0 → Type 0
Files T = Dict String (File T)

-- The standard library's JSON: `loads` is none where it raises.
pub record Json (S T : Type 0) : Type 0 where
  pub dumps : Stored S → T
  pub loads : T → Option (Stored S)

-- RESPONSE_CACHE_ENABLE, RESPONSE_CACHE_EXPIRE and ANTIBOT_DETECT, and the policy on status codes
pub record Settings : Type 0 where
  pub cache_enable : Bool
  pub cache_expire : ℕ
  pub antibot_detect : Bool
  pub policy : Policy

unfoldable pub is_ok_verdict : Verdict → Bool
is_ok_verdict ok = true
is_ok_verdict retry = false
is_ok_verdict fail = false

-- `_cacheable`
unfoldable pub is_cacheable : Request → Bool
is_cacheable q = q.method == "GET"

unfoldable pub is_expired : {T : Type 0} → Settings → ℕ → File T → Bool
is_expired s now f = ltb 0 s.cache_expire && ltb s.cache_expire (now - f.mtime)

-- `clear`: the number of entries that it deletes
unfoldable pub clear : {T : Type 0} → Files T → ℕ × Files T
clear files = (length files, [])

module _ {S T : Type 0} (x : Texts S) (j : Json S T) (fingerprint : Request → String)
    (s : Settings) where
  unfoldable pub read_file : Request → File T → Option Response
  read_file q f = do d ← j.loads f.text; r ← from_dict x d; some (record r { request = some q })

  unfoldable pub read_entry : Request → ℕ → Option (File T) → Option Response
  read_entry q now none = none
  read_entry q now (some f) = if is_expired s now f then none else read_file q f

  unfoldable pub load : Request → ℕ → Files T → Option Response
  load q now files =
      if not s.cache_enable || not (is_cacheable q)
      then none
      else read_entry q now (lookup (fingerprint q) files)

  -- `store`; `writes` says whether the write succeeds
  unfoldable pub store : Request → Response → Bool → ℕ → Files T → Files T
  store q r writes now files =
      if not s.cache_enable || not (is_cacheable q)
      then files
      else if not (is_ok_verdict (classify s.policy (seen r)))
      then files
      else if writes
      then insert (fingerprint q) (record { text = j.dumps (to_dict x r); mtime = now }) files
      else files

  module _ {N : Type 0} (b : Bytes) (download : Request → N → (Response ⊎ Exception) × N) where
    -- `raise_if_blocked`, then the write
    unfoldable pub keep_unless_blocked :
        Request → Response → Bool → ℕ → Files T → (Response ⊎ Exception) × Files T
    keep_unless_blocked q r writes now files =
        if s.antibot_detect
        then elim (detect b r) [
          | some kind ↦ (inr antibot, files)
          | none ↦ (inl r, store q r writes now files)
        ]
        else (inl r, store q r writes now files)

    unfoldable pub after_download :
        Request
        → (Response ⊎ Exception) × N
        → Bool
        → ℕ
        → Files T
        → (Response ⊎ Exception) × Files T × N
    after_download q (inr e, n) writes now files = (inr e, files, n)
    after_download q (inl r, n) writes now files =
        let (answer, files') = keep_unless_blocked q r writes now files in (answer, files', n)

    abbrev pub cached_or_new :
        Option Response → Request → Bool → ℕ → Files T → N → (Response ⊎ Exception) × Files T × N
    cached_or_new (some r) q writes later files n = (inl r, files, n)
    cached_or_new none q writes later files n = after_download q (download q n) writes later files

    -- `download_request`: the throttle's slot is taken inside `download`
    unfoldable pub download_request :
        Request → Bool → ℕ → ℕ → Files T → N → (Response ⊎ Exception) × Files T × N
    download_request q writes now later files n =
        cached_or_new (load q now files) q writes later files n
