-- ===== src/RetryCommand.antt =====
-- commands/retry.py: the command that replays the dumped items and probes the dumped requests. A file is
-- the list of its lines; the file system answers every call, and the log is left out.
pub mod Kept
use netspy.Base.{
  ℕ, suc, ◌+◌, ◌≡◌, String, Bool, true, false, not, ◌&&◌, Option, none, some, List, [], ◌∷◌, ◌++◌,
  map, length, Outcome, returned, raised, if◌then◌else◌, ◌==◌, String_eq, ltb, leb,
}
use netspy.Request.{Request}

-- What the command reads of a dumped item, a JSON object: its table, its update keys, and the pipelines of
-- its own.
pub record Fields (A : Type 0) : Type 0 where
  pub table : A → String
  pub update_keys : A → List String
  pub pipelines : A → Option (List String)

-- `tools.loads_json`, none where it raises, as on a blank line, and `tools.dumps_json`
pub record LineJson (A : Type 0) : Type 0 where
  pub loads : String → Option A
  pub dumps : A → String
  pub loads-dumps : (a : A) → loads (dumps a) ≡ some a

abbrev pub file_lines : Option (List String) → List String
file_lines none = []
file_lines (some ls) = ls

abbrev pub keep_read : {A : Type 0} → Option A → List A → List A
keep_read none records = records
keep_read (some a) records = a ∷ records

unfoldable pub read_all : {A : Type 0} → LineJson A → List String → List A
read_all c [] = []
read_all c (line ∷ rest) = keep_read (c.loads line) (read_all c rest)

-- `_read_lines`
unfoldable pub read_lines : {A : Type 0} → LineJson A → Option (List String) → List A
unfolding read_all
read_lines c file = read_all c (file_lines file)

-- `_rewrite`: no file if nothing remains
unfoldable pub rewrite : {A : Type 0} → LineJson A → List A → Option (List String)
rewrite c [] = none
rewrite c (r ∷ rs) = some (map c.dumps (r ∷ rs))

unfoldable pub same_texts : List String → List String → Bool
same_texts [] [] = true
same_texts (x ∷ xs) (y ∷ ys) = (x == y) && same_texts xs ys
same_texts xs ys = false

-- `tuple(paths) if paths else None`
abbrev pub route : Option (List String) → List String
route none = []
route (some paths) = paths

abbrev pub is_done : Option Bool → Bool
is_done none = false
is_done (some done) = done

module _ {A : Type 0} (f : Fields A) where
  -- the key of the groups: (table, update keys, pipelines)
  unfoldable pub same_group : A → A → Bool
  unfolding same_texts
  same_group a b =
      (f.table a == f.table b)
      && same_texts (f.update_keys a) (f.update_keys b)
      && same_texts (route (f.pipelines a)) (route (f.pipelines b))

  -- `groups[...].append(record)`; a group is named by its first record
  unfoldable pub add_record : A → List (A × List A) → List (A × List A)
  add_record r [] = (r, r ∷ []) ∷ []
  add_record r ((first, rows) ∷ groups) =
      if same_group first r
      then (first, rows ++ r ∷ []) ∷ groups
      else (first, rows) ∷ add_record r groups

  unfoldable pub group_all : List A → List (A × List A) → List (A × List A)
  group_all [] groups = groups
  group_all (r ∷ rs) groups = group_all rs (add_record r groups)

  -- The loop over the groups: the rows that were written, and those that remain. `writes` says whether every
  -- pipeline of the group takes its rows, none where one raises.
  unfoldable pub write_groups : (A → List A → Option Bool) → List (A × List A) → List A × List A
  write_groups writes [] = ([], [])
  write_groups writes ((first, rows) ∷ groups) =
      let (written, remaining) = write_groups writes groups in
      if is_done (writes first rows)
      then (rows ++ written, remaining)
      else (written, rows ++ remaining)

  -- `retry_items`: the two counts, and the file. `closes` says whether the pipelines close without an
  -- exception.
  unfoldable pub retry_items :
      LineJson A
      → (A → List A → Option Bool)
      → Bool
      → Option (List String)
      → Outcome (ℕ × ℕ) × Option (List String)
  retry_items c writes closes file =
      let records = read_lines c file in
      let (written, remaining) = write_groups writes (group_all records []) in
      if leb (length records) 0
      then (returned (0, 0), file)
      else if closes
      then (returned (length written, length remaining), rewrite c remaining)
      else (raised, file)

-- The loop of `retry_requests`. `probe` is the download of the request, which
-- `from_dict` makes of the record: whether the response is fine, none where it raises a RequestError.
unfoldable pub probe_all : {A : Type 0} → (A → Option Bool) → List A → ℕ × ℕ
probe_all probe [] = (0, 0)
probe_all probe (r ∷ rs) =
    let (ok, unreachable) = probe_all probe rs in
    if is_done (probe r) then (suc ok, unreachable) else (ok, suc unreachable)

unfoldable pub retry_requests :
    {A : Type 0}
    → LineJson A
    → (A → Option Bool)
    → Option (List String)
    → (ℕ × ℕ) × Option (List String)
retry_requests c probe file = (probe_all probe (read_lines c file), file)
