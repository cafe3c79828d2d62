-- ===== src/Candidates/Repos.antt =====
-- src/nightshift/repos.py and `is_valid_name` of src/nightshift/playlists.py: the repository that a task
-- works in.
use nightshift.Base.{
  String, Bool, true, false, not, ◌&&◌, ◌||◌, Option, none, some, ◌==◌, if◌then◌else◌, leb, Json,
  str, strip, Result, ok, err, ◌>>=◌, attribute_error, repo_config_error,
}
use Prim.Native.Char.{Char, code}
use nightshift.Queues.Config.{truth}

abbrev is_name_char : Char → Bool
is_name_char c = leb 97 (code c) && leb (code c) 122 || leb 48 (code c) && leb (code c) 57

-- `[a-z0-9-]*$`, where `$` also stands before a line feed at the end.
unfoldable pub name_rest : String → Bool
name_rest String.[] = true
name_rest (String.◌∷◌ c s) =
    (is_name_char c || leb 45 (code c) && leb (code c) 45) && name_rest s
    || leb 10 (code c) && leb (code c) 10 && s == ""

unfoldable pub is_valid_name : String → Bool
unfolding name_rest
is_valid_name String.[] = false
is_valid_name (String.◌∷◌ c s) = is_name_char c && name_rest s && not (String.◌∷◌ c s == "runs")

unfoldable pub is_valid_repo_ref : Option String → Bool
unfolding is_valid_name
is_valid_repo_ref none = false
is_valid_repo_ref (some ref) = not (ref == "") && is_valid_name ref

-- `(value or "").strip()`; only texts have `strip`.
unfoldable pub stripped : Option Json → Result String
unfolding strip truth
stripped none = ok ""
stripped (some (str s)) = ok (strip s)
stripped (some v) = if truth v then err (attribute_error "strip") else ok ""

abbrev pub no_repo : String
no_repo =
    "no target repo set: the queue's config.json must set a default `repo` (or the task frontmatter must override it)"

-- The two RepoConfigErrors; the second message goes on with the reference and the rule.
unfoldable pub checked_ref : String → Result String
unfolding is_valid_repo_ref
checked_ref ref =
    if ref == ""
    then err (repo_config_error no_repo)
    else if is_valid_repo_ref (some ref)
    then ok ref
    else err (repo_config_error "invalid repo reference")

-- The queue's repository is read where the task names none.
unfoldable pub resolve_repo : Option Json → Option Json → Result String
unfolding stripped checked_ref
resolve_repo task_repo queue_repo = stripped task_repo >>= λ ref.
    if ref == "" then stripped queue_repo >>= checked_ref else checked_ref ref
