-- ===== src/Run/Diff/Resolve.antt =====
-- internal/run/diff.go: `resolveDiff`. What it asks of the file system, the root and the local
-- attributes of git, are parameters beside the calls of git.
use togi.Prelude.{ℕ, ◌+◌, ◌-◌, not, none, some, List, [], ◌∷◌, ◌++◌, ◌==◌, if◌then◌else◌, length}
use togi.Prelude.Check.{give, call, refuse_with, require, explain, ◌>>=◌, ◌>>◌}
use togi.Text.{Bytes, ascii, is_empty}
use togi.Run.Diff.Parse.{
  Parsed, ok, err, ChangedPath, parse_object_id, parse_changed_paths, parse_diff_ref,
  parse_automatic_base_refs, first_automatic, automatic_base_refs, validate_requested_base,
  reject_hidden_index_entries, literal_pathspec,
}
use togi.Run.Diff.Index.{tracked_gitlinks}
use togi.Run.Diff.Ranges.{HunkRange}
use togi.Run.Diff.Hunks.{
  GitPorts, GitReply, output, canceled, exited, failed, Reading, of_parsed, check_running,
  with_world, git_output, parse_diff_hunks, git_paths_output_limit, git_diff_output_limit,
}

abbrev git_reference_output_limit : ℕ
git_reference_output_limit = 4096

abbrev git_status_output_limit : ℕ
git_status_output_limit = 1048576

pub record Diff : Type 0 where
  pub base_ref : Bytes
  pub base_commit : Bytes
  pub merge_base : Bytes
  pub head : Bytes
  pub changed_files : ℕ
  pub changed_lines : ℕ
  -- the ranges of each path, in the order in which git names the paths
  pub lines : List (Bytes × List HunkRange)

pub record DiffPorts : Type 1 where
  pub git_ports : GitPorts
  -- canonicalDiffRoot
  pub canonical_root : Bytes → git_ports.World → Parsed Bytes × git_ports.World
  -- resolveLocalAttributesPath with checkLocalAttributes
  pub local_attributes : Bytes → git_ports.World → Parsed (Unit {0}) × git_ports.World

abbrev deterministic_diff_options : List Bytes
deterministic_diff_options =
    ascii "--no-ext-diff"
    ∷ ascii "--no-textconv"
    ∷ ascii "--diff-algorithm=myers"
    ∷ ascii "--no-indent-heuristic"
    ∷ ascii "--inter-hunk-context=0"
    ∷ ascii "--find-renames=50%"
    ∷ ascii "-l0"
    ∷ []

abbrev full_names : List (Bytes × Bytes) → List Bytes
full_names [] = []
full_names ((full, short) ∷ refs) = full ∷ full_names refs

-- The lines of ranges.
unfoldable pub line_count : List HunkRange → ℕ
line_count [] = 0
line_count (r ∷ rs) = r.end - r.start + 1 + line_count rs

unfoldable pub changed_line_count : List (Bytes × List HunkRange) → ℕ
changed_line_count [] = 0
changed_line_count ((path, ranges) ∷ rest) = line_count ranges + changed_line_count rest

-- The error of a failed step, with what was being done in front of it.
abbrev pub doing : {A : Type 0} → Bytes → Parsed A → Parsed A
doing prefix (ok a) = ok a
doing prefix (err e) = err (prefix ++ e)

module _ (D : DiffPorts) where
  abbrev Step : Type 0 → Type 0
  Step A = Reading D.git_ports A

  abbrev git : Bytes → ℕ → List Bytes → Step Bytes
  git = git_output D.git_ports

  abbrev parsed : {A : Type 0} → Parsed A → Step A
  parsed = of_parsed D.git_ports

  -- `rejectGitConversionFilters`: the exit status 1 says that there is none
  unfoldable pub filters_of : GitReply → Step (Unit {0})
  filters_of (output []) = give tt
  filters_of (output (c ∷ s)) =
      refuse_with (ascii "Git conversion filters are not allowed during diff resolution")
  filters_of (canceled text) = refuse_with (ascii "inspect Git conversion filters: " ++ text)
  filters_of (exited status text) =
      if status == 1
      then give tt
      else refuse_with (ascii "inspect Git conversion filters: " ++ text)
  filters_of (failed text) = refuse_with (ascii "inspect Git conversion filters: " ++ text)

  unfoldable pub reject_git_conversion_filters : Step (Unit {0})
  reject_git_conversion_filters =
      call (
        with_world D.git_ports (
          D.git_ports.git git_reference_output_limit (
            ascii "config"
            ∷ ascii "--includes"
            ∷ ascii "--name-only"
            ∷ ascii "--null"
            ∷ ascii "--get-regexp"
            ∷ ascii "^filter\\..*\\.(clean|process)$"
            ∷ [])))
      >>= filters_of

  unfoldable pub check_repository_clean : Bytes → Step (Unit {0})
  check_repository_clean root = do
    canonical ← call (with_world D.git_ports (D.canonical_root root))
    canonical_root ← parsed canonical
    attributes ← call (with_world D.git_ports (D.local_attributes canonical_root))
    parsed attributes
    staged ←
        git (ascii "inspect repository gitlinks: ") git_paths_output_limit
          (ascii "ls-files" ∷ ascii "--stage" ∷ ascii "-z" ∷ [])
    gitlinks ← parsed (tracked_gitlinks canonical_root staged)
    require (length gitlinks == 0) (ascii "repositories containing submodules are unsupported")
    reject_git_conversion_filters
    status ← git (ascii "inspect repository cleanliness: ") git_status_output_limit (
        ascii "status"
        ∷ ascii "--porcelain=v1"
        ∷ ascii "-z"
        ∷ ascii "--untracked-files=all"
        ∷ ascii "--ignore-submodules=all"
        ∷ [])
    require (is_empty status) (ascii "worktree must be clean before resolving diff scope")
    flags ←
        git (ascii "inspect repository index flags: ") git_paths_output_limit
          (ascii "ls-files" ∷ ascii "-v" ∷ ascii "-z" ∷ [])
    parsed (reject_hidden_index_entries flags)

  -- A canceled call keeps its error, another failure gets the text given.
  unfoldable pub output_unless_canceled : Bytes → Bytes → GitReply → Step Bytes
  output_unless_canceled prefix otherwise (output text) = give text
  output_unless_canceled prefix otherwise (canceled text) = refuse_with (prefix ++ text)
  output_unless_canceled prefix otherwise (exited status text) = refuse_with otherwise
  output_unless_canceled prefix otherwise (failed text) = refuse_with otherwise

  -- `resolveDiffCommit`, with what is being done in front of its errors
  unfoldable pub resolve_diff_commit : Bytes → Bytes → Step Bytes
  resolve_diff_commit prefix ref = do
    reply ← call (
        with_world D.git_ports (
          D.git_ports.git git_reference_output_limit (
            ascii "rev-parse"
            ∷ ascii "--verify"
            ∷ ascii "--end-of-options"
            ∷ (ref ++ ascii "^{commit}")
            ∷ [])))
    text ← output_unless_canceled prefix (prefix ++ ascii "selected revision is not a commit") reply
    parsed (doing prefix (parse_object_id text))

  -- The conventional trunk branches, where origin has no default.
  unfoldable pub conventional_base : Step Bytes
  conventional_base = do
    text ←
        git (ascii "detect conventional trunk branches: ") git_reference_output_limit
          (ascii "for-each-ref" ∷ ascii "--format=%(refname)" ∷ full_names automatic_base_refs)
    existing ← parsed (parse_automatic_base_refs text)
    elim (first_automatic existing automatic_base_refs) [
      | some short ↦ give short
      | none ↦
          refuse_with
            (ascii "no base was provided and no main or master trunk is available; pass --base")
    ]

  unfoldable pub default_base : GitReply → Step Bytes
  default_base (output text) = elim (parse_diff_ref text) [
    | ok ref ↦ give ref
    | err e ↦ refuse_with (ascii "origin/HEAD is invalid; pass --base")
  ]
  default_base (canceled text) = refuse_with (ascii "detect origin default branch: " ++ text)
  default_base (exited status text) =
      if status == 1
      then conventional_base
      else refuse_with (ascii "detect origin default branch: " ++ text)
  default_base (failed text) = refuse_with (ascii "detect origin default branch: " ++ text)

  unfoldable pub resolve_diff_base_ref : Bytes → Step Bytes
  resolve_diff_base_ref requested =
      if not (is_empty requested)
      then (parsed (validate_requested_base requested) >> give requested)
      else (call (
            with_world D.git_ports (
              D.git_ports.git git_reference_output_limit (
                ascii "symbolic-ref"
                ∷ ascii "--quiet"
                ∷ ascii "--short"
                ∷ ascii "refs/remotes/origin/HEAD"
                ∷ [])))
          >>= default_base)

  abbrev pathspecs : ChangedPath → List Bytes
  pathspecs path =
      if is_empty path.previous
      then literal_pathspec path.current ∷ []
      else literal_pathspec path.previous ∷ literal_pathspec path.current ∷ []

  -- The loop over the changed paths.
  unfoldable pub ranges_of_paths :
      Bytes → Bytes → Bytes → List ChangedPath → Step (List (Bytes × List HunkRange))
  ranges_of_paths root merge_base head [] = give []
  ranges_of_paths root merge_base head (path ∷ paths) =
      let others = ranges_of_paths root merge_base head paths in
      do
        patch ← git (ascii "read changed-line ranges: ") git_diff_output_limit (
            ascii "diff"
            ∷ ascii "--unified=0"
            ∷ ascii "--no-color"
            ∷ (deterministic_diff_options ++ merge_base ∷ head ∷ ascii "--" ∷ pathspecs path))
        ranges ←
            explain (λ text. ascii "parse changed-line ranges: " ++ text)
              (parse_diff_hunks D.git_ports root head path.current patch)
        rest ← others
        give ((path.current, ranges) ∷ rest)

  -- `resolveDiff` with a context that is not nil.
  unfoldable pub resolve_diff : Bytes → Bytes → Step Diff
  resolve_diff root requested_base = do
    require (not (is_empty root)) (ascii "repository root is required")
    explain (λ text. ascii "resolve committed diff: " ++ text) (check_running D.git_ports)
    canonical ← call (with_world D.git_ports (D.canonical_root root))
    canonical_root ← parsed canonical
    check_repository_clean canonical_root
    head ← resolve_diff_commit (ascii "resolve HEAD commit: ") (ascii "HEAD")
    base_ref ← resolve_diff_base_ref requested_base
    base_commit ← resolve_diff_commit (ascii "resolve base commit: ") base_ref
    merge_reply ← call (
        with_world D.git_ports (
          D.git_ports.git git_reference_output_limit
            (ascii "merge-base" ∷ head ∷ base_commit ∷ [])))
    merge_output ←
        output_unless_canceled (ascii "compute merge base: ")
          (ascii "base and HEAD have unrelated histories") merge_reply
    merge_base ← parsed (doing (ascii "parse merge-base commit: ") (parse_object_id merge_output))
    path_output ← git (ascii "list changed paths: ") git_paths_output_limit (
        ascii "diff"
        ∷ ascii "--name-status"
        ∷ ascii "--diff-filter=ACMRTUXB"
        ∷ (deterministic_diff_options ++ ascii "-z" ∷ merge_base ∷ head ∷ ascii "--" ∷ []))
    paths ←
        parsed
          (doing (ascii "parse changed paths: ") (parse_changed_paths canonical_root path_output))
    lines ← ranges_of_paths canonical_root merge_base head paths
    check_repository_clean canonical_root
    explain (λ text. ascii "resolve committed diff: " ++ text) (check_running D.git_ports)
    give (record {
      base_ref = base_ref;
      base_commit = base_commit;
      merge_base = merge_base;
      head = head;
      changed_files = length paths;
      changed_lines = changed_line_count lines;
      lines = lines;
    })
