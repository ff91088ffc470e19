-- ===== src/Tests/Resolve.antt =====
-- A run of the diff's resolution on replies of git.
use togi.Prelude.{◌≡◌, refl, Bool, none, List, [], ◌∷◌, ◌++◌, arith}
use togi.Prelude.Check.{onward, give, call, refuse_with, require, explain, ◌>>=◌, ◌>>◌}
use togi.Prelude.Sort.{sort, insert}
use togi.Text.{ascii, bytes_eqb, mem_bytes, has_prefix, index_byte}
use togi.Text.Decimal.{atoi, digits_value}
use togi.Text.Split.{split}
use togi.Text.Trim.{trim_space, trim_right, contains_any}
use togi.Text.Utf8.{utf8_valid, utf8_valid_from}
use togi.Finding.FilePath.{
  clean_components, clean_path, clean_step, has_dotdot, is_windows_absolute, parse_path, portable,
}
use togi.Run.Diff.Parse.{
  ok, check_name, validate_diff_path, path_within_root, parse_changed_paths, paths_from, next_path,
  has_two_paths, zero_records, before_last, parse_object_id, object_id_of, parse_single_git_line,
  validate_requested_base, reject_hidden_index_entries, check_index_records, literal_pathspec,
}
use togi.Run.Diff.Index.{tracked_gitlinks, gitlinks_from}
use togi.Run.Diff.Ranges.{merge_line_ranges, merge_from, less_range}
use togi.Run.Diff.Hunks.{
  GitReply, output, exited, failed, take_digits, expect, ends_line, hunk_header, hunk_numbers,
  of_parsed, check_running, output_of, git_output, add_hunk, hunks_from, parse_diff_hunks,
}
use togi.Run.Diff.Resolve.{
  Diff, DiffPorts, line_count, changed_line_count, filters_of, reject_git_conversion_filters,
  check_repository_clean, output_unless_canceled, resolve_diff_commit, resolve_diff_base_ref,
  ranges_of_paths, resolve_diff,
}
use togi.Run.Diff.Report.{has_control, validate_diff}
use togi.Run.Diff.Report.Resolved.{resolve_diff-accepted}
use togi.Tests.Sample.{head_revision}

-- The next of the replies.
abbrev next_reply : List GitReply → GitReply × List GitReply
next_reply [] = (failed [], [])
next_reply (r ∷ rs) = (r, rs)

abbrev scripted : DiffPorts
scripted = record {
  git_ports = record {
    World = List GitReply;
    context_end = λ w. (none, w);
    git = λ limit args. next_reply;
  };
  canonical_root = λ root w. (ok root, w);
  local_attributes = λ root w. (ok tt, w);
}

-- A clean repository: no entry in the index, no filter, no status, no flag.
abbrev clean_replies : List GitReply
clean_replies = output [] ∷ exited 1 [] ∷ output [] ∷ output [] ∷ []

abbrev commit_reply : GitReply
commit_reply = output (head_revision ++ 10 ∷ [])

abbrev replies : List GitReply
replies =
    clean_replies
    ++ (commit_reply
        ∷ commit_reply
        ∷ commit_reply
        ∷ output (ascii "M" ++ 0 ∷ (ascii "a.go" ++ 0 ∷ []))
        ∷ output (ascii "diff --git a/a.go b/a.go\n@@ -1 +1,2 @@\n@@ -7,3 +8 @@ func f()")
        ∷ clean_replies)

abbrev resolved : Diff
resolved = record {
  base_ref = ascii "main";
  base_commit = head_revision;
  merge_base = head_revision;
  head = head_revision;
  changed_files = 1;
  changed_lines = 3;
  lines = (ascii "a.go", record { start = 1; end = 2 } ∷ record { start = 8; end = 8 } ∷ []) ∷ [];
}

resolved_run : (resolve_diff scripted (ascii "/r") (ascii "main") (replies, [])).0 ≡ onward resolved
unfolding check_name validate_diff_path path_within_root utf8_valid utf8_valid_from clean_components
    clean_path clean_step has_dotdot is_windows_absolute parse_path portable bytes_eqb has_prefix
    index_byte split mem_bytes give call refuse_with require explain ◌>>=◌ ◌>>◌ sort insert atoi
    digits_value trim_space trim_right contains_any parse_changed_paths paths_from next_path
    has_two_paths zero_records before_last parse_object_id object_id_of parse_single_git_line
    validate_requested_base reject_hidden_index_entries check_index_records literal_pathspec
    tracked_gitlinks gitlinks_from merge_line_ranges merge_from less_range take_digits expect
    ends_line hunk_header hunk_numbers of_parsed check_running output_of git_output add_hunk
    hunks_from parse_diff_hunks line_count changed_line_count filters_of
    reject_git_conversion_filters check_repository_clean output_unless_canceled resolve_diff_commit
    resolve_diff_base_ref ranges_of_paths resolve_diff
resolved_run = refl

printable_main : has_control (ascii "main") ≡ Bool.false
unfolding has_control
printable_main = refl

resolve_diff-accepted_example : validate_diff resolved ≡ none
resolve_diff-accepted_example =
    resolve_diff-accepted scripted (ascii "/r") (ascii "main") (replies, []) resolved resolved_run
      (omega arith) printable_main refl refl
