-- ===== src/Run/Diff/Report/Resolved.antt =====
-- internal/run/diff.go and internal/run/run.go: the diff that `resolveDiff` returns, in a report.
use togi.Prelude.{
  ◌≤◌, ◌≡◌, refl, ap, ◌∙◌, subst, true, false, none, List, [], ◌∷◌, arith, All, length,
}
use togi.Prelude.Check.{onward}
use togi.Prelude.Check.Sound.{Holds, Sound, Sound-bind, Sound-then, Sound-give, Sure-any}
use togi.Text.{Bytes, ascii}
use togi.Text.Decimal.{max_int}
use togi.Finding.Scope.{validated_changed_lines}
use togi.Run.Diff.Parse.{parse_object_id, parse_changed_paths}
use togi.Run.Diff.Parse.Checked.{parse_changed_paths-IsChecked}
use togi.Run.Diff.Ranges.{HunkRange}
use togi.Run.Diff.Hunks.{BlobLineCounts}
use togi.Run.Diff.Hunks.Positive.{Any, Sure-of_parsed}
use togi.Run.Diff.Resolve.{Diff, DiffPorts, doing, changed_line_count, resolve_diff}
use togi.Run.Diff.Report.{
  diff_report, valid_object_id_string, has_control, with_base, with_count, with_lines, with_report,
  counted, validate_commits, validate_diff_report, count_lines, validate_diff,
}
use togi.Run.Diff.Report.Accepted.{
  IsEntry, validated_from-changed_lines_of, count_lines-changed_line_count,
}
use togi.Run.Diff.Report.Bases.{parse_object_id-valid, doing-ok, IsBase}
use togi.Run.Diff.Report.Steps.{Sure-commit, Sure-IsBase, Sure-ranges}

-- What is known of a diff that is resolved.
record IsResolved (d : Diff) : Type 0 where
  pub base : IsBase d.base_ref
  pub base_commit : valid_object_id_string d.base_commit ≡ true
  pub merge_base : valid_object_id_string d.merge_base ≡ true
  pub head : valid_object_id_string d.head ≡ true
  pub files : length d.lines ≡ d.changed_files
  pub entries : All IsEntry d.lines
  pub count : d.changed_lines ≡ changed_line_count d.lines

no_lines : (es : List (Bytes × List HunkRange)) → length es ≡ 0 → changed_line_count es ≡ 0
unfolding changed_line_count
no_lines [] h = refl
no_lines (e ∷ es) h = omega (arith, h)

IsResolved-report :
    (d : Diff)
    → IsResolved d
    → has_control d.base_ref ≡ false
    → length d.base_commit ≡ length d.merge_base
    → length d.base_commit ≡ length d.head
    → validate_diff_report (diff_report d) ≡ none
unfolding validate_diff_report validate_commits diff_report
IsResolved-report d r printable merge_length head_length =
    let empty : d.changed_files ≡ 0 → d.changed_lines ≡ 0 =
      λ e. r.count ∙ no_lines d.lines (r.files ∙ e) in
    ap (with_base (diff_report d)) r.base
    ∙ ground
        (arith, printable, r.base_commit, r.merge_base, r.head, merge_length, head_length, empty)

IsResolved-accepted :
    (d : Diff)
    → IsResolved d
    → d.changed_lines ≤ max_int
    → has_control d.base_ref ≡ false
    → length d.base_commit ≡ length d.merge_base
    → length d.base_commit ≡ length d.head
    → validate_diff d ≡ none
unfolding validate_diff validated_changed_lines
IsResolved-accepted d r fits printable merge_length head_length =
    let (out, valid) = validated_from-changed_lines_of [] d.lines r.entries in
    let counts : count_lines 0 d.lines ≡ counted (changed_line_count d.lines) =
      count_lines-changed_line_count 0 d.lines r.entries (omega (arith, r.count, fits))
      ∙ ap counted (omega arith) in
    ap (with_report d) (IsResolved-report d r printable merge_length head_length)
    ∙ ground (arith, r.files)
    ∙ ap (with_lines d) valid
    ∙ ap (with_count d) counts
    ∙ ground (arith, r.count)

module _ (D : DiffPorts) where
  Sure-resolve : (root requested : Bytes) → Sound Any IsResolved (resolve_diff D root requested)
  unfolding resolve_diff
  Sure-resolve root requested = Sound-then Any Unit _ _ _ (Sure-any _) λ _.
      Sound-then Any Unit _ _ _ (Sure-any _) λ _.
        Sound-bind Any (λ _. Unit) _ _ _ (Sure-any _)
          λ canonical _.
            Sound-bind Any (λ _. Unit) _ _ _ (Sure-any _)
              λ top _. Sound-then Any Unit _ _ _ (Sure-any _) λ _.
                Sound-bind Any _ _ _ _ (Sure-commit D _ (ascii "HEAD")) λ head head_valid.
                  Sound-bind Any _ _ _ _ (Sure-IsBase D requested) λ base_ref base_valid.
                    Sound-bind Any _ _ _ _ (Sure-commit D _ base_ref) λ base_commit commit_valid.
                      Sound-bind Any (λ _. Unit) _ _ _ (Sure-any _)
                        λ merge_reply _.
                          Sound-bind Any (λ _. Unit) _ _ _ (Sure-any _)
                            λ merge_output _.
                              Sound-bind Any _ _ _ _
                                (Sure-of_parsed D.git_ports (
                                  doing (ascii "parse merge-base commit: ")
                                    (parse_object_id merge_output)))
                                λ merge_base merged.
                                  Sound-bind Any (λ _. Unit) _ _ _ (Sure-any _)
                                    λ path_output _.
                                      Sound-bind Any _ _ _ _
                                        (Sure-of_parsed D.git_ports (
                                          doing (ascii "parse changed paths: ")
                                            (parse_changed_paths top path_output)))
                                        λ paths listed.
                                          Sound-bind Any _ _ _ _
                                            (Sure-ranges D top merge_base head paths (
                                              parse_changed_paths-IsChecked top path_output paths (
                                                doing-ok (ascii "parse changed paths: ")
                                                  (parse_changed_paths top path_output) paths
                                                  listed)))
                                            λ lines entries.
                                              Sound-then Any Unit _ _ _ (Sure-any _) λ _.
                                                Sound-then Any Unit _ _ _ (Sure-any _) λ _.
                                                  Sound-give Any IsResolved _ (record {
                                                    base = base_valid;
                                                    base_commit = commit_valid;
                                                    merge_base =
                                                        parse_object_id-valid merge_output
                                                          merge_base
                                                          (doing-ok
                                                            (ascii "parse merge-base commit: ")
                                                            (parse_object_id merge_output)
                                                            merge_base merged);
                                                    head = head_valid;
                                                    files = entries.0;
                                                    entries = entries.1;
                                                    count = refl;
                                                  })

  -- A report accepts the diff that `resolveDiff` returns, whatever git and the file system answer, if
  -- its changed lines can be counted by an `int`, its base has no control character, and its three
  -- commits have names of one length.
  pub resolve_diff-accepted :
      (root requested : Bytes) (s : D.git_ports.World × BlobLineCounts) (d : Diff)
      → (resolve_diff D root requested s).0 ≡ onward d
      → d.changed_lines ≤ max_int
      → has_control d.base_ref ≡ false
      → length d.base_commit ≡ length d.merge_base
      → length d.base_commit ≡ length d.head
      → validate_diff d ≡ none
  resolve_diff-accepted root requested s d h =
      IsResolved-accepted d (subst (Holds Any IsResolved) h ((Sure-resolve root requested).at s))
