-- ===== src/Run/Diff/Report/Steps.antt =====
-- internal/run/diff.go: what is known behind each step of `resolveDiff`.
use togi.Prelude.{
  ◌≡◌, refl, true, not, Option, none, some, List, [], ◌∷◌, arith, All, length, ◌==◌, Bool-cases,
  inl, inr,
}
use togi.Prelude.Check.{give, refuse_with}
use togi.Prelude.Check.Sound.{
  Sound, Sound-bind, Sound-then, Sound-give, Sound-refuse, Sound-weaken, Sound-explain, Sure-any,
}
use togi.Text.{Bytes, ascii, is_empty}
use togi.Run.Diff.Parse.{
  Parsed, ok, err, ChangedPath, parse_object_id, parse_diff_ref, validate_requested_base,
  automatic_base_refs, first_automatic,
}
use togi.Run.Diff.Parse.Checked.{IsChecked, check_name-minted, parse_diff_ref-base}
use togi.Run.Diff.Ranges.{HunkRange}
use togi.Run.Diff.Hunks.{GitReply, output, canceled, exited, failed, Reading, of_parsed}
use togi.Run.Diff.Hunks.Positive.{Any, Sure-of_parsed, Sure-parse_diff_hunks}
use togi.Run.Diff.Resolve.{
  DiffPorts, doing, resolve_diff_commit, resolve_diff_base_ref, default_base, conventional_base,
  ranges_of_paths,
}
use togi.Run.Diff.Report.{valid_object_id_string}
use togi.Run.Diff.Report.Accepted.{IsEntry}
use togi.Run.Diff.Report.Bases.{
  parse_object_id-valid, doing-ok, IsBase, first_automatic-IsBase, automatic_base_refs-IsBase,
}

module _ (D : DiffPorts) where
  pub Sure-commit :
      (prefix ref : Bytes)
      → Sound Any (λ id. valid_object_id_string id ≡ true) (resolve_diff_commit D prefix ref)
  unfolding resolve_diff_commit
  Sure-commit prefix ref =
      Sound-bind Any (λ _. Unit) _ _ _ (Sure-any _)
        λ reply _.
          Sound-bind Any (λ _. Unit) _ _ _ (Sure-any _)
            λ text _.
              Sound-weaken Any _ _ _
                (λ id e.
                  parse_object_id-valid text id (doing-ok prefix (parse_object_id text) id e))
                (Sure-of_parsed D.git_ports (doing prefix (parse_object_id text)))

  Sure-conventional : Sound Any IsBase (conventional_base D)
  unfolding conventional_base
  Sure-conventional =
      Sound-bind Any (λ _. Unit) _ _ _ (Sure-any _)
        λ text _.
          Sound-bind Any (λ _. Unit) _ _ _ (Sure-any _)
            λ existing _. go existing (first_automatic existing automatic_base_refs) refl
    where
      go :
          (existing : List Bytes) (o : Option Bytes)
          → first_automatic existing automatic_base_refs ≡ o
          → Sound Any IsBase (elim o as (λ _. Reading D.git_ports Bytes) [
            | some short ↦ give short
            | none ↦
                refuse_with (
                  ascii
                    "no base was provided and no main or master trunk is available; pass --base")
          ])
      go existing (some short) e =
          Sound-give Any IsBase short
            (first_automatic-IsBase existing automatic_base_refs short automatic_base_refs-IsBase e)
      go existing none e = Sound-refuse Any IsBase _ tt

  Sure-default : (reply : GitReply) → Sound Any IsBase (default_base D reply)
  unfolding default_base
  Sure-default (output text) = go (parse_diff_ref text) refl
    where
      go :
          (p : Parsed Bytes)
          → parse_diff_ref text ≡ p
          → Sound Any IsBase (elim p as (λ _. Reading D.git_ports Bytes) [
            | ok ref ↦ give ref
            | err e ↦ refuse_with (ascii "origin/HEAD is invalid; pass --base")
          ])
      go (ok ref) e = Sound-give Any IsBase ref (parse_diff_ref-base text ref e)
      go (err x) e = Sound-refuse Any IsBase _ tt
  Sure-default (canceled text) = Sound-refuse Any IsBase _ tt
  Sure-default (exited status text) = elim (Bool-cases (status == 1)) [
    | inl e ↦ rw e Sure-conventional
    | inr e ↦ rw e (Sound-refuse Any IsBase _ tt)
  ]
  Sure-default (failed text) = Sound-refuse Any IsBase _ tt

  pub Sure-IsBase : (requested : Bytes) → Sound Any IsBase (resolve_diff_base_ref D requested)
  unfolding resolve_diff_base_ref
  Sure-IsBase requested = elim (Bool-cases (not (is_empty requested))) [
    | inl e ↦ rw e (
        Sound-then Any _ _ _ _ (Sure-of_parsed_unit (validate_requested_base requested))
          λ checked. Sound-give Any IsBase requested checked)
    | inr e ↦ rw e (Sound-bind Any (λ _. Unit) _ _ _ (Sure-any _) λ reply _. Sure-default reply)
  ]
    where
      Sure-of_parsed_unit :
          (p : Parsed (Unit {0})) → Sound Any (λ _. p ≡ ok tt) (of_parsed D.git_ports p)
      Sure-of_parsed_unit p = Sure-of_parsed D.git_ports p

  -- The ranges of each path, for as many entries as there are paths.
  abbrev AreEntries : List ChangedPath → List (Bytes × List HunkRange) → Type 0
  AreEntries ps es = (length es ≡ length ps) × All IsEntry es

  pub Sure-ranges :
      (root merge_base head : Bytes) (ps : List ChangedPath)
      → All (IsChecked root) ps
      → Sound Any (AreEntries ps) (ranges_of_paths D root merge_base head ps)
  unfolding ranges_of_paths
  Sure-ranges root merge_base head [] h = Sound-give Any (AreEntries []) [] (refl, tt)
  Sure-ranges root merge_base head (p ∷ ps) h =
      let (canonical, safe) = check_name-minted root p.current h.0 in
      Sound-bind Any (λ _. Unit) _ _ _ (Sure-any _)
        λ patch _.
          Sound-bind Any _ _ _ _
            (Sound-explain Any _ _ _ (λ r x. x)
              (Sure-parse_diff_hunks D.git_ports root head p.current patch))
            λ ranges good.
              Sound-bind Any _ _ _ _ (Sure-ranges root merge_base head ps h.1) λ others entries.
                Sound-give Any (AreEntries (p ∷ ps)) _ (
                  omega (arith, entries.0),
                  (
                    record {
                      canonical = canonical;
                      safe = safe;
                      positive = good.0;
                      separated = good.1;
                    },
                    entries.1,
                  ),
                )
