-- ===== src/Run/Finish/Status.antt =====
-- internal/run/run.go and internal/run/exit.go: the status of a run without a fix.
use togi.Prelude.{
  ℕ, ◌≡◌, refl, sym, ap, subst, ◌∙◌, ◌↔◌, Bool, true, false, Option, none, some, List, arith,
  if◌then◌else◌,
}
use togi.Prelude.Int.{ℤ, pos}
use togi.Text.{Bytes, ascii}
use togi.Run.Diff.Resolve.{Diff}
use togi.Run.Report.{
  GateReport, Report, Verdict, Composition, composed, refused, verdict_errored, verdict_findings,
  verdict_unverified, any_errored, any_blocking, verdict_for, compose_report,
}
use togi.Run.Report.Verdicts.{HasErrored, HasBlocking, any_errored_iff, any_blocking_iff}
use togi.Run.Report.Composed.{compose_report-IsComposed}
use togi.Run.Exit.{
  RunError, exit_error, nil_exit_error, other_error, resolve_exit, exit_code, verdict_exit,
}
use togi.Run.Finish.{
  FinishPorts, wrap, join_errors, close_behind, of_rendered, of_closed, of_written, of_composition,
  finish_report_only,
}

-- What a status of the process says of a run that finished, errored or has blocking findings.
abbrev pub IsStatusOf : Type 0 → Type 0 → Type 0 → ℤ → Type 0
IsStatusOf F E B status =
    ((status ≡ pos 4) ↔ F × E)
    × ((status ≡ pos 1) ↔ F × (¬ E) × B)
    × ((status ≡ pos 5) ↔ F × (¬ E) × (¬ B))
    × ((status ≡ pos 70) ↔ (¬ F))

abbrev verdict_by : Bool → Bool → Verdict
verdict_by errored blocking =
    if errored then verdict_errored else if blocking then verdict_findings else verdict_unverified

IsStatusOf-verdict_by :
    {F E B : Type 0} (errored blocking : Bool)
    → F
    → (errored ≡ true) ↔ E
    → (blocking ≡ true) ↔ B
    → IsStatusOf F E B (resolve_exit (verdict_exit (verdict_by errored blocking)))
unfolding resolve_exit verdict_exit exit_code
IsStatusOf-verdict_by true b f e k = (
  (λ h. (f, e.0 refl), λ h. refl),
  (λ h. ground (arith, h), λ h. absurd (h.1 (e.0 refl))),
  (λ h. ground (arith, h), λ h. absurd (h.1 (e.0 refl))),
  (λ h. ground (arith, h), λ h. absurd (h f)),
)
IsStatusOf-verdict_by false true f e k = (
  (λ h. ground (arith, h), λ h. ground (arith, e.1 h.1)),
  (λ h. (f, (λ x. ground (arith, e.1 x)), k.0 refl), λ h. refl),
  (λ h. ground (arith, h), λ h. absurd (h.2 (k.0 refl))),
  (λ h. ground (arith, h), λ h. absurd (h f)),
)
IsStatusOf-verdict_by false false f e k = (
  (λ h. ground (arith, h), λ h. ground (arith, e.1 h.1)),
  (λ h. ground (arith, h), λ h. ground (arith, k.1 h.2)),
  (λ h. (f, (λ x. ground (arith, e.1 x)), (λ x. ground (arith, k.1 x))), λ h. refl),
  (λ h. ground (arith, h), λ h. absurd (h f)),
)

IsStatusOf-70 : {F E B : Type 0} (s : ℤ) → s ≡ pos 70 → ¬ F → IsStatusOf F E B s
IsStatusOf-70 s e n = (
  (λ h. ground (arith, h, e), λ h. absurd (n h.0)),
  (λ h. ground (arith, h, e), λ h. absurd (n h.0)),
  (λ h. ground (arith, h, e), λ h. absurd (n h.0)),
  (λ h. n, λ h. e),
)

-- An error without a status of its own
abbrev pub HasNoStatus : RunError → Type 0
HasNoStatus e = resolve_exit (some e) ≡ pos 70

wrap-HasNoStatus : (prefix : Bytes) (e : RunError) → HasNoStatus e → HasNoStatus (wrap prefix e)
unfolding resolve_exit wrap
wrap-HasNoStatus prefix (exit_error code) h = h
wrap-HasNoStatus prefix nil_exit_error h = h
wrap-HasNoStatus prefix (other_error text) h = h

join_errors-HasNoStatus :
    (e : RunError) (o : Option RunError)
    → HasNoStatus e
    → ((x : RunError) → o ≡ some x → HasNoStatus x)
    → HasNoStatus (join_errors e o)
unfolding resolve_exit join_errors
join_errors-HasNoStatus e none h k = h
join_errors-HasNoStatus (exit_error code) (some x) h k = h
join_errors-HasNoStatus nil_exit_error (some x) h k = h
join_errors-HasNoStatus (other_error text) (some (exit_error code)) h k = k _ refl
join_errors-HasNoStatus (other_error text) (some nil_exit_error) h k = refl
join_errors-HasNoStatus (other_error text) (some (other_error more)) h k = refl

-- The errors of the ledger and of the rendering carry no status.
pub record HaveNoStatus (P : FinishPorts) : Type 0 where
  pub writing :
      (r : Report) (w : P.World) (e : RunError) → (P.write_report r w).0 ≡ some e → HasNoStatus e
  pub closing : (w : P.World) (e : RunError) → (P.close w).0 ≡ some e → HasNoStatus e
  pub rendering :
      (r : Report) (w : P.World) (e : RunError) → (P.render r w).0 ≡ some e → HasNoStatus e

-- The composition gave a report, which was written, the ledger was closed, and the report was
-- rendered.
pub record IsFinished (P : FinishPorts) (c : Composition) (w : P.World) : Type 0 where
  pub report : Report
  pub composition : c ≡ composed report
  pub written : (P.write_report report w).0 ≡ none
  pub closed : (P.close (P.write_report report w).1).0 ≡ none
  pub rendered : (P.render report (P.close (P.write_report report w).1).1).0 ≡ none

composed_injective : (r s : Report) → composed r ≡ composed s → r ≡ s
composed_injective r s e = ap report_in e
  where
    report_in : Composition → Report
    report_in (composed q) = q
    report_in (refused x) = r

module _ (P : FinishPorts) (ports : HaveNoStatus P) where
  close_behind-status :
      (e : RunError) (w : P.World) → HasNoStatus e → resolve_exit (close_behind P e w).0 ≡ pos 70
  close_behind-status e w h = join_errors-HasNoStatus e (P.close w).0 h λ x q. ports.closing w x q

  module _ (gates : List GateReport) (c : Composition) (w : P.World) where
    abbrev Agrees : Option RunError × P.World → Type 0
    Agrees p =
        IsStatusOf (IsFinished P c w) (HasErrored gates) (HasBlocking gates) (resolve_exit p.0)

    same_report : (r : Report) → c ≡ composed r → (f : IsFinished P c w) → f.report ≡ r
    same_report r e f = composed_injective f.report r (sym f.composition ∙ e)

    of_rendered-Agrees :
        (r : Report)
        → r.verdict ≡ verdict_for gates
        → c ≡ composed r
        → (P.write_report r w).0 ≡ none
        → (P.close (P.write_report r w).1).0 ≡ none
        → (p : Option RunError × P.World) → P.render r (P.close (P.write_report r w).1).1 ≡ p
        → Agrees (of_rendered P r p)
    of_rendered-Agrees r v e k l (some x, w3) q =
        IsStatusOf-70 _
          (wrap-HasNoStatus (ascii "render report: ") x
            (ports.rendering r (P.close (P.write_report r w).1).1 x (ap (λ t. t.0) q)))
          λ f.
            let h : (P.render r (P.close (P.write_report r w).1).1).0 ≡ none =
              subst (λ t. (P.render t (P.close (P.write_report t w).1).1).0 ≡ none)
                (same_report r e f) f.rendered in
            let g : some x ≡ none = sym (ap (λ t. t.0) q) ∙ h in cc g
    of_rendered-Agrees r v e k l (none, w3) q =
        let finished : IsFinished P c w = record {
          report = r;
          composition = e;
          written = k;
          closed = l;
          rendered = ap (λ t. t.0) q;
        } in
        subst (λ x. Agrees (verdict_exit x, w3)) (sym v)
          (unfold verdict_for in
            IsStatusOf-verdict_by (any_errored gates) (any_blocking gates) finished
              (any_errored_iff gates) (any_blocking_iff gates))

    of_closed-Agrees :
        (r : Report)
        → r.verdict ≡ verdict_for gates
        → c ≡ composed r
        → (P.write_report r w).0 ≡ none
        → (p : Option RunError × P.World) → P.close (P.write_report r w).1 ≡ p
        → Agrees (of_closed P r p)
    of_closed-Agrees r v e k (some x, w2) q =
        IsStatusOf-70 _
          (close_behind-status (wrap (ascii "close run ledger: ") x) w2 (
            wrap-HasNoStatus (ascii "close run ledger: ") x
              (ports.closing (P.write_report r w).1 x (ap (λ t. t.0) q))))
          λ f.
            let h : (P.close (P.write_report r w).1).0 ≡ none =
              subst (λ t. (P.close (P.write_report t w).1).0 ≡ none) (same_report r e f) f.closed in
            let g : some x ≡ none = sym (ap (λ t. t.0) q) ∙ h in cc g
    of_closed-Agrees r v e k (none, w2) q =
        subst (λ t. Agrees (of_rendered P r (P.render r t))) (ap (λ t. t.1) q)
          (of_rendered-Agrees r v e k (ap (λ t. t.0) q)
            (P.render r (P.close (P.write_report r w).1).1) refl)

    of_written-Agrees :
        (r : Report)
        → r.verdict ≡ verdict_for gates
        → c ≡ composed r
        → (p : Option RunError × P.World) → P.write_report r w ≡ p
        → Agrees (of_written P r p)
    of_written-Agrees r v e (some x, w1) q =
        IsStatusOf-70 _
          (close_behind-status (wrap (ascii "write report: ") x) w1
            (wrap-HasNoStatus (ascii "write report: ") x (ports.writing r w x (ap (λ t. t.0) q))))
          λ f.
            let h : (P.write_report r w).0 ≡ none =
              subst (λ t. (P.write_report t w).0 ≡ none) (same_report r e f) f.written in
            let g : some x ≡ none = sym (ap (λ t. t.0) q) ∙ h in cc g
    of_written-Agrees r v e (none, w1) q =
        subst (λ t. Agrees (of_closed P r (P.close t))) (ap (λ t. t.1) q)
          (of_closed-Agrees r v e (ap (λ t. t.0) q) (P.close (P.write_report r w).1) refl)

    of_composition-Agrees :
        ((r : Report) → c ≡ composed r → r.verdict ≡ verdict_for gates)
        → (d : Composition) → c ≡ d
        → Agrees (of_composition P d w)
    of_composition-Agrees v (composed r) e = of_written-Agrees r (v r e) e (P.write_report r w) refl
    of_composition-Agrees v (refused x) e =
        IsStatusOf-70 _
          (close_behind-status (other_error (P.report_error_text x)) w
            (unfold resolve_exit in refl))
          λ f. let g : refused x ≡ composed f.report = sym e ∙ f.composition in cc g

-- Where the errors of the ledger and of the rendering carry no status, a run without a fix, from the
-- reports of its gates on, ends with status 70 exactly when no report is composed, or it is not
-- written, or the ledger is not closed, or the report is not rendered. If all this is done, it ends
-- with status 4 exactly when a gate errored, with status 1 exactly when none errored and one has a
-- finding of a severity that it blocks, and with status 5 exactly when neither is so.
pub resolve_exit-finish_report_only :
    (sha256 : Bytes → Bytes) (P : FinishPorts)
    → HaveNoStatus P
    → (run_id repo_id : Bytes) (started finished : ℕ) (diff : Diff) (gates : List GateReport)
      (w : P.World)
    → IsStatusOf
        (IsFinished P (compose_report sha256 run_id repo_id started finished diff gates) w)
        (HasErrored gates)
        (HasBlocking gates)
        (resolve_exit (finish_report_only sha256 P run_id repo_id started finished diff gates w).0)
unfolding finish_report_only
resolve_exit-finish_report_only sha256 P ports run_id repo_id started finished diff gates w =
    let c = compose_report sha256 run_id repo_id started finished diff gates in
    of_composition-Agrees P ports gates c w
      (λ r e.
        (compose_report-IsComposed sha256 run_id repo_id started finished diff gates r e).judged)
      c refl
