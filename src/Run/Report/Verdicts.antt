-- ===== src/Run/Report/Verdicts.antt =====
-- internal/run/run.go: what `verdictFor` looks for.
use togi.Prelude.{◌≡◌, refl, sym, ap, subst, ◌↔◌, true, List, Memᴰ, arith}
use togi.Prelude.Exists.{exists, exists_iff}
use togi.Text.Order.{bytes_eqb_iff}
use togi.Finding.{Severity, error, warning, info, other, Finding}
use togi.Finding.Group.{severity_eqb}
use togi.Run.Report.{
  GateStatus, gate_passed, gate_findings, gate_errored, other_status, GateReport, is_errored,
  contains_severity, blocks, any_errored, any_blocking,
}

-- Some gate errored.
abbrev pub HasErrored : List GateReport → Type 0
HasErrored gates = (g : GateReport) × Memᴰ g gates × (g.status ≡ gate_errored)

-- A finding of a severity that its gate blocks
abbrev pub IsBlocking : GateReport → Finding → Type 0
IsBlocking g f = Memᴰ f g.findings × Memᴰ f.severity g.blocking

-- Some gate has a blocking finding.
abbrev pub HasBlocking : List GateReport → Type 0
HasBlocking gates = (g : GateReport) × Memᴰ g gates × (f : Finding) × IsBlocking g f

is_errored_iff : (s : GateStatus) → (is_errored s ≡ true) ↔ (s ≡ gate_errored)
unfolding is_errored
is_errored_iff gate_errored = (λ h. refl, λ h. refl)
is_errored_iff gate_passed = (λ h. ground (arith, h), λ h. ground (arith, h))
is_errored_iff gate_findings = (λ h. ground (arith, h), λ h. ground (arith, h))
is_errored_iff (other_status s) = (λ h. ground (arith, h), λ h. ground (arith, h))

severity_eqb_refl : (s : Severity) → severity_eqb s s ≡ true
unfolding severity_eqb
severity_eqb_refl error = refl
severity_eqb_refl warning = refl
severity_eqb_refl info = refl
severity_eqb_refl (other s) = (bytes_eqb_iff s s).1 refl

severity_eqb_sound : (s t : Severity) → severity_eqb s t ≡ true → s ≡ t
unfolding severity_eqb
severity_eqb_sound error error h = refl
severity_eqb_sound warning warning h = refl
severity_eqb_sound info info h = refl
severity_eqb_sound (other s) (other t) h = ap other ((bytes_eqb_iff s t).0 h)
severity_eqb_sound error warning h = ground (arith, h)
severity_eqb_sound error info h = ground (arith, h)
severity_eqb_sound error (other t) h = ground (arith, h)
severity_eqb_sound warning error h = ground (arith, h)
severity_eqb_sound warning info h = ground (arith, h)
severity_eqb_sound warning (other t) h = ground (arith, h)
severity_eqb_sound info error h = ground (arith, h)
severity_eqb_sound info warning h = ground (arith, h)
severity_eqb_sound info (other t) h = ground (arith, h)
severity_eqb_sound (other s) error h = ground (arith, h)
severity_eqb_sound (other s) warning h = ground (arith, h)
severity_eqb_sound (other s) info h = ground (arith, h)

contains_severity_iff :
    (s : Severity) (ss : List Severity) → (contains_severity s ss ≡ true) ↔ Memᴰ s ss
unfolding contains_severity
contains_severity_iff s ss =
    (forth, λ m. (exists_iff (severity_eqb s) ss).1 (s, m, severity_eqb_refl s))
  where
    forth : exists (severity_eqb s) ss ≡ true → Memᴰ s ss
    forth h =
        let (t, m, e) = (exists_iff (severity_eqb s) ss).0 h in
        subst (λ x. Memᴰ x ss) (sym (severity_eqb_sound s t e)) m

pub any_errored_iff : (gates : List GateReport) → (any_errored gates ≡ true) ↔ HasErrored gates
unfolding any_errored
any_errored_iff gates =
    let found = exists_iff (λ g. is_errored g.status) gates in
    (
      λ h. let (g, m, e) = found.0 h in (g, m, (is_errored_iff g.status).0 e),
      λ h. found.1 (h.0, h.1, (is_errored_iff h.0.status).1 h.2),
    )

pub any_blocking_iff : (gates : List GateReport) → (any_blocking gates ≡ true) ↔ HasBlocking gates
unfolding any_blocking
any_blocking_iff gates =
    let found = exists_iff (λ g. exists (blocks g) g.findings) gates in
    (
      λ h.
          let (g, m, e) = found.0 h in
          let (f, n, k) = (exists_iff (blocks g) g.findings).0 e in
          (g, m, f, (n, (contains_severity_iff f.severity g.blocking).0 k)),
      λ h.
          let (g, m, f, (n, k)) = h in
          found.1 (
            g,
            m,
            (exists_iff (blocks g) g.findings).1
                (f, n, (contains_severity_iff f.severity g.blocking).1 k),
          ),
    )
