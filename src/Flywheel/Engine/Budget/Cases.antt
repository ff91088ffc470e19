-- ===== src/Flywheel/Engine/Budget/Cases.antt =====
-- internal/flywheel/engine.go: the rules of Steps for the branches of a step.
use togi.Prelude.{ℕ, Bool, true, false, Option, none, some, List, [], ◌∷◌}
use togi.Text.{Bytes}
use togi.Flywheel.Plan.{PlanResult, PlanError}
use togi.Flywheel.Engine.Ports.{
  Ports, ValidationKind, passed, semantic_failure, infrastructure_failure, other_kind, Reply, ok,
  err, WriteReply, written, write_failed, GitCheck, git_intact, git_restored, git_unsafe,
  AdapterReply, adapter_done, adapter_failed,
}
use togi.Flywheel.Engine.Step.{Run}
use togi.Flywheel.Engine.Budget.Steps.{KeepsRun}

module _ {P : Ports} (limit : ℕ) {B : Type 0} where
  pub Keeps-option :
      {A : Type 0} (o : Option A) (n : Run P B) (s : A → Run P B)
      → KeepsRun limit n
      → ((a : A) → KeepsRun limit (s a))
      → KeepsRun limit (elim o [ none ↦ n | some a ↦ s a ])
  Keeps-option none n s kn ks = kn
  Keeps-option (some a) n s kn ks = ks a

  pub Keeps-reply :
      {A : Type 0} (r : Reply A) (e : Bytes → Run P B) (s : A → Run P B)
      → ((t : Bytes) → KeepsRun limit (e t))
      → ((a : A) → KeepsRun limit (s a))
      → KeepsRun limit (elim r [ err t ↦ e t | ok a ↦ s a ])
  Keeps-reply (ok a) e s ke ks = ks a
  Keeps-reply (err t) e s ke ks = ke t

  pub Keeps-files :
      (r : Reply (List Bytes)) (e : Bytes → Run P B) (n : Run P B)
      (s : Bytes → List Bytes → Run P B)
      → ((t : Bytes) → KeepsRun limit (e t))
      → KeepsRun limit n
      → ((f : Bytes) (fs : List Bytes) → KeepsRun limit (s f fs))
      → KeepsRun limit (elim r [ err t ↦ e t | ok [] ↦ n | ok (f ∷ fs) ↦ s f fs ])
  Keeps-files (ok []) e n s ke kn ks = kn
  Keeps-files (ok (f ∷ fs)) e n s ke kn ks = ks f fs
  Keeps-files (err t) e n s ke kn ks = ke t

  pub Keeps-write :
      (w : WriteReply) (f : Bytes → Bool → Run P B) (s : Run P B)
      → ((t : Bytes) (b : Bool) → KeepsRun limit (f t b))
      → KeepsRun limit s
      → KeepsRun limit (elim w [ write_failed t b ↦ f t b | written ↦ s ])
  Keeps-write written f s kf ks = ks
  Keeps-write (write_failed t b) f s kf ks = kf t b

  pub Keeps-write_commit :
      (w : WriteReply) (f g : Bytes → Run P B) (s : Run P B)
      → ((t : Bytes) → KeepsRun limit (f t))
      → ((t : Bytes) → KeepsRun limit (g t))
      → KeepsRun limit s
      → KeepsRun limit
          (elim w [ write_failed t true ↦ f t | write_failed t false ↦ g t | written ↦ s ])
  Keeps-write_commit written f g s kf kg ks = ks
  Keeps-write_commit (write_failed t true) f g s kf kg ks = kf t
  Keeps-write_commit (write_failed t false) f g s kf kg ks = kg t

  pub Keeps-git :
      (c : GitCheck) (u r : Bytes → Run P B) (i : Run P B)
      → ((t : Bytes) → KeepsRun limit (u t))
      → ((t : Bytes) → KeepsRun limit (r t))
      → KeepsRun limit i
      → KeepsRun limit (elim c [ git_unsafe t ↦ u t | git_restored t ↦ r t | git_intact ↦ i ])
  Keeps-git git_intact u r i ku kr ki = ki
  Keeps-git (git_restored t) u r i ku kr ki = kr t
  Keeps-git (git_unsafe t) u r i ku kr ki = ku t

  pub Keeps-adapter :
      (a : AdapterReply) (d : Run P B) (f : Bytes → Bool → Run P B)
      → KeepsRun limit d
      → ((t : Bytes) (b : Bool) → KeepsRun limit (f t b))
      → KeepsRun limit (elim a [ adapter_done ↦ d | adapter_failed t b ↦ f t b ])
  Keeps-adapter adapter_done d f kd kf = kd
  Keeps-adapter (adapter_failed t b) d f kd kf = kf t b

  pub Keeps-plan :
      {A : Type 0} (r : PlanResult A) (e : PlanError → Run P B) (s : A → Run P B)
      → ((x : PlanError) → KeepsRun limit (e x))
      → ((a : A) → KeepsRun limit (s a))
      → KeepsRun limit (elim r [ PlanResult.err x ↦ e x | PlanResult.ok a ↦ s a ])
  Keeps-plan (PlanResult.ok a) e s ke ks = ks a
  Keeps-plan (PlanResult.err x) e s ke ks = ke x

  pub Keeps-kind :
      (k : ValidationKind) (s p i : Run P B) (o : Bytes → Run P B)
      → KeepsRun limit s
      → KeepsRun limit p
      → KeepsRun limit i
      → ((t : Bytes) → KeepsRun limit (o t))
      → KeepsRun limit (elim k [
        | semantic_failure ↦ s
        | passed ↦ p
        | infrastructure_failure ↦ i
        | other_kind t ↦ o t
      ])
  Keeps-kind passed s p i o ks kp ki ko = kp
  Keeps-kind semantic_failure s p i o ks kp ki ko = ks
  Keeps-kind infrastructure_failure s p i o ks kp ki ko = ki
  Keeps-kind (other_kind t) s p i o ks kp ki ko = ko t
