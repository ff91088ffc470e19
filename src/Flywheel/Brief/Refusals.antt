-- ===== src/Flywheel/Brief/Refusals.antt =====
-- internal/flywheel/brief.go: the writer refuses a text for its length alone.
use togi.Prelude.{◌≡◌, Bool, true, false, List, [], ◌∷◌, arith, if◌then◌else◌, length, ◌==◌}
use togi.Prelude.Int.{ℤ, pos, eqb_ℤ}
use togi.Text.{Bytes, ascii, is_empty}
use togi.Finding.{Occurrence, Finding}
use togi.Flywheel.Brief.{
  BriefInput, BriefError, brief_too_long, BriefResult, ok, err, Writer, write, skip, go_on, ◌>>◌,
  separated, write_occurrence, write_json_string, write_string, write_int, write_finding_json,
  write_brief_data, write_brief,
}

-- A writer that fails only at the limit
record IsLimited (w : Writer) : Type 0 where
  pub refusal : (buffer : Bytes) (e : BriefError) → w buffer ≡ err e → e ≡ brief_too_long

IsLimited-write : (s : Bytes) → IsLimited (write s)
unfolding write
IsLimited-write s = record { refusal = λ buffer e h. ground (arith, h) }

IsLimited-skip : IsLimited skip
IsLimited-skip = record { refusal = λ buffer e h. ground (arith, h) }

IsLimited-then : {m k : Writer} → IsLimited m → IsLimited k → IsLimited (m >> k)
unfolding ◌>>◌
IsLimited-then {m} {k} lm lk = record {
  refusal = λ buffer e h. go (m buffer) e (lm.refusal buffer) h;
}
  where
    go :
        (r : BriefResult Bytes) (e : BriefError)
        → ((x : BriefError) → r ≡ err x → x ≡ brief_too_long)
        → go_on r k ≡ err e
        → e ≡ brief_too_long
    go (ok mid) e f h = lk.refusal mid e h
    go (err x) e f h = f e h

IsLimited-if :
    (b : Bool) {m k : Writer} → IsLimited m → IsLimited k → IsLimited (if b then m else k)
IsLimited-if true lm lk = lm
IsLimited-if false lm lk = lk

IsLimited-separated :
    {A : Type 0} (w : A → Writer) (xs : List A)
    → ((a : A) → IsLimited (w a))
    → IsLimited (separated w xs)
unfolding separated
IsLimited-separated w [] h = IsLimited-skip
IsLimited-separated w (a ∷ []) h = h a
IsLimited-separated w (a ∷ b ∷ rest) h =
    IsLimited-then (h a)
      (IsLimited-then (IsLimited-write (ascii ",")) (IsLimited-separated w (b ∷ rest) h))

infixr 5 ◌then◌
abbrev ◌then◌ : {m k : Writer} → IsLimited m → IsLimited k → IsLimited (m >> k)
a then b = IsLimited-then a b

IsLimited-occurrence : (o : Occurrence) → IsLimited (write_occurrence o)
unfolding write_occurrence
IsLimited-occurrence o =
    IsLimited-write _
    then IsLimited-if (eqb_ℤ o.end_line (pos 0)) IsLimited-skip (IsLimited-write _)
    then IsLimited-write _

module _ (json : Bytes → Bytes) where
  IsLimited-json : (s : Bytes) → IsLimited (write_json_string json s)
  unfolding write_json_string
  IsLimited-json s = IsLimited-write (json s)

  IsLimited-string : (name value : Bytes) → IsLimited (write_string json name value)
  unfolding write_string
  IsLimited-string name value =
      IsLimited-write _ then IsLimited-json name then IsLimited-write _ then IsLimited-json value

  IsLimited-int : (name : Bytes) (value : ℤ) → IsLimited (write_int json name value)
  unfolding write_int
  IsLimited-int name value =
      IsLimited-write _ then IsLimited-json name then IsLimited-write _ then IsLimited-write _

  IsLimited-finding : (f : Finding) → IsLimited (write_finding_json json f)
  unfolding write_finding_json
  IsLimited-finding f =
      IsLimited-write _
      then IsLimited-json _
      then IsLimited-write _
      then IsLimited-json f.gate
      then IsLimited-string _ f.language
      then IsLimited-string _ f.rule_id
      then IsLimited-string _ _
      then IsLimited-string _ f.file
      then IsLimited-int _ f.line
      then IsLimited-if (eqb_ℤ f.end_line (pos 0)) IsLimited-skip (IsLimited-int _ f.end_line)
      then IsLimited-string _ f.snippet
      then IsLimited-if (length f.occurrences == 0) IsLimited-skip (
          IsLimited-write _
          then IsLimited-separated write_occurrence f.occurrences IsLimited-occurrence
          then IsLimited-write _)
      then IsLimited-string _ f.message
      then IsLimited-string _ f.fingerprint
      then IsLimited-write _

  pub write_brief-refusal :
      (input : BriefInput) (fs : List Finding) (buffer : Bytes) (e : BriefError)
      → write_brief json input fs buffer ≡ err e
      → e ≡ brief_too_long
  unfolding write_brief write_brief_data
  write_brief-refusal input fs buffer e h = limited.refusal buffer e h
    where
      limited : IsLimited (write_brief json input fs)
      limited =
          IsLimited-write _
          then IsLimited-write _
          then (IsLimited-write _
              then IsLimited-json _
              then IsLimited-write _
              then IsLimited-separated (write_finding_json json) fs IsLimited-finding
              then IsLimited-write _
              then IsLimited-if (is_empty input.retry_failure) IsLimited-skip
                  (IsLimited-write _ then IsLimited-json input.retry_failure)
              then IsLimited-write _)
          then IsLimited-write _
