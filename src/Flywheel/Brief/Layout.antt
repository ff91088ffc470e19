-- ===== src/Flywheel/Brief/Layout.antt =====
-- internal/flywheel/brief.go: the shape of a brief.
use togi.Prelude.{
  ℕ, ◌-◌, ◌≤◌, ◌≡◌, ◌≢◌, refl, sym, ap, ◌∙◌, Bool, true, false, Bool-cases, inl, inr, List, [], ◌∷◌,
  ◌++◌, arith, All, All-append, length, length-append, ltb, if◌then◌else◌, ◌==◌, not, ◌&&◌,
}
use mathlib.Core.List.{append-nil, append_assoc}
use togi.Prelude.Int.{ℤ, pos, eqb_ℤ}
use togi.Text.{Bytes, ascii, is_empty}
use togi.Text.Decimal.{itoa, itoa-IsNumeral, IsNumeral}
use togi.Finding.{Occurrence, Finding}
use togi.Flywheel.Brief.{
  BriefInput, BriefResult, ok, err, Writer, write, skip, go_on, ◌>>◌, separated, write_occurrence,
  write_json_string, write_string, write_int, write_finding_json, write_brief_data, write_brief,
  check_brief, build_brief, brief_prefix, brief_data_introduction, brief_data_conclusion,
  max_brief_bytes, valid_revision,
}

-- A byte that does not end the line.
abbrev pub IsInline : ℕ → Type 0
IsInline c = c ≢ 10

-- What a writer appends to a text within the limit: the text stays within it.
record IsAppended (P : Bytes → Type 0) (buffer text : Bytes) : Type 0 where
  pub added : Bytes
  pub joined : text ≡ buffer ++ added
  pub holds : P added
  pub within : length text ≤ max_brief_bytes

record Appends (P : Bytes → Type 0) (w : Writer) : Type 0 where
  pub run :
      (buffer text : Bytes)
      → length buffer ≤ max_brief_bytes
      → w buffer ≡ ok text
      → IsAppended P buffer text

Appends-write : (P : Bytes → Type 0) (value : Bytes) → P value → Appends P (write value)
unfolding write
Appends-write P value p = record {
  run = λ buffer text h e.
      elim (Bool-cases (ltb (max_brief_bytes - length buffer) (length value))) [
        | inl b ↦ ground (arith, b, e)
        | inr b ↦
            let joined : text ≡ buffer ++ value = ground (arith, b, e) in
            record {
              added = value;
              joined = joined;
              holds = p;
              within = rw joined (ground (arith, b, h, length-append buffer value));
            }
      ];
}

-- A writer that stays on its line.
abbrev IsLine : Bytes → Type 0
IsLine = All IsInline

Line : Writer → Type 0
Line = Appends IsLine

abbrev all_inline : Bytes → Bool
all_inline [] = true
all_inline (c ∷ s) = not (c == 10) && all_inline s

IsLine-all_inline : (s : Bytes) → all_inline s ≡ true → IsLine s
IsLine-all_inline [] h = tt
IsLine-all_inline (c ∷ s) h = (ground (arith, h), IsLine-all_inline s (ground (arith, h)))

Line-write : (s : Bytes) → IsLine s → Line (write s)
unfolding Line
Line-write s h = Appends-write IsLine s h

-- The text of the source between the fields.
Line-literal : (s : Bytes) → all_inline s ≡ true → Line (write s)
Line-literal s h = Line-write s (IsLine-all_inline s h)

Line-skip : Line skip
unfolding Line
Line-skip = record {
  run = λ buffer text h e.
      let same : text ≡ buffer = ground (arith, e) in
      record {
        added = [];
        joined = same ∙ sym (append-nil buffer);
        holds = tt;
        within = rw same h;
      };
}

Appends-then :
    (P Q R : Bytes → Type 0) (m k : Writer)
    → ((a b : Bytes) → P a → Q b → R (a ++ b))
    → Appends P m
    → Appends Q k
    → Appends R (m >> k)
unfolding ◌>>◌
Appends-then P Q R m k join am ak = record {
  run = λ buffer text h e. go (m buffer) buffer text (am.run buffer) h e;
}
  where
    go :
        (r : BriefResult Bytes) (buffer text : Bytes)
        → ((t : Bytes) → length buffer ≤ max_brief_bytes → r ≡ ok t → IsAppended P buffer t)
        → length buffer ≤ max_brief_bytes
        → go_on r k ≡ ok text
        → IsAppended R buffer text
    go (err x) buffer text f h e = ground (arith, e)
    go (ok mid) buffer text f h e =
        let a = f mid h refl in
        let b = ak.run mid text a.within e in
        record {
          added = a.added ++ b.added;
          joined = b.joined ∙ ap (λ t. t ++ b.added) a.joined ∙ append_assoc buffer a.added b.added;
          holds = join a.added b.added a.holds b.holds;
          within = b.within;
        }

Line-then : (m k : Writer) → Line m → Line k → Line (m >> k)
unfolding Line
Line-then m k lm lk =
    Appends-then IsLine IsLine IsLine m k (λ a b p q. All-append IsInline a b p q) lm lk

Line-if : (b : Bool) (m k : Writer) → Line m → Line k → Line (if b then m else k)
Line-if true m k lm lk = lm
Line-if false m k lm lk = lk

Line-separated :
    {A : Type 0} (w : A → Writer) (xs : List A) → ((a : A) → Line (w a)) → Line (separated w xs)
unfolding separated
Line-separated w [] h = Line-skip
Line-separated w (a ∷ []) h = h a
Line-separated w (a ∷ b ∷ rest) h =
    Line-then _ _ (h a)
      (Line-then _ _ (Line-literal (ascii ",") refl) (Line-separated w (b ∷ rest) h))

IsLine-numeral : (s : Bytes) → All IsNumeral s → IsLine s
IsLine-numeral [] h = tt
IsLine-numeral (c ∷ s) h = (ground (arith, h.0), IsLine-numeral s h.1)

-- A number behind a text of the source.
Line-number : (label : Bytes) (n : ℤ) → all_inline label ≡ true → Line (write (label ++ itoa n))
Line-number label n h = Line-write (label ++ itoa n) (
    All-append IsInline label (itoa n) (IsLine-all_inline label h)
      (IsLine-numeral (itoa n) (itoa-IsNumeral n)))

Line-occurrence : (o : Occurrence) → Line (write_occurrence o)
unfolding write_occurrence
Line-occurrence o = Line-then _ _ (Line-number (ascii "{\"line\":") o.line refl) (
    Line-then _ _
      (Line-if (eqb_ℤ o.end_line (pos 0)) _ _ Line-skip
        (Line-number (ascii ",\"end_line\":") o.end_line refl))
      (Line-literal (ascii "}") refl))

check_brief-revisions :
    (sha256 : Bytes → Bytes) (input : BriefInput) (fs : List Finding)
    → check_brief sha256 input ≡ ok fs
    → (valid_revision input.merge_base ≡ true) × (valid_revision input.original_head ≡ true)
unfolding check_brief
check_brief-revisions sha256 input fs h = (ground (arith, h), ground (arith, h))

-- The output of json.Marshal for a string is one line: it escapes control characters.
module _ (json : Bytes → Bytes) (json-IsLine : (s : Bytes) → All IsInline (json s)) where
  Line-json : (s : Bytes) → Line (write_json_string json s)
  unfolding write_json_string
  Line-json s = Line-write (json s) (json-IsLine s)

  Line-field :
      (name : Bytes) (k : Writer)
      → Line k
      → Line (write (ascii ",") >> write_json_string json name >> write (ascii ":") >> k)
  Line-field name k l =
      Line-then _ _ (Line-literal (ascii ",") refl)
        (Line-then _ _ (Line-json name) (Line-then _ _ (Line-literal (ascii ":") refl) l))

  Line-string : (name value : Bytes) → Line (write_string json name value)
  unfolding write_string
  Line-string name value = Line-field name (write_json_string json value) (Line-json value)

  Line-int : (name : Bytes) (n : ℤ) → Line (write_int json name n)
  unfolding write_int
  Line-int name n =
      Line-field name (write (itoa n)) (Line-write _ (IsLine-numeral _ (itoa-IsNumeral n)))

  Line-finding : (f : Finding) → Line (write_finding_json json f)
  unfolding write_finding_json
  Line-finding f = Line-then _ _ (Line-literal (ascii "{") refl) (
      Line-then _ _ (Line-json (ascii "gate")) (
        Line-then _ _ (Line-literal (ascii ":") refl) (
          Line-then _ _ (Line-json f.gate) (
            Line-then _ _ (Line-string (ascii "language") f.language) (
              Line-then _ _ (Line-string (ascii "rule_id") f.rule_id) (
                Line-then _ _ (Line-string (ascii "severity") _) (
                  Line-then _ _ (Line-string (ascii "file") f.file) (
                    Line-then _ _ (Line-int (ascii "line") f.line) (
                      Line-then _ _
                        (Line-if (eqb_ℤ f.end_line (pos 0)) _ _ Line-skip
                          (Line-int (ascii "end_line") f.end_line))
                        (Line-then _ _ (Line-string (ascii "snippet") f.snippet) (
                          Line-then _ _
                            (Line-if (length f.occurrences == 0) _ _ Line-skip (
                              Line-then _ _ (Line-literal (ascii ",\"occurrences\":[") refl) (
                                Line-then _ _
                                  (Line-separated write_occurrence f.occurrences Line-occurrence)
                                  (Line-literal (ascii "]") refl))))
                            (Line-then _ _ (Line-string (ascii "message") f.message) (
                              Line-then _ _ (Line-string (ascii "fingerprint") f.fingerprint)
                                (Line-literal (ascii "}") refl))))))))))))))

  Line-data :
      (file : Bytes) (fs : List Finding) (failure : Bytes)
      → Line (write_brief_data json file fs failure)
  unfolding write_brief_data
  Line-data file fs failure = Line-then _ _ (Line-literal (ascii "{\"primary_file\":") refl) (
      Line-then _ _ (Line-json file) (
        Line-then _ _ (Line-literal (ascii ",\"findings\":[") refl) (
          Line-then _ _ (Line-separated (write_finding_json json) fs Line-finding) (
            Line-then _ _ (Line-literal (ascii "]") refl) (
              Line-then _ _
                (Line-if (is_empty failure) _ _ Line-skip (
                  Line-then _ _ (Line-literal (ascii ",\"retry_failure\":") refl)
                    (Line-json failure)))
                (Line-literal (ascii "}") refl))))))

  -- The texts behind the line of data, and the ones before it.
  abbrev Closes : Bytes → Type 0
  Closes t = (line : Bytes) × (t ≡ line ++ 10 ∷ brief_data_conclusion) × IsLine line

  write_brief-layout :
      (input : BriefInput) (fs : List Finding)
      → Appends
          (λ t.
            (line : Bytes) × (t
              ≡ brief_prefix input.merge_base input.original_head
                ++ (brief_data_introduction ++ (line ++ 10 ∷ brief_data_conclusion)))
            × IsLine line)
          (write_brief json input fs)
  unfolding write_brief Line
  write_brief-layout input fs =
      let prefix = brief_prefix input.merge_base input.original_head in
      let tail' =
        Appends-then IsLine (λ t. t ≡ 10 ∷ brief_data_conclusion) Closes _ _
          (λ a b p q. (a, ap (λ t. a ++ t) q, p))
          (Line-data input.batch.primary_file fs input.retry_failure)
          (Appends-write (λ t. t ≡ 10 ∷ brief_data_conclusion) _ refl) in
      Appends-then (λ t. t ≡ prefix)
        (λ t.
          (line : Bytes) × (t ≡ brief_data_introduction ++ (line ++ 10 ∷ brief_data_conclusion))
          × IsLine line)
        _ _ _ (λ a b p q. let (line, e, l) = q in (line, (λ i. p i ++ e i), l))
        (Appends-write (λ t. t ≡ prefix) _ refl)
        (Appends-then (λ t. t ≡ brief_data_introduction) Closes _ _ _
          (λ a b p q. let (line, e, l) = q in (line, (λ i. p i ++ e i), l))
          (Appends-write (λ t. t ≡ brief_data_introduction) _ refl) tail')

  -- Where the JSON of a string does not end the line, a brief is the instructions, which two
  -- hexadecimal revisions alone complete, the introduction, one line of data, and the conclusion; and
  -- it is within the limit. What the findings and the failure say cannot break out of their line.
  pub build_brief-IsLine :
      (sha256 : Bytes → Bytes) (input : BriefInput) (text : Bytes)
      → build_brief sha256 json input ≡ ok text
      → (line : Bytes) × (text
          ≡ brief_prefix input.merge_base input.original_head
            ++ (brief_data_introduction ++ (line ++ 10 ∷ brief_data_conclusion)))
        × All IsInline line
        × (length text ≤ max_brief_bytes)
        × (valid_revision input.merge_base ≡ true)
        × (valid_revision input.original_head ≡ true)
  unfolding build_brief
  build_brief-IsLine sha256 input text h =
      go (check_brief sha256 input) (check_brief-revisions sha256 input) h
    where
      go :
          (r : BriefResult (List Finding))
          → ((fs : List Finding)
              → r ≡ ok fs
              → (valid_revision input.merge_base ≡ true)
                × (valid_revision input.original_head ≡ true))
          → (elim r [ err e ↦ err e | ok fs ↦ write_brief json input fs [] ]) ≡ ok text
          → (line : Bytes) × (text
              ≡ brief_prefix input.merge_base input.original_head
                ++ (brief_data_introduction ++ (line ++ 10 ∷ brief_data_conclusion)))
            × All IsInline line
            × (length text ≤ max_brief_bytes)
            × (valid_revision input.merge_base ≡ true)
            × (valid_revision input.original_head ≡ true)
      go (err e) k q = ground (arith, q)
      go (ok fs) k q =
          let a = (write_brief-layout input fs).run [] text (omega arith) q in
          let (line, e, l) = a.holds in
          let (m, o) = k fs refl in (line, a.joined ∙ e, l, a.within, m, o)
