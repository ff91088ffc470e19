-- ===== src/Tests/Sample.antt =====
-- Inputs that the tests share.
use togi.Prelude.{List, [], ◌∷◌}
use togi.Text.{Bytes, ascii}
use togi.Finding.{Finding, sample_finding}

-- A digest of 32 zero bytes.
abbrev pub zero_digest : Bytes → Bytes
zero_digest s =
    0 ∷ 0 ∷ 0 ∷ 0 ∷ 0 ∷ 0 ∷ 0 ∷ 0 ∷ 0 ∷ 0 ∷ 0 ∷ 0 ∷ 0 ∷ 0 ∷ 0 ∷ 0 ∷ 0 ∷ 0 ∷ 0 ∷ 0 ∷ 0 ∷ 0 ∷ 0 ∷ 0
    ∷ 0 ∷ 0 ∷ 0 ∷ 0 ∷ 0 ∷ 0 ∷ 0 ∷ 0 ∷ []

abbrev pub zero_print : Bytes
zero_print = ascii "0000000000000000000000000000000000000000000000000000000000000000"

abbrev pub blocker : Finding
blocker = record sample_finding { fingerprint = zero_print }

abbrev pub blockers : List Finding
blockers = blocker ∷ []

abbrev pub head_revision : Bytes
head_revision = ascii "0123456789abcdef0123456789abcdef01234567"
