-- ===== src/Tests/Versions.antt =====
-- A run of the versions.
use togi.Prelude.{◌≡◌, refl, true, none}
use togi.Text.{ascii, bytes_ltb}
use togi.Gate.Version.{judge_observed}

observed_test :
    judge_observed (ascii ">=1.2.0 <2.0.0") (ascii "1.10.0-rc.1+build")
    ≡ record { observed = ascii "1.10.0-rc.1+build"; matches = true; error = none }
unfolding judge_observed bytes_ltb
observed_test = refl
