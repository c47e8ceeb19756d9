-- ===== src/Utils/Tests.antt =====
-- Clock readings and cores on which the theorems about src/Utils.cpp apply.
use ff_test.Base.{ℕ}
use ff_test.Utils.{Timeval}

abbrev at : ℕ → ℕ → Timeval
at s us = record { tv_sec = s; tv_usec = us }
