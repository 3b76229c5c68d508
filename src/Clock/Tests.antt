-- ===== src/Clock/Tests.antt =====
-- The calendar at leap days and at a day that its month does not have.
use check_in.Prelude.{◌≡◌, refl}
use check_in.Clock.{date_days, civil}

leap_test : civil (date_days 2024 2 29) ≡ record { year = 2024; month = 2; mday = 29 }
unfolding civil date_days
leap_test = refl

epoch_test : date_days 1970 1 1 ≡ 719468
unfolding date_days
epoch_test = refl

overflow_test : civil (date_days 2023 2 31) ≡ record { year = 2023; month = 3; mday = 3 }
unfolding civil date_days
overflow_test = refl
