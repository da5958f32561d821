-- ===== src/Tls/Tests.antt =====
-- The theorems on thread-local storage at concrete threads.
use dsls_os.Base.{
  ℕ, zero, suc, ◌<◌, ◌≡◌, refl, arith, true, none, some, List, [], ◌∷◌, get_or, invalid_parameter,
}
use dsls_os.Tls.{Thread, fresh_array, allocate_tls, set_tls_value, free_tls, lower_max, accessible}
use dsls_os.Tls.Invariant.{IsSoundArray, Outcome, allocate_tls-Outcome}

-- Three slots, with values in the first two.
abbrev slots : List ℕ
slots = 7 ∷ 9 ∷ 0 ∷ []

abbrev thread : Thread
thread = record {
  tls_array = some slots;
  tls_size = 24;
  max_tls_index = 1;
  last_tls_search_index = 2;
}

abbrev no_storage : Thread
no_storage = record { tls_array = none; tls_size = 0; max_tls_index = 0; last_tls_search_index = 0 }

empty_above : (j : ℕ) → 1 < j → get_or slots j 0 ≡ 0
empty_above zero h = absurd (omega arith)
empty_above (suc zero) h = absurd (omega arith)
empty_above (suc (suc zero)) h = refl
empty_above (suc (suc (suc j))) h = refl

thread-IsSoundArray : IsSoundArray thread slots
thread-IsSoundArray = record {
  sized = refl;
  bounded = omega arith;
  max_inside = omega arith;
  search_inside = omega arith;
  empty_above = empty_above;
}

-- Slots 0, 1 and 2 are handed out and none has a value; when slot 2 is freed, a value can no longer
-- be set in slot 1, which is still handed out.
abbrev three_handed_out : Thread
three_handed_out = record fresh_array { max_tls_index = 2; last_tls_search_index = 3 }

refused_after_free : (set_tls_value (free_tls three_handed_out 2).1 1 5).0 ≡ invalid_parameter
unfolding set_tls_value free_tls lower_max accessible
refused_after_free = refl

allocate_tls-Outcome_example : Outcome thread slots (
  (allocate_tls (λ n. true) thread 3).0,
  (allocate_tls (λ n. true) thread 3).1,
  (allocate_tls (λ n. true) thread 3).2,
)
allocate_tls-Outcome_example =
    allocate_tls-Outcome (λ n. true) thread slots 3 refl thread-IsSoundArray
