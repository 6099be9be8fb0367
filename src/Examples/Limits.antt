-- ===== src/Examples/Limits.antt =====
-- Three clients of which two requests may run at once, each of which finds no semaphore.
use openscraper_framework.Prelude.{ℕ, none, some, [], ◌∷◌, List, ◌≡◌, ◌≤◌, refl, arith}
use openscraper_framework.Reqwest.Limits.{
  Shared, Client, idle, waiting, running, turns, all_running,
}
use openscraper_framework.Reqwest.Limits.Sharing.{turns-all_running}

abbrev fresh_client : Client
fresh_client = record { limit = none; concurrence = 2; phase = idle }

abbrev three : List Client
three = fresh_client ∷ fresh_client ∷ fresh_client ∷ []

abbrev empty : Shared
empty = record { semaphores = λ r. record { size = 0; held = 0 }; fresh = 0; global = none }

-- All look before one stores; then all store, and the third one waits.
abbrev race : List ℕ
race = 0 ∷ 1 ∷ 2 ∷ 1 ∷ 0 ∷ 2 ∷ 0 ∷ 1 ∷ 2 ∷ []

raced : (turns race three empty).0 ≡ (
    record { limit = some 0; concurrence = 2; phase = running }
    ∷ record { limit = some 0; concurrence = 2; phase = running }
    ∷ record { limit = some 0; concurrence = 2; phase = waiting }
    ∷ [])
unfolding turns
raced = refl

turns-all_running_example : all_running (turns race three empty).0 ≤ 2
turns-all_running_example =
    turns-all_running race three empty 2 (omega arith)
      ((refl, refl, refl), ((refl, refl, refl), ((refl, refl, refl), tt))) (λ r. refl) refl
