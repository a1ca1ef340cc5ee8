-- ===== src/Examples/Leases.antt =====
-- internal/exit/lease.go and readiness.go: a worker that reports once a second.
use molebridge.Base.{
  ℕ, ◌+◌, ◌*◌, ◌≤◌, ◌<◌, Bool, true, false, ◌≡◌, refl, ◌⊎◌, none, some, List, [], ◌∷◌, ◌++◌, any,
  bytes, arith,
}
use molebridge.Exit.Lease.{
  Loops, Msg, Lease, new_lease, new_generation, accept, ok, held, is_lapsed, run, call,
  accept_status, Call, launch, renewal, status, second, mutator_bound, loop_bound, loop_mutator,
  loop_watcher,
}
use molebridge.Exit.Lease.Renewal.{Answered, accept-Answered, accepted_in_order}
use molebridge.Exit.Lease.Expiry.{last_renewal, lapsed_for_good, held_since}
use molebridge.Exit.Readiness.{Readiness, Observation, step}
use molebridge.Exit.Readiness.Messages.{
  messages, is_unready, Stretch, unready_means, outage_reported,
}

abbrev bounds : Loops
bounds = (loop_mutator, mutator_bound) ∷ (loop_watcher, loop_bound) ∷ []

abbrev worker : ℕ → ℕ → Msg
worker seq at = record {
  gen = bytes "a";
  seq = seq;
  loops = (loop_watcher, at) ∷ (loop_mutator, at) ∷ [];
}

abbrev launched : Lease
launched = new_generation (bytes "a") 0 (new_lease (10 * second) bounds)

accept-Answered_example :
    Answered second launched
      (worker 1 second)
      (accept second launched (worker 1 second)).0
      (ok (11 * second))
unfolding accept new_generation new_lease
accept-Answered_example = accept-Answered second launched (worker 1 second)

accepted_in_order_example : (worker 1 second).seq < (worker 2 (2 * second)).seq
unfolding accept new_generation new_lease run call accept_status
accepted_in_order_example =
    accepted_in_order launched (worker 1 second) (worker 2 (2 * second)) second (2 * second)
      (11 * second) (12 * second) ((second, status (bytes "a") 1) ∷ []) refl (tt, tt) refl

lapsed_for_good_example :
    held (40 * second) (run launched ((35 * second, renewal (worker 1 (35 * second))) ∷ [])) ≡ false
unfolding is_lapsed new_generation new_lease
lapsed_for_good_example =
    lapsed_for_good (30 * second) launched ((35 * second, renewal (worker 1 (35 * second))) ∷ [])
      (40 * second) refl ((omega arith, λ x. x), tt) (omega arith)

abbrev history : List (ℕ × Call)
history = (0, launch (bytes "a")) ∷ (second, renewal (worker 1 second)) ∷ []

held_since_example :
    (t : ℕ) × (last_renewal none (new_lease (10 * second) bounds) history ≡ some t)
    × (5 * second < t + 10 * second)
unfolding held new_lease run call
held_since_example = held_since (10 * second) bounds history (5 * second) refl

abbrev seen : ℕ → Bool → Observation
seen t b = record { now = t; holds = b; tunnel_ok = true; blocked = false }

unready_means_example :
    ((seen 8 false).blocked ≡ true)
    ⊎ ((t : ℕ) × (t + 5 ≤ 8) × Stretch t ((seen 1 true ∷ seen 2 false ∷ []) ++ seen 8 false ∷ []))
unfolding step
unready_means_example = unready_means 5 (seen 1 true ∷ seen 2 false ∷ []) (seen 8 false) refl

abbrev reported : Readiness
reported = record { grace = 5; sent = true; bad_since = none }

outage_reported_example :
    any is_unready (messages reported (seen 2 false ∷ ((seen 4 false ∷ []) ++ seen 7 false ∷ [])))
    ≡ true
outage_reported_example =
    outage_reported reported (seen 2 false) (seen 4 false ∷ []) (seen 7 false) refl refl
      (refl, (refl, (refl, tt))) (omega arith)
