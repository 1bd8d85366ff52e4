-- ===== src/Controller/Config/Status/Requeue.antt =====
-- The requeue of the webhook runtime.
use aws_workload_identity_op.Prelude.{
  ℕ, ◌≤◌, ◌<◌, ◌≡◌, ◌⊎◌, true, false, List, [], ◌∷◌, arith, any, nat_eq,
}
use aws_workload_identity_op.Controller.Common.{transient_requeue}
use aws_workload_identity_op.Controller.Config.Server.{RuntimeOutcome}
use aws_workload_identity_op.Controller.Config.Status.{
  min_nonzero_duration, smallest_of, first_nonzero, webhook_runtime_requeue_after,
}

smallest_of_start :
    (start : ℕ) (ds : List ℕ)
    → 0 < start
    → (0 < smallest_of start ds) × (smallest_of start ds ≤ start)
unfolding smallest_of
smallest_of_start start [] p = ground arith
smallest_of_start start (d ∷ ds) p =
    let a = smallest_of_start start ds in let b = smallest_of_start d ds in ground (arith, a, b)

smallest_of_lower :
    (start d : ℕ) (ds : List ℕ)
    → any (λ x. nat_eq x d) ds ≡ true
    → 0 < d
    → (0 < smallest_of start ds) × (smallest_of start ds ≤ d)
unfolding smallest_of
smallest_of_lower start d [] h p = ground arith
smallest_of_lower start d (x ∷ ds) h p =
    let a = smallest_of_lower start d ds in
    let b = smallest_of_lower x d ds in
    ground (arith, a, b, smallest_of_start x ds, smallest_of_start start ds)

smallest_of_member :
    (start : ℕ) (ds : List ℕ)
    → (smallest_of start ds ≡ start) ⊎ (any (λ x. nat_eq x (smallest_of start ds)) ds ≡ true)
unfolding smallest_of
smallest_of_member start [] = ground arith
smallest_of_member start (x ∷ ds) =
    let a = smallest_of_member start ds in let b = smallest_of_member x ds in ground (arith, a, b)

-- The smallest of some durations is 0 or one of them, and below each of them that is not 0, which makes
-- it positive.
pub min_nonzero_duration-smallest :
    (ds : List ℕ)
    → ((min_nonzero_duration ds ≡ 0) ⊎ (any (λ x. nat_eq x (min_nonzero_duration ds)) ds ≡ true))
      × ((d : ℕ)
          → any (λ x. nat_eq x d) ds ≡ true
          → 0 < d
          → (0 < min_nonzero_duration ds) × (min_nonzero_duration ds ≤ d))
unfolding min_nonzero_duration
min_nonzero_duration-smallest ds = (smallest_of_member 0 ds, λ d. smallest_of_lower 0 d ds)

-- The webhook runtime is always looked at again. While it is not ready, that is within the 30 seconds of
-- a transient state, and not after the renewal of its certificate.
pub webhook_runtime_requeue_after_bounds :
    (o : RuntimeOutcome)
    → (0 < webhook_runtime_requeue_after o true)
      × (0 < webhook_runtime_requeue_after o false)
      × (webhook_runtime_requeue_after o false ≤ transient_requeue)
      × (0 < o.cert_renewal_after
          → (webhook_runtime_requeue_after o true ≡ o.cert_renewal_after)
            × (webhook_runtime_requeue_after o false ≤ o.cert_renewal_after))
unfolding webhook_runtime_requeue_after first_nonzero min_nonzero_duration smallest_of
webhook_runtime_requeue_after_bounds o = (ground arith, ground arith, ground arith, ground arith)
