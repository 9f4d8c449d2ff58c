-- ===== src/Prepare/Coordinator/Plan.antt =====
-- The workers' part of the transaction keeps the plan of both domains.
use gst_app.Prelude.{ℕ, refl, Bool, Bool-cases, inl, inr, arith}
use gst_app.Prepare.Transaction.{Domain, create_worker}
use gst_app.Prepare.Transaction.Stages.{
  SamePlan, create_worker-SamePlan, join_worker-SamePlan, check_after-SamePlan, SamePlan-trans,
}
use gst_app.Prepare.Coordinator.{
  Progress, create_phase, join_phase, check_phase, epoch_phase, stale_epoch, epochs_differ,
  run_workers,
}

abbrev pub KeepsPlans : Progress → Progress → Type 0
KeepsPlans p q = SamePlan p.d0 q.d0 × SamePlan p.d1 q.d1

SamePlan-refl : (d : Domain) → SamePlan d d
SamePlan-refl d = record { target = refl; answers = refl; disposition = refl; before = refl }

create_phase-KeepsPlans :
    (with_commit : Bool) (generation : ℕ) (p : Progress)
    → KeepsPlans p (create_phase with_commit generation p)
unfolding create_phase
create_phase-KeepsPlans with_commit generation p =
    let k0 = create_worker-SamePlan with_commit generation p.d0 in
    let k1 = create_worker-SamePlan with_commit generation p.d1 in
    elim (Bool-cases (create_worker with_commit generation p.d0).1) [
      | inl s0 ↦ rw s0 (k0, SamePlan-refl p.d1)
      | inr s0 ↦ elim (Bool-cases (create_worker with_commit generation p.d1).1) [
        | inl s1 ↦ rw (s0, s1) (k0, k1)
        | inr s1 ↦ rw (s0, s1) (k0, k1)
      ]
    ]

join_phase-KeepsPlans : (p : Progress) → KeepsPlans p (join_phase p)
unfolding join_phase
join_phase-KeepsPlans p = (join_worker-SamePlan p.d0, join_worker-SamePlan p.d1)

check_phase-KeepsPlans : (generation : ℕ) (p : Progress) → KeepsPlans p (check_phase generation p)
unfolding check_phase
check_phase-KeepsPlans generation p =
    (check_after-SamePlan generation p.d0, check_after-SamePlan generation p.d1)

stale_epoch-SamePlan : (d : Domain) → SamePlan d (stale_epoch d)
stale_epoch-SamePlan d = ground arith

epoch_phase-KeepsPlans : (p : Progress) → KeepsPlans p (epoch_phase p)
unfolding epoch_phase
epoch_phase-KeepsPlans p = elim (Bool-cases (epochs_differ p)) [
  | inl differ ↦ rw differ (SamePlan-refl p.d0, stale_epoch-SamePlan p.d1)
  | inr same ↦ rw same (SamePlan-refl p.d0, SamePlan-refl p.d1)
]

pub run_workers-KeepsPlans :
    (with_commit : Bool) (generation : ℕ) (p : Progress)
    → KeepsPlans p (run_workers with_commit generation p)
unfolding run_workers
run_workers-KeepsPlans with_commit generation p =
    let a = create_phase with_commit generation p in
    let b = join_phase a in
    let ka = create_phase-KeepsPlans with_commit generation p in
    let kb = join_phase-KeepsPlans a in
    let kc = check_phase-KeepsPlans generation b in
    let kd = epoch_phase-KeepsPlans (check_phase generation b) in
    (
      SamePlan-trans ka.0 (SamePlan-trans kb.0 (SamePlan-trans kc.0 kd.0)),
      SamePlan-trans ka.1 (SamePlan-trans kb.1 (SamePlan-trans kc.1 kd.1)),
    )
