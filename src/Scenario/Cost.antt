-- ===== src/Scenario/Cost.antt =====
-- What a sandbox costs its node, from the pool to its end.
use gke_quick_prototype.Prelude.{
  ℕ, ◌+◌, ◌*◌, ◌≤◌, ◌<◌, ◌≡◌, ◌≢◌, ◌↔◌, ◌⊎◌, refl, sym, ◌∙◌, false, inl, inr, Bool-cases,
  then_branch, else_branch, ap, subst, some, List, [], ◌∷◌, map, All, arith,
}
use mathlib.Core.Option
use gke_quick_prototype.Workload.{
  is_detached, LoadState, choose_tier, active_cores, chunk_size, target_bytes, Written,
}
use gke_quick_prototype.Workload.Bounds.{active_cores_bounds, phase_disk_write_lem}
use gke_quick_prototype.Scenario.{
  idle, download, disk, Signal, context_done, heartbeat, tick, WaitEnd, local_mode, context_ended,
  detached, waiting, wait_loop, wait_for_detach, phase_download, ScenarioEnv, Effects, disk_done,
  phase_load_loop, run_disk, run_phases, in_pool, run_scenario, set_phase, set_tier,
}
use gke_quick_prototype.Scenario.Copies.{IsLimit, phase_download-IsWithin}

-- A signal that leaves the pod waiting: its labels say that it is in the pool.
abbrev pub IsHeld : Signal → Type 0
IsHeld context_done = ⊥
IsHeld heartbeat = Unit
IsHeld (tick labels) = is_detached labels ≡ false

wait_loop_lem : (signals : List Signal) → (wait_loop signals ≡ waiting) ↔ All IsHeld signals
unfolding wait_loop
wait_loop_lem [] = ground arith
wait_loop_lem (context_done ∷ rest) = ground arith
wait_loop_lem (heartbeat ∷ rest) = ground (arith, wait_loop_lem rest)
wait_loop_lem (tick labels ∷ rest) = ground (arith, wait_loop_lem rest)

-- The disk phase writes less than the largest target and one chunk.
target_bytes-le : (roll : ℕ) → target_bytes roll ≤ 3 * 1024 * 1024 * 1024
unfolding target_bytes
target_bytes-le roll = ground arith

cores-All :
    (roll cpus : ℕ) (states : List LoadState)
    → 0 < cpus
    → All (λ n. n ≤ cpus) (map (λ st. active_cores st (choose_tier roll cpus).max_cores) states)
cores-All roll cpus [] h = tt
cores-All roll cpus (st ∷ states) h =
    ((active_cores_bounds roll cpus st h).0, cores-All roll cpus states h)

-- What holds of a run that has left the pool.
pub record IsFrugal (limit cpus : ℕ) (e : Effects) : Type 0 where
  pub copied_le : e.downloads.copied ≤ 5 * limit
  pub reported_le : e.downloads.total_downloaded ≤ 5 * 1024 * 1024
  pub written_lt : e.written < 3 * 1024 * 1024 * 1024 + chunk_size
  pub cores_le : All (λ n. n ≤ cpus) e.cores
  pub busy : e.state.phase ≢ idle

phase_load_loop-IsFrugal :
    (limit : ℕ) (env : ScenarioEnv) (e : Effects)
    → 0 < env.num_cpu
    → IsFrugal limit env.num_cpu e
    → IsFrugal limit env.num_cpu (phase_load_loop env e)
unfolding phase_load_loop set_phase set_tier
phase_load_loop-IsFrugal limit env e h f = record {
  copied_le = f.copied_le;
  reported_le = f.reported_le;
  written_lt = f.written_lt;
  cores_le = cores-All env.load_roll env.num_cpu env.states h;
  busy = λ p. cc;
}

disk_done-IsFrugal :
    (limit : ℕ) (env : ScenarioEnv) (e : Effects) (w : Written)
    → 0 < env.num_cpu
    → IsFrugal limit env.num_cpu e
    → w.total_written < target_bytes env.disk_roll + chunk_size
    → IsFrugal limit env.num_cpu (disk_done env e w)
unfolding disk_done set_phase
disk_done-IsFrugal limit env e w h f l =
    let e' = record e { state = set_phase disk e.state; written = w.total_written } in
    let f' : IsFrugal limit env.num_cpu e' = record {
      copied_le = f.copied_le;
      reported_le = f.reported_le;
      written_lt = omega (arith, l, target_bytes-le env.disk_roll);
      cores_le = f.cores_le;
      busy = λ p. cc;
    } in
    elim (Bool-cases env.cancelled_in_disk) [
      | inl t ↦
          subst (IsFrugal limit env.num_cpu) (sym (then_branch env.cancelled_in_disk _ _ t)) f'
      | inr t ↦
          subst (IsFrugal limit env.num_cpu) (sym (else_branch env.cancelled_in_disk _ _ t))
            (phase_load_loop-IsFrugal limit env e' h f')
    ]

run_disk-IsFrugal :
    (limit : ℕ) (env : ScenarioEnv) (e : Effects)
    → 0 < env.num_cpu
    → IsFrugal limit env.num_cpu e
    → (u : Effects) × (run_disk env e ≡ some u) × IsFrugal limit env.num_cpu u
unfolding run_disk
run_disk-IsFrugal limit env e h f =
    let (w, ends, bounded) = phase_disk_write_lem env.disk_env env.disk_roll in
    (
      disk_done env e w,
      ap (Option.map (disk_done env e)) ends,
      disk_done-IsFrugal limit env e w h f bounded.no_excess,
    )

run_phases-IsFrugal :
    (limit : ℕ) (env : ScenarioEnv) (e : Effects)
    → 0 < env.num_cpu
    → IsLimit limit env.download_env
    → e.written ≡ 0
    → e.cores ≡ []
    → (u : Effects) × (run_phases env e ≡ some u) × IsFrugal limit env.num_cpu u
unfolding run_phases set_phase
run_phases-IsFrugal limit env e h l w k =
    let e' = record e {
      state = set_phase download e.state;
      downloads = phase_download env.download_env;
    } in
    let fetched = phase_download-IsWithin limit env.download_env l in
    let f : IsFrugal limit env.num_cpu e' = record {
      copied_le = omega (arith, fetched.copied_le);
      reported_le = omega (arith, fetched.reported_le);
      written_lt = omega (arith, w);
      cores_le = rw k tt;
      busy = λ p. cc;
    } in
    elim (Bool-cases env.cancelled_in_download) [
      | inl t ↦ (e', then_branch env.cancelled_in_download _ _ t, f)
      | inr t ↦
          let (u, ends, frugal) = run_disk-IsFrugal limit env e' h f in
          (u, else_branch env.cancelled_in_download _ _ t ∙ ends, frugal)
    ]

-- The pod has its labels, and at every look they keep it in the pool.
abbrev pub StaysInPool : ScenarioEnv → Type 0
StaysInPool env = (env.labels_missing ≡ false) × All IsHeld env.signals

wait_for_detach_lem :
    (env : ScenarioEnv)
    → (wait_for_detach env.labels_missing env.signals ≡ waiting) ↔ StaysInPool env
unfolding wait_for_detach
wait_for_detach_lem env = ground (arith, wait_loop_lem env.signals)

outcome :
    (env : ScenarioEnv) (o : WaitEnd)
    → wait_for_detach env.labels_missing env.signals ≡ o
    → (o ≡ waiting) ⊎ ((o ≢ waiting) × (run_scenario env ≡ run_phases env in_pool))
unfolding run_scenario
outcome env waiting e = inl refl
outcome env local_mode e = inr (λ p. cc, rw (e, run_scenario) refl)
outcome env context_ended e = inr (λ p. cc, rw (e, run_scenario) refl)
outcome env detached e = inr (λ p. cc, rw (e, run_scenario) refl)

-- On a node with a CPU, and with no body of a download longer than a limit, a run of the scenario
-- comes to a result, whatever fails or is cancelled. A pod that stays in the pool costs nothing; any
-- other copies five times the limit at most to its downloaded files and reports 5 MiB at most for
-- them, writes less than 3 GiB and one chunk in the disk phase, keeps no more cores busy than there
-- are, and does not report itself idle.
pub run_scenario_lem :
    (limit : ℕ) (env : ScenarioEnv)
    → 0 < env.num_cpu
    → IsLimit limit env.download_env
    → (u : Effects) × (run_scenario env ≡ some u)
      × ((StaysInPool env × (u ≡ in_pool)) ⊎ ((¬ StaysInPool env) × IsFrugal limit env.num_cpu u))
unfolding run_scenario
run_scenario_lem limit env h l = elim (outcome env _ refl) [
  | inl e ↦ (in_pool, rw (e, run_scenario) refl, inl ((wait_for_detach_lem env).0 e, refl))
  | inr (n, e) ↦
      let (u, ends, frugal) = run_phases-IsFrugal limit env in_pool h l refl refl in
      (u, e ∙ ends, inr (λ stays. n ((wait_for_detach_lem env).1 stays), frugal))
]
