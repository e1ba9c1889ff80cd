-- ===== src/Workload/Bounds.antt =====
-- How much a sandbox loads its node: cores and disk.
use gke_quick_prototype.Prelude.{
  ℕ, zero, suc, ◌+◌, ◌*◌, ◌/◌, ◌≤◌, ◌<◌, ◌≡◌, ◌↔◌, ◌∙◌, refl, inl, inr, Bool-cases, else_branch,
  ltb→lt, some, arith, ltb,
}
use gke_quick_prototype.Workload.{
  LoadState, idle_load, light_load, moderate_load, heavy_load, peak_load, choose_tier, active_cores,
  target_bytes, chunk_size, DiskEnv, DiskEnd, target_reached, context_cancelled, write_failed,
  no_directory, Written, write_loop, phase_disk_write,
}

max_cores_lem :
    (roll cpus : ℕ)
    → 0 < cpus
    → (0 < (choose_tier roll cpus).max_cores) × ((choose_tier roll cpus).max_cores ≤ cpus)
unfolding choose_tier
max_cores_lem roll cpus h = ground arith

active_cores_lem :
    (st : LoadState) (m : ℕ)
    → 0 < m
    → (active_cores st m ≤ m) × ((active_cores st m ≡ 0) ↔ (st ≡ idle_load))
unfolding active_cores
active_cores_lem idle_load m h = ground arith
active_cores_lem light_load m h = ground arith
active_cores_lem moderate_load m h = ground arith
active_cores_lem heavy_load m h = ground arith
active_cores_lem peak_load m h = ground arith

abbrev ended : DiskEnd → ℕ → ℕ → Written
ended end total index = record { end = end; total_written = total; file_index = index }

-- What holds of the written files in the end.
pub record IsBounded (target : ℕ) (w : Written) : Type 0 where
  pub whole_chunks : w.total_written ≡ w.file_index * chunk_size
  pub no_excess : w.total_written < target + chunk_size
  pub reached : (w.end ≡ target_reached) ↔ (target ≤ w.total_written)

write_loop_lem :
    (fuel : ℕ) (env : DiskEnv) (target total index : ℕ)
    → target + chunk_size ≤ total + fuel * chunk_size
    → total ≡ index * chunk_size
    → total < target + chunk_size
    → (w : Written) × (write_loop fuel env target total index ≡ some w) × IsBounded target w
unfolding write_loop
write_loop_lem zero env target total index enough whole excess =
    absurd (omega (arith, enough, excess))
write_loop_lem (suc fuel) env target total index enough whole excess =
    elim (Bool-cases (ltb total target)) [
      | inr done ↦ (
        ended target_reached total index,
        rw done refl,
        record { whole_chunks = whole; no_excess = excess; reached = ground (arith, done) },
      )
      | inl more ↦ elim (Bool-cases (env.cancelled_at index)) [
        | inl cancelled ↦ (
          ended context_cancelled total index,
          rw more (rw cancelled refl),
          record { whole_chunks = whole; no_excess = excess; reached = ground (arith, more) },
        )
        | inr live ↦ elim (Bool-cases (env.fails_at index)) [
          | inl fails ↦ (
            ended write_failed total index,
            rw more (rw live (rw fails refl)),
            record { whole_chunks = whole; no_excess = excess; reached = ground (arith, more) },
          )
          | inr sound ↦
              let (w, e, bounded) =
                write_loop_lem fuel env target (total + chunk_size) (index + 1)
                  (omega (arith, enough)) (omega (arith, whole))
                  (omega (arith, ltb→lt total target more)) in
              (w, rw more (rw live (rw sound e)), bounded)
        ]
      ]
    ]

target_bytes_pos : (roll : ℕ) → 0 < target_bytes roll
unfolding target_bytes
target_bytes_pos roll = ground arith

-- A run of the disk phase ends for every roll, whatever is cancelled or fails: what it counts as
-- written are whole chunks, less than one chunk above the target, and the target is met exactly if
-- the run was neither cancelled nor failed.
pub phase_disk_write_lem :
    (env : DiskEnv) (roll : ℕ)
    → (w : Written) × (phase_disk_write env roll ≡ some w) × IsBounded (target_bytes roll) w
unfolding phase_disk_write
phase_disk_write_lem env roll = elim (Bool-cases env.mkdir_fails) [
  | inl fails ↦ (
    ended no_directory 0 0,
    rw fails refl,
    record {
      whole_chunks = omega arith;
      no_excess = omega arith;
      reached = ground (arith, target_bytes_pos roll);
    },
  )
  | inr made ↦
      let (w, ends, bounded) =
        write_loop_lem (target_bytes roll / chunk_size + 2) env (target_bytes roll) 0 0
          (omega arith) (omega arith) (omega arith) in
      (w, else_branch env.mkdir_fails _ _ made ∙ ends, bounded)
]

-- On a node with a CPU a sandbox never loads more cores than there are, and its load is zero in the
-- state `idle` only, whatever its tier.
pub active_cores_bounds :
    (roll cpus : ℕ) (st : LoadState)
    → 0 < cpus
    → (active_cores st (choose_tier roll cpus).max_cores ≤ cpus)
      × ((active_cores st (choose_tier roll cpus).max_cores ≡ 0) ↔ (st ≡ idle_load))
active_cores_bounds roll cpus st h =
    let (low, high) = max_cores_lem roll cpus h in
    let (inside, idles) = active_cores_lem st (choose_tier roll cpus).max_cores low in
    (omega (arith, inside, high), idles)
