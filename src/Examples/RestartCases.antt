-- ===== src/Examples/RestartCases.antt =====
-- RFC 3339, a controller that starts afresh, and a second sync.
use gke_quick_prototype.Prelude.{
  ◌+◌, ◌*◌, ◌≡◌, ◌&&◌, refl, false, none, some, [], ◌∷◌, arith, if◌then◌else◌,
}
use gke_quick_prototype.Prelude.Int.{pos, ◌+ℤ◌, ◌-ℤ◌}
use gke_quick_prototype.Prelude.Text.{Text, codes, text_eq}
use gke_quick_prototype.Prelude.Map.{lookup}
use gke_quick_prototype.Clock.{Time, second, hour}
use gke_quick_prototype.Store.{Sandbox, get}
use gke_quick_prototype.Store.Invariant.{IsWellFormed}
use gke_quick_prototype.Store.Views.{view}
use gke_quick_prototype.Controller.{Controller}
use gke_quick_prototype.Lifetime.{
  leading_digits, number_after, date_time, days_in, days_before, days_before_year,
}
use gke_quick_prototype.Rfc3339.{
  format_rfc3339, parse_rfc3339, civil, year_and_day, walk_months, parse_clock, parse_hour,
  parse_minutes, parse_fraction, parse_zone, in_zone, at_clock,
}
use gke_quick_prototype.Rfc3339.RoundTrip.{IsWritable, whole_second, parse_rfc3339-format_rfc3339}
use gke_quick_prototype.Provision.{ProvisionEnv, claim_patch}
use gke_quick_prototype.Provision.Restart.{IsClaimedBy, IsRecovered, sync_store-IsRecovered}
use gke_quick_prototype.Sync.{sync_store, is_live, is_deleted}
use gke_quick_prototype.Sync.Unique.{IsUnique}
use gke_quick_prototype.Sync.Counted.{count_live, is_back, is_news, sync_store-counts}
use gke_quick_prototype.Sync.Again.{sync_store-again}
use gke_quick_prototype.Gc.{GcEnv}
use gke_quick_prototype.Reconciler.{sync}
use gke_quick_prototype.Lifecycle.{run_ticks, IsHeld, is_over}
use gke_quick_prototype.Lifecycle.Restarted.{restored_terms, restarted_until_over}
use gke_quick_prototype.Examples.LifecycleCases.{
  held_at, listing, claimed_pod, claimed_pods, claimed_pods-IsUnique, claimed_pod-active,
  claimed_pod_of,
}
use gke_quick_prototype.Examples.Setup.{
  start, pool, pool-IsWellFormed, name_a, gc_inputs, sync_inputs, both_pods, provision_env,
}

-- The 1st of April 2026, 12:00:00.5 UTC.
abbrev noon : Time
noon = pos (second * (86_400 * 739_706 + 43_200) + 500_000_000)

noon_text : format_rfc3339 (pos 120) noon ≡ codes "2026-04-01T14:00:00+02:00"
unfolding format_rfc3339 civil year_and_day walk_months days_in ◌+ℤ◌
noon_text = refl

noon-IsWritable : IsWritable (pos 120) noon
unfolding ◌+ℤ◌
noon-IsWritable = record {
  offset_in = (omega arith, omega arith);
  from_year_1 = omega arith;
  to_year_9999 = omega arith;
}

parse_rfc3339-format_rfc3339_example :
    parse_rfc3339 (format_rfc3339 (pos 120) noon) ≡ some (whole_second noon)
parse_rfc3339-format_rfc3339_example = parse_rfc3339-format_rfc3339 (pos 120) noon noon-IsWritable

-- A fraction is read though none is written, and a day that the month has not is refused.
some_texts :
    (parse_rfc3339 (codes "0001-01-01T00:00:01.5Z") ≡ some (pos 1_500_000_000))
    × (parse_rfc3339 (codes "2026-02-29T00:00:00Z") ≡ none)
    × (parse_rfc3339 (codes "2026-02-28T24:00:00Z") ≡ none)
unfolding parse_rfc3339 leading_digits number_after date_time days_in days_before days_before_year
    parse_clock parse_hour parse_minutes parse_fraction parse_zone in_zone at_clock ◌+ℤ◌ ◌-ℤ◌
some_texts = (refl, refl, refl)

-- A claim at noon, in a zone two hours east.
abbrev noon_claim : ProvisionEnv
noon_claim = record provision_env { zone = pos 120; claimed_now = noon }

abbrev fresh_start : Controller
fresh_start = record start { store = record pool { next = 0; sandboxes = [] } }

fresh-IsWellFormed : IsWellFormed fresh_start.store
fresh-IsWellFormed = record { distinct = tt; filed = tt }

claimed_pod-IsClaimedBy : IsClaimedBy noon_claim claimed_pod
unfolding lookup text_eq claim_patch format_rfc3339 civil year_and_day walk_months days_in ◌+ℤ◌
claimed_pod-IsClaimedBy = record { annotated = refl; writable = noon-IsWritable }

a-IsRecovered :
    (sb : Sandbox) × (view (sync_store sync_inputs claimed_pods (pos 9) fresh_start).store name_a
      ≡ some sb)
    × IsRecovered (whole_second noon) sb
a-IsRecovered =
    sync_store-IsRecovered noon_claim sync_inputs claimed_pods (pos 9) fresh_start claimed_pod
      name_a fresh-IsWellFormed claimed_pods-IsUnique claimed_pod_of
      (unfold view get lookup in refl) claimed_pod-active claimed_pod-IsClaimedBy

-- The collector an hour after the claim, and 25 hours after it.
abbrev soon : GcEnv
soon = record gc_inputs { now = noon +ℤ pos hour }

abbrev next_day : GcEnv
next_day = record gc_inputs { now = noon +ℤ pos (25 * hour) }

still_early : (is_over soon.now none (some (whole_second noon)) && gc_inputs.deletes name_a) ≡ false
unfolding is_over whole_second ◌+ℤ◌ ◌-ℤ◌
still_early = refl

restarted_until_over_example :
    (sb : Sandbox) × IsHeld (restored_terms noon_claim) sb
    × (view
          (sync
            (held_at next_day)
            (run_ticks (held_at soon ∷ []) (sync (held_at soon) fresh_start))).store
          name_a
        ≡ (if is_over next_day.now none (some (whole_second noon)) && gc_inputs.deletes name_a
            then none
            else some sb))
restarted_until_over_example =
    restarted_until_over noon_claim name_a (held_at soon) fresh_start fresh-IsWellFormed
      (unfold view get lookup in refl) (listing soon) claimed_pod-IsClaimedBy still_early
      (held_at soon ∷ []) (held_at next_day) ((listing soon, still_early), tt) (listing next_day)

both_pods-IsUnique : IsUnique both_pods
unfolding is_live is_deleted text_eq
both_pods-IsUnique = (refl, (refl, tt))

sync_store-counts_example :
    ((sync_store sync_inputs both_pods (pos 9) start).store.mismatch_count
      ≡ count_live is_back (view pool) both_pods)
    × ((sync_store sync_inputs both_pods (pos 9) start).instruments.sync_mismatch_total
        ≡ 0 + count_live is_back (view pool) both_pods)
    × ((sync_store sync_inputs both_pods (pos 9) start).instruments.scheduled_total
        ≡ 0 + count_live is_news (view pool) both_pods)
sync_store-counts_example =
    sync_store-counts sync_inputs both_pods (pos 9) start pool-IsWellFormed both_pods-IsUnique

sync_store-again_example :
    let first = sync_store sync_inputs both_pods (pos 9) start in
    let second =
      sync_store (record sync_inputs { pod_now = λ n. pos 400 }) both_pods (pos 19) first in
    ((j : Text) → view second.store j ≡ view first.store j)
    × (second.instruments ≡ first.instruments)
    × (second.store.mismatch_count ≡ 0)
sync_store-again_example =
    sync_store-again sync_inputs (record sync_inputs { pod_now = λ n. pos 400 }) both_pods (pos 9)
      (pos 19) start pool-IsWellFormed both_pods-IsUnique refl
