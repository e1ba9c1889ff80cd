-- ===== src/Examples/HandlerCases.antt =====
-- The handlers.
use gke_quick_prototype.Prelude.{
  ◌-◌, ◌*◌, ◌≡◌, ◌↔◌, refl, ◌&&◌, Option, none, some, [], ◌∷◌, ◌++◌, ◌==◌, arith, if◌then◌else◌,
}
use gke_quick_prototype.Prelude.Int.{pos, negsuc, ◌+ℤ◌}
use gke_quick_prototype.Prelude.Text.{Text, codes, text_eq}
use gke_quick_prototype.Clock.{Time, second, minute, hour, add}
use gke_quick_prototype.Store.{idle, provisioning, claim_idle, claim, first_idle, set_pool_size}
use gke_quick_prototype.Store.Views.{view}
use gke_quick_prototype.Kube.{patch_pod}
use gke_quick_prototype.Http.{problem, deleted_many}
use gke_quick_prototype.UrlPath.{extract_name, slash}
use gke_quick_prototype.UrlPath.Names.{prefix, extract_name_lem}
use gke_quick_prototype.Provision.{
  ok, ProvisionEnv, requested_lifetime, expiry_of, cap_expiry, claimed_sandbox, handle_provision,
}
use gke_quick_prototype.Lifetime.{
  parse_duration, unsigned, sum_terms, duration_term, leading_digits, leading_fraction, unit_of,
  leading_unit, term_value, number_after, parse_date, date_time, days_in, days_before,
  days_before_year,
}
use gke_quick_prototype.Provision.Durations.{minutes, seconds, expiry_of-number}
use gke_quick_prototype.Provision.Expiry.{AtMost, expiry_of_lem}
use gke_quick_prototype.Provision.Whole.{
  sent_patch, handle_provision-claimed, handle_provision-failed,
}
use gke_quick_prototype.Handlers.{
  succeeds, handle_delete_sandbox, handle_delete_all_claimed, handle_set_pool_size, handle_restart,
  handle_sandbox_action, handle_sandbox_get, handle_logs,
}
use gke_quick_prototype.Handlers.Deletion.{
  goes, killed, kill_count, deletions, handle_delete_sandbox_lem, handle_delete_all_claimed_lem,
}
use gke_quick_prototype.Handlers.Routes.{
  pool_code, pool_calls, handle_set_pool_size_lem, handle_sandbox_get_sub,
  handle_sandbox_action_lem,
}
use gke_quick_prototype.Examples.Setup.{
  start, pool, pool-IsWellFormed, name_a, name_b, provision_env, api, reads,
}

abbrev pub five_minutes : Option Time
five_minutes = some (add (pos 100) (pos (5 * minute)))

pub granted_expiry : expiry_of provision_env (codes "5m") ≡ ok five_minutes
unfolding number_after cap_expiry add ◌+ℤ◌
granted_expiry = expiry_of-number b'5' [] minutes (refl, tt) provision_env

pub default_asked : requested_lifetime provision_env.request ≡ ok (codes "5m")
unfolding requested_lifetime
default_asked = refl

pub first_claimed : (claim_idle start.store).0 ≡ some 0
unfolding claim_idle claim first_idle
first_claimed = refl

abbrev refusing : ProvisionEnv
refusing = record provision_env { patch_answer = λ n p. some (codes "conflict") }

handle_provision-claimed_example :
    ((handle_provision provision_env start).0.code ≡ 200)
    × ((pool.heap 0).state ≡ idle)
    × ((j : Text)
        → view (handle_provision provision_env start).1.store j ≡ (
            if text_eq name_a j
            then some (
                claimed_sandbox provision_env
                  (codes "5m")
                  five_minutes
                  (record (pool.heap 0) { state = provisioning }))
            else view pool j))
    × ((handle_provision provision_env start).1.calls
        ≡ patch_pod (codes "sandbox") name_a (sent_patch provision_env) ∷ [])
    × ((handle_provision provision_env start).1.instruments.claim_total ≡ 1)
handle_provision-claimed_example =
    handle_provision-claimed provision_env (codes "5m") five_minutes start 0 default_asked
      granted_expiry first_claimed pool-IsWellFormed refl

refused_expiry : expiry_of refusing (codes "5m") ≡ ok five_minutes
unfolding number_after cap_expiry add ◌+ℤ◌
refused_expiry = expiry_of-number b'5' [] minutes (refl, tt) refusing

handle_provision-failed_example :
    ((handle_provision refusing start).0.code ≡ 500)
    × ((j : Text) → view (handle_provision refusing start).1.store j ≡ view pool j)
    × ((handle_provision refusing start).1.calls
        ≡ patch_pod (codes "sandbox") name_a (sent_patch refusing) ∷ [])
handle_provision-failed_example =
    handle_provision-failed refusing (codes "5m") five_minutes start 0 default_asked refused_expiry
      first_claimed pool-IsWellFormed (codes "conflict") refl

expiry_of-number_example :
    expiry_of provision_env (codes "90s") ≡ ok (some (add (pos 100) (pos (90 * second))))
unfolding number_after cap_expiry add ◌+ℤ◌
expiry_of-number_example =
    expiry_of-number b'9' (codes "0") seconds (refl, (refl, tt)) provision_env

-- The parsers of package time.
hour_and_a_half : parse_duration (codes "1h30m") ≡ some (pos (90 * minute))
unfolding parse_duration unsigned sum_terms duration_term leading_digits leading_fraction unit_of
    leading_unit term_value number_after text_eq
hour_and_a_half = refl

half_an_hour : parse_duration (codes "-.5h") ≡ some (negsuc (30 * minute - 1))
unfolding parse_duration unsigned sum_terms duration_term leading_digits leading_fraction unit_of
    leading_unit term_value number_after text_eq
half_an_hour = refl

no_unit : parse_duration (codes "15") ≡ none
unfolding parse_duration unsigned sum_terms duration_term leading_digits leading_fraction unit_of
    leading_unit term_value number_after text_eq
no_unit = refl

-- The Unix epoch is 62135596800 seconds after the zero time.
epoch : parse_date (codes "1970-01-01") ≡ some (pos (62135596800 * second))
unfolding parse_date date_time days_in days_before days_before_year number_after
epoch = refl

leap_day : parse_date (codes "2024-02-29") ≡ some (pos (63844761600 * second))
unfolding parse_date date_time days_in days_before days_before_year number_after
leap_day = refl

no_leap_day : parse_date (codes "2023-02-29") ≡ none
unfolding parse_date date_time days_in days_before days_before_year number_after
no_leap_day = refl

expiry_of_lem_example :
    AtMost (add (pos 101) (pos (2 * hour))) five_minutes
    × ((five_minutes ≡ none) ↔ (codes "5m" ≡ codes "unlimited"))
expiry_of_lem_example = expiry_of_lem provision_env (codes "5m") five_minutes granted_expiry

a_deleted :
    ((j : Text)
      → view (handle_delete_sandbox api (prefix ++ name_a) start).1.store j
        ≡ (if goes api name_a && text_eq name_a j then none else view pool j))
    × ((handle_delete_sandbox api (prefix ++ name_a) start).0.code
        ≡ (if goes api name_a then 200 else 500))
a_deleted = handle_delete_sandbox_lem api b'a' [] start (omega arith)

handle_delete_all_claimed_lem_example :
    ((j : Text)
      → view (handle_delete_all_claimed api (ok (name_a ∷ [])) start).1.store j
        ≡ (if killed api (name_a ∷ []) j then none else view pool j))
    × ((handle_delete_all_claimed api (ok (name_a ∷ [])) start).0
        ≡ succeeds (deleted_many (kill_count api (name_a ∷ []))))
    × ((handle_delete_all_claimed api (ok (name_a ∷ [])) start).1.calls
        ≡ deletions api (name_a ∷ []))
handle_delete_all_claimed_lem_example = handle_delete_all_claimed_lem api (name_a ∷ []) start

pool_of_four :
    ((handle_set_pool_size api (ok (pos 4)) start).0.code ≡ pool_code api (pos 4))
    × ((handle_set_pool_size api (ok (pos 4)) start).1.store
        ≡ (if pool_code api (pos 4) == 200 then set_pool_size (pos 4) pool else pool))
    × ((handle_set_pool_size api (ok (pos 4)) start).1.calls ≡ pool_calls api (pos 4))
pool_of_four = handle_set_pool_size_lem api (pos 4) start

logs_route :
    handle_sandbox_get reads (prefix ++ name_a ++ slash ∷ codes "logs") start
    ≡ handle_logs reads name_a start
logs_route = (handle_sandbox_get_sub reads b'a' [] start (omega arith)).0

restart_route : handle_sandbox_action api (prefix ++ name_a ++ slash ∷ codes "restart") start ≡ (
    if text_eq (codes "restart") (codes "restart") then handle_restart api name_a start else (
      record { code = 400; body = problem (codes "unknown action: ") (codes "restart") },
      start,
    ))
restart_route =
    handle_sandbox_action_lem api b'a' [] b'r' (codes "estart") start (omega arith) (omega arith)

two_paths :
    (extract_name (prefix ++ name_b) ≡ name_b)
    × (extract_name (prefix ++ name_b ++ slash ∷ []) ≡ name_b)
two_paths = extract_name_lem b'b' [] (omega arith)
