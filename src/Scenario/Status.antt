-- ===== src/Scenario/Status.antt =====
-- app/sandbox/main.go: the text of the page /_sandbox/status.
use gke_quick_prototype.Prelude.{
  ℕ, ◌+◌, ◌/◌, ◌%◌, Bool, true, false, Option, none, some, [], ◌∷◌, ◌++◌,
}
use gke_quick_prototype.Prelude.Text.{Text, codes}
use gke_quick_prototype.Workload.{Tier, light_tier, medium_tier, heavy_tier}
use gke_quick_prototype.Scenario.{Phase, unset, idle, download, disk, load, SandboxState, get_state}

abbrev pub phase_text : Phase → Text
phase_text unset = []
phase_text idle = codes "idle"
phase_text download = codes "download"
phase_text disk = codes "disk"
phase_text load = codes "load"

abbrev pub tier_text : Option Tier → Text
tier_text none = []
tier_text (some light_tier) = codes "light"
tier_text (some medium_tier) = codes "medium"
tier_text (some heavy_tier) = codes "heavy"

-- %.2f of a duty cycle, which is in percent here and below ten
abbrev pub duty_text : ℕ → Text
duty_text n = (b'0' + n / 100) ∷ b'.' ∷ (b'0' + n / 10 % 10) ∷ (b'0' + n % 10) ∷ []

abbrev pub bool_text : Bool → Text
bool_text true = codes "true"
bool_text false = codes "false"

abbrev quoted : Text → Text → Text
quoted s rest = b'"' ∷ s ++ b'"' ∷ rest

unfoldable pub status_page : Text → SandboxState → Text
status_page pod_name s =
    let (phase, tier, duty, ws_conn) = get_state s in
    codes "{\"status\":\"ok\",\"ready\":true,\"pod\":"
    ++ quoted pod_name (
        codes ",\"phase\":"
        ++ quoted (phase_text phase) (
            codes ",\"cpuTier\":"
            ++ quoted (tier_text tier) (
                codes ",\"dutyPct\":"
                ++ duty_text duty
                ++ codes ",\"wsConnected\":"
                ++ bool_text ws_conn
                ++ codes "}")))
