-- ===== src/Monitoring/Health.antt =====
-- The roll-up of src/monitoring/health_status.cpp against a reading of it by components.
use wall.Monitoring.{
  HealthStatus, RuntimeComponent, RuntimeHealthStatus, component_index, degraded, get_at,
  get_status, healthy, overall_status, roll_up, set_at, set_status, unavailable, unknown,
}
use wall.Prelude.{
  Bool, List, [], arith, false, if◌then◌else◌, length, refl, suc, true, zero, ℕ, ◌<◌, ◌==◌, ◌||◌,
  ◌∷◌, ◌≡◌,
}

-- Whether some status of a list is the given one.
abbrev pub same_health : HealthStatus → HealthStatus → Bool
same_health unknown unknown = true
same_health healthy healthy = true
same_health degraded degraded = true
same_health unavailable unavailable = true
same_health _ _ = false

abbrev pub some_is : HealthStatus → List HealthStatus → Bool
some_is s [] = false
some_is s (x ∷ xs) = same_health x s || some_is s xs

abbrev pub worst_of : Bool → Bool → Bool → HealthStatus
worst_of has_unavailable has_degraded has_unknown =
    if has_unavailable
    then unavailable
    else if has_degraded
    then degraded
    else if has_unknown
    then unknown
    else healthy

roll_up_lem :
    (ss : List HealthStatus) (u d : Bool)
    → roll_up ss u d
      ≡ worst_of (some_is unavailable ss) (d || some_is degraded ss) (u || some_is unknown ss)
unfolding roll_up
roll_up_lem [] u d = ground arith
roll_up_lem (unavailable ∷ ss) u d = refl
roll_up_lem (degraded ∷ ss) u d = ground (arith, roll_up_lem ss u true)
roll_up_lem (unknown ∷ ss) u d = ground (arith, roll_up_lem ss true d)
roll_up_lem (healthy ∷ ss) u d = ground (arith, roll_up_lem ss u d)

-- The overall status is unavailable when some component is, else degraded when some component is,
-- else unknown when some component is, else healthy.
pub overall_status_lem :
    (h : RuntimeHealthStatus)
    → overall_status h
      ≡ worst_of
          (some_is unavailable h.component_statuses)
          (some_is degraded h.component_statuses)
          (some_is unknown h.component_statuses)
unfolding overall_status
overall_status_lem h = ground (arith, roll_up_lem h.component_statuses false false)

get_at-set_at :
    (i j : ℕ) (s : HealthStatus) (ss : List HealthStatus)
    → i < length ss
    → get_at j (set_at i s ss) ≡ (if i == j then s else get_at j ss)
get_at-set_at i j s [] l = ground arith
get_at-set_at zero zero s (x ∷ ss) l = ground arith
get_at-set_at zero (suc j) s (x ∷ ss) l = ground arith
get_at-set_at (suc i) zero s (x ∷ ss) l = ground arith
get_at-set_at (suc i) (suc j) s (x ∷ ss) l =
    ground (arith, get_at-set_at i j s ss (omega (arith, l)))

component_index_bound : (c : RuntimeComponent) → component_index c < 4
component_index_bound c = ground arith

-- As long as there is a slot for each of the four components, the status of a component is the
-- one that was set last, and no other component's status changes.
pub get_status-set_status :
    (h : RuntimeHealthStatus) (c e : RuntimeComponent) (s : HealthStatus)
    → length h.component_statuses ≡ 4
    → get_status (set_status h c s) e
      ≡ (if component_index c == component_index e then s else get_status h e)
unfolding get_status set_status
get_status-set_status h c e s l =
    get_at-set_at (component_index c) (component_index e) s h.component_statuses
      (omega (arith, l, component_index_bound c))
