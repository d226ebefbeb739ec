-- ===== src/Scheduler/Roles.antt =====
-- The priority that a key's roles give its jobs.
use agent_gpu.Prelude.{
  String, contains, ◌≡◌, refl, arith, if◌then◌else◌, List, [], ◌∷◌, ltb, ◌≤◌, ◌&&◌,
}
use agent_gpu.Authz.{role_admin, role_user}
use agent_gpu.Queue.{Priority, priority_low, priority_normal, priority_high}
use agent_gpu.Scheduler.{raise, priority_for_roles}

raise-contains :
    (best : Priority) (roles : List String)
    → best ≤ priority_high
    → raise best roles ≡ (
        if contains roles role_admin
        then priority_high
        else if contains roles role_user && ltb best priority_normal
        then priority_normal
        else best)
unfolding raise contains
raise-contains best [] h = refl
raise-contains best (r ∷ roles) h = ground (
  arith,
  raise-contains best roles h,
  raise-contains priority_high roles (omega arith),
  raise-contains priority_normal roles (omega arith),
)

-- The highest role that the key holds gives the priority, wherever it stands in the list.
pub priority_for_roles-contains :
    (roles : List String)
    → priority_for_roles roles ≡ (
        if contains roles role_admin
        then priority_high
        else if contains roles role_user
        then priority_normal
        else priority_low)
unfolding priority_for_roles
priority_for_roles-contains roles = ground (arith, raise-contains priority_low roles (omega arith))
