-- ===== src/Service/Health.antt =====
-- src/health_impl.cc: the health service. Its lock makes each method one step.
pub mod Refinement
use argusd.Base.{
  Bool, true, false, not, Option, none, some, List, [], ◌∷◌, Text, str_eq, if◌then◌else◌,
}

-- `HealthCheckResponse::ServingStatus`, of a generated message.
pub data ServingStatus : Type 0 where
  unknown serving not_serving : ServingStatus

-- `std::map<const grpc::string, ServingStatus>`, with one entry for each key.
abbrev pub Statuses : Type 0
Statuses = List (Text × ServingStatus)

-- `statuses_.find(service)`
unfoldable pub find_status : Statuses → Text → Option ServingStatus
find_status [] service = none
find_status ((key, status) ∷ rest) service =
    let later = find_status rest service in if str_eq key service then some status else later

-- `statuses_[service] = status`
unfoldable pub assign_status : Text → ServingStatus → Statuses → Statuses
assign_status service status [] = (service, status) ∷ []
assign_status service status ((key, old) ∷ rest) =
    let later = (key, old) ∷ assign_status service status rest in
    if str_eq key service then (key, status) ∷ rest else later

-- `statuses_.erase(service)`
unfoldable pub erase_status : Text → Statuses → Statuses
erase_status service [] = []
erase_status service ((key, status) ∷ rest) =
    let later = erase_status service rest in
    if str_eq key service then rest else (key, status) ∷ later

-- The result of `Check`: OK with a status, or NOT_FOUND.
pub data Checked : Type 0 where
  ok : ServingStatus → Checked
  not_found : Checked

-- `Check`
unfoldable pub check : Text → Statuses → Checked
unfolding find_status
check [] statuses = ok serving
check (c ∷ service) statuses = elim (find_status statuses (c ∷ service)) [
  | none ↦ not_found
  | some status ↦ ok status
]

-- `SetStatus`
unfoldable pub set_status : Text → ServingStatus → Statuses → Statuses
unfolding assign_status
set_status service status statuses = assign_status service status statuses

-- The loop of `SetAll`, whose `iter` is a copy of the entry: the entry stays as it is.
unfoldable pub set_copies : ServingStatus → Statuses → Statuses
set_copies status [] = []
set_copies status ((key, old) ∷ rest) =
    let iter : Text × ServingStatus = (key, old) in
    let copy : Text × ServingStatus = (iter.0, status) in iter ∷ set_copies status rest

-- `SetAll`
unfoldable pub set_all : ServingStatus → Statuses → Statuses
unfolding set_copies
set_all status statuses = set_copies status statuses

-- `ClearStatus`
unfoldable pub clear_status : Text → Statuses → Statuses
unfolding erase_status
clear_status service statuses = erase_status service statuses

-- `ClearAll`
unfoldable pub clear_all : Statuses → Statuses
clear_all statuses = []
