-- ===== src/Remote/MotionPlans.antt =====
-- What responses of the motion service carry: plans and their states, of services/motion.hpp, with
-- their messages in services/private/motion_server.cpp and services/private/motion_client.cpp.
use viam_cpp_sdk.Prelude.{
  List, [], ◌∷◌, map, Bytes, Option, none, some, Result, ok, err, exception, k_not_supported, ◌>>=◌,
  ◌≡◌, refl,
}
use viam_cpp_sdk.Prelude.Int.{ℤ, pos}
use viam_cpp_sdk.Prelude.Dict.{Dict}
use viam_cpp_sdk.Prelude.Double.{Double}
use viam_cpp_sdk.Time.{Seconds, time_to_proto, time_from_proto}
use viam_cpp_sdk.Time.Laws.{time_from_proto-to_proto}
use viam_cpp_sdk.Spatial.Geometry.{
  Pose, PoseMessage, pose_to_proto, pose_from_proto, pose_or_default,
}
use viam_cpp_sdk.Remote.Maps.{insert_all, insert_all_back, IsMap}

-- `plan_state`.
pub data PlanState : Type 0 where
  k_in_progress k_stopped k_succeeded k_failed : PlanState

pub data PlanStateMessage : Type 0 where
  plan_state_unspecified plan_state_in_progress plan_state_stopped plan_state_succeeded
        plan_state_failed :
      PlanStateMessage
  other_plan_state : ℤ → PlanStateMessage

pub record PlanStatus : Type 0 where
  pub state : PlanState
  pub timestamp : ℤ
  pub reason : Option Bytes

pub record PlanStatusWithId : Type 0 where
  pub plan_id : Bytes
  pub component_name : Bytes
  pub execution_id : Bytes
  pub status : PlanStatus

pub record PlanStatusMessage : Type 0 where
  pub state : PlanStateMessage
  pub timestamp : Option Seconds
  pub reason : Option Bytes

pub record PlanStatusWithIdMessage : Type 0 where
  pub plan_id : Bytes
  pub component_name : Bytes
  pub execution_id : Bytes
  pub status : Option PlanStatusMessage

abbrev pub state_to_proto : PlanState → PlanStateMessage
state_to_proto k_failed = plan_state_failed
state_to_proto k_succeeded = plan_state_succeeded
state_to_proto k_in_progress = plan_state_in_progress
state_to_proto k_stopped = plan_state_stopped

abbrev pub state_from_proto : PlanStateMessage → Result PlanState
state_from_proto plan_state_failed = ok k_failed
state_from_proto plan_state_succeeded = ok k_succeeded
state_from_proto plan_state_in_progress = ok k_in_progress
state_from_proto plan_state_stopped = ok k_stopped
state_from_proto _ = err (exception k_not_supported)

abbrev pub copy_reason : Option Bytes → Option Bytes
copy_reason none = none
copy_reason (some reason) = some reason

abbrev pub status_to_proto : PlanStatus → PlanStatusMessage
status_to_proto ps = record {
  state = state_to_proto ps.state;
  timestamp = some (time_to_proto ps.timestamp);
  reason = copy_reason ps.reason;
}

-- Messages that are not there are read as the default ones.
abbrev pub seconds_or_default : Option Seconds → Seconds
seconds_or_default none = record { seconds = pos 0; nanos = pos 0 }
seconds_or_default (some t) = t

abbrev pub status_or_default : Option PlanStatusMessage → PlanStatusMessage
status_or_default none = record { state = plan_state_unspecified; timestamp = none; reason = none }
status_or_default (some proto) = proto

abbrev pub status_from_proto : PlanStatusMessage → Result PlanStatus
status_from_proto proto = do
  state ← state_from_proto proto.state
  ok (record {
    state = state;
    timestamp = time_from_proto (seconds_or_default proto.timestamp);
    reason = copy_reason proto.reason;
  })

abbrev pub status_with_id_to_proto : PlanStatusWithId → PlanStatusWithIdMessage
status_with_id_to_proto pswi = record {
  plan_id = pswi.plan_id;
  component_name = pswi.component_name;
  execution_id = pswi.execution_id;
  status = some (status_to_proto pswi.status);
}

abbrev pub status_with_id_from_proto : PlanStatusWithIdMessage → Result PlanStatusWithId
status_with_id_from_proto proto = do
  status ← status_from_proto (status_or_default proto.status)
  ok (record {
    plan_id = proto.plan_id;
    component_name = proto.component_name;
    execution_id = proto.execution_id;
    status = status;
  })

-- The loops that fill a repeated field and that read it.
abbrev pub all_from_proto : {A B : Type 0} → (B → Result A) → List B → Result (List A)
all_from_proto f [] = ok []
all_from_proto f (x ∷ l) = do a ← f x; rest ← all_from_proto f l; ok (a ∷ rest)

state_back : (s : PlanState) → state_from_proto (state_to_proto s) ≡ ok s
state_back k_failed = refl
state_back k_succeeded = refl
state_back k_in_progress = refl
state_back k_stopped = refl

reason_back : (r : Option Bytes) → copy_reason (copy_reason r) ≡ r
reason_back none = refl
reason_back (some reason) = refl

pub status_back : (ps : PlanStatus) → status_from_proto (status_to_proto ps) ≡ ok ps
status_back ps =
    rw (state_back ps.state, reason_back ps.reason, time_from_proto-to_proto ps.timestamp) refl

pub status_with_id_back :
    (s : PlanStatusWithId) → status_with_id_from_proto (status_with_id_to_proto s) ≡ ok s
status_with_id_back s = rw (status_back s.status) refl

pub all_back :
    {A B : Type 0} (f : A → B) (g : B → Result A)
    → ((a : A) → g (f a) ≡ ok a)
    → (l : List A) → all_from_proto g (map f l) ≡ ok l
all_back f g h [] = refl
all_back f g h (x ∷ l) = rw (h x, all_back f g h l) refl

module _ (d : Double) where
  -- `step`: the poses of components.
  abbrev pub Step : Type 0
  Step = Dict Bytes (Pose d)

  pub record Plan : Type 0 where
    pub id : Bytes
    pub component_name : Bytes
    pub execution_id : Bytes
    pub steps : List Step

  pub record PlanWithStatus : Type 0 where
    pub plan : Plan
    pub status : PlanStatus
    pub status_history : List PlanStatus

  pub record ComponentState : Type 0 where
    pub pose : Option (PoseMessage d)

  -- A message `PlanStep` is its map.
  pub record PlanMessage : Type 0 where
    pub id : Bytes
    pub component_name : Bytes
    pub execution_id : Bytes
    pub steps : List (Dict Bytes ComponentState)

  pub record PlanWithStatusMessage : Type 0 where
    pub plan : Option PlanMessage
    pub status : Option PlanStatusMessage
    pub status_history : List PlanStatusMessage

  abbrev pub component_state_to_proto : Pose d → ComponentState
  component_state_to_proto p = record { pose = some (pose_to_proto d p) }

  abbrev pub component_state_from_proto : ComponentState → Pose d
  component_state_from_proto cs = pose_from_proto d (pose_or_default d cs.pose)

  abbrev pub step_to_proto : Step → Dict Bytes ComponentState
  step_to_proto step = insert_all component_state_to_proto step []

  abbrev pub step_from_proto : Dict Bytes ComponentState → Step
  step_from_proto proto = insert_all component_state_from_proto proto []

  abbrev pub plan_to_proto : Plan → PlanMessage
  plan_to_proto plan = record {
    id = plan.id;
    component_name = plan.component_name;
    execution_id = plan.execution_id;
    steps = map step_to_proto plan.steps;
  }

  abbrev pub plan_or_default : Option PlanMessage → PlanMessage
  plan_or_default none = record { id = []; component_name = []; execution_id = []; steps = [] }
  plan_or_default (some proto) = proto

  abbrev pub plan_from_proto : PlanMessage → Plan
  plan_from_proto proto = record {
    id = proto.id;
    component_name = proto.component_name;
    execution_id = proto.execution_id;
    steps = map step_from_proto proto.steps;
  }

  abbrev pub plan_with_status_to_proto : PlanWithStatus → PlanWithStatusMessage
  plan_with_status_to_proto pws = record {
    plan = some (plan_to_proto pws.plan);
    status = some (status_to_proto pws.status);
    status_history = map status_to_proto pws.status_history;
  }

  abbrev pub plan_with_status_from_proto : PlanWithStatusMessage → Result PlanWithStatus
  plan_with_status_from_proto proto = do
    status ← status_from_proto (status_or_default proto.status)
    status_history ← all_from_proto status_from_proto proto.status_history
    ok (record {
      plan = plan_from_proto (plan_or_default proto.plan);
      status = status;
      status_history = status_history;
    })

  -- Each step has a component once.
  abbrev pub AreMaps : List Step → Type 0
  AreMaps [] = Unit
  AreMaps (s ∷ l) = IsMap s × AreMaps l

  steps_back : (l : List Step) → AreMaps l → map step_from_proto (map step_to_proto l) ≡ l
  steps_back [] h = refl
  steps_back (s ∷ l) h = λ i.
      insert_all_back component_state_to_proto component_state_from_proto (λ _. refl) s h.0 i
      ∷ steps_back l h.1 i

  pub plan_with_status_back :
      (p : PlanWithStatus)
      → AreMaps p.plan.steps
      → plan_with_status_from_proto (plan_with_status_to_proto p) ≡ ok p
  plan_with_status_back p h =
      rw
        (
          status_back p.status,
          all_back status_to_proto status_from_proto status_back p.status_history,
          steps_back p.plan.steps h,
        )
        refl

  -- Each plan of a history is such.
  abbrev pub AllAreMaps : List PlanWithStatus → Type 0
  AllAreMaps [] = Unit
  AllAreMaps (p ∷ l) = AreMaps p.plan.steps × AllAreMaps l

  pub history_back :
      (l : List PlanWithStatus)
      → AllAreMaps l
      → all_from_proto plan_with_status_from_proto (map plan_with_status_to_proto l) ≡ ok l
  history_back [] h = refl
  history_back (p ∷ l) h = rw (plan_with_status_back p h.0, history_back l h.1) refl
