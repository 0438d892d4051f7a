-- ===== src/Remote/Motion/Carried.antt =====
-- What the requests of the motion service carry comes back, and the plans that its responses carry.
use viam_cpp_sdk.Prelude.{
  List, Bytes, Option, none, some, Outcome, finished, thrown, crashed, ◌≡◌, Result, ok, refl, ap,
  ◌∙◌,
}
use viam_cpp_sdk.Prelude.Double.{Double}
use viam_cpp_sdk.Proto.{ProtoStruct}
use viam_cpp_sdk.Prelude.{map, subst}
use viam_cpp_sdk.Spatial.Convert.{
  to_repeated_field, from_repeated_field, from_repeated_field-to_repeated_field,
}
use viam_cpp_sdk.Spatial.WorldState as World
use viam_cpp_sdk.Spatial.WorldState.{WorldState, world_state-from_proto-to_proto}
use viam_cpp_sdk.Remote.MotionRequests.{
  MotionConfiguration, configuration_to_proto, configuration_from_proto, configuration_back,
}
use viam_cpp_sdk.Remote.MotionPlans.{PlanWithStatus, AreMaps, plan_with_status_back, history_back}
use viam_cpp_sdk.Remote.{set_response}
use viam_cpp_sdk.Remote.{service_helper, get_extra, invoke_with, responds, relay, relayed}
use viam_cpp_sdk.Remote.Laws.{IsSendable, invoke_with-service_helper}
use viam_cpp_sdk.Remote.Shared.{same}
use viam_cpp_sdk.Remote.Motion.{
  GetPlan, Plans, if_there, world_from, IsPlainWorld, AreSettled, ArePlans, plans_to_proto,
  plans_from_proto, alone, first, plan_of, Motion,
}

module _ (d : Double) (S : Type 0) where
  open d use {D}

  pub there_and_back :
      {A B : Type 0} (f : A → B) (g : B → A)
      → ((a : A) → g (f a) ≡ a)
      → (o : Option A) → if_there d g (if_there d f o) ≡ o
  there_and_back f g h none = refl
  there_and_back f g h (some a) = ap some (h a)

  pub settled_back :
      (mc : Option (MotionConfiguration d))
      → AreSettled d mc
      → if_there d (configuration_from_proto d) (if_there d (configuration_to_proto d) mc) ≡ mc
  settled_back none h = refl
  settled_back (some mc) h = ap some (configuration_back d mc h)

  pub world_back :
      (o : Option (WorldState d))
      → IsPlainWorld d o
      → world_from d (if_there d (World.to_proto d) o) ≡ ok o
  world_back none h = refl
  world_back (some w) h =
      rw (world_state-from_proto-to_proto d w)
        (λ i. ok (some (record { obstacles = h.0 i; transforms = h.1 i })))

  -- A vector of elements that come back as they are.
  pub plain_back :
      {A B : Type 0} (t : A → B) (r : B → Result A) (f : A → A)
      → ((a : A) → r (t a) ≡ ok (f a))
      → (l : List A) → map f l ≡ l
      → from_repeated_field r (to_repeated_field t l) ≡ ok l
  plain_back t r f h l e = from_repeated_field-to_repeated_field t r f h l ∙ ap ok e

  plans_back : (a : Plans d) → ArePlans d a → plans_from_proto d (plans_to_proto d a) ≡ finished a
  plans_back a h = rw (plan_with_status_back d a.0 h.0, history_back d a.1 h.1) refl

  abbrev IsFine : Outcome (Plans d) → Type 0
  IsFine (finished a) = ArePlans d a
  IsFine (thrown _) = Unit
  IsFine crashed = Unit

  pub alone_fine :
      (r : S × Outcome (PlanWithStatus d))
      → ((p : PlanWithStatus d) → r.1 ≡ finished p → AreMaps d p.plan.steps)
      → (a : Plans d) → (set_response (alone d) r).1 ≡ finished a
      → ArePlans d a
  alone_fine (s, finished p) h a f = subst IsFine f (h p refl, tt)
  alone_fine (s, thrown e) h a f = subst IsFine f tt
  alone_fine (s, crashed) h a f = subst IsFine f tt

  pub first-alone :
      (r : S × Outcome (PlanWithStatus d))
      → set_response
          (first d)
          ((set_response (alone d) r).0, relayed same (set_response (alone d) r).1)
        ≡ (r.0, relayed same r.1)
  first-alone (s, finished p) = refl
  first-alone (s, thrown e) = refl
  first-alone (s, crashed) = refl

  pub plans_relayed :
      (lookup : Bytes → Option (Motion d S)) (name : Bytes) (extra : ProtoStruct D)
      (fields : GetPlan d) (motion : Motion d S) (s : S)
      → lookup name ≡ some motion
      → IsSendable extra
      → ((a : Plans d) → (plan_of d S fields extra motion s).1 ≡ finished a → ArePlans d a)
      → invoke_with
          (service_helper lookup (λ request c.
            responds (plans_to_proto d) (plan_of d S request.fields (get_extra request) c)))
          name
          extra
          fields
          (plans_from_proto d)
          s
        ≡ relay same (plan_of d S fields extra motion) s
  plans_relayed lookup name extra fields motion s found sent fine =
      invoke_with-service_helper lookup (plans_to_proto d) (plans_from_proto d) same (plan_of d S)
        name extra fields motion s found sent (λ a f. plans_back a (fine a f))
