-- ===== src/Remote/Classes.antt =====
-- The components that are served and called over gRPC, and what a client's call does to a resource that
-- the resource manager of the server holds.
use viam_cpp_sdk.Prelude.{Bytes, Option, none, some, exception, k_grpc, finished, thrown, ◌≡◌}
use viam_cpp_sdk.Prelude.Double.{Double}
use viam_cpp_sdk.Manager.{Manager}
use viam_cpp_sdk.Remote.{relay, resource_as}
use viam_cpp_sdk.Remote.Shared.{Component, Object, IsRelayed, IsRefused}
use viam_cpp_sdk.Remote.Arm.{arm_component}
use viam_cpp_sdk.Remote.Arm.Relayed.{arm-IsRelayed, arm-IsRefused}
use viam_cpp_sdk.Remote.AudioOut.{audio_out_component}
use viam_cpp_sdk.Remote.AudioOut.Relayed.{audio_out-IsRelayed, audio_out-IsRefused}
use viam_cpp_sdk.Remote.Camera.{camera_component}
use viam_cpp_sdk.Remote.Camera.Relayed.{camera-IsRelayed, camera-IsRefused}
use viam_cpp_sdk.Remote.GenericService.{generic_service_component}
use viam_cpp_sdk.Remote.GenericService.Relayed.{
  generic_service-IsRelayed, generic_service-IsRefused,
}
use viam_cpp_sdk.Remote.Base.{base_component}
use viam_cpp_sdk.Remote.Base.Relayed.{base-IsRelayed, base-IsRefused}
use viam_cpp_sdk.Remote.Button.{button_component}
use viam_cpp_sdk.Remote.Button.Relayed.{button-IsRelayed, button-IsRefused}
use viam_cpp_sdk.Remote.Encoder.{encoder_component}
use viam_cpp_sdk.Remote.Encoder.Relayed.{encoder-IsRelayed, encoder-IsRefused}
use viam_cpp_sdk.Remote.Gantry.{gantry_component}
use viam_cpp_sdk.Remote.Gantry.Relayed.{gantry-IsRelayed, gantry-IsRefused}
use viam_cpp_sdk.Remote.Generic.{generic_component}
use viam_cpp_sdk.Remote.Generic.Relayed.{generic-IsRelayed, generic-IsRefused}
use viam_cpp_sdk.Remote.Gripper.{gripper_component}
use viam_cpp_sdk.Remote.Gripper.Relayed.{gripper-IsRelayed, gripper-IsRefused}
use viam_cpp_sdk.Remote.Motion.{motion_component}
use viam_cpp_sdk.Remote.Motion.Relayed.{motion-IsRelayed, motion-IsRefused}
use viam_cpp_sdk.Remote.Motor.{motor_component}
use viam_cpp_sdk.Remote.Motor.Relayed.{motor-IsRelayed, motor-IsRefused}
use viam_cpp_sdk.Remote.MovementSensor.{movement_sensor_component}
use viam_cpp_sdk.Remote.MovementSensor.Relayed.{
  movement_sensor-IsRelayed, movement_sensor-IsRefused,
}
use viam_cpp_sdk.Remote.PoseTracker.{pose_tracker_component}
use viam_cpp_sdk.Remote.PoseTracker.Relayed.{pose_tracker-IsRelayed, pose_tracker-IsRefused}
use viam_cpp_sdk.Remote.PowerSensor.{power_sensor_component}
use viam_cpp_sdk.Remote.PowerSensor.Relayed.{power_sensor-IsRelayed, power_sensor-IsRefused}
use viam_cpp_sdk.Remote.Sensor.{sensor_component}
use viam_cpp_sdk.Remote.Sensor.Relayed.{sensor-IsRelayed, sensor-IsRefused}
use viam_cpp_sdk.Remote.Servo.{servo_component}
use viam_cpp_sdk.Remote.Servo.Relayed.{servo-IsRelayed, servo-IsRefused}
use viam_cpp_sdk.Remote.Switch.{switch_component}
use viam_cpp_sdk.Remote.Switch.Relayed.{switch-IsRelayed, switch-IsRefused}

pub data ClassName : Type 0 where
  arm audio_out base button camera encoder gantry generic generic_service gripper motion : ClassName
  motor movement_sensor pose_tracker power_sensor sensor servo switch : ClassName

module _ (d : Double) (S : Type 0) where
  abbrev pub class_of : ClassName → Component S
  class_of arm = arm_component d S
  class_of audio_out = audio_out_component d S
  class_of camera = camera_component d S
  class_of generic_service = generic_service_component d S
  class_of base = base_component d S
  class_of button = button_component d S
  class_of encoder = encoder_component d S
  class_of gantry = gantry_component d S
  class_of generic = generic_component d S
  class_of gripper = gripper_component d S
  class_of motion = motion_component d S
  class_of motor = motor_component d S
  class_of movement_sensor = movement_sensor_component d S
  class_of pose_tracker = pose_tracker_component d S
  class_of power_sensor = power_sensor_component d S
  class_of sensor = sensor_component d S
  class_of servo = servo_component d S
  class_of switch = switch_component d S

  class_of-IsRelayed : (class : ClassName) → IsRelayed (class_of class)
  class_of-IsRelayed arm = arm-IsRelayed d S
  class_of-IsRelayed audio_out = audio_out-IsRelayed d S
  class_of-IsRelayed camera = camera-IsRelayed d S
  class_of-IsRelayed generic_service = generic_service-IsRelayed d S
  class_of-IsRelayed base = base-IsRelayed d S
  class_of-IsRelayed button = button-IsRelayed d S
  class_of-IsRelayed encoder = encoder-IsRelayed d S
  class_of-IsRelayed gantry = gantry-IsRelayed d S
  class_of-IsRelayed generic = generic-IsRelayed d S
  class_of-IsRelayed gripper = gripper-IsRelayed d S
  class_of-IsRelayed motion = motion-IsRelayed d S
  class_of-IsRelayed motor = motor-IsRelayed d S
  class_of-IsRelayed movement_sensor = movement_sensor-IsRelayed d S
  class_of-IsRelayed pose_tracker = pose_tracker-IsRelayed d S
  class_of-IsRelayed power_sensor = power_sensor-IsRelayed d S
  class_of-IsRelayed sensor = sensor-IsRelayed d S
  class_of-IsRelayed servo = servo-IsRelayed d S
  class_of-IsRelayed switch = switch-IsRelayed d S

  class_of-IsRefused : (class : ClassName) → IsRefused (class_of class)
  class_of-IsRefused arm = arm-IsRefused d S
  class_of-IsRefused audio_out = audio_out-IsRefused d S
  class_of-IsRefused camera = camera-IsRefused d S
  class_of-IsRefused generic_service = generic_service-IsRefused d S
  class_of-IsRefused base = base-IsRefused d S
  class_of-IsRefused button = button-IsRefused d S
  class_of-IsRefused encoder = encoder-IsRefused d S
  class_of-IsRefused gantry = gantry-IsRefused d S
  class_of-IsRefused generic = generic-IsRefused d S
  class_of-IsRefused gripper = gripper-IsRefused d S
  class_of-IsRefused motion = motion-IsRefused d S
  class_of-IsRefused motor = motor-IsRefused d S
  class_of-IsRefused movement_sensor = movement_sensor-IsRefused d S
  class_of-IsRefused pose_tracker = pose_tracker-IsRefused d S
  class_of-IsRefused power_sensor = power_sensor-IsRefused d S
  class_of-IsRefused sensor = sensor-IsRefused d S
  class_of-IsRefused servo = servo-IsRefused d S
  class_of-IsRefused switch = switch-IsRefused d S

  -- Where a component is in the manager of a server under a name, a client's call of a method of its
  -- class is the call of the component itself, with the same arguments: it changes the state in the
  -- same way, and gives what the component returns, or an exception of the kind `k_grpc` if the
  -- component throws. The methods are all virtual methods of the class but `get_kinematic_model` and
  -- `get_kinematics` of arm and gantry, `move_through_joint_positions_streamed` of arm and
  -- `play_stream` of audio out. Of what is returned, geometries lose their orientations, and the type of a point
  -- cloud becomes that of PCD. The arguments are ones that a request carries (`IsSent`): maps with each
  -- key once, a text under the key for debugging, if any, no extra parameters of `get_poses` and
  -- `get_plan`, no empty list of limits for joints, seconds of 32 bits, no NaN and no orientations of
  -- geometries for the motion service. The value returned is one that a response carries
  -- (`IsCarried`): maps with each key once, a width and a height of 32 bits, and as many labels of a
  -- switch as positions, or none.
  pub remote_call :
      {R : Type 0} (class : ClassName) (cast : R → Option (Object (class_of class)))
      (manager : Manager R) (name : Bytes) (component : Object (class_of class))
      (m : (class_of class).Method) (s : S)
      → resource_as cast manager name ≡ some component
      → (class_of class).IsSent m
      → ((a : (class_of class).Answer m)
          → (component m s).1 ≡ finished a
          → (class_of class).IsCarried m a)
      → (class_of class).client name ((class_of class).server (resource_as cast manager)) m s
        ≡ relay ((class_of class).arrives m) (component m) s
  remote_call class cast manager name component m s found sent carried =
      class_of-IsRelayed class (resource_as cast manager) name component m s found sent carried

  -- Where no component of the class is in the manager under the name, a client's call of one of
  -- these methods throws an exception of the kind `k_grpc` and changes no state, if its arguments can be sent.
  pub remote_call_missing :
      {R : Type 0} (class : ClassName) (cast : R → Option (Object (class_of class)))
      (manager : Manager R) (name : Bytes) (m : (class_of class).Method) (s : S)
      → resource_as cast manager name ≡ none
      → (class_of class).IsSent m
      → (class_of class).client name ((class_of class).server (resource_as cast manager)) m s
        ≡ (s, thrown (exception k_grpc))
  remote_call_missing class cast manager name m s missing sent =
      class_of-IsRefused class (resource_as cast manager) name m s missing sent
