-- ===== src/Remote/Camera/Relayed.antt =====
-- The calls of a client of a `Camera` are those of the `Camera` that is served.
use viam_cpp_sdk.Prelude.{List, [], ◌∷◌, Bytes, finished, ◌≡◌, refl, ap}
use viam_cpp_sdk.Prelude.Double.{Double}
use viam_cpp_sdk.Remote.Int32.{IsInt32, signed-unsigned}
use viam_cpp_sdk.Prelude.{map}
use viam_cpp_sdk.Time.Laws.{time_from_proto-to_proto}
use viam_cpp_sdk.Remote.Laws.{
  invoke_with-service_helper, invoke_plain-service_helper, invoke_with_missing,
  invoke_plain_missing,
}
use viam_cpp_sdk.Remote.Shared.{
  IsRelayed, IsRefused, same, geometries_to_proto, geometries_from_proto, geometries_arrive,
  geometries_carried, do_command_relayed, get_status_relayed, extra_relayed,
}
use viam_cpp_sdk.Remote.Camera.{
  ImageCollection, PointCloud, Properties, GetPointCloud, images_to_proto, images_from_proto,
  image_to_proto, image_from_proto, RawImage, properties_to_proto, properties_from_proto,
  mime_type_pcd, as_pcd, do_command, get_images, get_point_cloud, get_geometries, get_properties,
  get_status, camera_server, camera_client, camera_component,
}

module _ (d : Double) (S : Type 0) where
  open d use {D}

  images_back : (l : List (RawImage d)) → map (image_from_proto d) (map (image_to_proto d) l) ≡ l
  images_back [] = refl
  images_back (x ∷ l) = ap (λ r. x ∷ r) (images_back l)

  collection_back : (a : ImageCollection d) → images_from_proto d (images_to_proto d a) ≡ a
  collection_back a = λ i. record {
    images = images_back a.images i;
    captured_at = time_from_proto-to_proto a.captured_at i;
  }

  properties_back :
      (a : Properties d)
      → IsInt32 a.intrinsic_parameters.width_px
      → IsInt32 a.intrinsic_parameters.height_px
      → properties_from_proto d (properties_to_proto d a) ≡ a
  properties_back a w h = λ i. record a {
    intrinsic_parameters = record a.intrinsic_parameters {
      width_px = signed-unsigned a.intrinsic_parameters.width_px w i;
      height_px = signed-unsigned a.intrinsic_parameters.height_px h i;
    };
  }

  pub camera-IsRelayed : IsRelayed (camera_component d S)
  unfolding camera_client camera_server
  camera-IsRelayed lookup name camera (do_command command) s found sent carried =
      do_command_relayed d lookup (λ x c. c (do_command x)) name command camera s found sent carried
  camera-IsRelayed lookup name camera (get_images filter_source_names extra) s found sent carried =
      invoke_with-service_helper lookup (images_to_proto d)
        (λ response. finished (images_from_proto d response)) same
        (λ (fields : List Bytes) e c. c (get_images fields e)) name extra filter_source_names camera
        s found sent (λ a f. ap finished (collection_back a))
  camera-IsRelayed lookup name camera (get_point_cloud mime_type extra) s found sent carried =
      invoke_with-service_helper lookup
        (λ (point_cloud : PointCloud d). record {
          mime_type = mime_type_pcd d;
          point_cloud = point_cloud.pc;
        })
        (λ (response : GetPointCloud d).
          finished (record { mime_type = response.mime_type; pc = response.point_cloud }))
        (as_pcd d) (λ (fields : Bytes) e c. c (get_point_cloud fields e)) name extra mime_type
        camera s found sent (λ a f. refl)
  camera-IsRelayed lookup name camera (get_geometries extra) s found sent carried =
      extra_relayed d (geometries_to_proto d) (geometries_from_proto d) (geometries_arrive d) lookup
        (λ e c. c (get_geometries e)) name extra camera s found sent (λ a f. geometries_carried d a)
  camera-IsRelayed lookup name camera get_properties s found sent carried =
      invoke_plain-service_helper D lookup (properties_to_proto d)
        (λ response. finished (properties_from_proto d response)) same
        (λ (_ : Unit {0}) _ c. c get_properties) name tt camera s found
        (λ a f. ap finished (properties_back a (carried a f).0 (carried a f).1))
  camera-IsRelayed lookup name camera get_status s found sent carried =
      get_status_relayed d lookup (λ c. c get_status) name camera s found carried

  pub camera-IsRefused : IsRefused (camera_component d S)
  unfolding camera_client camera_server
  camera-IsRefused lookup name (do_command command) s missing sent =
      invoke_plain_missing lookup _ _ name _ s missing
  camera-IsRefused lookup name (get_images filter_source_names extra) s missing sent =
      invoke_with_missing lookup _ _ name extra _ s missing sent
  camera-IsRefused lookup name (get_point_cloud mime_type extra) s missing sent =
      invoke_with_missing lookup _ _ name extra _ s missing sent
  camera-IsRefused lookup name (get_geometries extra) s missing sent =
      invoke_with_missing lookup _ _ name extra _ s missing sent
  camera-IsRefused lookup name get_properties s missing sent =
      invoke_plain_missing lookup _ _ name _ s missing
  camera-IsRefused lookup name get_status s missing sent =
      invoke_plain_missing lookup _ _ name _ s missing
