-- ===== src/Manager/Effects.antt =====
-- What single calls of the manager do.
use viam_cpp_sdk.Prelude.{Bytes, Bytes-discrete, none, some, ok, err, Error, ◌≡◌, ◌≢◌, refl, arith}
use viam_cpp_sdk.Prelude.Dict.{find-emplace, find-erase}
use viam_cpp_sdk.Split.{Splitter}
use viam_cpp_sdk.Names.Name.{Name, short_name}
use viam_cpp_sdk.Manager.{
  Manager, resource, find_resource, do_add_short, add_short, do_remove, remove, replace_one,
}

module _ {R : Type 0} (b : Splitter) where
  -- A resource is found where it was added under a free name.
  pub add_short-resource :
      (n : Bytes) (r : R) (m : Manager R)
      → find_resource n m.resources ≡ none
      → (m' : Manager R) × (add_short b n r m ≡ ok m') × (resource n m' ≡ some r)
  unfolding do_add_short resource add_short
  add_short-resource n r m e =
      rw (e, add_short, do_add_short)
        (_, refl, ground (arith, e, find-emplace Bytes-discrete n n r m.resources))

  -- The manager takes a name in full, where the search also takes a shortcut.
  pub remove_absent :
      (n : Name) (m : Manager R)
      → find_resource (short_name n) m.resources ≡ none
      → remove b n m ≡ m
  unfolding remove do_remove
  remove_absent n m e = ground (arith, e)

  -- The old resource is gone where the new one is not made.
  pub replace_one_failed :
      (n : Name) (e : Error) (m : Manager R) → replace_one b n (err e) m ≡ remove b n m
  unfolding replace_one remove do_remove
  replace_one_failed n e m = ground arith

  -- Nothing stands under a name that was removed, and every other name has what it had.
  pub remove-resources :
      (n : Name) (m : Manager R)
      → (find_resource (short_name n) (remove b n m).resources ≡ none)
        × ((k : Bytes)
            → k ≢ short_name n
            → find_resource k (remove b n m).resources ≡ find_resource k m.resources)
  unfolding remove do_remove
  remove-resources n m = (
    ground (arith, find-erase Bytes-discrete (short_name n) (short_name n) m.resources),
    λ k ne. ground (arith, find-erase Bytes-discrete (short_name n) k m.resources),
  )
