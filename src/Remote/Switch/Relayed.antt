-- ===== src/Remote/Switch/Relayed.antt =====
-- The calls of a client of a `Switch` are those of the `Switch` that is served.
use viam_cpp_sdk.Prelude.{
  Bool, true, Outcome, finished, thrown, crashed, ◌≡◌, ℕ, refl, sym, ap, ◌∙◌,
}
use viam_cpp_sdk.Prelude.Double.{Double}
use viam_cpp_sdk.Remote.{relayed}
use viam_cpp_sdk.Remote.Laws.{invoke_with-service_helper, invoke_with_missing, invoke_plain_missing}
use viam_cpp_sdk.Remote.Shared.{
  IsRelayed, IsRefused, same, do_command_relayed, get_status_relayed, extra_relayed,
}
use viam_cpp_sdk.Remote.Switch.{
  PositionInfo, labels_match, kept, throw_unless, info_from_proto, set_position, get_position,
  get_number_of_positions, do_command, get_status, switch_server, switch_client, switch_component,
}

module _ (d : Double) (S : Type 0) where
  open d use {D}

  kept_all :
      {A : Type 0} (test : A → Bool) (o : Outcome A)
      → ((a : A) → o ≡ finished a → test a ≡ true)
      → kept d test o ≡ o
  kept_all test (finished a) h = rw (h a refl) refl
  kept_all test (thrown e) h = refl
  kept_all test crashed h = refl

  info_back :
      (a : PositionInfo d)
      → labels_match d a.num_positions a.position_labels ≡ true
      → info_from_proto d
          (record { number_of_positions = a.num_positions; labels = a.position_labels })
        ≡ finished a
  info_back a h = rw h refl

  pub switch-IsRelayed : IsRelayed (switch_component d S)
  unfolding switch_client switch_server
  switch-IsRelayed lookup name switch (set_position position extra) s found sent carried =
      invoke_with-service_helper lookup same finished same
        (λ (fields : ℕ) e c. c (set_position fields e)) name extra position switch s found sent
        (λ a f. refl)
  switch-IsRelayed lookup name switch (get_position extra) s found sent carried =
      extra_relayed d same finished same lookup (λ e c. c (get_position e)) name extra switch s
        found sent (λ a f. refl)
  switch-IsRelayed lookup name switch (get_number_of_positions extra) s found sent carried =
      let kept_same =
        kept_all (λ (info : PositionInfo d). labels_match d info.num_positions info.position_labels)
          (switch (get_number_of_positions extra) s).1 carried in
      extra_relayed d
        (λ (info : PositionInfo d). record {
          number_of_positions = info.num_positions;
          labels = info.position_labels;
        })
        (info_from_proto d) same lookup
        (λ e c.
          throw_unless d
            (λ (info : PositionInfo d). labels_match d info.num_positions info.position_labels)
            (c (get_number_of_positions e)))
        name extra switch s found sent (λ a f. info_back a (carried a (sym kept_same ∙ f)))
      ∙ ap (λ o. ((switch (get_number_of_positions extra) s).0, relayed same o)) kept_same
  switch-IsRelayed lookup name switch (do_command command) s found sent carried =
      do_command_relayed d lookup (λ x c. c (do_command x)) name command switch s found sent carried
  switch-IsRelayed lookup name switch get_status s found sent carried =
      get_status_relayed d lookup (λ c. c get_status) name switch s found carried

  pub switch-IsRefused : IsRefused (switch_component d S)
  unfolding switch_client switch_server
  switch-IsRefused lookup name (set_position position extra) s missing sent =
      invoke_with_missing lookup _ _ name extra _ s missing sent
  switch-IsRefused lookup name (get_position extra) s missing sent =
      invoke_with_missing lookup _ _ name extra _ s missing sent
  switch-IsRefused lookup name (get_number_of_positions extra) s missing sent =
      invoke_with_missing lookup _ _ name extra _ s missing sent
  switch-IsRefused lookup name (do_command command) s missing sent =
      invoke_plain_missing lookup _ _ name _ s missing
  switch-IsRefused lookup name get_status s missing sent =
      invoke_plain_missing lookup _ _ name _ s missing
