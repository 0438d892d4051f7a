-- ===== src/Trajectory/Stream.antt =====
-- A stream of points passes the validator just where it has the invariants that
-- arm_trajectory_validation.hpp lists.
use viam_cpp_sdk.Prelude.{
  Bool, true, false, List, [], ◌∷◌, length, none, some, Option-cases, ◌≡◌, ◌≢◌, refl, inl, inr,
  arith, Bool-cases, All, ◌↔◌,
}
use viam_cpp_sdk.Prelude.Int.{ℤ, pos, negsuc, ◌<ℤ◌}
use viam_cpp_sdk.Prelude.Double.{Double, int_equal}
use viam_cpp_sdk.Trajectory.{
  Validator, new_validator, TrajectoryPoint, any_moving, empty, check, check_time,
  check_constraints,
}

module _ (d : Double) where
  open d use {D}

  -- The stream is checked point by point, up to the first violation.
  pub accepts : List (TrajectoryPoint d) → Validator → Bool
  accepts [] v = true
  accepts (point ∷ points) v =
      let (violation, after) = check d point v in
      elim violation [ none ↦ accepts points after | some _ ↦ false ]

  -- One velocity per position, and one acceleration per velocity.
  abbrev pub Fits : TrajectoryPoint d → Type 0
  Fits p = elim p.constraints [
    | none ↦ Unit
    | some c ↦
        (length c.velocities_degs_per_sec ≡ length p.positions)
        × elim c.accelerations_degs_per_sec2 [
          | none ↦ Unit
          | some a ↦ length a ≡ length c.velocities_degs_per_sec
        ]
  ]

  abbrev pub AtRest : TrajectoryPoint d → Type 0
  AtRest p = elim p.constraints [
    | none ↦ Unit
    | some c ↦ All (λ v. d.equal v (d.of_int (pos 0)) ≡ true) c.velocities_degs_per_sec
  ]

  -- Points after one at the time `last`.
  abbrev pub FollowOn : ℤ → List (TrajectoryPoint d) → Type 0
  FollowOn last [] = Unit
  FollowOn last (p ∷ ps) = (last <ℤ p.time) × (p.positions ≢ []) × Fits p × FollowOn p.time ps

  abbrev pub IsTrajectory : List (TrajectoryPoint d) → Type 0
  IsTrajectory [] = Unit
  IsTrajectory (p ∷ ps) =
      (p.time ≡ pos 0) × (p.positions ≢ []) × Fits p × AtRest p × FollowOn p.time ps

  rest_complete :
      (vs : List D) → All (λ v. d.equal v (d.of_int (pos 0)) ≡ true) vs → any_moving d vs ≡ false
  unfolding any_moving
  rest_complete [] h = refl
  rest_complete (v ∷ vs) h = rw (h.0) (rest_complete vs h.1)

  rest_sound :
      (vs : List D) → any_moving d vs ≡ false → All (λ v. d.equal v (d.of_int (pos 0)) ≡ true) vs
  unfolding any_moving
  rest_sound [] h = tt
  rest_sound (v ∷ vs) h = ground (arith, rest_sound vs)

  passed : TrajectoryPoint d → Validator
  passed p = record { seen_first = true; last_time = p.time }

  -- A stream goes on behind a point that has none of the three kinds of violation.
  accepts_sound :
      (p : TrajectoryPoint d) (ps : List (TrajectoryPoint d)) (v : Validator)
      → accepts (p ∷ ps) v ≡ true
      → (check_time d v p ≡ none)
        × (empty d p.positions ≡ false)
        × (check_constraints d v.seen_first p ≡ none)
        × (accepts ps (passed p) ≡ true)
  unfolding accepts check passed
  accepts_sound p ps v h = elim (Option-cases (check_time d v p)) [
    | inr (e, i) ↦ ground (arith, i)
    | inl i ↦ elim (Bool-cases (empty d p.positions)) [
      | inl j ↦ ground (arith, i, j)
      | inr j ↦ elim (Option-cases (check_constraints d v.seen_first p)) [
        | inr (e, k) ↦ ground (arith, i, j, k)
        | inl k ↦ (i, j, k, ground (arith, i, j, k))
      ]
    ]
  ]

  accepts_complete :
      (p : TrajectoryPoint d) (ps : List (TrajectoryPoint d)) (v : Validator)
      → check_time d v p ≡ none
      → empty d p.positions ≡ false
      → check_constraints d v.seen_first p ≡ none
      → accepts ps (passed p) ≡ true
      → accepts (p ∷ ps) v ≡ true
  unfolding accepts check passed
  accepts_complete p ps v i j k h = ground (arith, i, j, k, h)

  nonempty : (l : List D) → (empty d l ≡ false) ↔ (l ≢ [])
  nonempty [] = ((λ e. cc), (λ n. absurd (n refl)))
  nonempty (x ∷ l) = ((λ e. λ k. cc), (λ n. refl))

  -- The constraints behind the first point, and those of the first point.
  later-Fits : (p : TrajectoryPoint d) → (check_constraints d true p ≡ none) ↔ Fits p
  later-Fits p = elim (Option-cases p.constraints) [
    | inl e ↦ rw e ((λ _. tt), (λ _. refl))
    | inr (c, e) ↦ rw e (elim (Option-cases c.accelerations_degs_per_sec2) [
      | inl f ↦ rw f ((λ h. ground arith), (λ h. ground arith))
      | inr (a, f) ↦ rw f ((λ h. ground arith), (λ h. ground arith))
    ])
  ]

  first-Fits : (p : TrajectoryPoint d) → (check_constraints d false p ≡ none) ↔ (Fits p × AtRest p)
  first-Fits p = elim (Option-cases p.constraints) [
    | inl e ↦ rw e ((λ _. (tt, tt)), (λ _. refl))
    | inr (c, e) ↦
        let rest = rest_sound c.velocities_degs_per_sec in
        let still = rest_complete c.velocities_degs_per_sec in
        rw e (elim (Option-cases c.accelerations_degs_per_sec2) [
          | inl f ↦
              rw f
                ((λ h. ((ground arith, tt), rest (ground arith))), (λ h. ground (arith, still h.1)))
          | inr (a, f) ↦ rw f (
            (λ h. ((ground arith, ground arith), rest (ground arith))),
            (λ h. ground (arith, still h.1)),
          )
        ])
  ]

  follow_on :
      (ps : List (TrajectoryPoint d)) (last : ℤ)
      → (accepts ps (record { seen_first = true; last_time = last }) ≡ true) ↔ FollowOn last ps
  unfolding accepts passed
  follow_on [] last = ((λ _. tt), (λ _. refl))
  follow_on (p ∷ ps) last = (
    (λ h.
        let (i, j, k, r) = accepts_sound p ps (record { seen_first = true; last_time = last }) h in
        (
          ground (arith, i),
          (nonempty p.positions).0 j,
          (later-Fits p).0 k,
          (follow_on ps p.time).0 r,
        )),
    (λ h.
        accepts_complete p ps (record { seen_first = true; last_time = last }) (ground (arith, h.0))
          ((nonempty p.positions).1 h.1) ((later-Fits p).1 h.2) ((follow_on ps p.time).1 h.3)),
  )

  int_equal_sound : (a : ℤ) → int_equal a (pos 0) ≡ true → a ≡ pos 0
  int_equal_sound (pos n) h = ground arith
  int_equal_sound (negsuc n) h = ground arith

  -- A stream passes a new validator just where it is a trajectory: it begins at time zero and at
  -- rest, its times strictly increase, each point has a position, one velocity per position where
  -- it has constraints, and one acceleration per velocity where it has accelerations.
  pub accepts_iff :
      (points : List (TrajectoryPoint d))
      → (accepts points new_validator ≡ true) ↔ IsTrajectory points
  unfolding accepts passed
  accepts_iff [] = ((λ _. tt), (λ _. refl))
  accepts_iff (p ∷ ps) = (
    (λ h.
        let (i, j, k, r) = accepts_sound p ps new_validator h in
        let fits = (first-Fits p).0 k in
        (
          int_equal_sound p.time (ground (arith, i)),
          (nonempty p.positions).0 j,
          fits.0,
          fits.1,
          (follow_on ps p.time).0 r,
        )),
    (λ h.
        accepts_complete p ps new_validator (rw (h.0) refl) ((nonempty p.positions).1 h.1)
          ((first-Fits p).1 (h.2, h.3)) ((follow_on ps p.time).1 h.4)),
  )
