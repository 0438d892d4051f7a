-- ===== src/Regex/Language.antt =====
-- What an expression denotes, and that `regex_match` decides it.
use viam_cpp_sdk.Prelude.{
  ℕ, Bool, true, false, [], ◌∷◌, ◌++◌, Bytes, ◌≡◌, refl, ap, ◌∙◌, ◌⊎◌, inl, inr, arith, Bool-cases,
  if◌then◌else◌, ◌↔◌,
}
use viam_cpp_sdk.Regex.{Regex, never, empty, class, seq, alt, star, nullable, after, regex_match}

pub data Many (P : Bytes → Type 0) : Bytes → Type 0 where
  stop : {w : Bytes} → w ≡ [] → Many P w
  more : {w : Bytes} (u v : Bytes) → w ≡ u ++ v → P u → Many P v → Many P w

abbrev pub Denotes : Regex → Bytes → Type 0
Denotes never w = ⊥
Denotes empty w = w ≡ []
Denotes (class p) w = (c : ℕ) × (w ≡ c ∷ []) × (p c ≡ true)
Denotes (seq r q) w = (u : Bytes) × (v : Bytes) × (w ≡ u ++ v) × Denotes r u × Denotes q v
Denotes (alt r q) w = Denotes r w ⊎ Denotes q w
Denotes (star r) w = Many (Denotes r) w

nullable_complete : (r : Regex) → Denotes r [] → nullable r ≡ true
unfolding nullable
nullable_complete never d = absurd d
nullable_complete empty d = refl
nullable_complete (class p) (c, e, h) = cc
nullable_complete (seq r q) ([], [], e, d, f) =
    ground (arith, nullable_complete r d, nullable_complete q f)
nullable_complete (seq r q) ([], x ∷ v, e, d, f) = cc
nullable_complete (seq r q) (x ∷ u, v, e, d, f) = cc
nullable_complete (alt r q) (inl d) = ground (arith, nullable_complete r d)
nullable_complete (alt r q) (inr d) = ground (arith, nullable_complete q d)
nullable_complete (star r) d = refl

nullable_sound : (r : Regex) → nullable r ≡ true → Denotes r []
unfolding nullable
nullable_sound never h = cc
nullable_sound empty h = refl
nullable_sound (class p) h = cc
nullable_sound (seq r q) h =
    ([], [], refl, nullable_sound r (ground arith), nullable_sound q (ground arith))
nullable_sound (alt r q) h = elim (Bool-cases (nullable r)) [
  | inl e ↦ inl (nullable_sound r e)
  | inr e ↦ inr (nullable_sound q (ground arith))
]
nullable_sound (star r) h = stop refl

if_sound :
    (b : Bool) (r : Regex) (w : Bytes)
    → Denotes (if b then r else never) w
    → (b ≡ true) × Denotes r w
if_sound true r w d = (refl, d)
if_sound false r w d = absurd d

after_sound : (c : ℕ) (r : Regex) (w : Bytes) → Denotes (after c r) w → Denotes r (c ∷ w)
unfolding after
after_sound c never w d = absurd d
after_sound c empty w d = absurd d
after_sound c (class p) w d = let (h, e) = if_sound (p c) empty w d in (c, ap (◌∷◌ c) e, h)
after_sound c (seq r q) w (inl (u, v, e, d, f)) = (c ∷ u, v, ap (◌∷◌ c) e, after_sound c r u d, f)
after_sound c (seq r q) w (inr d) =
    let (h, f) = if_sound (nullable r) (after c q) w d in
    ([], c ∷ w, refl, nullable_sound r h, after_sound c q w f)
after_sound c (alt r q) w (inl d) = inl (after_sound c r w d)
after_sound c (alt r q) w (inr d) = inr (after_sound c q w d)
after_sound c (star r) w (u, v, e, d, f) = more (c ∷ u) v (ap (◌∷◌ c) e) (after_sound c r u d) f

if_complete :
    (b : Bool) (r : Regex) (w : Bytes) → b ≡ true → Denotes r w → Denotes (if b then r else never) w
if_complete true r w h d = d
if_complete false r w h d = cc

cons-eq_cons : {c x : ℕ} {w u : Bytes} → c ∷ w ≡ x ∷ u → (c ≡ x) × (w ≡ u)
cons-eq_cons e = (cc, cc)

Many-complete :
    (r q : Regex) (c : ℕ) (w y : Bytes)
    → ((u : Bytes) → Denotes r (c ∷ u) → Denotes q u)
    → c ∷ w ≡ y
    → Many (Denotes r) y
    → Denotes (seq q (star r)) w
Many-complete r q c w y step h (stop e) = cc
Many-complete r q c w y step h (more [] v e d m) = Many-complete r q c w v step (h ∙ e) m
Many-complete r q c w y step h (more (x ∷ u) v e d m) =
    let (i, j) = cons-eq_cons (h ∙ e) in (u, v, j, step u (rw i d), m)

after_complete : (r : Regex) (c : ℕ) (w : Bytes) → Denotes r (c ∷ w) → Denotes (after c r) w
unfolding after
after_complete never c w d = d
after_complete empty c w d = cc
after_complete (class p) c w (x, e, h) =
    let (i, j) = cons-eq_cons e in if_complete (p c) empty w (rw i h) j
after_complete (seq r q) c w ([], v, e, d, f) =
    inr (
      if_complete (nullable r) (after c q) w (nullable_complete r d)
        (after_complete q c w (rw e f)))
after_complete (seq r q) c w (x ∷ u, v, e, d, f) =
    let (i, j) = cons-eq_cons e in inl (u, v, j, after_complete r c u (rw i d), f)
after_complete (alt r q) c w (inl d) = inl (after_complete r c w d)
after_complete (alt r q) c w (inr d) = inr (after_complete q c w d)
after_complete (star r) c w d =
    Many-complete r (after c r) c w (c ∷ w) (λ u. after_complete r c u) refl d

regex_match_sound : (w : Bytes) (r : Regex) → regex_match w r ≡ true → Denotes r w
unfolding regex_match
regex_match_sound [] r h = nullable_sound r h
regex_match_sound (c ∷ w) r h = after_sound c r w (regex_match_sound w (after c r) h)

regex_match_complete : (w : Bytes) (r : Regex) → Denotes r w → regex_match w r ≡ true
unfolding regex_match
regex_match_complete [] r d = nullable_complete r d
regex_match_complete (c ∷ w) r d = regex_match_complete w (after c r) (after_complete r c w d)

-- `regex_match` accepts exactly the texts that the expression denotes.
pub regex_match_iff : (w : Bytes) (r : Regex) → (regex_match w r ≡ true) ↔ Denotes r w
regex_match_iff w r = (regex_match_sound w r, regex_match_complete w r)
