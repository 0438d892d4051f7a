-- ===== src/ModelTable/Chain/Walk.antt =====
-- What the walk along the joints keeps true, and why it ends.
use mathlib.Core.Path.{fun_ext}
use mathlib.Core.List.{append-nil, reverse, Perm, map-append, reverse-append, perm_middle}
use mathlib.Core.List.Perm
use viam_cpp_sdk.Prelude.{
  ℕ, zero, suc, ◌+◌, ◌<◌, Bool, true, false, none, some, List, [], ◌∷◌, ◌++◌, map, length, Bytes,
  Bytes-discrete, ok, err, Error, exception, k_general, ◌≡◌, ◌≢◌, refl, sym, ap, ◌∙◌, subst, arith,
  keep, length-keep-le, length-perm, keep_or-perm, keep_head, keep_none, length-append, Bool-cases,
  inl, inr,
}
use viam_cpp_sdk.Prelude.Dict.{Dict, vector_at}
use viam_cpp_sdk.Prelude.Double.{Double}
use viam_cpp_sdk.ModelTable.Joint.{ParsedJoint}
use viam_cpp_sdk.ModelTable.Chain.{contains, walk}
use viam_cpp_sdk.ModelTable.Chain.Outgoing.{leaves}

-- No link stands twice in the list.
abbrev pub Distinct : List Bytes → Type 0
Distinct [] = Unit
Distinct (x ∷ r) = (contains x r ≡ false) × Distinct r

module _ (d : Double) where
  -- The joints lead from the link `a` to the link `e`, each from where the one before it ended.
  abbrev pub IsPath : Bytes → List (ParsedJoint d) → Bytes → Type 0
  IsPath a [] e = a ≡ e
  IsPath a (j ∷ r) e = (j.parent_link ≡ a) × IsPath j.child_link r e

  IsPath-concat :
      (a c : Bytes) (r : List (ParsedJoint d)) (j : ParsedJoint d)
      → IsPath a r c
      → j.parent_link ≡ c
      → IsPath a (r ++ j ∷ []) j.child_link
  IsPath-concat a c [] j h e = (e ∙ sym h, refl)
  IsPath-concat a c (i ∷ r) j h e = (h.0, IsPath-concat i.child_link c r j h.1 e)

  abbrev parents : List (ParsedJoint d) → List Bytes
  parents = map (λ j. j.parent_link)

  pub seen : List Bytes → ParsedJoint d → Bool
  seen visited j = contains j.parent_link visited

  pub seen_none : (joints : List (ParsedJoint d)) → keep (seen []) joints ≡ []
  unfolding seen contains
  seen_none = keep_none (seen []) (λ x. refl)

  leaves-eq : (c : Bytes) (j : ParsedJoint d) → leaves d c j ≡ true → j.parent_link ≡ c
  unfolding leaves
  leaves-eq c j h = ground arith

  seen-perm :
      (c : Bytes) (visited : List Bytes) (joints : List (ParsedJoint d))
      → contains c visited ≡ false
      → Perm
          (keep (seen (c ∷ visited)) joints)
          (keep (leaves d c) joints ++ keep (seen visited) joints)
  unfolding seen contains leaves
  seen-perm c visited joints h =
      subst
        (λ (p : ParsedJoint d → Bool).
          Perm (keep p joints) (keep (leaves d c) joints ++ keep (seen visited) joints))
        (fun_ext (λ j. ground arith))
        (keep_or-perm (leaves d c) (seen visited) (λ j e. ground arith) joints)

  -- What the walk keeps true: `ordered` leads from the root to the current link and holds the
  -- joints that leave a visited link.
  pub record Walked (root : Bytes) (joints : List (ParsedJoint d)) (current : Bytes)
      (visited : List Bytes) (ordered : List (ParsedJoint d)) : Type 0 where
    pub path : IsPath root ordered current
    pub same : Perm ordered (keep (seen visited) joints)
    pub links : visited ≡ reverse (parents ordered)
    pub distinct : Distinct visited

  to_front : (l : List (ParsedJoint d)) (j : ParsedJoint d) → Perm (l ++ j ∷ []) (j ∷ l)
  to_front l j =
      subst (λ (k : List (ParsedJoint d)). Perm (l ++ j ∷ []) (j ∷ k)) (append-nil l)
        (perm_middle l [])

  Walked-next :
      (root : Bytes) (joints : List (ParsedJoint d)) (c : Bytes) (visited : List Bytes)
      (ordered : List (ParsedJoint d)) (j : ParsedJoint d)
      → Walked root joints c visited ordered
      → contains c visited ≡ false
      → keep (leaves d c) joints ≡ j ∷ []
      → Walked root joints j.child_link (c ∷ visited) (ordered ++ j ∷ [])
  Walked-next root joints c visited ordered j w n e =
      let p : j.parent_link ≡ c = leaves-eq c j (keep_head (leaves d c) joints j [] e) in
      record {
        path = IsPath-concat root c ordered j w.path p;
        same = Perm.trans (Perm.trans (to_front ordered j) (Perm.cons j w.same)) (
            Perm.symm (
              subst
                (λ (l : List (ParsedJoint d)).
                  Perm (keep (seen (c ∷ visited)) joints) (l ++ keep (seen visited) joints))
                e (seen-perm c visited joints n)));
        links = cc (
          p,
          w.links,
          ap reverse (map-append (λ (i : ParsedJoint d). i.parent_link) ordered (j ∷ [])),
          reverse-append (parents ordered) (j.parent_link ∷ []),
        );
        distinct = (n, w.distinct);
      }

  -- The four ways on from a link.
  pub data Way (by_parent : Dict Bytes (List (ParsedJoint d))) (fuel : ℕ) (c : Bytes)
      (visited : List Bytes) (ordered : List (ParsedJoint d)) : Type 0 where
    refused :
        (e : Error)
        → walk d by_parent (suc fuel) c visited ordered ≡ some (err e)
        → Way by_parent fuel c visited ordered
    ended :
        contains c visited ≡ false
        → vector_at Bytes-discrete c by_parent ≡ []
        → walk d by_parent (suc fuel) c visited ordered ≡ some (ok ordered)
        → Way by_parent fuel c visited ordered
    goes_on :
        (j : ParsedJoint d)
        → contains c visited ≡ false
        → vector_at Bytes-discrete c by_parent ≡ j ∷ []
        → walk d by_parent (suc fuel) c visited ordered
          ≡ walk d by_parent fuel j.child_link (c ∷ visited) (ordered ++ j ∷ [])
        → Way by_parent fuel c visited ordered

  pub way :
      (by_parent : Dict Bytes (List (ParsedJoint d))) (fuel : ℕ) (c : Bytes) (visited : List Bytes)
      (ordered : List (ParsedJoint d))
      → Way by_parent fuel c visited ordered
  unfolding walk
  way by_parent fuel c visited ordered = elim (Bool-cases (contains c visited)) [
    | inl e ↦ refused (exception k_general) (rw (e, walk))
    | inr n ↦ go (vector_at Bytes-discrete c by_parent) refl n
  ]
    where
      go :
          (l : List (ParsedJoint d))
          → vector_at Bytes-discrete c by_parent ≡ l
          → contains c visited ≡ false
          → Way by_parent fuel c visited ordered
      go [] e n = ended n e (rw (n, e, walk))
      go (j ∷ []) e n = goes_on j n e (rw (n, e, walk))
      go (j ∷ k ∷ r) e n = refused (exception k_general) (rw (n, e, walk))

  -- With more fuel than joints the walk ends.
  pub walk_total :
      (joints : List (ParsedJoint d)) (by_parent : Dict Bytes (List (ParsedJoint d)))
      → ((p : Bytes) → vector_at Bytes-discrete p by_parent ≡ keep (leaves d p) joints)
      → (fuel : ℕ) (c : Bytes) (visited : List Bytes) (ordered : List (ParsedJoint d))
      → length joints < fuel + length (keep (seen visited) joints)
      → walk d by_parent fuel c visited ordered ≢ none
  unfolding walk
  walk_total joints by_parent out zero c visited ordered h =
      absurd (omega (arith, length-keep-le (seen visited) joints))
  walk_total joints by_parent out (suc fuel) c visited ordered h =
      elim (way by_parent fuel c visited ordered) [
        | refused e w ↦ λ z. cc
        | ended n v w ↦ λ z. cc
        | goes_on j n v w ↦ rw w (
            walk_total joints by_parent out fuel j.child_link (c ∷ visited) (ordered ++ j ∷ []) (
              omega (
                arith,
                h,
                length-perm (seen-perm c visited joints n),
                length-append (keep (leaves d c) joints) (keep (seen visited) joints),
                ap length (sym (out c) ∙ v),
              )))
      ]

  -- What a finished walk has found.
  pub record Found (root : Bytes) (joints ordered : List (ParsedJoint d)) : Type 0 where
    pub last : Bytes
    pub visited : List Bytes
    pub walked : Walked root joints last visited ordered
    pub fresh : contains last visited ≡ false

  pub walk-Found :
      (root : Bytes) (joints : List (ParsedJoint d)) (by_parent : Dict Bytes (List (ParsedJoint d)))
      → ((p : Bytes) → vector_at Bytes-discrete p by_parent ≡ keep (leaves d p) joints)
      → (fuel : ℕ) (c : Bytes) (visited : List Bytes) (ordered result : List (ParsedJoint d))
      → Walked root joints c visited ordered
      → walk d by_parent fuel c visited ordered ≡ some (ok result)
      → Found root joints result
  unfolding walk
  walk-Found root joints by_parent out zero c visited ordered result w h = cc
  walk-Found root joints by_parent out (suc fuel) c visited ordered result w h =
      elim (way by_parent fuel c visited ordered) [
        | refused e x ↦ cc
        | ended n v x ↦
            let e : ordered ≡ result = cc in
            record {
              last = c;
              visited = visited;
              walked = subst (Walked root joints c visited) e w;
              fresh = n;
            }
        | goes_on j n v x ↦
            walk-Found root joints by_parent out fuel j.child_link (c ∷ visited) (ordered ++ j ∷ [])
              result (Walked-next root joints c visited ordered j w n (sym (out c) ∙ v)) (sym x ∙ h)
      ]
