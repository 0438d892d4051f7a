-- ===== src/Remote/Maps.antt =====
-- Loops that copy the entries of a map into an empty one: `insert` and `emplace` keep an entry that is
-- there. A new entry stands at the end here; the order is not specified.
use viam_cpp_sdk.Prelude.{
  [], ◌∷◌, ◌++◌, Bytes, Bytes-discrete, ite, if_neg, ◌≡◌, ◌≢◌, refl, sym, ap, ◌∙◌,
}
use viam_cpp_sdk.Prelude.Dict.{Dict}

unfoldable pub insert_entry : {B : Type 0} → Bytes → B → Dict Bytes B → Dict Bytes B
insert_entry k v [] = (k, v) ∷ []
insert_entry k v ((j, w) ∷ m) = ite (Bytes-discrete j k) ((j, w) ∷ m) ((j, w) ∷ insert_entry k v m)

unfoldable pub insert_all : {A B : Type 0} → (A → B) → Dict Bytes A → Dict Bytes B → Dict Bytes B
insert_all f [] m = m
insert_all f ((k, v) ∷ r) m = insert_all f r (insert_entry k (f v) m)

abbrev IsAbsent : {A : Type 0} → Bytes → Dict Bytes A → Type 0
IsAbsent k [] = Unit
IsAbsent k ((j, v) ∷ m) = (j ≢ k) × IsAbsent k m

-- A map has a key once.
abbrev pub IsMap : {A : Type 0} → Dict Bytes A → Type 0
IsMap [] = Unit
IsMap ((k, v) ∷ m) = IsAbsent k m × IsMap m

abbrev AreAbsent : {A B : Type 0} → Dict Bytes B → Dict Bytes A → Type 0
AreAbsent m [] = Unit
AreAbsent m ((k, v) ∷ r) = IsAbsent k m × AreAbsent m r

abbrev convert : {A B : Type 0} → (A → B) → Dict Bytes A → Dict Bytes B
convert f [] = []
convert f ((k, v) ∷ r) = (k, f v) ∷ convert f r

insert_entry-append :
    {B : Type 0} (k : Bytes) (v : B) (m : Dict Bytes B)
    → IsAbsent k m
    → insert_entry k v m ≡ m ++ (k, v) ∷ []
unfolding insert_entry
insert_entry-append k v [] h = refl
insert_entry-append k v ((j, w) ∷ m) h =
    rw (if_neg _ h.0) (ap (λ r. (j, w) ∷ r) (insert_entry-append k v m h.1))

IsAbsent-append :
    {B : Type 0} (j k : Bytes) (v : B) (m : Dict Bytes B)
    → IsAbsent j m
    → k ≢ j
    → IsAbsent j (m ++ (k, v) ∷ [])
IsAbsent-append j k v [] h n = (n, tt)
IsAbsent-append j k v ((i, w) ∷ m) h n = (h.0, IsAbsent-append j k v m h.1 n)

AreAbsent-append :
    {A B : Type 0} (k : Bytes) (v : B) (m : Dict Bytes B) (r : Dict Bytes A)
    → AreAbsent m r
    → IsAbsent k r
    → AreAbsent (m ++ (k, v) ∷ []) r
AreAbsent-append k v m [] h a = tt
AreAbsent-append k v m ((j, w) ∷ r) h a =
    (IsAbsent-append j k v m h.0 (λ e. a.0 (sym e)), AreAbsent-append k v m r h.1 a.1)

append_assoc_one :
    {B : Type 0} (m : Dict Bytes B) (k : Bytes) (v : B) (r : Dict Bytes B)
    → (m ++ (k, v) ∷ []) ++ r ≡ m ++ (k, v) ∷ r
append_assoc_one [] k v r = refl
append_assoc_one (x ∷ m) k v r = ap (λ y. x ∷ y) (append_assoc_one m k v r)

append_nothing : {B : Type 0} (m : Dict Bytes B) → m ++ [] ≡ m
append_nothing [] = refl
append_nothing (x ∷ m) = ap (λ y. x ∷ y) (append_nothing m)

insert_all-append :
    {A B : Type 0} (f : A → B) (r : Dict Bytes A) (m : Dict Bytes B)
    → AreAbsent m r
    → IsMap r
    → insert_all f r m ≡ m ++ convert f r
unfolding insert_all
insert_all-append f [] m h d = sym (append_nothing m)
insert_all-append f ((k, v) ∷ r) m h d =
    ap (insert_all f r) (insert_entry-append k (f v) m h.0)
    ∙ insert_all-append f r (m ++ (k, f v) ∷ []) (AreAbsent-append k (f v) m r h.1 d.0) d.1
    ∙ append_assoc_one m k (f v) (convert f r)

nothing_there : (B : Type 0) {A : Type 0} (r : Dict Bytes A) → AreAbsent {B = B} [] r
nothing_there B [] = tt
nothing_there B (x ∷ r) = (tt, nothing_there B r)

IsAbsent-convert :
    {A B : Type 0} (f : A → B) (k : Bytes) (r : Dict Bytes A)
    → IsAbsent k r
    → IsAbsent k (convert f r)
IsAbsent-convert f k [] h = tt
IsAbsent-convert f k ((j, v) ∷ r) h = (h.0, IsAbsent-convert f k r h.1)

IsMap-convert : {A B : Type 0} (f : A → B) (r : Dict Bytes A) → IsMap r → IsMap (convert f r)
IsMap-convert f [] h = tt
IsMap-convert f ((k, v) ∷ r) h = (IsAbsent-convert f k r h.0, IsMap-convert f r h.1)

convert_back :
    {A B : Type 0} (f : A → B) (g : B → A)
    → ((a : A) → g (f a) ≡ a)
    → (r : Dict Bytes A) → convert g (convert f r) ≡ r
convert_back f g h [] = refl
convert_back f g h ((k, v) ∷ r) = λ i. (k, h v i) ∷ convert_back f g h r i

-- A map that is copied out and back is the same, if its values are.
pub insert_all_back :
    {A B : Type 0} (f : A → B) (g : B → A)
    → ((a : A) → g (f a) ≡ a)
    → (r : Dict Bytes A) → IsMap r
    → insert_all g (insert_all f r []) [] ≡ r
insert_all_back {A} {B} f g h r d =
    ap (λ x. insert_all g x []) (insert_all-append f r [] (nothing_there B r) d)
    ∙ insert_all-append g (convert f r) [] (nothing_there A (convert f r)) (IsMap-convert f r d)
    ∙ convert_back f g h r
