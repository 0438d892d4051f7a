-- ===== src/Names/Words.antt =====
-- The class `[\w-]` of the expressions in resource/resource_api.cpp, and the texts made of it.
use viam_cpp_sdk.Prelude.{
  ℕ, Bool, true, false, ◌&&◌, ◌||◌, leb, ◌==◌, [], ◌∷◌, ◌++◌, Bytes, ◌≡◌, ◌≢◌, refl, ap, All, Lacks,
  arith,
}
use viam_cpp_sdk.Regex.{Regex, class, seq, star, plus, byte}
use viam_cpp_sdk.Regex.Language.{Denotes, Many, stop, more}

abbrev within : ℕ → ℕ → ℕ → Bool
within lo hi c = leb lo c && leb c hi

-- `[\w-]` of the C locale.
unfoldable pub is_word_byte : ℕ → Bool
is_word_byte c =
    within b'a' b'z' c || within b'A' b'Z' c || within b'0' b'9' c || c == b'_' || c == b'-'

-- `[\w-]+`.
abbrev pub word : Regex
word = plus (class is_word_byte)

-- `[\w-]+:[\w-]+:[\w-]+`.
abbrev pub three_words : Regex
three_words = seq word (seq (byte b':') (seq word (seq (byte b':') word)))

abbrev pub WordBytes : Bytes → Type 0
WordBytes = All (λ c. is_word_byte c ≡ true)

abbrev pub IsWord : Bytes → Type 0
IsWord w = (w ≢ []) × WordBytes w

-- The three parts joined by colons, as `to_string` writes them.
abbrev pub joined : Bytes → Bytes → Bytes → Bytes
joined a b c = a ++ b':' ∷ (b ++ b':' ∷ c)

pub Lacks-of_word : (c : ℕ) (w : Bytes) → is_word_byte c ≡ false → WordBytes w → Lacks c w
Lacks-of_word c [] n h = tt
Lacks-of_word c (x ∷ w) n h = ((λ e. cc), Lacks-of_word c w n h.1)

pub WordBytes-append : (u v : Bytes) → WordBytes u → WordBytes v → WordBytes (u ++ v)
WordBytes-append [] v h k = k
WordBytes-append (x ∷ u) v h k = (h.0, WordBytes-append u v h.1 k)

module _ (p : ℕ → Bool) where
  star_sound : (w : Bytes) → Many (Denotes (class p)) w → All (λ c. p c ≡ true) w
  star_sound w (stop e) = rw e tt
  star_sound w (more u v e (c, i, h) m) = rw (e, i) (h, star_sound v m)

  pub star_complete : (w : Bytes) → All (λ c. p c ≡ true) w → Denotes (star (class p)) w
  star_complete [] h = stop refl
  star_complete (c ∷ w) h = more (c ∷ []) w refl (c, refl, h.0) (star_complete w h.1)

  plus_sound : (w : Bytes) → Denotes (plus (class p)) w → (w ≢ []) × All (λ c. p c ≡ true) w
  plus_sound w (u, v, e, (c, i, h), m) =
      ((λ k. cc (ap (λ (t : Bytes). t ++ v) i)), rw (e, i) (h, star_sound v m))

  pub plus_complete :
      (c : ℕ) (w : Bytes) → All (λ c. p c ≡ true) (c ∷ w) → Denotes (plus (class p)) (c ∷ w)
  plus_complete c w h = (c ∷ [], w, refl, (c, refl, h.0), star_complete w h.1)

pub word_sound : (w : Bytes) → Denotes word w → IsWord w
word_sound = plus_sound is_word_byte

pub word_complete : (w : Bytes) → IsWord w → Denotes word w
word_complete [] h = absurd (h.0 refl)
word_complete (c ∷ w) h = plus_complete is_word_byte c w h.1

byte_sound : (c : ℕ) (w : Bytes) → Denotes (byte c) w → w ≡ c ∷ []
byte_sound c w (x, e, h) = let i : x ≡ c = ground arith in rw i at e

byte_complete : (c : ℕ) → Denotes (byte c) (c ∷ [])
byte_complete c = (c, refl, ground arith)

pub three_words_sound :
    (w : Bytes)
    → Denotes three_words w
    → (a : Bytes) × (b : Bytes) × (c : Bytes) × (w ≡ joined a b c) × IsWord a × IsWord b × IsWord c
three_words_sound w (a, r, e, da, (x, s, i, dx, (b, t, j, db, (y, c, k, dy, dc)))) = (
  a,
  b,
  c,
  simp (e, i, j, k, byte_sound b':' x dx, byte_sound b':' y dy),
  word_sound a da,
  word_sound b db,
  word_sound c dc,
)

pub three_words_complete :
    (a b c : Bytes) → IsWord a → IsWord b → IsWord c → Denotes three_words (joined a b c)
three_words_complete a b c ha hb hc = (
  a,
  b':' ∷ (b ++ b':' ∷ c),
  refl,
  word_complete a ha,
  (
    b':' ∷ [],
    b ++ b':' ∷ c,
    refl,
    byte_complete b':',
    (
      b,
      b':' ∷ c,
      refl,
      word_complete b hb,
      (b':' ∷ [], c, refl, byte_complete b':', word_complete c hc),
    ),
  ),
)
