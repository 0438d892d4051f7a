-- ===== src/Names/Name/Parse.antt =====
-- The text of a `Name`, written and read.
use mathlib.Core.List.{append-nil, append_assoc}
use viam_cpp_sdk.Prelude.{
  sym, ◌∙◌, true, not, ◌||◌, ◌==◌, [], ◌∷◌, ◌++◌, Bytes, codes, ◌≡◌, ◌≢◌, refl, ap, ok, err,
  out_of_range, ◌>>=◌, inl, inr, arith, Lacks, Lacks-append, All,
}
use viam_cpp_sdk.Split.{Splitter}
use viam_cpp_sdk.Regex.Language.{Denotes, regex_match_iff}
use viam_cpp_sdk.Names.Words.{
  Lacks-of_word, three_words, three_words_complete, is_word_byte, plus_complete,
}
use viam_cpp_sdk.Names.Api
use viam_cpp_sdk.Names.Api.{Api}
use viam_cpp_sdk.Names.Api.Parse.{IsValid, from_string-to_string}
use viam_cpp_sdk.Names.Name.{Name, name_regex, to_string, from_string, remote_and_name}

-- Text that can stand for one part of a name: on one line, with no separator in it.
pub record IsPart (t : Bytes) : Type 0 where
  pub no_colon : Lacks b':' t
  pub no_slash : Lacks b'/' t
  pub one_line : All (λ c. not (c == 10 || c == 13) ≡ true) t

one_line-append :
    (s t : Bytes)
    → All (λ c. not (c == 10 || c == 13) ≡ true) s
    → All (λ c. not (c == 10 || c == 13) ≡ true) t
    → All (λ c. not (c == 10 || c == 13) ≡ true) (s ++ t)
one_line-append [] t h k = k
one_line-append (x ∷ s) t h k = (h.0, one_line-append s t h.1 k)

module _ (a : Api) (v : IsValid a) where
  api-Denotes : Denotes three_words (Api.to_string a)
  unfolding Api.to_string
  api-Denotes =
      three_words_complete a.type_namespace a.resource_type a.resource_subtype v.namespace_word
        v.type_word v.subtype_word

  api-Lacks : Lacks b'/' (Api.to_string a)
  unfolding Api.to_string is_word_byte
  api-Lacks =
      Lacks-append b'/' a.type_namespace _
        (Lacks-of_word b'/' a.type_namespace refl v.namespace_word.1)
        (
          (λ e. ground arith),
          Lacks-append b'/' a.resource_type _
              (Lacks-of_word b'/' a.resource_type refl v.type_word.1)
              ((λ e. ground arith), Lacks-of_word b'/' a.resource_subtype refl v.subtype_word.1),
        )

  rest-Denotes :
      (rest : Bytes)
      → All (λ c. not (c == 10 || c == 13) ≡ true) rest
      → Denotes name_regex (Api.to_string a ++ b'/' ∷ rest)
  rest-Denotes [] h = (
    Api.to_string a,
    b'/' ∷ [],
    refl,
    api-Denotes,
    (b'/' ∷ [], [], refl, inl (b'/', refl, refl), ([], [], refl, inr refl, inr refl)),
  )
  rest-Denotes (c ∷ t) h = (
    Api.to_string a,
    b'/' ∷ c ∷ t,
    refl,
    api-Denotes,
    (
      b'/' ∷ [],
      c ∷ t,
      refl,
      inl (b'/', refl, refl),
      ([], c ∷ t, refl, inr refl, inl (plus_complete (λ x. not (x == 10 || x == 13)) c t h)),
    ),
  )

  no_rest-Denotes : Denotes name_regex (Api.to_string a)
  no_rest-Denotes = (
    Api.to_string a,
    [],
    sym (append-nil (Api.to_string a)),
    api-Denotes,
    ([], [], refl, inr refl, ([], [], refl, inr refl, inr refl)),
  )

colon-part : (r : Bytes) → Lacks b':' r → r ≢ codes ":"
colon-part [] h e = cc
colon-part (c ∷ r) h e = h.0 cc

nested_shape : (r q : Bytes) → r ≢ [] → (r ++ b':' ∷ q ≢ []) × (r ++ b':' ∷ q ≢ codes ":")
nested_shape [] q h = absurd (h refl)
nested_shape (c ∷ []) q h = ((λ e. cc), λ e. cc)
nested_shape (c ∷ d ∷ r) q h = ((λ e. cc), λ e. cc)

nested-to_string :
    (a : Api) (r q n : Bytes)
    → r ≢ []
    → to_string (record { api = a; remote_name = r ++ b':' ∷ q; name = n })
      ≡ Api.to_string a ++ b'/' ∷ (r ++ b':' ∷ (q ++ b':' ∷ n))
unfolding to_string
nested-to_string a r q n h =
    ground (arith, nested_shape r q h, append_assoc r (b':' ∷ q) (b':' ∷ n))

module _ (b : Splitter) where
  -- The code behind the slash, which decides the remote and the name.
  from_string-slash :
      (a : Api) (v : IsValid a) (rest : Bytes)
      → Lacks b'/' rest
      → All (λ c. not (c == 10 || c == 13) ≡ true) rest
      → from_string b (Api.to_string a ++ b'/' ∷ rest) ≡ (
          remote_and_name (b.split b':' rest) >>= λ p.
          ok (record { api = a; remote_name = p.0; name = p.1 }))
  unfolding from_string
  from_string-slash a v rest s o = rw (
    (regex_match_iff _ name_regex).1 (rest-Denotes a v rest o),
    b.split_first b'/' (Api.to_string a) rest (api-Lacks a v),
    b.split_whole b'/' rest s,
    from_string-to_string b a v,
  )

  two_parts_read :
      (a : Api) (r n : Bytes)
      → IsValid a
      → IsPart r
      → IsPart n
      → from_string b (Api.to_string a ++ b'/' ∷ (r ++ b':' ∷ n))
        ≡ ok (record { api = a; remote_name = r; name = n })
  unfolding remote_and_name
  two_parts_read a r n v hr hn =
      from_string-slash a v (r ++ b':' ∷ n)
        (Lacks-append b'/' r (b':' ∷ n) hr.no_slash ((λ e. cc), hn.no_slash))
        (one_line-append r (b':' ∷ n) hr.one_line (refl, hn.one_line))
      ∙ rw (b.split_first b':' r n hr.no_colon, b.split_whole b':' n hn.no_colon)

  no_remote_read :
      (a : Api) (n : Bytes)
      → IsValid a
      → IsPart n
      → from_string b (Api.to_string a ++ b'/' ∷ n)
        ≡ ok (record { api = a; remote_name = []; name = n })
  unfolding remote_and_name
  no_remote_read a n v hn =
      from_string-slash a v n hn.no_slash hn.one_line ∙ rw (b.split_whole b':' n hn.no_colon)

  -- A name is read back from its text, if its API is valid and its remote, which may be empty, and
  -- its short name have no colon, no slash and no end of a line.
  pub name_from_string-to_string :
      (n : Name)
      → IsValid n.api
      → IsPart n.remote_name
      → IsPart n.name
      → from_string b (to_string n) ≡ ok n
  unfolding to_string remote_and_name
  name_from_string-to_string n v r p = ground (
    arith,
    two_parts_read n.api n.remote_name n.name v r p,
    no_remote_read n.api n.name v p,
    colon-part n.remote_name r.no_colon,
  )

  -- Of a name under nested remotes, the reader keeps the first remote and takes the second for the
  -- name of the resource: the name itself is lost, whatever follows.
  pub from_string_nested :
      (a : Api) (r q rest : Bytes)
      → IsValid a
      → IsPart r
      → IsPart q
      → r ≢ []
      → Lacks b'/' rest
      → All (λ c. not (c == 10 || c == 13) ≡ true) rest
      → from_string b (to_string (record { api = a; remote_name = r ++ b':' ∷ q; name = rest }))
        ≡ ok (record { api = a; remote_name = r; name = q })
  unfolding to_string remote_and_name
  from_string_nested a r q rest v hr hq ne s o =
      ap (from_string b) (nested-to_string a r q rest ne)
      ∙ from_string-slash a v (r ++ b':' ∷ (q ++ b':' ∷ rest))
          (Lacks-append b'/' r (b':' ∷ (q ++ b':' ∷ rest)) hr.no_slash
            ((λ e. cc), Lacks-append b'/' q (b':' ∷ rest) hq.no_slash ((λ e. cc), s)))
          (one_line-append r (b':' ∷ (q ++ b':' ∷ rest)) hr.one_line
            (refl, one_line-append q (b':' ∷ rest) hq.one_line (refl, o)))
      ∙ rw
          (
            b.split_first b':' r (q ++ b':' ∷ rest) hr.no_colon,
            b.split_first b':' q rest hq.no_colon,
          )
          (ground arith)

  -- The text of an API alone passes the test of the expression, and then the checked access to the
  -- part behind the slash throws `std::out_of_range`, not `Exception`.
  pub from_string_no_slash :
      (a : Api) → IsValid a → from_string b (Api.to_string a) ≡ err out_of_range
  unfolding from_string
  from_string_no_slash a v = rw (
    (regex_match_iff _ name_regex).1 (no_rest-Denotes a v),
    b.split_whole b'/' (Api.to_string a) (api-Lacks a v),
    from_string-to_string b a v,
  )
