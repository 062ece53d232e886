-- ===== src/Api/Cookies.antt =====
-- Reading a cookie back from the text in which the browser lists the cookies.
use netcheck.Common.{
  ℕ, Bool, true, false, Option, List, [], ◌∷◌, ◌++◌, map, ◌≡◌, ◌≢◌, refl, sym, ap, ◌∙◌, inl, inr,
  Text, codes, text_eq, eq_of_text_eq, starts_with, trim_start, trim, split_from, split, join, drop,
  length, All, append_assoc, if◌then◌else◌, arith, Bool-cases,
}
use netcheck.Api.{decoded_or, first_cookie, read_cookie}

-- A cookie as it is listed.
abbrev pub Cookie : Type 0
Cookie = Text × Text

abbrev pub listed : Cookie → Text
listed (name, value) = name ++ (codes "=" ++ value)

-- `document.cookie`: the cookies with "; " between them.
abbrev pub jar_text : List Cookie → Text
jar_text jar = join (codes "; ") (map listed jar)

abbrev pub Lacks : ℕ → Text → Type 0
Lacks c = All (λ x. x ≢ c)

-- Neither part holds a semicolon, the name holds no "=", and no white space stands around the
-- cookie.
abbrev pub IsCookie : Cookie → Type 0
IsCookie (name, value) =
    Lacks b';' (name ++ (codes "=" ++ value))
    × Lacks b'=' name
    × (trim (name ++ (codes "=" ++ value)) ≡ name ++ (codes "=" ++ value))

-- The value of the first cookie of that name, decoded if it can be.
abbrev pub cookie_value : (Text → Option Text) → Text → List Cookie → Text
cookie_value decode name [] = []
cookie_value decode name ((n, v) ∷ jar) =
    let later = cookie_value decode name jar in
    if text_eq n name then decoded_or (decode v) v else later

-- A piece with no separator in it is split off whole.
split_from-piece :
    (s rest : Text)
    → Lacks b';' s
    → split_from (codes ";") 0 (s ++ (b';' ∷ rest)) ≡ s ∷ split_from (codes ";") 0 rest
unfolding split_from
split_from-piece [] rest h = refl
split_from-piece (c ∷ s) rest (h, hs) = ground (arith, split_from-piece s rest hs)

split_from-last : (s : Text) → Lacks b';' s → split_from (codes ";") 0 s ≡ s ∷ []
unfolding split_from
split_from-last [] h = refl
split_from-last (c ∷ s) (h, hs) = ground (arith, split_from-last s hs)

-- The test of the loop is an equality of names.
starts_with-name :
    (n v name : Text)
    → Lacks b'=' n
    → Lacks b'=' name
    → starts_with (n ++ (b'=' ∷ v)) (name ++ codes "=") ≡ text_eq n name
starts_with-name [] v [] h k = refl
starts_with-name [] v (b ∷ name) h k = ground arith
starts_with-name (a ∷ n) v [] h k = ground arith
starts_with-name (a ∷ n) v (b ∷ name) (h, hs) (k, ks) =
    ground (arith, starts_with-name n v name hs ks)

drop-append : (s t : Text) → drop (length s) (s ++ t) ≡ t
drop-append [] t = refl
drop-append (a ∷ s) t = drop-append s t

trim-space : (s : Text) → trim (b' ' ∷ s) ≡ trim s
unfolding trim trim_start
trim-space s = refl

-- What stands behind the name and "=" of a listed cookie.
behind_name :
    (n v name item : Text)
    → item ≡ n ++ (codes "=" ++ v)
    → text_eq n name ≡ true
    → drop (length (name ++ codes "=")) item ≡ v
behind_name n v name item h e =
    let same = eq_of_text_eq n name e in
    ap (drop (length (name ++ codes "="))) h
    ∙ ap (λ x. drop (length (x ++ codes "=")) (n ++ (codes "=" ++ v))) (sym same)
    ∙ ap (drop (length (n ++ codes "="))) (sym (append_assoc n (codes "=") v))
    ∙ drop-append (n ++ codes "=") v

-- The space in front of all pieces but the first.
abbrev lead : Bool → Text
lead false = []
lead true = b' ' ∷ []

lead-trim : (b : Bool) (s : Text) → trim (lead b ++ s) ≡ trim s
lead-trim false s = refl
lead-trim true s = trim-space s

lead-Lacks : (b : Bool) (s : Text) → Lacks b';' s → Lacks b';' (lead b ++ s)
lead-Lacks false s h = h
lead-Lacks true s h = (omega arith, h)

module _ (decode : Text → Option Text) (name : Text) (plain : Lacks b'=' name) where
  -- One round of the loop at a listed cookie.
  first_cookie-listed :
      (n v raw : Text) (cookies : List Text)
      → trim raw ≡ n ++ (codes "=" ++ v)
      → Lacks b'=' n
      → first_cookie decode (name ++ codes "=") (raw ∷ cookies) ≡ (
          if text_eq n name
          then decoded_or (decode v) v
          else first_cookie decode (name ++ codes "=") cookies)
  unfolding first_cookie
  first_cookie-listed n v raw cookies h k =
      let test : starts_with (trim raw) (name ++ codes "=") ≡ text_eq n name =
        rw h (starts_with-name n v name k plain) in
      elim (Bool-cases (text_eq n name)) [
        | inl e ↦
            rw (test, e) (ap (λ x. decoded_or (decode x) x) (behind_name n v name (trim raw) h e))
        | inr e ↦ rw (test, e)
      ]

  no_more : first_cookie decode (name ++ codes "=") [] ≡ []
  unfolding first_cookie
  no_more = refl

  loop :
      (b : Bool) (c : Cookie) (jar : List Cookie)
      → All IsCookie (c ∷ jar)
      → first_cookie decode (name ++ codes "=") (split (codes ";") (lead b ++ jar_text (c ∷ jar)))
        ≡ cookie_value decode name (c ∷ jar)
  unfolding split
  loop b (n, v) [] ((lacks, name_plain, trimmed), _) =
      let item = n ++ (codes "=" ++ v) in
      ap (first_cookie decode (name ++ codes "="))
        (split_from-last (lead b ++ item) (lead-Lacks b item lacks))
      ∙ first_cookie-listed n v (lead b ++ item) [] (lead-trim b item ∙ trimmed) name_plain
      ∙ ap (λ x. if text_eq n name then decoded_or (decode v) v else x) no_more
  loop b (n, v) (d ∷ jar) ((lacks, name_plain, trimmed), hs) =
      let item = n ++ (codes "=" ++ v) in
      let later = jar_text (d ∷ jar) in
      let cut = split_from-piece (lead b ++ item) (lead true ++ later) (lead-Lacks b item lacks) in
      ap (λ x. first_cookie decode (name ++ codes "=") (split (codes ";") x))
        (sym (append_assoc (lead b) item (codes "; " ++ later)))
      ∙ ap (first_cookie decode (name ++ codes "=")) cut
      ∙ first_cookie-listed n v (lead b ++ item) (split (codes ";") (lead true ++ later))
          (lead-trim b item ∙ trimmed) name_plain
      ∙ ap (λ x. if text_eq n name then decoded_or (decode v) v else x) (loop true d jar hs)

jar_text-shown : (c : Cookie) (jar : List Cookie) → text_eq (jar_text (c ∷ jar)) [] ≡ false
jar_text-shown ([], v) [] = refl
jar_text-shown (a ∷ n, v) [] = refl
jar_text-shown ([], v) (d ∷ jar) = refl
jar_text-shown (a ∷ n, v) (d ∷ jar) = refl

-- Reading a cookie gives the decoded value of the first cookie of that name in the list that the
-- browser shows, its bare value where it cannot be decoded, and the empty text where there is none.
pub read_cookie-jar_text :
    (decode : Text → Option Text) (name : Text) (jar : List Cookie)
    → Lacks b'=' name
    → All IsCookie jar
    → read_cookie decode (jar_text jar) name ≡ cookie_value decode name jar
unfolding read_cookie
read_cookie-jar_text decode name [] plain h = refl
read_cookie-jar_text decode name (c ∷ jar) plain h =
    rw (jar_text-shown c jar) (loop decode name plain false c jar h)
