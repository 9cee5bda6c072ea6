-- ===== src/Ingest/Reference/Parsed.antt =====
-- internal/ingest/reference.go: a parsed reference has valid segments, and its id parses back.
use redline.Base.{
  String, ◌≡◌, refl, ap, subst, ◌∙◌, inl, inr, true, false, ◌&&◌, Option, none, some, List, [], ◌∷◌,
  arith, str_eq, if◌then◌else◌, Bool-cases, is_empty, str_contains, Bool, not, ◌||◌, ◌≢◌, leb, ltb,
  ◌==◌,
}
use Prim.Native.Char.{Char, code}
use Prim.Native.String.{◌++◌ as str_append}
use text.Mathlib.TextLemmas.{nil-append, cons-append}
use redline.Ingest.Reference.{
  Reference, Url, is_slash, valid_char, all_valid, valid_segment, cut_slash, parse_bare_reference,
  revision_of, reference_of, parse_reference_url, parse_reference, repo_id, split_slash, trim_left,
  trim_right, supported_host,
}

-- A letter or a digit of ASCII, or "-", "_" or ".".
abbrev pub is_permitted : Char → Bool
is_permitted c =
    (leb 65 (code c) && ltb (code c) 91)
    || (leb 97 (code c) && ltb (code c) 123)
    || (leb 48 (code c) && ltb (code c) 58)
    || code c == 45
    || code c == 95
    || code c == 46

abbrev pub is_permitted_text : String → Bool
is_permitted_text String.[] = true
is_permitted_text (String.◌∷◌ c s) = is_permitted c && is_permitted_text s

abbrev pub has_slash : String → Bool
has_slash String.[] = false
has_slash (String.◌∷◌ c s) = code c == 47 || has_slash s

abbrev pub IsSegment : String → Type 0
IsSegment s = (s ≢ "") × (is_permitted_text s ≡ true) × (has_slash s ≡ false)

pub record IsValid (r : Reference) : Type 0 where
  pub owner_valid : IsSegment r.owner
  pub name_valid : IsSegment r.name
  pub revision_valid : IsSegment r.revision

all_valid-is_permitted_text :
    (s : String) → all_valid s ≡ true → (is_permitted_text s ≡ true) × (has_slash s ≡ false)
unfolding all_valid valid_char
all_valid-is_permitted_text String.[] h = (refl, refl)
all_valid-is_permitted_text (String.◌∷◌ c s) h =
    let (a, b) = all_valid-is_permitted_text s (ground (arith, h)) in
    (ground (arith, h, a), ground (arith, h, b))

valid_segment-IsSegment : (s : String) → valid_segment s ≡ true → IsSegment s
unfolding valid_segment
valid_segment-IsSegment s h =
    let (a, b) = all_valid-is_permitted_text s (ground (arith, h)) in
    (λ e. nonempty (subst (λ t. (not (is_empty t) && all_valid t) ≡ true) e h), a, b)
  where
    nonempty : (not (is_empty "") && all_valid "") ≡ true → ⊥
    nonempty e = ground (arith, e)

main_valid : valid_segment "main" ≡ true
unfolding valid_segment
main_valid = refl

abbrev ValidOr : Option Reference → Type 0
ValidOr none = Unit
ValidOr (some r) = IsValid r

revision_of-valid : (ss : List String) → valid_segment (revision_of ss) ≡ true
unfolding revision_of
revision_of-valid [] = main_valid
revision_of-valid (t ∷ []) = main_valid
revision_of-valid (t ∷ r ∷ more) = elim (Bool-cases (str_eq t "tree" && valid_segment r)) [
  | inl e ↦ rw e (ground (arith, e))
  | inr e ↦ rw e main_valid
]

reference_of-ValidOr : (ss : List String) → ValidOr (reference_of ss)
unfolding reference_of
reference_of-ValidOr [] = tt
reference_of-ValidOr (o ∷ []) = tt
reference_of-ValidOr (o ∷ n ∷ more) = elim (Bool-cases (valid_segment o && valid_segment n)) [
  | inl e ↦ rw e (record {
    owner_valid = valid_segment-IsSegment o (ground (arith, e));
    name_valid = valid_segment-IsSegment n (ground (arith, e));
    revision_valid = valid_segment-IsSegment (revision_of more) (revision_of-valid more);
  })
  | inr e ↦ rw e tt
]

parse_bare_reference-ValidOr : (input : String) → ValidOr (parse_bare_reference input)
unfolding parse_bare_reference
parse_bare_reference-ValidOr input = cut (cut_slash input)
  where
    cut :
        (o : Option (String × String))
        → ValidOr (elim o as (λ x. Option Reference) [
          | none ↦ none
          | some (owner, name) ↦
              if valid_segment owner && valid_segment name
              then some (record { owner = owner; name = name; revision = "main" })
              else none
        ])
    cut none = tt
    cut (some (o, n)) = elim (Bool-cases (valid_segment o && valid_segment n)) [
      | inl e ↦ rw e (record {
        owner_valid = valid_segment-IsSegment o (ground (arith, e));
        name_valid = valid_segment-IsSegment n (ground (arith, e));
        revision_valid = valid_segment-IsSegment "main" main_valid;
      })
      | inr e ↦ rw e tt
    ]

parse_reference_url-ValidOr :
    (parse_url : String → Option Url) (input : String)
    → ValidOr (parse_reference_url parse_url input)
unfolding parse_reference_url
parse_reference_url-ValidOr parse_url input = parsed (parse_url input)
  where
    parsed :
        (o : Option Url)
        → ValidOr (elim o as (λ x. Option Reference) [
          | none ↦ none
          | some u ↦
              if str_eq u.scheme "https" && supported_host u.host
              then reference_of (split_slash (trim_right (trim_left u.url_path)))
              else none
        ])
    parsed none = tt
    parsed (some u) = elim (Bool-cases (str_eq u.scheme "https" && supported_host u.host)) [
      | inl e ↦ rw e (reference_of-ValidOr (split_slash (trim_right (trim_left u.url_path))))
      | inr e ↦ rw e tt
    ]

-- The owner, the name and the revision of a reference that parses are each not empty, and of
-- ASCII letters, digits, "-", "_" and "." alone; none has a "/" in it.
pub parse_reference-IsValid :
    (trim : String → String) (parse_url : String → Option Url) (input : String) (r : Reference)
    → parse_reference trim parse_url input ≡ some r
    → IsValid r
unfolding parse_reference
parse_reference-IsValid trim parse_url input r h =
    subst ValidOr h (elim (Bool-cases (is_empty (trim input))) [
      | inl e ↦ rw (e, parse_reference) tt
      | inr e ↦
          rw (e, parse_reference)
            (elim (Bool-cases (str_contains (trim input) "://")) [
              | inl url ↦ rw url (parse_reference_url-ValidOr parse_url (trim input))
              | inr bare ↦ rw bare (parse_bare_reference-ValidOr (trim input))
            ])
    ])

abbrev slash : Char
slash = "/"

valid_char-slash : (c : Char) → valid_char c ≡ true → is_slash c ≡ false
unfolding valid_char
valid_char-slash c h = ground (arith, h)

-- The first "/" after a text without one is found.
cut_slash-append :
    (s rest : String)
    → all_valid s ≡ true
    → cut_slash (str_append s (str_append "/" rest)) ≡ some (s, rest)
unfolding cut_slash all_valid
cut_slash-append String.[] rest h =
    ap cut_slash (nil-append (str_append "/" rest))
    ∙ ap cut_slash (cons-append slash "" rest)
    ∙ ap (λ t. cut_slash (String.◌∷◌ slash t)) (nil-append rest)
cut_slash-append (String.◌∷◌ c s) rest h =
    ap cut_slash (cons-append c s (str_append "/" rest))
    ∙ ground (arith, h, valid_char-slash c, cut_slash-append s rest)

all_valid_segment : (s : String) → valid_segment s ≡ true → all_valid s ≡ true
unfolding valid_segment
all_valid_segment s h = ground (arith, h)

-- The id of a repository whose owner and name are valid parses back to it, at the revision main.
pub parse_bare_reference-repo_id :
    (r : Reference)
    → valid_segment r.owner ≡ true
    → valid_segment r.name ≡ true
    → parse_bare_reference (repo_id r) ≡ some (record r { revision = "main" })
unfolding parse_bare_reference repo_id
parse_bare_reference-repo_id r o n =
    rw (cut_slash-append r.owner r.name (all_valid_segment r.owner o), parse_bare_reference)
      (rw o (rw n refl))
