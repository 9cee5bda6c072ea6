-- ===== src/Tests/Reference.antt =====
-- Witnesses for internal/ingest/reference.go.
use redline.Base.{String, ◌≡◌, refl, true, Option, some, str_contains}
use redline.Ingest.Reference.{
  Reference, Url, parse_reference, parse_bare_reference, repo_id, valid_segment,
}
use redline.Ingest.Reference.Parsed.{IsValid}
use redline.Ingest.Reference.Parsed

abbrev model_url : String → Option Url
model_url s =
    some (record { scheme = "https"; host = "huggingface.co"; url_path = "/org/model/tree/v2/" })

abbrev at_v2 : Reference
at_v2 = record { owner = "org"; name = "model"; revision = "v2" }

parses : parse_reference (λ s. s) model_url "https://huggingface.co/org/model/tree/v2/" ≡ some at_v2
unfolding parse_reference str_contains
parses = refl

parse_reference-IsValid_example : IsValid at_v2
parse_reference-IsValid_example =
    Parsed.parse_reference-IsValid (λ s. s) model_url "https://huggingface.co/org/model/tree/v2/"
      at_v2 parses

org_valid : valid_segment "org" ≡ true
unfolding valid_segment
org_valid = refl

model_valid : valid_segment "model" ≡ true
unfolding valid_segment
model_valid = refl

parse_bare_reference-repo_id_example :
    parse_bare_reference (repo_id at_v2) ≡ some (record at_v2 { revision = "main" })
parse_bare_reference-repo_id_example =
    Parsed.parse_bare_reference-repo_id at_v2 org_valid model_valid
