-- ===== src/Minipipeline/HttpDiff.antt =====
-- pkg/minipipeline/httpdiff.go: the comparison of the final response with the control's.
use ooni_probe_engine.Prelude.{
  ℕ, zero, suc, ◌/◌, String, Bool, true, false, not, ◌||◌, ◌&&◌, ◌≡◌, refl, Option, none, some,
  List, [], ◌∷◌, leb, ltb, if◌then◌else◌, Bool-cases, arith, str_eq, eq_iff,
}
use ooni_probe_engine.Prelude.Int.{ℤ, pos, negsuc, ltb_ℤ}
use ooni_probe_engine.Prelude.Keys.{int_eq, string_key}
use ooni_probe_engine.Prelude.Golang.{Float64}
use ooni_probe_engine.Minipipeline.Set.{Set, contains}
use ooni_probe_engine.Minipipeline.Marks.{compared, in_both, collect, any_has}
use ooni_probe_engine.Minipipeline.Marks.Laws.{contains-collect_both, contains-collect_one}

-- measurement >= control
unfoldable pub compute_http_diff_body_proportion_factor : (F : Float64) → ℤ → ℤ → F.Float
compute_http_diff_body_proportion_factor F measurement control =
    if not (ltb_ℤ measurement control)
    then F.divide control measurement
    else F.divide measurement control

-- n / 100 on an int64, which rounds towards zero
abbrev neg : ℕ → ℤ
neg zero = pos 0
neg (suc n) = negsuc n

unfoldable pub hundreds : ℤ → ℤ
hundreds (pos n) = pos (n / 100)
hundreds (negsuc n) = neg (suc n / 100)

unfoldable pub compute_http_diff_status_code_match : ℤ → ℤ → Option Bool
unfolding hundreds
compute_http_diff_status_code_match measurement control =
    let good = int_eq control measurement in
    if not good && not (int_eq (hundreds control) (pos 2)) then none else some good

abbrev is_2xx : ℤ → Bool
is_2xx (pos n) = leb 200 n && ltb n 300
is_2xx (negsuc n) = false

neg-is_2 : (n : ℕ) → int_eq (neg n) (pos 2) ≡ false
neg-is_2 zero = ground arith
neg-is_2 (suc n) = refl

hundreds-is_2xx : (code : ℤ) → int_eq (hundreds code) (pos 2) ≡ is_2xx code
unfolding hundreds
hundreds-is_2xx (pos n) = ground arith
hundreds-is_2xx (negsuc n) = neg-is_2 (suc n / 100)

-- Two equal status codes match, whatever they are; two different ones do not match where the
-- control's is between 200 and 299, and are not compared otherwise.
pub compute_http_diff_status_code_match_lem :
    (measurement control : ℤ)
    → compute_http_diff_status_code_match measurement control ≡ (
        if int_eq control measurement
        then some true
        else if is_2xx control
        then some false
        else none)
unfolding compute_http_diff_status_code_match
compute_http_diff_status_code_match_lem measurement control =
    ground (arith, hundreds-is_2xx control, Bool-cases (int_eq control measurement))

abbrev pub http_diff_common_headers : Set String
http_diff_common_headers =
    "date" ∷ "content-type" ∷ "server" ∷ "cache-control" ∷ "vary" ∷ "set-cookie" ∷ "location"
    ∷ "expires" ∷ "x-powered-by" ∷ "content-encoding" ∷ "last-modified" ∷ "accept-ranges" ∷ "pragma"
    ∷ "x-frame-options" ∷ "etag" ∷ "x-content-type-options" ∷ "age" ∷ "via" ∷ "p3p"
    ∷ "x-xss-protection" ∷ "content-language" ∷ "cf-ray" ∷ "strict-transport-security" ∷ "link"
    ∷ "x-varnish" ∷ []

module _ (to_lower : String → String) where
  -- key = strings.ToLower(key); if _, ok := httpDiffCommonHeaders[key]; !ok
  unfoldable pub uncommon_key : String → Option String
  uncommon_key key =
      let lower = to_lower key in
      if contains http_diff_common_headers lower then none else some lower

  unfoldable pub compute_http_diff_uncommon_headers_intersection :
      Set String → Set String → Set String
  unfolding uncommon_key
  compute_http_diff_uncommon_headers_intersection measurement control =
      collect (λ key marks. in_both marks) (compared uncommon_key uncommon_key measurement control)
        []

  -- Some header of the map has the name, up to case.
  unfoldable pub has_header : Set String → String → Bool
  has_header [] name = false
  has_header (key ∷ keys) name = str_eq (to_lower key) name || has_header keys name

  any_has_uncommon :
      (l : Set String) (name : String)
      → any_has uncommon_key l name
        ≡ (not (contains http_diff_common_headers name) && has_header l name)
  unfolding any_has uncommon_key has_header
  any_has_uncommon [] name = ground arith
  any_has_uncommon (key ∷ l) name = ground (
    arith,
    any_has_uncommon l name,
    eq_iff (to_lower key) name,
    Bool-cases (contains http_diff_common_headers (to_lower key)),
  )

  -- A name is in the intersection when it is not one of the common headers and both the probe and
  -- the test helper have a header of that name in lower case.
  pub contains-compute_http_diff_uncommon_headers_intersection :
      (measurement control : Set String) (name : String)
      → contains (compute_http_diff_uncommon_headers_intersection measurement control) name ≡ (
          not (contains http_diff_common_headers name)
          && (has_header measurement name && has_header control name))
  unfolding compute_http_diff_uncommon_headers_intersection
  contains-compute_http_diff_uncommon_headers_intersection measurement control name = ground (
    arith,
    contains-collect_both uncommon_key uncommon_key (λ key. true) measurement control name,
    any_has_uncommon measurement name,
    any_has_uncommon control name,
  )

  module _ (byte_length : String → ℕ) (split_words : String → List String) where
    -- if len(word) >= minWordLength { strings.ToLower(word) }
    unfoldable pub long_word : String → Option String
    long_word word = if leb 5 (byte_length word) then some (to_lower word) else none

    unfoldable pub compute_http_diff_title_different_long_words : String → String → Set String
    unfolding long_word
    compute_http_diff_title_different_long_words measurement control =
        collect (λ key marks. not (in_both marks))
          (compared long_word long_word (split_words measurement) (split_words control)) []

    -- Some word of the title has five bytes or more and is the given one in lower case.
    unfoldable pub has_long_word : List String → String → Bool
    has_long_word [] asked = false
    has_long_word (word ∷ words) asked =
        leb 5 (byte_length word) && str_eq (to_lower word) asked || has_long_word words asked

    any_has_long :
        (l : List String) (asked : String) → any_has long_word l asked ≡ has_long_word l asked
    unfolding any_has long_word has_long_word
    any_has_long [] asked = refl
    any_has_long (word ∷ l) asked =
        ground (arith, any_has_long l asked, Bool-cases (leb 5 (byte_length word)))

    -- A word is among the different ones when exactly one of the two titles has it, in lower case,
    -- as a word of five bytes or more.
    pub contains-compute_http_diff_title_different_long_words :
        (measurement control : String) (word : String)
        → contains (compute_http_diff_title_different_long_words measurement control) word ≡ (
            (has_long_word (split_words measurement) word
              || has_long_word (split_words control) word)
            && not (
                has_long_word (split_words measurement) word
                && has_long_word (split_words control) word))
    unfolding compute_http_diff_title_different_long_words
    contains-compute_http_diff_title_different_long_words measurement control word = ground (
      arith,
      contains-collect_one long_word long_word (split_words measurement) (split_words control) word,
      any_has_long (split_words measurement) word,
      any_has_long (split_words control) word,
    )
