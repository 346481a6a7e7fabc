-- ===== src/Manager/Secrets.antt =====
-- The secret patterns and the canonical time of src/manager/contracts.ts.
use dsh_runtime_kit.Base.{
  ℕ, zero, suc, ◌%◌, String, Bool, true, false, not, ◌&&◌, ◌||◌, List, [], ◌∷◌, ltb, leb, ◌==◌,
  if◌then◌else◌, any, codes, is_digit, is_upper, is_alphanumeric, after_prefix, starts_with_run,
}
use dsh_runtime_kit.Manager.Value.{decimal}

-- `[A-Z ]*PRIVATE KEY-----`, at the head of the text.
unfoldable pub ends_key_header : List ℕ → Bool
unfolding after_prefix is_upper
ends_key_header [] = false
ends_key_header (c ∷ s) =
    after_prefix (codes "PRIVATE KEY-----") (c ∷ s) (λ _. true)
    || ((is_upper c || c == b' ') && ends_key_header s)

abbrev is_word : ℕ → Bool
is_word c = is_alphanumeric c || c == b'_'

-- `gh[pousr]_[A-Za-z0-9_]{4,}`, at the head.
unfoldable pub is_hub_token : List ℕ → Bool
unfolding after_prefix starts_with_run is_alphanumeric
is_hub_token s = after_prefix (codes "gh") s λ t. hub_kind t
  where
    hub_kind : List ℕ → Bool
    hub_kind [] = false
    hub_kind (c ∷ t) =
        any (λ k. c == k) (codes "pousr") && after_prefix (codes "_") t (starts_with_run 4 is_word)

-- The three token patterns, at the head of the text.
unfoldable pub is_token : List ℕ → Bool
unfolding is_hub_token after_prefix starts_with_run is_alphanumeric
is_token s =
    is_hub_token s
    || after_prefix (codes "github_pat_") s (starts_with_run 4 is_word)
    || after_prefix (codes "sk-") s (starts_with_run 4 (λ c. is_word c || c == b'-'))

-- The patterns at any place; a token stands at the start or behind no letter or digit.
unfoldable pub finds_secret : Bool → List ℕ → Bool
unfolding is_token after_prefix ends_key_header is_alphanumeric
finds_secret boundary [] = false
finds_secret boundary (c ∷ s) =
    after_prefix (codes "-----BEGIN ") (c ∷ s) ends_key_header
    || (boundary && is_token (c ∷ s))
    || finds_secret (not (is_alphanumeric c)) s

-- `SECRET_VALUE_PATTERNS.some(pattern => pattern.test(value))`
unfoldable pub is_secret : String → Bool
unfolding finds_secret
is_secret s = finds_secret true (codes s)

-- The number that the digits from position i, n of them, stand for; `none` where one is no digit.
abbrev digits_at : ℕ → ℕ → List ℕ → List ℕ
digits_at zero zero s = []
digits_at zero (suc n) [] = []
digits_at zero (suc n) (c ∷ s) = c ∷ digits_at zero n s
digits_at (suc i) n [] = []
digits_at (suc i) n (c ∷ s) = digits_at i n s

-- The shape of UTC_PATTERN: `d` a digit, any other character itself.
unfoldable pub has_shape : List ℕ → List ℕ → Bool
unfolding is_digit
has_shape [] [] = true
has_shape [] (c ∷ s) = false
has_shape (p ∷ ps) [] = false
has_shape (p ∷ ps) (c ∷ s) = (if p == b'd' then is_digit c else p == c) && has_shape ps s

unfoldable pub days_in_month : ℕ → ℕ → ℕ
days_in_month year month =
    if month == 2
    then (if year % 4 == 0 && (not (year % 100 == 0) || year % 400 == 0) then 29 else 28)
    else if month == 4 || month == 6 || month == 9 || month == 11
    then 30
    else 31

-- UTC_PATTERN, and a day that the calendar has: only then does the date print back as it was read.
unfoldable pub is_utc : String → Bool
unfolding has_shape days_in_month decimal
is_utc s =
    let part = λ (i n : ℕ). decimal 0 (digits_at i n (codes s)) in
    has_shape (codes "dddd-dd-ddTdd:dd:ddZ") (codes s)
    && leb 1 (part 5 2)
    && leb (part 5 2) 12
    && leb 1 (part 8 2)
    && leb (part 8 2) (days_in_month (part 0 4) (part 5 2))
    && ltb (part 11 2) 24
    && ltb (part 14 2) 60
    && ltb (part 17 2) 60
