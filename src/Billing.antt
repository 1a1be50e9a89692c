-- ===== src/Billing.antt =====
-- pulse/pricing/billing_scope.py: which quota a usage row counts against, by the event's kind and
-- the model's name. Texts are lists of code points; upper, lower and isalnum are those of ASCII.
pub mod Agree
use cursor_pulse.Base.{
  ℕ, ◌-◌, ◌+◌, Bool, true, false, not, ◌&&◌, ◌||◌, List, [], ◌∷◌, ◌++◌, Option, none, some, leb,
  if◌then◌else◌, any,
}
use cursor_pulse.Base.Text.{
  Text, codes, strip, text_eq, lower, starts_with, contains, is_empty, text_or_empty,
}

pub data BillingScope : Type 0 where
  auto_composer api external excluded : BillingScope

-- `token in frozenset({…})`
abbrev pub one_of : Text → List Text → Bool
one_of t = any (text_eq t)

abbrev pub excluded_kind_tokens : List Text
excluded_kind_tokens =
    codes "ERRORED_NOT_CHARGED"
    ∷ codes "ERRORED_NO_CHARGE"
    ∷ codes "ABORTED_NOT_CHARGED"
    ∷ codes "ABORTED_NO_CHARGE"
    ∷ []

abbrev pub free_kind_tokens : List Text
free_kind_tokens = codes "FREE" ∷ codes "FREE_CREDIT" ∷ []

abbrev pub third_party_markers : List Text
third_party_markers =
    codes "glm"
    ∷ codes "minimax"
    ∷ codes "deepseek"
    ∷ codes "qwen"
    ∷ codes "kimi"
    ∷ codes "moonshot"
    ∷ codes "doubao"
    ∷ codes "baichuan"
    ∷ []

unfoldable pub is_digit : ℕ → Bool
is_digit c = leb b'0' c && leb c b'9'

unfoldable pub is_upper : ℕ → Bool
is_upper c = leb b'A' c && leb c b'Z'

unfoldable pub upper_char : ℕ → ℕ
upper_char c = if leb b'a' c && leb c b'z' then c - 32 else c

-- The words of the upper-cased text, joined by `_`. `fresh` says that no word has begun since the
-- last separator, `started` that some word has been written.
unfoldable pub join_words : Bool → Bool → Text → Text
unfolding is_digit is_upper upper_char
join_words started fresh [] = []
join_words started fresh (c ∷ s) =
    let u = upper_char c in
    let in_word = join_words true false s in
    let between = join_words started true s in
    if is_digit u || is_upper u
    then (if started && fresh then b'_' ∷ u ∷ in_word else u ∷ in_word)
    else between

unfoldable pub kind_prefix : Text
kind_prefix = codes "USAGE_EVENT_KIND_"

-- `s[len(p):]` where `s` starts with `p`
unfoldable pub drop_prefix : Text → Text → Text
drop_prefix s [] = s
drop_prefix [] (d ∷ p) = []
drop_prefix (c ∷ s) (d ∷ p) = drop_prefix s p

unfoldable pub normalize_event_kind : Option Text → Text
unfolding join_words kind_prefix drop_prefix strip starts_with
normalize_event_kind kind =
    let raw = strip (text_or_empty kind) in
    let compact = join_words false true raw in
    if is_empty raw
    then []
    else if starts_with compact kind_prefix
    then drop_prefix compact kind_prefix
    else compact

unfoldable pub normalize_cursor_model_name : Option Text → Text
unfolding drop_prefix strip lower starts_with
normalize_cursor_model_name model =
    let model_text = strip (lower (text_or_empty model)) in
    if starts_with model_text (codes "cursor-")
    then drop_prefix model_text (codes "cursor-")
    else model_text

unfoldable pub is_auto_composer_model : Option Text → Bool
unfolding normalize_cursor_model_name starts_with
is_auto_composer_model model =
    let normalized = normalize_cursor_model_name model in
    one_of normalized (codes "auto" ∷ codes "default" ∷ [])
    || starts_with normalized (codes "composer")
    || starts_with normalized (codes "grok")

unfoldable pub is_third_party_model : Option Text → Bool
unfolding strip lower contains
is_third_party_model model =
    let model_text = strip (lower (text_or_empty model)) in
    if is_empty model_text
    then false
    else any (λ marker. contains model_text marker) third_party_markers

unfoldable pub kind_family : Option Text → Text
kind_family kind =
    let token = normalize_event_kind kind in
    if is_empty token
    then codes "unknown"
    else if text_eq token (codes "USER_API_KEY")
    then codes "user_api_key"
    else if one_of token excluded_kind_tokens || one_of token free_kind_tokens
    then codes "excluded"
    else if starts_with token (codes "INCLUDED")
    then codes "included"
    else codes "unknown"

unfoldable pub is_likely_byok_model : Option Text → Bool
unfolding is_third_party_model strip lower contains
is_likely_byok_model model =
    let text = strip (text_or_empty model) in
    if is_empty text || not (is_third_party_model (some text))
    then false
    else if text_eq text (lower text) && contains text (codes "-")
    then false
    else true

pool_for_model : Option Text → BillingScope
pool_for_model model =
    if is_auto_composer_model model
    then auto_composer
    else if is_likely_byok_model model
    then external
    else api

pub pool_for_row : Option Text → Option Text → BillingScope
unfolding pool_for_model strip
pool_for_row model family =
    let stripped = strip (text_or_empty family) in
    let known = if is_empty stripped then codes "unknown" else stripped in
    if text_eq known (codes "user_api_key")
    then external
    else if text_eq known (codes "excluded")
    then excluded
    else if text_eq known (codes "included")
    then (if is_auto_composer_model model then auto_composer else api)
    else pool_for_model model

pub classify_billing_scope : Option Text → Option Text → BillingScope
classify_billing_scope kind model =
    let token = normalize_event_kind kind in
    if one_of token excluded_kind_tokens
    then excluded
    else if text_eq token (codes "USER_API_KEY")
    then external
    else if one_of token free_kind_tokens
    then excluded
    else if is_empty token && is_likely_byok_model model
    then external
    else if is_auto_composer_model model
    then auto_composer
    else api

unfoldable is_cursor_billable_scope : BillingScope → Bool
is_cursor_billable_scope auto_composer = true
is_cursor_billable_scope api = true
is_cursor_billable_scope external = false
is_cursor_billable_scope excluded = false
