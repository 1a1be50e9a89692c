-- ===== src/Billing/Agree.antt =====
-- The analytics bucket of a daily row against the billing scope of its event.
use cursor_pulse.Base.{◌≡◌, ◌≢◌, refl, false, Option, some, if◌then◌else◌, Bool-cases, inl, inr}
use cursor_pulse.Base.Text.{Text, codes, is_empty, text_eq, text_eq_iff, starts_with}
use cursor_pulse.Billing.{
  auto_composer, api, external, excluded, is_auto_composer_model, kind_family, normalize_event_kind,
  pool_for_row, classify_billing_scope, one_of, excluded_kind_tokens, free_kind_tokens,
}

module _ (model : Option Text) where
  user_api_key_row : pool_for_row model (some (codes "user_api_key")) ≡ external
  unfolding pool_for_row
  user_api_key_row = refl

  excluded_row : pool_for_row model (some (codes "excluded")) ≡ excluded
  unfolding pool_for_row
  excluded_row = refl

  included_row :
      pool_for_row model (some (codes "included"))
      ≡ (if is_auto_composer_model model then auto_composer else api)
  unfolding pool_for_row
  included_row = refl

user_api_key_scope :
    (kind model : Option Text)
    → normalize_event_kind kind ≡ codes "USER_API_KEY"
    → classify_billing_scope kind model ≡ external
unfolding classify_billing_scope
user_api_key_scope kind model e = rw e

user_api_key_family :
    (kind : Option Text)
    → normalize_event_kind kind ≡ codes "USER_API_KEY"
    → kind_family kind ≡ codes "user_api_key"
unfolding kind_family
user_api_key_family kind e = rw e

other_family :
    (kind model : Option Text)
    → text_eq (normalize_event_kind kind) (codes "USER_API_KEY") ≡ false
    → kind_family kind ≢ codes "unknown"
    → pool_for_row model (some (kind_family kind)) ≡ classify_billing_scope kind model
unfolding kind_family classify_billing_scope
other_family kind model other known =
    let token = normalize_event_kind kind in
    elim (Bool-cases (is_empty token)) [
      | inl e ↦ absurd (known (rw e))
      | inr e ↦ elim (Bool-cases (one_of token excluded_kind_tokens)) [
        | inl x ↦ rw (e, other, x) (excluded_row model)
        | inr x ↦ elim (Bool-cases (one_of token free_kind_tokens)) [
          | inl f ↦ rw (e, other, x, f) (excluded_row model)
          | inr f ↦ elim (Bool-cases (starts_with token (codes "INCLUDED"))) [
            | inl s ↦ rw (e, other, x, f, s) (included_row model)
            | inr s ↦ absurd (known (rw (e, other, x, f, s)))
          ]
        ]
      ]
    ]

-- Whenever the kind of an event is known, a daily row that keeps only the kind's family falls into
-- the bucket that the event itself is billed under, whatever the model.
pub pool_for_row-kind_family :
    (kind model : Option Text)
    → kind_family kind ≢ codes "unknown"
    → pool_for_row model (some (kind_family kind)) ≡ classify_billing_scope kind model
pool_for_row-kind_family kind model known =
    elim (Bool-cases (text_eq (normalize_event_kind kind) (codes "USER_API_KEY"))) [
      | inl p ↦
          let e = (text_eq_iff (normalize_event_kind kind) _).0 p in
          rw (user_api_key_family kind e, user_api_key_scope kind model e) (user_api_key_row model)
      | inr p ↦ other_family kind model p known
    ]
