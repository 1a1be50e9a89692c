-- ===== src/Seats/Refusal.antt =====
-- When `choose` gives a holder no credential.
use cursor_pulse.Base.{ℕ, ◌≡◌, ◌≢◌, ◌↔◌, refl, true, false, List, [], ◌∷◌, none, arith, All}
use cursor_pulse.Seats.Book.{Seats, Book, expire}
use cursor_pulse.Seats.Choice.{
  Request, holder_on, full, first_free, current_fits, choose_limited, choose_seats, choose, held,
  occupy_all,
}

module _ (q : Request) (now : ℕ) where
  -- Others fill the account, and the holder has no seat there.
  abbrev pub IsShut : Seats → ℕ → Type 0
  IsShut seats account = (full q now seats account ≡ true) × (holder_on q now seats account ≡ false)

  first_free-none :
      (seats : Seats) (ranked : List (ℕ × ℕ))
      → q.release_current ≡ false
      → (first_free q now seats 0 ranked ≡ none) ↔ All (λ p. IsShut seats p.1) ranked
  unfolding first_free
  first_free-none seats [] stay = (λ e. tt, λ a. refl)
  first_free-none seats ((c, a) ∷ ranked) stay =
      let ih = first_free-none seats ranked stay in
      ((λ e. ground (arith, ih.0)), λ h. ground (arith, ih.1 h.1))

  choose_limited-none :
      (seats : Seats) (current : ℕ)
      → q.release_current ≡ false
      → ((choose_limited q now seats current 0).0.assigned_credential_id ≡ none)
        ↔ ((current_fits q now seats current ≡ false) × All (λ p. IsShut seats p.1) q.ranked)
  unfolding choose_limited
  choose_limited-none seats current stay =
      let ih = first_free-none seats q.ranked stay in
      ((λ e. ground (arith, ih.0)), λ h. ground (arith, ih.1 h.1))

-- For a holder that is not pinned, releases nothing and holds no other credential, `choose` with a
-- limit gives no credential exactly when it cannot stay on its current one and every account of the
-- ranking is filled by others, with no seat of its own on it.
pub choose-none :
    (book : Book) (q : Request) (now : ℕ)
    → q.pinned ≡ false
    → q.release_current ≡ false
    → q.max_concurrent ≢ 0
    → q.held_credential_ids ≡ []
    → let seats = (expire book now q.ttl_seconds).seats in
      ((choose book q now).0.assigned_credential_id ≡ none) ↔ (
        (current_fits q now seats q.current_credential_id ≡ false)
        × All (λ p. IsShut q now seats p.1) q.ranked)
unfolding choose choose_seats held occupy_all
choose-none book q now loose stay limited alone =
    let ih =
      choose_limited-none q now (expire book now q.ttl_seconds).seats q.current_credential_id
        stay in
    ((λ e. ground (arith, ih.0)), λ h. ground (arith, ih.1 h))
