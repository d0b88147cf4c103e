-- ===== src/Services/Persist/Losses.antt =====
-- app/services/funding_service.py: what the rollback in `_persist_to_db` takes with it. The table has a
-- token under its upper case, and the code looks for it under the symbol as the exchange writes it.
use funding_radar.Base.{
  ℕ, String, ◌≡◌, refl, true, false, Option, none, some, List, [], ◌∷◌, ◌++◌, arith, ◌==◌, by_text,
  by_value, by_parts, All, Bool-cases, Option-cases, inl, inr,
}
use text.Mathlib.TextEquality.{eq_iff}
use funding_radar.Base.Dict.{Dict, lookup, insert, contains, contains-lookup, lookup-insert}
use funding_radar.Base.Text.{upper}
use funding_radar.Base.Float.{Floats}
use funding_radar.Collectors.Contract.{NormalizedFundingData}
use funding_radar.Services.Rates.{key}
use funding_radar.Services.Persist.{
  Tables, Work, exchange_of, flush_token, token_of, noted, row_of, persist_one, persist_all, begin,
}

module _ (F : Floats) where
  -- The exchange is known, the token is not known as it is written, and its upper case is taken.
  record IsDoomed (exchange token : String) (id : ℕ) (w : Work F) : Type 0 where
    known : lookup exchange w.exchange_ids ≡ some id
    unknown : lookup token w.token_ids ≡ none
    taken : contains (upper token) w.session.tokens ≡ true

  contains-insert :
      (k j : String) (v : ℕ) (d : Dict String ℕ)
      → contains j d ≡ true
      → contains j (insert k v d) ≡ true
  contains-insert k j v d h = ground (
    arith,
    eq_iff k j,
    contains-lookup j d,
    contains-lookup j (insert k v d),
    lookup-insert k j v d,
  )

  exchange_of-IsDoomed :
      (slug exchange token : String) (id : ℕ) (w : Work F)
      → IsDoomed exchange token id w
      → IsDoomed exchange token id (exchange_of F slug w).0
  unfolding exchange_of
  exchange_of-IsDoomed slug exchange token id w h =
      elim (Option-cases (lookup slug w.exchange_ids)) [
        | inr (i, q) ↦ rw (q, exchange_of) h
        | inl q ↦
            rw (q, exchange_of)
              (record {
                known =
                    let k = h.known in
                    ground (
                      arith,
                      eq_iff slug exchange,
                      lookup-insert slug exchange w.next_exchange_id w.exchange_ids,
                    );
                unknown = h.unknown;
                taken = h.taken;
              })
      ]

  flush_token-IsDoomed :
      (saved : Tables F) (symbol exchange token : String) (id : ℕ) (w : Work F)
      → contains (upper token) saved.tokens ≡ true
      → IsDoomed exchange token id w
      → IsDoomed exchange token id (flush_token F saved symbol w).0
  unfolding flush_token
  flush_token-IsDoomed saved symbol exchange token id w s h =
      elim (Bool-cases (contains symbol w.session.tokens)) [
        | inl q ↦ rw q (record { known = h.known; unknown = h.unknown; taken = s })
        | inr q ↦ rw q (record {
          known = h.known;
          unknown = h.unknown;
          taken = contains-insert symbol (upper token) w.next_token_id w.session.tokens h.taken;
        })
      ]

  noted-IsDoomed :
      (other exchange token : String) (id : ℕ) (w : Work F) (found : Option ℕ)
      → (other == token) ≡ false
      → IsDoomed exchange token id w
      → IsDoomed exchange token id (noted F other (w, found)).0
  noted-IsDoomed other exchange token id w none n h = h
  noted-IsDoomed other exchange token id w (some i) n h = record {
    known = h.known;
    unknown = rw lookup-insert (rw n h.unknown);
    taken = h.taken;
  }

  token_of-IsDoomed :
      (saved : Tables F) (other exchange token : String) (id : ℕ) (w : Work F)
      → (other == token) ≡ false
      → contains (upper token) saved.tokens ≡ true
      → IsDoomed exchange token id w
      → IsDoomed exchange token id (token_of F saved other w).0
  unfolding token_of
  token_of-IsDoomed saved other exchange token id w n s h =
      let (w', found) = flush_token F saved (upper other) w in
      elim (Option-cases (lookup other w.token_ids)) [
        | inr (i, q) ↦ rw (q, token_of) h
        | inl q ↦
            rw (q, token_of)
              (noted-IsDoomed other exchange token id w' found n
                (flush_token-IsDoomed saved (upper other) exchange token id w s h))
      ]

  persist_one-IsDoomed :
      (saved : Tables F) (b : NormalizedFundingData F) (exchange token : String) (id : ℕ)
      (w : Work F)
      → (b.token == token) ≡ false
      → contains (upper token) saved.tokens ≡ true
      → IsDoomed exchange token id w
      → IsDoomed exchange token id (persist_one F saved b w)
  unfolding persist_one
  persist_one-IsDoomed saved b exchange token id w n s h =
      let w' = (exchange_of F b.exchange w).0 in
      let h' = exchange_of-IsDoomed b.exchange exchange token id w h in
      let h'' = token_of-IsDoomed saved b.token exchange token id w' n s h' in
      elim (Option-cases (token_of F saved b.token w').1) [
        | inl q ↦ rw (q, persist_one) h''
        | inr (i, q) ↦
            rw (q, persist_one)
              (record { known = h''.known; unknown = h''.unknown; taken = h''.taken })
      ]

  persist_all-IsDoomed :
      (saved : Tables F) (before : List (NormalizedFundingData F)) (exchange token : String)
      (id : ℕ) (w : Work F)
      → All (λ (b : NormalizedFundingData F). (b.token == token) ≡ false) before
      → contains (upper token) saved.tokens ≡ true
      → IsDoomed exchange token id w
      → IsDoomed exchange token id (persist_all F saved before w)
  unfolding persist_all
  persist_all-IsDoomed saved [] exchange token id w n s h = h
  persist_all-IsDoomed saved (b ∷ rest) exchange token id w n s h =
      persist_all-IsDoomed saved rest exchange token id (persist_one F saved b w) n.1 s
        (persist_one-IsDoomed saved b exchange token id w n.0 s h)

  exchange_of-known :
      (exchange : String) (id : ℕ) (w : Work F)
      → lookup exchange w.exchange_ids ≡ some id
      → exchange_of F exchange w ≡ (w, id)
  unfolding exchange_of
  exchange_of-known exchange id w h = rw (h, exchange_of) refl

  token_of-taken :
      (saved : Tables F) (token exchange : String) (id token_id : ℕ) (w : Work F)
      → IsDoomed exchange token id w
      → lookup (upper token) saved.tokens ≡ some token_id
      → ((token_of F saved token w).1 ≡ some token_id)
        × ((token_of F saved token w).0.session ≡ saved)
  unfolding token_of flush_token
  token_of-taken saved token exchange id token_id w h f =
      let unknown = h.unknown in
      let taken = h.taken in rw (unknown, taken, f, token_of, flush_token) (refl, refl)

  persist_one-rates :
      (saved : Tables F) (d : NormalizedFundingData F) (id token_id : ℕ) (w : Work F)
      → IsDoomed d.exchange d.token id w
      → lookup (upper d.token) saved.tokens ≡ some token_id
      → (persist_one F saved d w).session.rates
        ≡ insert (key F (row_of F id token_id d)) (row_of F id token_id d) saved.rates
  unfolding persist_one
  persist_one-rates saved d id token_id w h f =
      let (found, back) = token_of-taken saved d.token d.exchange id token_id w h f in
      rw (exchange_of-known d.exchange id w h.known, found, persist_one)
        (rw (exchange_of-known d.exchange id w h.known) (rw back refl))

  persist_all-append :
      (saved : Tables F) (before : List (NormalizedFundingData F)) (d : NormalizedFundingData F)
      (w : Work F)
      → persist_all F saved (before ++ d ∷ []) w
        ≡ persist_one F saved d (persist_all F saved before w)
  unfolding persist_all
  persist_all-append saved [] d w = refl
  persist_all-append saved (b ∷ rest) d w =
      persist_all-append saved rest d (persist_one F saved b w)

  -- Where a snapshot's exchange is known, its token is not in the table as it is written but in upper case,
  -- and no snapshot before it is on the same token: after its turn the session's rates are those from before
  -- the pass and the snapshot's own. What was written for the snapshots before it is gone.
  pub persist_all-loses :
      (saved : Tables F) (next_exchange_id next_token_id : ℕ)
      (before : List (NormalizedFundingData F)) (d : NormalizedFundingData F) (id token_id : ℕ)
      → lookup d.exchange saved.exchanges ≡ some id
      → lookup d.token saved.tokens ≡ none
      → lookup (upper d.token) saved.tokens ≡ some token_id
      → All (λ (b : NormalizedFundingData F). (b.token == d.token) ≡ false) before
      → (persist_all F saved
          (before ++ d ∷ [])
          (begin F next_exchange_id next_token_id saved)).session.rates
        ≡ insert (key F (row_of F id token_id d)) (row_of F id token_id d) saved.rates
  persist_all-loses saved next_exchange_id next_token_id before d id token_id e t f n =
      let w = begin F next_exchange_id next_token_id saved in
      let taken : contains (upper d.token) saved.tokens ≡ true = rw contains-lookup (rw f refl) in
      rw persist_all-append (
        persist_one-rates saved d id token_id (persist_all F saved before w)
          (persist_all-IsDoomed saved before d.exchange d.token id w n taken
            (record { known = e; unknown = t; taken = taken }))
          f)
