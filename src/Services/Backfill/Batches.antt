-- ===== src/Services/Backfill/Batches.antt =====
-- app/services/backfill_service.py: what the batches of a backfill hold.
use funding_radar.Base.{
  ℕ, ◌≤◌, ◌<◌, String, ◌≡◌, refl, ◌∙◌, ap, Option, none, some, List, [], ◌∷◌, ◌++◌, arith, leb,
  length, All, length-append, Bool-cases, Option-cases, inl, inr,
}
use mathlib.Core.List.{append_assoc}
use funding_radar.Base.Float.{Floats}
use funding_radar.Collectors.Contract.{NormalizedFundingData}
use funding_radar.Services.Rates.{FundingRate}
use funding_radar.Services.Backfill.{
  TokenIds, ensure_token, row_of, add_to_batch, batches, batch_size,
}

module _ (F : Floats) where
  -- The rows of the records whose token has an id.
  unfoldable pub rows_of :
      (String → Option (Option ℕ))
      → ℕ
      → List (NormalizedFundingData F)
      → TokenIds
      → List (FundingRate F)
  rows_of raced exchange_id [] t = []
  rows_of raced exchange_id (d ∷ rest) t =
      let (t', found) = ensure_token raced d.token t in
      let more = rows_of raced exchange_id rest t' in
      elim found [ none ↦ more | some token_id ↦ row_of F exchange_id token_id d ∷ more ]

  abbrev pub concat : List (List (FundingRate F)) → List (FundingRate F)
  concat [] = []
  concat (b ∷ bs) = b ++ concat bs

  -- Neither empty nor over the limit of the database.
  abbrev pub IsBatch : List (FundingRate F) → Type 0
  IsBatch b = (1 ≤ length b) × (length b ≤ batch_size)

  batches_from :
      (raced : String → Option (Option ℕ)) (exchange_id : ℕ)
      (records : List (NormalizedFundingData F)) (t : TokenIds) (batch : List (FundingRate F))
      → length batch < batch_size
      → (concat (batches F raced exchange_id records t batch).1
          ≡ batch ++ rows_of raced exchange_id records t)
        × All IsBatch (batches F raced exchange_id records t batch).1
  unfolding batches rows_of add_to_batch
  batches_from raced exchange_id [] t [] h = (refl, tt)
  batches_from raced exchange_id [] t (b ∷ bs) h = (refl, ((omega arith, omega arith), tt))
  batches_from raced exchange_id (d ∷ rest) t batch h =
      let t' = (ensure_token raced d.token t).0 in
      elim (Option-cases (ensure_token raced d.token t).1) [
        | inl q ↦ rw (q, batches, rows_of) (batches_from raced exchange_id rest t' batch h)
        | inr (token_id, q) ↦
            let r = row_of F exchange_id token_id d in
            let grown = length-append batch (r ∷ []) in
            elim (Bool-cases (leb batch_size (length (batch ++ r ∷ [])))) [
              | inl full ↦
                  let (same, ok) = batches_from raced exchange_id rest t' [] (omega arith) in
                  rw (q, full, batches, rows_of, add_to_batch)
                    (
                      ap (λ x. (batch ++ r ∷ []) ++ x) same
                          ∙ append_assoc batch (r ∷ []) (rows_of raced exchange_id rest t'),
                      ((omega arith, omega arith), ok),
                    )
              | inr waits ↦
                  let (same, ok) =
                    batches_from raced exchange_id rest t' (batch ++ r ∷ []) (ground arith) in
                  rw (q, waits, batches, rows_of, add_to_batch)
                    (same ∙ append_assoc batch (r ∷ []) (rows_of raced exchange_id rest t'), ok)
            ]
      ]

  -- The batches of a backfill hold, in order, the rows of all the records whose token has an id, and
  -- each has one row or more and no more than the limit.
  pub batches_lem :
      (raced : String → Option (Option ℕ)) (exchange_id : ℕ)
      (records : List (NormalizedFundingData F)) (t : TokenIds)
      → (concat (batches F raced exchange_id records t []).1 ≡ rows_of raced exchange_id records t)
        × All IsBatch (batches F raced exchange_id records t []).1
  batches_lem raced exchange_id records t =
      batches_from raced exchange_id records t [] (omega arith)
