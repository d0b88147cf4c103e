-- ===== src/Api/Paging.antt =====
-- `xs[offset : offset + limit]`, the pages of the routes in app/api/v1, with the total.
use funding_radar.Base.{
  ℕ, zero, suc, ◌+◌, ◌-◌, min, ◌≡◌, refl, ap, sym, List, [], ◌∷◌, ◌++◌, length, take, drop, arith,
}

-- What a route answers: the items of the page, how many there are in all, and what was asked for.
pub record Page (A : Type 0) : Type 0 where
  pub items : List A
  pub total : ℕ
  pub limit : ℕ
  pub offset : ℕ

abbrev pub page_of : {A : Type 0} → ℕ → ℕ → List A → Page A
page_of limit offset xs = record {
  items = take limit (drop offset xs);
  total = length xs;
  limit = limit;
  offset = offset;
}

module _ {A : Type 0} where
  drop_nil : (n : ℕ) → ◌≡◌ {A = List A} (drop n []) []
  drop_nil zero = refl
  drop_nil (suc n) = refl

  take_nil : (n : ℕ) → ◌≡◌ {A = List A} (take n []) []
  take_nil zero = refl
  take_nil (suc n) = refl

  pub drop_more : (n m : ℕ) (xs : List A) → drop m (drop n xs) ≡ drop (n + m) xs
  drop_more zero m xs = ap (λ k. drop k xs) (omega arith)
  drop_more (suc n) m [] = let e : suc n + m ≡ suc (n + m) = omega arith in rw e (drop_nil m)
  drop_more (suc n) m (x ∷ xs) =
      let e : suc n + m ≡ suc (n + m) = omega arith in rw e (drop_more n m xs)

  pub take_more : (n m : ℕ) (xs : List A) → take n xs ++ take m (drop n xs) ≡ take (n + m) xs
  take_more zero m xs = ap (λ k. take k xs) (omega arith)
  take_more (suc n) m [] = let e : suc n + m ≡ suc (n + m) = omega arith in rw e (take_nil m)
  take_more (suc n) m (x ∷ xs) =
      let e : suc n + m ≡ suc (n + m) = omega arith in rw e (ap (λ ys. x ∷ ys) (take_more n m xs))

  -- A page and the next one are a page of both their limits.
  pub page_of_next :
      (limit more offset : ℕ) (xs : List A)
      → (page_of limit offset xs).items ++ (page_of more (offset + limit) xs).items
        ≡ (page_of (limit + more) offset xs).items
  page_of_next limit more offset xs =
      rw (← drop_more offset limit xs) (take_more limit more (drop offset xs))

  pub drop-take : (o n : ℕ) (xs : List A) → drop o (take n xs) ≡ take (n - o) (drop o xs)
  drop-take zero n xs = ap (λ k. take k xs) (omega arith)
  drop-take (suc o) zero xs = let e : 0 - suc o ≡ 0 = omega arith in rw e refl
  drop-take (suc o) (suc n) [] = sym (take_nil (suc n - suc o))
  drop-take (suc o) (suc n) (x ∷ xs) =
      let e : suc n - suc o ≡ n - o = omega arith in rw e (drop-take o n xs)

  pub take-take : (n m : ℕ) (xs : List A) → take n (take m xs) ≡ take (min n m) xs
  take-take zero m xs = let e : min 0 m ≡ 0 = omega arith in rw e refl
  take-take (suc n) zero xs = let e : min (suc n) 0 ≡ 0 = omega arith in rw e refl
  take-take (suc n) (suc m) [] = sym (take_nil (min (suc n) (suc m)))
  take-take (suc n) (suc m) (x ∷ xs) =
      let e : min (suc n) (suc m) ≡ suc (min n m) = omega arith in
      rw e (ap (λ ys. x ∷ ys) (take-take n m xs))
