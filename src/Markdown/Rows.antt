-- ===== src/Markdown/Rows.antt =====
-- The assignment to a place of a list, against reading, cutting and measuring it.
use clued.Base.{
  ℕ, zero, suc, ◌+◌, ◌≡◌, refl, ap, subst, ◌∙◌, some, List, [], ◌∷◌, arith, take, drop, length,
  get_elem?, All,
}
use clued.Markdown.{set_at}

module _ {ℓ} {A : Type ℓ} where
  pub get_elem?-take :
      (m r : ℕ) (xs : List A) (x : A) → get_elem? (take m xs) r ≡ some x → get_elem? xs r ≡ some x
  get_elem?-take zero r xs x h = cc
  get_elem?-take (suc m) r [] x h = h
  get_elem?-take (suc m) zero (y ∷ xs) x h = h
  get_elem?-take (suc m) (suc r) (y ∷ xs) x h = get_elem?-take m r xs x h

  pub get_elem?-drop : (q r : ℕ) (xs : List A) → get_elem? (drop q xs) r ≡ get_elem? xs (q + r)
  get_elem?-drop zero r xs = let e : r ≡ 0 + r = omega arith in ap (λ n. get_elem? xs n) e
  get_elem?-drop (suc q) r [] = refl
  get_elem?-drop (suc q) r (y ∷ xs) =
      let e : suc (q + r) ≡ suc q + r = omega arith in
      get_elem?-drop q r xs ∙ ap (λ n. get_elem? (y ∷ xs) n) e

  pub take-set_at :
      (m r : ℕ) (y : A) (xs : List A) → take m (set_at r y xs) ≡ set_at r y (take m xs)
  unfolding set_at
  take-set_at zero r y xs = refl
  take-set_at (suc m) r y [] = refl
  take-set_at (suc m) zero y (x ∷ xs) = refl
  take-set_at (suc m) (suc r) y (x ∷ xs) = ap (λ t. x ∷ t) (take-set_at m r y xs)

  pub drop-set_at :
      (q r : ℕ) (y : A) (xs : List A) → drop q (set_at (q + r) y xs) ≡ set_at r y (drop q xs)
  unfolding set_at
  drop-set_at zero r y xs = let e : 0 + r ≡ r = omega arith in ap (λ n. set_at n y xs) e
  drop-set_at (suc q) r y [] = refl
  drop-set_at (suc q) r y (x ∷ xs) =
      let e : suc q + r ≡ suc (q + r) = omega arith in
      ap (λ n. drop (suc q) (set_at n y (x ∷ xs))) e ∙ drop-set_at q r y xs

  pub length-set_at : (r : ℕ) (y : A) (xs : List A) → length (set_at r y xs) ≡ length xs
  unfolding set_at
  length-set_at r y [] = refl
  length-set_at zero y (x ∷ xs) = refl
  length-set_at (suc r) y (x ∷ xs) = ap suc (length-set_at r y xs)

  pub All-set_at {κ} :
      (P : A → Type κ) (r : ℕ) (y : A) (xs : List A) → P y → All P xs → All P (set_at r y xs)
  unfolding set_at
  All-set_at P r y [] p h = h
  All-set_at P zero y (x ∷ xs) p (q, h) = (p, h)
  All-set_at P (suc r) y (x ∷ xs) p (q, h) = (q, All-set_at P r y xs p h)

  pub All-get_elem? {κ} :
      (P : A → Type κ) (r : ℕ) (xs : List A) (x : A) → All P xs → get_elem? xs r ≡ some x → P x
  All-get_elem? P r [] x h e = cc
  All-get_elem? P zero (y ∷ xs) x (p, h) e = let same : y ≡ x = cc in subst P same p
  All-get_elem? P (suc r) (y ∷ xs) x (p, h) e = All-get_elem? P r xs x h e
