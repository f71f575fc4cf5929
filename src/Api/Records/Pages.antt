-- ===== src/Api/Records/Pages.antt =====
-- Lists cut into pages.
use teehr_cloud_core.Base.{
  ℕ, zero, suc, ◌+◌, ◌≤◌, ◌≡◌, refl, sym, ap, ◌∙◌, true, false, List, [], ◌∷◌, ◌++◌, arith, eqb,
  length,
}

module _ {A : Type 0} where
  abbrev pub take : ℕ → List A → List A
  take zero xs = []
  take (suc n) [] = []
  take (suc n) (x ∷ xs) = x ∷ take n xs

  abbrev pub drop : ℕ → List A → List A
  drop zero xs = xs
  drop (suc n) [] = []
  drop (suc n) (x ∷ xs) = drop n xs

  pub take-drop : (n : ℕ) (xs : List A) → take n xs ++ drop n xs ≡ xs
  take-drop zero xs = refl
  take-drop (suc n) [] = refl
  take-drop (suc n) (x ∷ xs) = ap (λ l. x ∷ l) (take-drop n xs)

  drop_nil : (n : ℕ) → drop n [] ≡ []
  drop_nil zero = refl
  drop_nil (suc n) = refl

  pub drop-drop : (m n : ℕ) (xs : List A) → drop n (drop m xs) ≡ drop (m + n) xs
  drop-drop zero n xs = ap (λ k. drop k xs) (omega arith)
  drop-drop (suc m) n [] = drop_nil n ∙ sym (drop_nil (suc m + n))
  drop-drop (suc m) n (x ∷ xs) =
      let next : suc m + n ≡ suc (m + n) = omega arith in rw next (drop-drop m n xs)

  pub length-drop : (n : ℕ) (xs : List A) → n ≤ length xs → length xs ≡ n + length (drop n xs)
  length-drop zero xs h = omega arith
  length-drop (suc n) [] h = absurd (omega arith)
  length-drop (suc n) (x ∷ xs) h = let rest = length-drop n xs (omega arith) in omega arith

  -- A short page is the last one.
  pub short_page : (n : ℕ) (xs : List A) → eqb (length (take n xs)) n ≡ false → take n xs ≡ xs
  short_page zero xs h = absurd (ground (arith, h))
  short_page (suc n) [] h = refl
  short_page (suc n) (x ∷ xs) h = ap (λ l. x ∷ l) (short_page n xs (ground (arith, h)))

  pub full_page :
      (n : ℕ) (xs : List A) → eqb (length (take n xs)) n ≡ true → length xs ≡ n + length (drop n xs)
  full_page zero xs h = omega arith
  full_page (suc n) [] h = absurd (ground (arith, h))
  full_page (suc n) (x ∷ xs) h = let rest = full_page n xs (ground (arith, h)) in omega arith
