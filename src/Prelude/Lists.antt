-- ===== src/Prelude/Lists.antt =====
-- Byte buffers: lists measured and indexed by native numbers, under the library's names.
use Prim.Native.Nat.{ℕ, zero, suc, ◌+◌, ◌-◌, ◌≤◌}
use mathlib.Core.Path.{◌≡◌, refl, ap, sym, ◌∙◌}
use mathlib.Core.List.{List, [], ◌∷◌, ◌++◌}
use native.Mathlib.Omega.{arith}

-- Every element satisfies the predicate.
abbrev pub All {ℓ κ} : {A : Type ℓ} → (A → Type κ) → List A → Type κ
All P [] = Unit
All P (x ∷ xs) = P x × All P xs

module _ {ℓ} {A : Type ℓ} where
  abbrev pub length : List A → ℕ
  length [] = 0
  length (x ∷ xs) = suc (length xs)

  abbrev pub get_or : List A → ℕ → A → A
  get_or [] i d = d
  get_or (x ∷ xs) zero d = x
  get_or (x ∷ xs) (suc i) d = get_or xs i d

  abbrev pub take : ℕ → List A → List A
  take zero xs = []
  take (suc n) [] = []
  take (suc n) (x ∷ xs) = x ∷ take n xs

  abbrev pub drop : ℕ → List A → List A
  drop zero xs = xs
  drop (suc n) [] = []
  drop (suc n) (x ∷ xs) = drop n xs

  -- `memcpy(buffer + offset, bytes, length bytes)`; a write past the end is dropped.
  abbrev pub write_at : ℕ → List A → List A → List A
  write_at zero [] buffer = buffer
  write_at zero (b ∷ bs) [] = []
  write_at zero (b ∷ bs) (x ∷ buffer) = b ∷ write_at zero bs buffer
  write_at (suc n) bs [] = []
  write_at (suc n) bs (x ∷ buffer) = x ∷ write_at n bs buffer

  pub length-append : (xs ys : List A) → length (xs ++ ys) ≡ length xs + length ys
  length-append [] ys = omega arith
  length-append (x ∷ xs) ys = omega (arith, length-append xs ys)

  pub length-drop : (n : ℕ) (xs : List A) → length (drop n xs) ≡ length xs - n
  length-drop zero xs = omega arith
  length-drop (suc n) [] = omega arith
  length-drop (suc n) (x ∷ xs) = omega (arith, length-drop n xs)

  pub length-take : (n : ℕ) (xs : List A) → n ≤ length xs → length (take n xs) ≡ n
  length-take zero xs h = refl
  length-take (suc n) [] h = absurd (omega arith)
  length-take (suc n) (x ∷ xs) h = ap suc (length-take n xs (omega arith))

  pub take_all : (xs : List A) → take (length xs) xs ≡ xs
  take_all [] = refl
  take_all (x ∷ xs) = ap (◌∷◌ x) (take_all xs)

  pub take-append : (xs ys : List A) → take (length xs) (xs ++ ys) ≡ xs
  take-append [] ys = refl
  take-append (x ∷ xs) ys = ap (◌∷◌ x) (take-append xs ys)

  pub take-append_add : (xs ys : List A) (n : ℕ) → take (length xs + n) (xs ++ ys) ≡ xs ++ take n ys
  take-append_add [] ys n = ap (λ k. take k ys) e
    where
      e : 0 + n ≡ n
      e = omega arith
  take-append_add (x ∷ xs) ys n =
      ap (λ k. take k (x ∷ xs ++ ys)) e ∙ ap (◌∷◌ x) (take-append_add xs ys n)
    where
      e : suc (length xs) + n ≡ suc (length xs + n)
      e = omega arith

  pub drop-append : (xs ys : List A) → drop (length xs) (xs ++ ys) ≡ ys
  drop-append [] ys = refl
  drop-append (x ∷ xs) ys = drop-append xs ys

  pub length-write_at : (n : ℕ) (bs buffer : List A) → length (write_at n bs buffer) ≡ length buffer
  length-write_at zero [] buffer = refl
  length-write_at zero (b ∷ bs) [] = refl
  length-write_at zero (b ∷ bs) (x ∷ buffer) = ap suc (length-write_at zero bs buffer)
  length-write_at (suc n) bs [] = refl
  length-write_at (suc n) bs (x ∷ buffer) = ap suc (length-write_at n bs buffer)

  -- A write at the end of a written prefix extends the prefix.
  pub write_at-append :
      (xs bs buffer : List A)
      → length bs ≤ length buffer
      → write_at (length xs) bs (xs ++ buffer) ≡ xs ++ bs ++ drop (length bs) buffer
  write_at-append [] [] buffer h = refl
  write_at-append [] (b ∷ bs) [] h = absurd (omega arith)
  write_at-append [] (b ∷ bs) (x ∷ buffer) h =
      ap (◌∷◌ b) (write_at-append [] bs buffer (omega arith))
  write_at-append (x ∷ xs) bs buffer h = ap (◌∷◌ x) (write_at-append xs bs buffer h)

  drop-nil : (n : ℕ) → drop n [] ≡ []
  drop-nil zero = refl
  drop-nil (suc n) = refl

  pub drop-drop : (m n : ℕ) (xs : List A) → drop n (drop m xs) ≡ drop (m + n) xs
  drop-drop zero n xs = ap (λ k. drop k xs) (omega arith)
  drop-drop (suc m) n [] = drop-nil n ∙ sym (drop-nil (suc m + n))
  drop-drop (suc m) n (x ∷ xs) =
      let e : suc (m + n) ≡ suc m + n = omega arith in
      drop-drop m n xs ∙ ap (λ k. drop k (x ∷ xs)) e

  pub append_assoc : (xs ys zs : List A) → (xs ++ ys) ++ zs ≡ xs ++ (ys ++ zs)
  append_assoc [] ys zs = refl
  append_assoc (x ∷ xs) ys zs = ap (◌∷◌ x) (append_assoc xs ys zs)

  pub take-drop : (n : ℕ) (xs : List A) → take n xs ++ drop n xs ≡ xs
  take-drop zero xs = refl
  take-drop (suc n) [] = refl
  take-drop (suc n) (x ∷ xs) = ap (◌∷◌ x) (take-drop n xs)

  take-nil : (n : ℕ) → take n [] ≡ []
  take-nil zero = refl
  take-nil (suc n) = refl

  pub take-append_le : (n : ℕ) (xs ys : List A) → n ≤ length xs → take n (xs ++ ys) ≡ take n xs
  take-append_le zero xs ys h = refl
  take-append_le (suc n) [] ys h = absurd (omega arith)
  take-append_le (suc n) (x ∷ xs) ys h = ap (◌∷◌ x) (take-append_le n xs ys (omega arith))

  pub drop-append_le :
      (n : ℕ) (xs ys : List A) → n ≤ length xs → drop n (xs ++ ys) ≡ drop n xs ++ ys
  drop-append_le zero xs ys h = refl
  drop-append_le (suc n) [] ys h = absurd (omega arith)
  drop-append_le (suc n) (x ∷ xs) ys h = drop-append_le n xs ys (omega arith)

  pub take-take : (m n : ℕ) (xs : List A) → m ≤ n → take m (take n xs) ≡ take m xs
  take-take zero n xs h = refl
  take-take (suc m) zero xs h = absurd (omega arith)
  take-take (suc m) (suc n) [] h = refl
  take-take (suc m) (suc n) (x ∷ xs) h = ap (◌∷◌ x) (take-take m n xs (omega arith))

  pub drop-take : (m n : ℕ) (xs : List A) → drop m (take n xs) ≡ take (n - m) (drop m xs)
  drop-take zero n xs = ap (λ k. take k xs) (omega arith)
  drop-take (suc m) zero xs = ap (λ k. take k (drop (suc m) xs)) e
    where
      e : 0 ≡ zero - suc m
      e = omega arith
  drop-take (suc m) (suc n) [] = sym (take-nil (suc n - suc m))
  drop-take (suc m) (suc n) (x ∷ xs) =
      let e : n - m ≡ suc n - suc m = omega arith in
      drop-take m n xs ∙ ap (λ k. take k (drop m xs)) e

  -- What stands before the end of a write.
  pub take-write_at :
      (n : ℕ) (xs buffer : List A)
      → n + length xs ≤ length buffer
      → take (n + length xs) (write_at n xs buffer) ≡ take n buffer ++ xs
  take-write_at zero [] buffer h = refl
  take-write_at zero (b ∷ bs) [] h = absurd (omega arith)
  take-write_at zero (b ∷ bs) (x ∷ buffer) h =
      ap (λ k. take k (b ∷ write_at zero bs buffer)) e
      ∙ ap (◌∷◌ b) (take-write_at zero bs buffer (omega arith))
    where
      e : zero + suc (length bs) ≡ suc (zero + length bs)
      e = omega arith
  take-write_at (suc n) xs [] h = absurd (omega arith)
  take-write_at (suc n) xs (x ∷ buffer) h =
      ap (λ k. take k (x ∷ write_at n xs buffer)) e
      ∙ ap (◌∷◌ x) (take-write_at n xs buffer (omega arith))
    where
      e : suc n + length xs ≡ suc (n + length xs)
      e = omega arith

  -- A write leaves alone what stands behind it.
  pub drop-write_at :
      (k n : ℕ) (xs buffer : List A)
      → n + length xs ≤ k
      → drop k (write_at n xs buffer) ≡ drop k buffer
  drop-write_at k zero [] buffer h = refl
  drop-write_at zero zero (b ∷ bs) buffer h = absurd (omega arith)
  drop-write_at (suc k) zero (b ∷ bs) [] h = refl
  drop-write_at (suc k) zero (b ∷ bs) (x ∷ buffer) h = drop-write_at k zero bs buffer (omega arith)
  drop-write_at k (suc n) xs [] h = refl
  drop-write_at zero (suc n) xs (x ∷ buffer) h = absurd (omega arith)
  drop-write_at (suc k) (suc n) xs (x ∷ buffer) h = drop-write_at k n xs buffer (omega arith)

  pub length-take_le : (n : ℕ) (xs : List A) → length (take n xs) ≤ n
  length-take_le zero xs = omega arith
  length-take_le (suc n) [] = omega arith
  length-take_le (suc n) (x ∷ xs) = omega (arith, length-take_le n xs)

-- `memset(buffer, 0, n)`
abbrev pub zeros : ℕ → List ℕ
zeros zero = []
zeros (suc n) = 0 ∷ zeros n

pub length-zeros : (n : ℕ) → length (zeros n) ≡ n
length-zeros zero = refl
length-zeros (suc n) = ap suc (length-zeros n)
