-- ===== src/Db/Tables/Rows.antt =====
-- Laws of `WHERE` and `ORDER BY`.
use mathlib.Core.List.{Memᴰ}
use carbmq_core.Base.{
  ℕ, ◌≤◌, Bool, true, List, [], ◌∷◌, ◌++◌, ◌≡◌, refl, arith, Bool-cases, inl, inr, All, ap, sym,
  ◌∙◌, leb,
}
use carbmq_core.Db.Tables.{where_rows, order_by, insert_row}

module _ {A : Type 0} where
  pub where_rows-append :
      (test : A → Bool) (xs ys : List A)
      → where_rows test (xs ++ ys) ≡ where_rows test xs ++ where_rows test ys
  unfolding where_rows
  where_rows-append test [] ys = refl
  where_rows-append test (x ∷ xs) ys = elim (Bool-cases (test x)) [
    | inl holds ↦ rw (holds, where_rows-append test xs ys) refl
    | inr fails ↦ rw (fails, where_rows-append test xs ys) refl
  ]

  -- Each row that is selected passes the test.
  pub where_rows-All :
      (test : A → Bool) (xs : List A) → All (λ x. test x ≡ true) (where_rows test xs)
  unfolding where_rows
  where_rows-All test [] = tt
  where_rows-All test (x ∷ xs) = ground (arith, where_rows-All test xs)

  -- What holds of all rows holds of those that are selected.
  pub All-where_rows :
      (P : A → Type 0) (test : A → Bool) (xs : List A) → All P xs → All P (where_rows test xs)
  unfolding where_rows
  All-where_rows P test [] h = tt
  All-where_rows P test (x ∷ xs) h = elim (Bool-cases (test x)) [
    | inl holds ↦ rw holds (h.0, All-where_rows P test xs h.1)
    | inr fails ↦ rw fails (All-where_rows P test xs h.1)
  ]

  pub where_rows-mem :
      (test : A → Bool) (xs : List A) {x : A}
      → Memᴰ x xs
      → test x ≡ true
      → Memᴰ x (where_rows test xs)
  unfolding where_rows
  where_rows-mem test [] m h = elim m [ ]
  where_rows-mem test (y ∷ xs) (Memᴰ.head e) h =
      let holds : test y ≡ true = ap test (sym e) ∙ h in rw holds (Memᴰ.head e)
  where_rows-mem test (y ∷ xs) (Memᴰ.tail m) h =
      let later = where_rows-mem test xs m h in
      elim (Bool-cases (test y)) [
        | inl holds ↦ rw holds (Memᴰ.tail later)
        | inr fails ↦ rw fails later
      ]

  insert_row-All :
      (P : A → Type 0) (before : A → A → Bool) (x : A) (xs : List A)
      → P x
      → All P xs
      → All P (insert_row before x xs)
  unfolding insert_row
  insert_row-All P before x [] p h = (p, tt)
  insert_row-All P before x (y ∷ ys) p h = elim (Bool-cases (before x y)) [
    | inl goes ↦ rw goes (p, h)
    | inr stays ↦ rw stays (h.0, insert_row-All P before x ys p h.1)
  ]

  -- What holds of all rows holds of them in any order.
  pub order_by-All :
      (P : A → Type 0) (before : A → A → Bool) (xs : List A) → All P xs → All P (order_by before xs)
  unfolding order_by
  order_by-All P before [] h = tt
  order_by-All P before (x ∷ xs) h =
      insert_row-All P before x (order_by before xs) h.0 (order_by-All P before xs h.1)

  insert_row-mem_self :
      (before : A → A → Bool) (x : A) (xs : List A) → Memᴰ x (insert_row before x xs)
  unfolding insert_row
  insert_row-mem_self before x [] = Memᴰ.head refl
  insert_row-mem_self before x (y ∷ ys) = elim (Bool-cases (before x y)) [
    | inl goes ↦ rw goes (Memᴰ.head refl)
    | inr stays ↦ rw stays (Memᴰ.tail (insert_row-mem_self before x ys))
  ]

  insert_row-mem :
      (before : A → A → Bool) (x : A) (xs : List A) {z : A}
      → Memᴰ z xs
      → Memᴰ z (insert_row before x xs)
  unfolding insert_row
  insert_row-mem before x [] m = elim m [ ]
  insert_row-mem before x (y ∷ ys) (Memᴰ.head e) = elim (Bool-cases (before x y)) [
    | inl goes ↦ rw goes (Memᴰ.tail (Memᴰ.head e))
    | inr stays ↦ rw stays (Memᴰ.head e)
  ]
  insert_row-mem before x (y ∷ ys) (Memᴰ.tail m) = elim (Bool-cases (before x y)) [
    | inl goes ↦ rw goes (Memᴰ.tail (Memᴰ.tail m))
    | inr stays ↦ rw stays (Memᴰ.tail (insert_row-mem before x ys m))
  ]

  pub order_by-mem :
      (before : A → A → Bool) (xs : List A) {z : A} → Memᴰ z xs → Memᴰ z (order_by before xs)
  unfolding order_by
  order_by-mem before [] m = elim m [ ]
  order_by-mem before (x ∷ xs) (Memᴰ.head e) =
      rw e (insert_row-mem_self before x (order_by before xs))
  order_by-mem before (x ∷ xs) (Memᴰ.tail m) =
      insert_row-mem before x (order_by before xs) (order_by-mem before xs m)

  pub mem-append_left : {x : A} (xs ys : List A) → Memᴰ x xs → Memᴰ x (xs ++ ys)
  mem-append_left [] ys m = elim m [ ]
  mem-append_left (y ∷ xs) ys (Memᴰ.head e) = Memᴰ.head e
  mem-append_left (y ∷ xs) ys (Memᴰ.tail m) = Memᴰ.tail (mem-append_left xs ys m)

  pub mem-append_last : (x : A) (xs : List A) → Memᴰ x (xs ++ x ∷ [])
  mem-append_last x [] = Memᴰ.head refl
  mem-append_last x (y ∷ ys) = Memᴰ.tail (mem-append_last x ys)

-- The rows stand in the order of a number.
module _ {A : Type 0} (key : A → ℕ) where
  abbrev pub IsAscending : List A → Type 0
  IsAscending [] = Unit
  IsAscending (x ∷ xs) = All (λ y. key x ≤ key y) xs × IsAscending xs

  All-le : (n k : ℕ) (xs : List A) → n ≤ k → All (λ y. k ≤ key y) xs → All (λ y. n ≤ key y) xs
  All-le n k [] h a = tt
  All-le n k (x ∷ xs) h a = (omega arith, All-le n k xs h a.1)

  insert_row-IsAscending :
      (x : A) (xs : List A)
      → IsAscending xs
      → IsAscending (insert_row (λ a b. leb (key a) (key b)) x xs)
  unfolding insert_row
  insert_row-IsAscending x [] h = (tt, tt)
  insert_row-IsAscending x (y ∷ ys) h = elim (Bool-cases (leb (key x) (key y))) [
    | inl goes ↦
        let le : key x ≤ key y = ground arith in rw goes ((le, All-le (key x) (key y) ys le h.0), h)
    | inr stays ↦
        let ge : key y ≤ key x = ground arith in
        rw stays (
          insert_row-All (λ z. key y ≤ key z) (λ a b. leb (key a) (key b)) x ys ge h.0,
          insert_row-IsAscending x ys h.1,
        )
  ]

  pub order_by-IsAscending : (xs : List A) → IsAscending (order_by (λ a b. leb (key a) (key b)) xs)
  unfolding order_by
  order_by-IsAscending [] = tt
  order_by-IsAscending (x ∷ xs) =
      insert_row-IsAscending x (order_by (λ a b. leb (key a) (key b)) xs) (order_by-IsAscending xs)
