-- ===== src/Sequence/Lists.antt =====
-- Inserting into a list and removing from it, item by item.
use ruwren.Prelude.{
  ℕ, zero, suc, ◌+◌, ◌-◌, ◌≤◌, ◌<◌, ◌≡◌, refl, ◌∙◌, ap, List, [], ◌∷◌, ◌++◌, arith, ltb, leb, ◌==◌,
  if◌then◌else◌, if_split, length, length-append, length-set, get_or, get_or-set, set, take,
}
use ruwren.Sequence.{
  Buffer, buffer_fill, buffer_write, shift_down, list_insert, shift_up, list_remove_at,
}

module _ {A : Type 0} where
  length-shift_down :
      (i index : ℕ) (xs : List A) (d : A) → length (shift_down i index xs d) ≡ length xs
  unfolding shift_down
  length-shift_down zero index xs d = refl
  length-shift_down (suc i) index xs d =
      if_split {A = List A} (λ r. length r ≡ length xs) (ltb index (suc i))
        (λ _.
          length-shift_down i index (set xs (suc i) (get_or xs i d)) d
          ∙ length-set xs (suc i) (get_or xs i d))
        (λ _. refl)

  get_or-shift_down :
      (i index : ℕ) (xs : List A) (d : A) (j : ℕ)
      → i < length xs
      → get_or (shift_down i index xs d) j d ≡ (
          if ltb index j
          then if leb j i then get_or xs (j - 1) d else get_or xs j d
          else get_or xs j d)
  unfolding shift_down
  get_or-shift_down zero index xs d j h = ground arith
  get_or-shift_down (suc i) index xs d j h =
      let len = length-set xs (suc i) (get_or xs i d) in
      let shifted = set xs (suc i) (get_or xs i d) in
      let ih = get_or-shift_down i index shifted d j (omega (arith, len)) in
      let at = get_or-set xs (suc i) j (get_or xs i d) d h in
      let before = get_or-set xs (suc i) (j - 1) (get_or xs i d) d h in
      if_split {A = List A}
        (λ r. get_or r j d ≡ (
          if ltb index j
          then if leb j (suc i) then get_or xs (j - 1) d else get_or xs j d
          else get_or xs j d))
        (ltb index (suc i)) (λ lt. ih ∙ rw (at, before) (ground arith)) (λ ge. ground arith)

  get_or-padded : (xs : List A) (j : ℕ) (d : A) → get_or (xs ++ d ∷ []) j d ≡ get_or xs j d
  get_or-padded [] zero d = refl
  get_or-padded [] (suc j) d = refl
  get_or-padded (x ∷ xs) zero d = refl
  get_or-padded (x ∷ xs) (suc j) d = get_or-padded xs j d

  length-shift_up : (fuel i : ℕ) (xs : List A) (d : A) → length (shift_up fuel i xs d) ≡ length xs
  unfolding shift_up
  length-shift_up zero i xs d = refl
  length-shift_up (suc fuel) i xs d =
      length-shift_up fuel (suc i) (set xs i (get_or xs (suc i) d)) d
      ∙ length-set xs i (get_or xs (suc i) d)

  get_or-shift_up :
      (fuel i : ℕ) (xs : List A) (d : A) (j : ℕ)
      → i + fuel < length xs
      → get_or (shift_up fuel i xs d) j d ≡ (
          if leb i j
          then if ltb j (i + fuel) then get_or xs (j + 1) d else get_or xs j d
          else get_or xs j d)
  unfolding shift_up
  get_or-shift_up zero i xs d j h = ground arith
  get_or-shift_up (suc fuel) i xs d j h =
      let len = length-set xs i (get_or xs (suc i) d) in
      let shifted = set xs i (get_or xs (suc i) d) in
      let ih = get_or-shift_up fuel (suc i) shifted d j (omega (arith, len)) in
      let at = get_or-set xs i j (get_or xs (suc i) d) d (omega arith) in
      let after = get_or-set xs i (j + 1) (get_or xs (suc i) d) d (omega arith) in
      ih ∙ rw (at, after) (ground arith)

  get_or-take :
      (n : ℕ) (xs : List A) (j : ℕ) (d : A) → j < n → get_or (take n xs) j d ≡ get_or xs j d
  get_or-take zero xs j d h = absurd (omega arith)
  get_or-take (suc n) [] j d h = refl
  get_or-take (suc n) (x ∷ xs) zero d h = refl
  get_or-take (suc n) (x ∷ xs) (suc j) d h = get_or-take n xs j d (omega arith)

  length-take : (n : ℕ) (xs : List A) → n ≤ length xs → length (take n xs) ≡ n
  length-take zero xs h = refl
  length-take (suc n) [] h = absurd (omega arith)
  length-take (suc n) (x ∷ xs) h = ap suc (length-take n xs (omega arith))

  -- Inserting at an index that is at most the length gives a list that is one longer: at each
  -- index up to the old length stands the old item in front of the index, the value at the index,
  -- and behind it the old item from one place lower.
  pub list_insert-items :
      (null : A) (b : Buffer A) (value : A) (index j : ℕ)
      → index ≤ length b.data_
      → j ≤ length b.data_
      → (length (list_insert null b value index).data_ ≡ length b.data_ + 1)
        × (get_or (list_insert null b value index).data_ j null ≡ (
            if j == index
            then value
            else if ltb index j
            then get_or b.data_ (j - 1) null
            else get_or b.data_ j null))
  unfolding list_insert buffer_write buffer_fill
  list_insert-items null b value index j h k =
      let xs = b.data_ in
      let wide = xs ++ null ∷ [] in
      let len = length-append xs (null ∷ []) in
      let n = length wide - 1 in
      let down = shift_down n index wide null in
      let len' = length-shift_down n index wide null in
      let at = get_or-set down index j value null (omega (arith, len, len')) in
      let moved = get_or-shift_down n index wide null j (omega (arith, len)) in
      (
        length-set down index value ∙ len' ∙ len,
        at
            ∙ rw (moved, get_or-padded xs j null, get_or-padded xs (j - 1) null)
                (ground (arith, len)),
      )

  -- Removing at an index below the length gives the item that was there and a list that is one
  -- shorter: at each index of the new list stands the old item in front of the index, and from the
  -- index on the old item from one place higher.
  pub list_remove_at-items :
      (null : A) (b : Buffer A) (index j : ℕ)
      → index < length b.data_
      → j + 1 < length b.data_
      → ((list_remove_at null b index).0 ≡ get_or b.data_ index null)
        × (length (list_remove_at null b index).1.data_ + 1 ≡ length b.data_)
        × (get_or (list_remove_at null b index).1.data_ j null
            ≡ (if ltb j index then get_or b.data_ j null else get_or b.data_ (j + 1) null))
  unfolding list_remove_at
  list_remove_at-items null b index j h k =
      let xs = b.data_ in
      let up = shift_up (length xs - 1 - index) index xs null in
      let len = length-shift_up (length xs - 1 - index) index xs null in
      let len' = length-take (length xs - 1) up (omega (arith, len)) in
      let moved = get_or-shift_up (length xs - 1 - index) index xs null j (omega arith) in
      (
        refl,
        omega (arith, len'),
        get_or-take (length xs - 1) up j null (omega arith) ∙ moved ∙ ground arith,
      )
