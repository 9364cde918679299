-- ===== src/Base/Lists.antt =====
-- C arrays as lists, measured and indexed by native numbers, under the library's names.
use Prim.Native.Nat.{ℕ, zero, suc, ◌+◌, ◌-◌, ◌≤◌, ◌<◌, min}
use mathlib.Core.Path.{◌≡◌, refl, sym, ap, ap₂, ◌∙◌}
use mathlib.Core.Logic.{◌≢◌, ◌⊎◌, inl, inr}
use mathlib.Core.List.{List, [], ◌∷◌, ◌++◌, append_assoc}
use mathlib.Core.Option.{Option, none, some}
use native.Mathlib.Omega.{arith}

module _ {ℓ} {A : Type ℓ} where
  abbrev pub length : List A → ℕ
  length [] = 0
  length (x ∷ xs) = suc (length xs)

  abbrev pub get_elem? : List A → ℕ → Option A
  get_elem? [] i = none
  get_elem? (x ∷ xs) zero = some x
  get_elem? (x ∷ xs) (suc i) = get_elem? xs i

  abbrev pub get_or : List A → ℕ → A → A
  get_or [] i d = d
  get_or (x ∷ xs) zero d = x
  get_or (x ∷ xs) (suc i) d = get_or xs i d

  -- A write out of bounds changes nothing.
  abbrev pub set : List A → ℕ → A → List A
  set [] i v = []
  set (x ∷ xs) zero v = v ∷ xs
  set (x ∷ xs) (suc i) v = x ∷ set xs i v

  abbrev pub take : ℕ → List A → List A
  take zero xs = []
  take (suc n) [] = []
  take (suc n) (x ∷ xs) = x ∷ take n xs

  abbrev pub drop : ℕ → List A → List A
  drop zero xs = xs
  drop (suc n) [] = []
  drop (suc n) (x ∷ xs) = drop n xs

  abbrev pub replicate : ℕ → A → List A
  replicate zero a = []
  replicate (suc n) a = a ∷ replicate n a

  pub length-append : (xs ys : List A) → length (xs ++ ys) ≡ length xs + length ys
  length-append [] ys = omega arith
  length-append (x ∷ xs) ys = omega (arith, length-append xs ys)

  pub length-set : (xs : List A) (i : ℕ) (v : A) → length (set xs i v) ≡ length xs
  length-set [] i v = refl
  length-set (x ∷ xs) zero v = refl
  length-set (x ∷ xs) (suc i) v = ap suc (length-set xs i v)

  pub length-take : (n : ℕ) (xs : List A) → length (take n xs) ≡ min n (length xs)
  length-take zero xs = omega arith
  length-take (suc n) [] = omega arith
  length-take (suc n) (x ∷ xs) = omega (arith, length-take n xs)

  pub length-drop : (n : ℕ) (xs : List A) → length (drop n xs) ≡ length xs - n
  length-drop zero xs = omega arith
  length-drop (suc n) [] = omega arith
  length-drop (suc n) (x ∷ xs) = omega (arith, length-drop n xs)

  pub length-replicate : (n : ℕ) (a : A) → length (replicate n a) ≡ n
  length-replicate zero a = refl
  length-replicate (suc n) a = ap suc (length-replicate n a)

  pub get_elem?-eq-get_or :
      (xs : List A) (i : ℕ) (d : A) → i < length xs → get_elem? xs i ≡ some (get_or xs i d)
  get_elem?-eq-get_or [] i d h = absurd (omega arith)
  get_elem?-eq-get_or (x ∷ xs) zero d h = refl
  get_elem?-eq-get_or (x ∷ xs) (suc i) d h = get_elem?-eq-get_or xs i d (omega arith)

  pub get_elem?_beyond : (xs : List A) (i : ℕ) → length xs ≤ i → get_elem? xs i ≡ none
  get_elem?_beyond [] i h = refl
  get_elem?_beyond (x ∷ xs) zero h = absurd (omega arith)
  get_elem?_beyond (x ∷ xs) (suc i) h = get_elem?_beyond xs i (omega arith)

  pub get_elem?_in : (xs : List A) (i : ℕ) → i < length xs → (a : A) × (get_elem? xs i ≡ some a)
  get_elem?_in [] i h = absurd (omega arith)
  get_elem?_in (x ∷ xs) zero h = (x, refl)
  get_elem?_in (x ∷ xs) (suc i) h = get_elem?_in xs i (omega arith)

  pub lt_of_get_elem? : (xs : List A) (i : ℕ) {a : A} → get_elem? xs i ≡ some a → i < length xs
  lt_of_get_elem? [] i h = absurd (cc)
  lt_of_get_elem? (x ∷ xs) zero h = omega arith
  lt_of_get_elem? (x ∷ xs) (suc i) h = omega (arith, lt_of_get_elem? xs i h)

  pub get_elem?-set_self :
      (xs : List A) (i : ℕ) (v : A) → i < length xs → get_elem? (set xs i v) i ≡ some v
  get_elem?-set_self [] i v h = absurd (omega arith)
  get_elem?-set_self (x ∷ xs) zero v h = refl
  get_elem?-set_self (x ∷ xs) (suc i) v h = get_elem?-set_self xs i v (omega arith)

  -- Putting back what is there changes nothing; the second of two writes counts.
  pub set-get_elem? : (xs : List A) (i : ℕ) (v : A) → get_elem? xs i ≡ some v → set xs i v ≡ xs
  set-get_elem? [] i v h = refl
  set-get_elem? (x ∷ xs) zero v h = cc
  set-get_elem? (x ∷ xs) (suc i) v h = ap (◌∷◌ x) (set-get_elem? xs i v h)

  pub set-set : (xs : List A) (i : ℕ) (v w : A) → set (set xs i v) i w ≡ set xs i w
  set-set [] i v w = refl
  set-set (x ∷ xs) zero v w = refl
  set-set (x ∷ xs) (suc i) v w = ap (◌∷◌ x) (set-set xs i v w)

  pub get_elem?-set_ne :
      (xs : List A) (i j : ℕ) (v : A) → i ≢ j → get_elem? (set xs i v) j ≡ get_elem? xs j
  get_elem?-set_ne [] i j v h = refl
  get_elem?-set_ne (x ∷ xs) zero zero v h = absurd (h refl)
  get_elem?-set_ne (x ∷ xs) zero (suc j) v h = refl
  get_elem?-set_ne (x ∷ xs) (suc i) zero v h = refl
  get_elem?-set_ne (x ∷ xs) (suc i) (suc j) v h = get_elem?-set_ne xs i j v (λ e. h (ap suc e))

  pub take_all : (xs ys : List A) → take (length xs) (xs ++ ys) ≡ xs
  take_all [] ys = refl
  take_all (x ∷ xs) ys = ap (◌∷◌ x) (take_all xs ys)

  pub drop_all : (xs ys : List A) → drop (length xs) (xs ++ ys) ≡ ys
  drop_all [] ys = refl
  drop_all (x ∷ xs) ys = drop_all xs ys

  pub take-append-drop : (n : ℕ) (xs : List A) → take n xs ++ drop n xs ≡ xs
  take-append-drop zero xs = refl
  take-append-drop (suc n) [] = refl
  take-append-drop (suc n) (x ∷ xs) = ap (◌∷◌ x) (take-append-drop n xs)

  pub drop_of_eq : {m n : ℕ} (xs : List A) → m ≡ n → drop m xs ≡ drop n xs
  drop_of_eq xs e = ap (λ k. drop k xs) e

  pub drop_nil : (n : ℕ) → drop n [] ≡ []
  drop_nil zero = refl
  drop_nil (suc n) = refl

  pub drop-drop : (m n : ℕ) (xs : List A) → drop m (drop n xs) ≡ drop (n + m) xs
  drop-drop m zero xs = drop_of_eq xs (omega arith)
  drop-drop m (suc n) [] = rw (drop_nil m, drop_nil (suc n + m))
  drop-drop m (suc n) (x ∷ xs) =
      drop-drop m n xs ∙ drop_of_eq {m = suc (n + m)} {n = suc n + m} (x ∷ xs) (omega arith)

  pub take_full : (n : ℕ) (xs : List A) → length xs ≤ n → take n xs ≡ xs
  take_full zero [] h = refl
  take_full zero (x ∷ xs) h = absurd (omega arith)
  take_full (suc n) [] h = refl
  take_full (suc n) (x ∷ xs) h = ap (◌∷◌ x) (take_full n xs (omega arith))

  pub drop_full : (n : ℕ) (xs : List A) → length xs ≤ n → drop n xs ≡ []
  drop_full zero [] h = refl
  drop_full zero (x ∷ xs) h = absurd (omega arith)
  drop_full (suc n) [] h = refl
  drop_full (suc n) (x ∷ xs) h = drop_full n xs (omega arith)

  -- A write at `i`, seen from the parts before and behind it.
  pub take-set_next :
      (xs : List A) (i : ℕ) (v : A)
      → i < length xs
      → take (suc i) (set xs i v) ≡ take i xs ++ v ∷ []
  take-set_next [] i v h = absurd (omega arith)
  take-set_next (x ∷ xs) zero v h = refl
  take-set_next (x ∷ xs) (suc i) v h = ap (◌∷◌ x) (take-set_next xs i v (omega arith))

  pub drop-set_before : (xs : List A) (i n : ℕ) (v : A) → i < n → drop n (set xs i v) ≡ drop n xs
  drop-set_before [] i n v h = refl
  drop-set_before (x ∷ xs) i zero v h = absurd (omega arith)
  drop-set_before (x ∷ xs) zero (suc n) v h = refl
  drop-set_before (x ∷ xs) (suc i) (suc n) v h = drop-set_before xs i n v (omega arith)

  pub drop-set_behind :
      (xs : List A) (n k : ℕ) (v : A) → drop n (set xs (n + k) v) ≡ set (drop n xs) k v
  drop-set_behind xs zero k v = ap (λ j. set xs j v) {x = zero + k} {y = k} (omega arith)
  drop-set_behind [] (suc n) k v = refl
  drop-set_behind (x ∷ xs) (suc n) k v =
      ap (λ j. drop (suc n) (set (x ∷ xs) j v)) {x = suc n + k} {y = suc (n + k)} (omega arith)
      ∙ drop-set_behind xs n k v

  pub drop_at :
      (xs : List A) (i : ℕ) {v : A} → get_elem? xs i ≡ some v → drop i xs ≡ v ∷ drop (suc i) xs
  drop_at [] i h = absurd (cc)
  drop_at (x ∷ xs) zero h = ground arith
  drop_at (x ∷ xs) (suc i) h = drop_at xs i h

  pub take_one : (n : ℕ) (x : A) (xs : List A) → 0 < n → take n (x ∷ xs) ≡ x ∷ take (n - 1) xs
  take_one zero x xs h = absurd (omega arith)
  take_one (suc n) x xs h = ap (λ k. x ∷ take k xs) {x = n} {y = suc n - 1} (omega arith)

  pub List-cases : (xs : List A) → (xs ≡ []) ⊎ (xs ≢ [])
  List-cases [] = inl refl
  List-cases (x ∷ xs) = inr (λ e. absurd (cc))

  pub length_zero : (xs : List A) → length xs ≡ 0 → xs ≡ []
  length_zero [] h = refl
  length_zero (x ∷ xs) h = absurd (omega arith)

  -- The segment from `h` up to `t`, when a value is written behind it, and without its first value.
  pub take-drop-set :
      (xs : List A) (h t : ℕ) (x : A)
      → h ≤ t
      → t < length xs
      → take (suc (t - h)) (drop h (set xs t x)) ≡ take (t - h) (drop h xs) ++ x ∷ []
  take-drop-set xs h t x le lt =
      let at : t ≡ h + (t - h) = omega arith in
      let moved : drop h (set xs t x) ≡ set (drop h xs) (t - h) x =
        ap (λ j. drop h (set xs j x)) {x = t} {y = h + (t - h)} at
        ∙ drop-set_behind xs h (t - h) x in
      rw moved (take-set_next (drop h xs) (t - h) x (omega (arith, length-drop h xs)))

  pub take-drop_first :
      (xs : List A) (h t : ℕ) {x : A}
      → h < t
      → get_elem? xs h ≡ some x
      → take (t - h) (drop h xs) ≡ x ∷ take (t - (h + 1)) (drop (h + 1) xs)
  take-drop_first xs h t {x} lt e =
      let next : suc h ≡ h + 1 = omega arith in
      let left : t - h - 1 ≡ t - (h + 1) = omega arith in
      rw (drop_at xs h e, take_one (t - h) x (drop (suc h) xs) (omega arith), next, left)

  -- A read behind a prefix.
  pub get_elem?_behind :
      (p xs : List A) (j k : ℕ) → j ≡ length p + k → get_elem? (p ++ xs) j ≡ get_elem? xs k
  get_elem?_behind [] xs j k e = ap (get_elem? xs) {x = j} {y = k} (omega arith)
  get_elem?_behind (x ∷ p) xs zero k e = absurd (omega arith)
  get_elem?_behind (x ∷ p) xs (suc j) k e = get_elem?_behind p xs j k (omega arith)

  -- A read within a prefix.
  pub get_elem?_before :
      (p xs : List A) (j : ℕ) → j < length p → get_elem? (p ++ xs) j ≡ get_elem? p j
  get_elem?_before [] xs j h = absurd (omega arith)
  get_elem?_before (x ∷ p) xs zero h = refl
  get_elem?_before (x ∷ p) xs (suc j) h = get_elem?_before p xs j (omega arith)

  -- The same list cut at two places.
  pub append-longer :
      (u r f g : List A)
      → u ++ r ≡ f ++ g
      → length f ≤ length u
      → (v : List A) × (u ≡ f ++ v) × (v ++ r ≡ g)
  append-longer u r [] g e h = (u, refl, e)
  append-longer [] r (x ∷ f) g e h = absurd (omega arith)
  append-longer (y ∷ u) r (x ∷ f) g e h =
      let (v, eu, ev) = append-longer u r f g (cc) (omega arith) in
      let same : y ≡ x = cc in (v, ap₂ ◌∷◌ same eu, ev)

  pub take-take : (n : ℕ) (xs ys : List A) → n ≤ length xs → take n (take n xs ++ ys) ≡ take n xs
  take-take zero xs ys h = refl
  take-take (suc n) [] ys h = absurd (omega arith)
  take-take (suc n) (x ∷ xs) ys h = ap (◌∷◌ x) (take-take n xs ys (omega arith))

  pub take_both :
      (n : ℕ) (p c ys : List A) → n ≡ length p + length c → take n (p ++ (c ++ ys)) ≡ p ++ c
  take_both n p c ys e =
      let at : n ≡ length (p ++ c) = omega (arith, length-append p c) in
      ap (take n) (sym (append_assoc p c ys))
      ∙ (ap (λ k. take k ((p ++ c) ++ ys)) at ∙ take_all (p ++ c) ys)

  pub get_elem?-drop :
      (n : ℕ) (xs : List A) (k : ℕ) → get_elem? xs (n + k) ≡ get_elem? (drop n xs) k
  get_elem?-drop zero xs k = ap (get_elem? xs) {x = zero + k} {y = k} (omega arith)
  get_elem?-drop (suc n) [] k = get_elem?_beyond [] (suc n + k) (omega arith)
  get_elem?-drop (suc n) (x ∷ xs) k =
      ap (get_elem? (x ∷ xs)) {x = suc n + k} {y = suc (n + k)} (omega arith)
      ∙ get_elem?-drop n xs k

module _ {ℓ κ} {A : Type ℓ} {B : Type κ} (f : A → List B) where
  abbrev pub concat_map : List A → List B
  concat_map [] = []
  concat_map (x ∷ xs) = f x ++ concat_map xs

  pub concat_map-append : (xs ys : List A) → concat_map (xs ++ ys) ≡ concat_map xs ++ concat_map ys
  concat_map-append [] ys = refl
  concat_map-append (x ∷ xs) ys =
      ap (λ zs. f x ++ zs) (concat_map-append xs ys)
      ∙ sym (append_assoc (f x) (concat_map xs) (concat_map ys))
