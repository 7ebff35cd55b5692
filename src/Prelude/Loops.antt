-- ===== src/Prelude/Loops.antt =====
-- Laws of the list loops: what their results hold, and what stays when the array grows.
use Prim.Native.Nat.{ℕ, zero, suc, ◌+◌, ◌-◌, ◌≤◌, ◌<◌}
use mathlib.Core.Path.{◌≡◌, refl, ap, sym}
use mathlib.Core.Logic.{◌≢◌, inl, inr}
use mathlib.Core.Bool.{Bool, true, false}
use mathlib.Core.List.{List, [], ◌∷◌, ◌++◌, map, Memᴰ, append_assoc}
use mathlib.Core.Option.{none, some}
use native.Mathlib.Omega.{arith}
use mmxm.Prelude.Tests.{Bool-cases, ◌==◌}
use mmxm.Prelude.Lists.{
  length, get_elem?, take, drop, filter, any, find, All, flat_map, count_from, last, replicate,
  insert_by, sort_by, Distinct,
}

module _ {ℓ} {A : Type ℓ} where
  pub length-append : (xs ys : List A) → length (xs ++ ys) ≡ length xs + length ys
  length-append [] ys = omega arith
  length-append (x ∷ xs) ys = omega (arith, length-append xs ys)

  -- A read inside the old array is not changed by what is appended.
  pub get_elem?-append :
      (xs ys : List A) (i : ℕ) → i < length xs → get_elem? (xs ++ ys) i ≡ get_elem? xs i
  get_elem?-append [] ys i h = elim h [ ]
  get_elem?-append (x ∷ xs) ys zero h = refl
  get_elem?-append (x ∷ xs) ys (suc i) h = get_elem?-append xs ys i (omega arith)

  pub get_elem?-lt : (xs : List A) (i : ℕ) → i < length xs → (x : A) × (get_elem? xs i ≡ some x)
  get_elem?-lt [] i h = elim h [ ]
  get_elem?-lt (x ∷ xs) zero h = (x, refl)
  get_elem?-lt (x ∷ xs) (suc i) h = get_elem?-lt xs i (omega arith)

  pub lt_of_get_elem? : (xs : List A) (i : ℕ) {x : A} → get_elem? xs i ≡ some x → i < length xs
  lt_of_get_elem? [] i e = cc
  lt_of_get_elem? (x ∷ xs) zero e = omega arith
  lt_of_get_elem? (x ∷ xs) (suc i) e = omega (arith, lt_of_get_elem? xs i e)

  pub All-append {κ} : (P : A → Type κ) (xs ys : List A) → All P xs → All P ys → All P (xs ++ ys)
  All-append P [] ys p q = q
  All-append P (x ∷ xs) ys (p, ps) q = (p, All-append P xs ys ps q)

  pub All-mem {κ} : (P : A → Type κ) {x : A} (xs : List A) → All P xs → Memᴰ x xs → P x
  All-mem P [] _ m = elim m [ ]
  All-mem P (x ∷ xs) (p, ps) (Memᴰ.head e) = rw e p
  All-mem P (x ∷ xs) (p, ps) (Memᴰ.tail m) = All-mem P xs ps m

  pub All-filter {κ} :
      (P : A → Type κ) (p : A → Bool) (xs : List A) → All P xs → All P (filter p xs)
  All-filter P p [] h = tt
  All-filter P p (x ∷ xs) (h, hs) = elim (Bool-cases (p x)) [
    | inl e ↦ rw e (h, All-filter P p xs hs)
    | inr e ↦ rw e (All-filter P p xs hs)
  ]

  -- A filter keeps only what passes its test.
  pub filter-All : (p : A → Bool) (xs : List A) → All (λ x. p x ≡ true) (filter p xs)
  filter-All p [] = tt
  filter-All p (x ∷ xs) = elim (Bool-cases (p x)) [
    | inl e ↦ rw e (e, filter-All p xs)
    | inr e ↦ rw e (filter-All p xs)
  ]

  pub All-map' {κ μ} :
      {P : A → Type κ} {Q : A → Type μ} (xs : List A) → ((x : A) → P x → Q x) → All P xs → All Q xs
  All-map' [] f h = tt
  All-map' (x ∷ xs) f (h, hs) = (f x h, All-map' xs f hs)

  pub All-map₂ {κ μ ν} :
      {P : A → Type κ} {Q : A → Type μ} {R : A → Type ν} (xs : List A)
      → ((x : A) → P x → Q x → R x)
      → All P xs
      → All Q xs
      → All R xs
  All-map₂ [] f h k = tt
  All-map₂ (x ∷ xs) f (h, hs) (k, ks) = (f x h k, All-map₂ xs f hs ks)

  pub All-of_mem {κ} : {P : A → Type κ} (xs : List A) → ((x : A) → Memᴰ x xs → P x) → All P xs
  All-of_mem [] h = tt
  All-of_mem (x ∷ xs) h = (h x (Memᴰ.head refl), All-of_mem xs (λ y m. h y (Memᴰ.tail m)))

  pub mem-filter :
      (p : A → Bool) {x : A} (xs : List A) → Memᴰ x xs → p x ≡ true → Memᴰ x (filter p xs)
  mem-filter p [] m h = elim m [ ]
  mem-filter p (y ∷ xs) (Memᴰ.head e) h = rw (← e, h) (Memᴰ.head refl)
  mem-filter p (y ∷ xs) (Memᴰ.tail m) h = elim (Bool-cases (p y)) [
    | inl k ↦ rw k (Memᴰ.tail (mem-filter p xs m h))
    | inr k ↦ rw k (mem-filter p xs m h)
  ]

  pub mem-append_left : {x : A} (xs ys : List A) → Memᴰ x xs → Memᴰ x (xs ++ ys)
  mem-append_left [] ys m = elim m [ ]
  mem-append_left (y ∷ xs) ys (Memᴰ.head e) = Memᴰ.head e
  mem-append_left (y ∷ xs) ys (Memᴰ.tail m) = Memᴰ.tail (mem-append_left xs ys m)

  pub mem-append_right : {x : A} (xs ys : List A) → Memᴰ x ys → Memᴰ x (xs ++ ys)
  mem-append_right [] ys m = m
  mem-append_right (y ∷ xs) ys m = Memᴰ.tail (mem-append_right xs ys m)

  -- `find` gives an element of the list that passes the test.
  pub find_sound :
      (p : A → Bool) (xs : List A) {x : A} → find p xs ≡ some x → (p x ≡ true) × Memᴰ x xs
  find_sound p [] e = cc
  find_sound p (y ∷ xs) {x} e = elim (Bool-cases (p y)) [
    | inl h ↦ let same : y ≡ x = ground arith in (rw (← same) h, Memᴰ.head (sym same))
    | inr h ↦ let (q, m) = find_sound p xs (ground arith) in (q, Memᴰ.tail m)
  ]

  -- `find` gives none where no element passes the test.
  pub find-none : (p : A → Bool) (xs : List A) → find p xs ≡ none → All (λ x. p x ≡ false) xs
  find-none p [] e = tt
  find-none p (x ∷ xs) e = elim (Bool-cases (p x)) [
    | inl h ↦ let bad : some x ≡ none = rw h at e in cc
    | inr h ↦ (h, find-none p xs (rw h at e))
  ]

  pub Distinct-append :
      (xs : List A) (y : A) → Distinct xs → All (λ x. x ≢ y) xs → Distinct (xs ++ y ∷ [])
  Distinct-append [] y d h = (tt, tt)
  Distinct-append (x ∷ xs) y (other, d) (ne, h) =
      (All-append (λ z. x ≢ z) xs (y ∷ []) other (ne, tt), Distinct-append xs y d h)

module _ {ℓ κ} {A : Type ℓ} {B : Type κ} where
  pub map-append : (f : A → B) (xs ys : List A) → map f (xs ++ ys) ≡ map f xs ++ map f ys
  map-append f [] ys = refl
  map-append f (x ∷ xs) ys = ap (◌∷◌ (f x)) (map-append f xs ys)

  pub flat_map-append :
      (f : A → List B) (xs ys : List A) → flat_map f (xs ++ ys) ≡ flat_map f xs ++ flat_map f ys
  flat_map-append f [] ys = refl
  flat_map-append f (x ∷ xs) ys = simp (flat_map-append f xs ys, append_assoc)

  pub flat_map_congr :
      (f g : A → List B) (xs : List A) → All (λ x. f x ≡ g x) xs → flat_map f xs ≡ flat_map g xs
  flat_map_congr f g [] h = refl
  flat_map_congr f g (x ∷ xs) (h, hs) = rw (h, flat_map_congr f g xs hs)

  pub All-flat_map {μ} :
      (P : B → Type μ) (f : A → List B) (xs : List A)
      → All (λ x. All P (f x)) xs
      → All P (flat_map f xs)
  All-flat_map P f [] h = tt
  All-flat_map P f (x ∷ xs) (h, hs) = All-append P (f x) (flat_map f xs) h (All-flat_map P f xs hs)

  pub mem-flat_map :
      (f : A → List B) {x : A} {y : B} (xs : List A)
      → Memᴰ x xs
      → Memᴰ y (f x)
      → Memᴰ y (flat_map f xs)
  mem-flat_map f [] k m = elim k [ ]
  mem-flat_map f {x} {y} (z ∷ xs) (Memᴰ.head e) m =
      mem-append_left (f z) (flat_map f xs) (rw (← e) m)
  mem-flat_map f (z ∷ xs) (Memᴰ.tail k) m =
      mem-append_right (f z) (flat_map f xs) (mem-flat_map f xs k m)

pub All-count_from {κ} :
    (P : ℕ → Type κ) (a n : ℕ) → ((i : ℕ) → a ≤ i → i < a + n → P i) → All P (count_from a n)
All-count_from P a zero h = tt
All-count_from P a (suc n) h = (
  h a (omega arith) (omega arith),
  All-count_from P (suc a) n (λ i p q. h i (omega arith) (omega arith)),
)

pub mem-count_from : (a n i : ℕ) → a ≤ i → i < a + n → Memᴰ i (count_from a n)
mem-count_from a zero i h k = absurd (omega arith)
mem-count_from a (suc n) i h k = elim (Bool-cases (a == i)) [
  | inl e ↦ Memᴰ.head (ground arith)
  | inr e ↦ Memᴰ.tail (mem-count_from (suc a) n i (ground arith) (omega arith))
]

-- A longer loop makes the rounds of the shorter one first.
pub count_from-append :
    (a m n k : ℕ) → k ≡ m + n → count_from a k ≡ count_from a m ++ count_from (a + m) n
count_from-append a zero n k e =
    let same : k ≡ n = omega arith in let start : a + 0 ≡ a = omega arith in rw (same, start)
count_from-append a (suc m) n zero e = absurd (omega arith)
count_from-append a (suc m) n (suc k) e =
    let start : suc a + m ≡ a + suc m = omega arith in
    rw (count_from-append (suc a) m n k (omega arith), start)

module _ {ℓ} {A : Type ℓ} where
  pub take-append_le : (n : ℕ) (xs ys : List A) → n ≤ length xs → take n (xs ++ ys) ≡ take n xs
  take-append_le zero xs ys h = refl
  take-append_le (suc n) [] ys h = absurd (omega arith)
  take-append_le (suc n) (x ∷ xs) ys h = ap (◌∷◌ x) (take-append_le n xs ys (omega arith))

  pub drop-append_le :
      (n : ℕ) (xs ys : List A) → n ≤ length xs → drop n (xs ++ ys) ≡ drop n xs ++ ys
  drop-append_le zero xs ys h = refl
  drop-append_le (suc n) [] ys h = absurd (omega arith)
  drop-append_le (suc n) (x ∷ xs) ys h = drop-append_le n xs ys (omega arith)

  pub length-replicate : (n : ℕ) (a : A) → length (replicate n a) ≡ n
  length-replicate zero a = refl
  length-replicate (suc n) a = ap suc (length-replicate n a)

  pub length-drop : (n : ℕ) (xs : List A) → length (drop n xs) ≡ length xs - n
  length-drop zero xs = omega arith
  length-drop (suc n) [] = omega arith
  length-drop (suc n) (x ∷ xs) = omega (arith, length-drop n xs)

  pub get_elem?-drop :
      (n : ℕ) (xs : List A) (i : ℕ) → get_elem? (drop n xs) i ≡ get_elem? xs (n + i)
  get_elem?-drop zero xs i = let same : 0 + i ≡ i = omega arith in rw same
  get_elem?-drop (suc n) [] i = refl
  get_elem?-drop (suc n) (x ∷ xs) i =
      let same : suc n + i ≡ suc (n + i) = omega arith in rw same (get_elem?-drop n xs i)

  pub mem-cons_map :
      {x : A} (y : A) (xs ys : List A) → (Memᴰ x xs → Memᴰ x ys) → Memᴰ x (y ∷ xs) → Memᴰ x (y ∷ ys)
  mem-cons_map y xs ys f (Memᴰ.head e) = Memᴰ.head e
  mem-cons_map y xs ys f (Memᴰ.tail m) = Memᴰ.tail (f m)

  pub mem_swap : {x : A} (y z : A) (xs : List A) → Memᴰ x (y ∷ z ∷ xs) → Memᴰ x (z ∷ y ∷ xs)
  mem_swap y z xs (Memᴰ.head e) = Memᴰ.tail (Memᴰ.head e)
  mem_swap y z xs (Memᴰ.tail (Memᴰ.head e)) = Memᴰ.head e
  mem_swap y z xs (Memᴰ.tail (Memᴰ.tail m)) = Memᴰ.tail (Memᴰ.tail m)

  mem-insert_by :
      (le : A → A → Bool) {x : A} (y : A) (xs : List A)
      → Memᴰ x (insert_by le y xs)
      → Memᴰ x (y ∷ xs)
  mem-insert_by le y [] m = m
  mem-insert_by le y (z ∷ xs) m = elim (Bool-cases (le y z)) [
    | inl e ↦ rw e at m
    | inr e ↦
        mem_swap z y xs
          (mem-cons_map z (insert_by le y xs) (y ∷ xs) (mem-insert_by le y xs) (rw e at m))
  ]

  -- A sorted list has only elements of the list that was sorted.
  pub mem-sort_by : (le : A → A → Bool) {x : A} (xs : List A) → Memᴰ x (sort_by le xs) → Memᴰ x xs
  mem-sort_by le [] m = m
  mem-sort_by le (y ∷ ys) m =
      mem-cons_map y (sort_by le ys) ys (mem-sort_by le ys) (mem-insert_by le y (sort_by le ys) m)

  pub any_sound :
      (p : A → Bool) (xs : List A)
      → any p xs ≡ true
      → (i : ℕ) × (x : A) × (get_elem? xs i ≡ some x) × (p x ≡ true)
  any_sound p [] e = cc
  any_sound p (x ∷ xs) e = elim (Bool-cases (p x)) [
    | inl h ↦ (0, x, refl, h)
    | inr h ↦ let (i, y, found, k) = any_sound p xs (rw h at e) in (suc i, y, found, k)
  ]

  pub any_complete :
      (p : A → Bool) (xs : List A) (i : ℕ) {x : A}
      → get_elem? xs i ≡ some x
      → p x ≡ true
      → any p xs ≡ true
  any_complete p [] i e h = cc
  any_complete p (y ∷ xs) zero e h = ground arith
  any_complete p (y ∷ xs) (suc i) e h = ground (arith, any_complete p xs i e h)

module _ {ℓ κ μ} {A : Type ℓ} {B : Type κ} where
  pub All-map :
      (P : B → Type μ) (f : A → B) (xs : List A) → All (λ x. P (f x)) xs → All P (map f xs)
  All-map P f [] h = tt
  All-map P f (x ∷ xs) (h, hs) = (h, All-map P f xs hs)

module _ {ℓ} {A : Type ℓ} where
  pub mem-take : (n : ℕ) {x : A} (xs : List A) → Memᴰ x (take n xs) → Memᴰ x xs
  mem-take zero xs m = elim m [ ]
  mem-take (suc n) [] m = elim m [ ]
  mem-take (suc n) (y ∷ xs) m = mem-cons_map y (take n xs) xs (mem-take n xs) m

  -- A filter that every element passes changes nothing.
  pub filter_of_All : (p : A → Bool) (xs : List A) → All (λ x. p x ≡ true) xs → filter p xs ≡ xs
  filter_of_All p [] h = refl
  filter_of_All p (x ∷ xs) (h, hs) = rw (h, filter_of_All p xs hs)

  pub All-drop {κ} : (P : A → Type κ) (n : ℕ) (xs : List A) → All P xs → All P (drop n xs)
  All-drop P zero xs h = h
  All-drop P (suc n) [] h = tt
  All-drop P (suc n) (x ∷ xs) (h, hs) = All-drop P n xs hs

  pub last_of_length : (xs : List A) → 0 < length xs → (x : A) × (last xs ≡ some x)
  last_of_length [] h = absurd (omega arith)
  last_of_length (x ∷ []) h = (x, refl)
  last_of_length (x ∷ y ∷ xs) h = last_of_length (y ∷ xs) (omega arith)
