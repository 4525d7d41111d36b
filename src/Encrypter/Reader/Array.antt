-- ===== src/Encrypter/Reader/Array.antt =====
-- How the writes of `ReadFiles` change what its array holds.
use service_discover.Common.{
  ℕ, zero, suc, ◌+◌, ◌≤◌, ◌<◌, String, ◌≡◌, refl, none, some, List, [], ◌∷◌, ◌is◌, if◌then◌else◌,
  length, get_elem?, set, take, arith, eq_iff, eq_refl,
}
use service_discover.Encrypter.Reader.{index_of}

-- 1 if the names agree, else 0.
abbrev pub one_if : String → String → ℕ
one_if x y = if x is y then 1 else 0

-- How often a name stands in a list.
abbrev pub count : String → List String → ℕ
count x [] = 0
count x (y ∷ ys) = one_if x y + count x ys

-- An item more at the end.
count-take-suc :
    (x : String) (fs : List String) (m : ℕ) (last : String)
    → get_elem? (take (suc m) fs) m ≡ some last
    → count x (take (suc m) fs) ≡ count x (take m fs) + one_if x last
count-take-suc x [] m last h = ground arith
count-take-suc x (f ∷ fs) zero last h = ground arith
count-take-suc x (f ∷ fs) (suc m) last h = omega (arith, count-take-suc x fs m last h)

-- The write and the shorter slice take the item at `i` out of the first `suc m`.
pub count-take-set :
    (x : String) (fs : List String) (i m : ℕ) (last found : String)
    → i < suc m
    → get_elem? (take (suc m) fs) m ≡ some last
    → get_elem? fs i ≡ some found
    → count x (take (suc m) fs) ≡ count x (take m (set fs i last)) + one_if x found
count-take-set x [] i m last found lt h g = ground arith
count-take-set x (f ∷ fs) zero zero last found lt h g = ground arith
count-take-set x (f ∷ fs) zero (suc m) last found lt h g =
    ground (arith, count-take-suc x fs m last h)
count-take-set x (f ∷ fs) (suc i) zero last found lt h g = absurd (omega arith)
count-take-set x (f ∷ fs) (suc i) (suc m) last found lt h g =
    omega (arith, count-take-set x fs i m last found (omega arith) h g)

-- A name other than the one written does not become more frequent.
pub count-set :
    (x : String) (fs : List String) (i : ℕ) (v : String)
    → count x (set fs i v) ≤ count x fs + one_if x v
count-set x [] i v = omega arith
count-set x (f ∷ fs) zero v = omega arith
count-set x (f ∷ fs) (suc i) v = omega (arith, count-set x fs i v)

pub count-take-le : (x : String) (fs : List String) (n : ℕ) → count x (take n fs) ≤ count x fs
count-take-le x fs zero = omega arith
count-take-le x [] (suc n) = omega arith
count-take-le x (f ∷ fs) (suc n) = omega (arith, count-take-le x fs n)

pub count-take_all : (x : String) (fs : List String) → count x (take (length fs) fs) ≡ count x fs
count-take_all x [] = refl
count-take_all x (f ∷ fs) = omega (arith, count-take_all x fs)

pub count_of_get :
    (fs : List String) (i : ℕ) (v : String) → get_elem? fs i ≡ some v → 1 ≤ count v fs
count_of_get [] i v h = ground arith
count_of_get (f ∷ fs) zero v h = ground (arith, eq_iff v f)
count_of_get (f ∷ fs) (suc i) v h = omega (arith, count_of_get fs i v h)

-- The last of the first `suc m`.
pub get-take_last :
    (fs : List String) (m : ℕ)
    → suc m ≤ length fs
    → (last : String) × (get_elem? (take (suc m) fs) m ≡ some last)
get-take_last [] m le = absurd (omega arith)
get-take_last (f ∷ fs) zero le = (f, refl)
get-take_last (f ∷ fs) (suc m) le = let (last, e) = get-take_last fs m (omega arith) in (last, e)

-- That item stands in the list.
pub count_of_get-take :
    (fs : List String) (m : ℕ) (v : String)
    → get_elem? (take (suc m) fs) m ≡ some v
    → 1 ≤ count v fs
count_of_get-take [] m v h = ground arith
count_of_get-take (f ∷ fs) zero v h = ground (arith, eq_iff v f)
count_of_get-take (f ∷ fs) (suc m) v h = omega (arith, count_of_get-take fs m v h)

-- `index_of` finds the first place, if there is one.
pub get-index_of :
    (x : String) (fs : List String) (i : ℕ) → index_of x fs ≡ some i → get_elem? fs i ≡ some x
unfolding index_of
get-index_of x [] i h = ground arith
get-index_of x (f ∷ fs) zero h = ground (arith, eq_iff x f)
get-index_of x (f ∷ fs) (suc i) h = ground (arith, get-index_of x fs i)

pub index_of-lt :
    (x : String) (fs : List String) (i n : ℕ)
    → index_of x fs ≡ some i
    → 1 ≤ count x (take n fs)
    → i < n
unfolding index_of
index_of-lt x fs i zero h c = absurd (omega arith)
index_of-lt x [] i (suc n) h c = absurd (omega arith)
index_of-lt x (f ∷ fs) zero (suc n) h c = omega arith
index_of-lt x (f ∷ fs) (suc i) (suc n) h c = ground (arith, index_of-lt x fs i n)

pub count_of_index_of-none : (x : String) (fs : List String) → index_of x fs ≡ none → count x fs ≡ 0
unfolding index_of
count_of_index_of-none x [] h = refl
count_of_index_of-none x (f ∷ fs) h = ground (arith, count_of_index_of-none x fs)

-- The first of a list that is not empty stands in it.
pub first_of_take :
    (fs : List String) (m : ℕ) → suc m ≤ length fs → (f : String) × (1 ≤ count f (take (suc m) fs))
first_of_take [] m le = absurd (omega arith)
first_of_take (f ∷ fs) m le = (f, ground (arith, eq_refl f))
