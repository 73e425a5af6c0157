-- ===== src/Base/Lists.antt =====
-- Lists measured by native numbers, membership and quantifiers by recursion.
use Prim.Native.Nat.{ℕ, suc, ◌+◌, zero}
use mathlib.Core.Path.{◌≡◌, refl, ap, subst}
use mathlib.Core.Bool.{Bool, true, false, ◌||◌, false≢true}
use dr.Base.Tests.{Bool-cases}
use mathlib.Core.Logic.{◌⊎◌, inl, inr}
use mathlib.Core.List.{List, [], ◌∷◌, ◌++◌}
use native.Mathlib.Omega.{arith}

module _ {ℓ} {A : Type ℓ} where
  abbrev pub length : List A → ℕ
  length [] = 0
  length (x ∷ xs) = suc (length xs)

  abbrev pub replicate : ℕ → A → List A
  replicate zero a = []
  replicate (suc n) a = a ∷ replicate n a

  abbrev pub any : (A → Bool) → List A → Bool
  any p [] = false
  any p (x ∷ xs) = p x || any p xs

  -- The last item, or `x` if there is none.
  abbrev pub last_or : A → List A → A
  last_or x [] = x
  last_or x (y ∷ ys) = last_or y ys

  pub length-append : (xs ys : List A) → length (xs ++ ys) ≡ length xs + length ys
  length-append [] ys = omega arith
  length-append (x ∷ xs) ys = omega (arith, length-append xs ys)

  pub length-replicate : (n : ℕ) (a : A) → length (replicate n a) ≡ n
  length-replicate zero a = refl
  length-replicate (suc n) a = ap suc (length-replicate n a)

module _ {ℓ κ} {A : Type ℓ} (P : A → Type κ) where
  abbrev pub All : List A → Type κ
  All [] = Unit
  All (x ∷ xs) = P x × All xs

  -- The position of an item is kept.
  pub data Any : List A → Type (ℓ ⊔ κ) where
    here : {x : A} {xs : List A} → P x → Any (x ∷ xs)
    there : {x : A} {xs : List A} → Any xs → Any (x ∷ xs)

module _ {ℓ κ} {A : Type ℓ} (P : A → Type κ) where
  pub All-append : (xs ys : List A) → All P xs → All P ys → All P (xs ++ ys)
  All-append [] ys h k = k
  All-append (x ∷ xs) ys (p, h) k = (p, All-append xs ys h k)

  pub All-remove :
      (pre post : List A) (x : A) → All P (pre ++ (x ∷ post)) → P x × All P (pre ++ post)
  All-remove [] post x h = h
  All-remove (y ∷ pre) post x (p, h) = let (q, k) = All-remove pre post x h in (q, (p, k))

pub All-split {ℓ κ} :
    {A : Type ℓ} (P : A → Type κ) (xs ys : List A) → All P (xs ++ ys) → All P xs × All P ys
All-split P [] ys h = (tt, h)
All-split P (x ∷ xs) ys (p, h) = let (k, l) = All-split P xs ys h in ((p, k), l)

pub All-map {ℓ κ μ} :
    {A : Type ℓ} (P : A → Type κ) (Q : A → Type μ) (xs : List A)
    → ((x : A) → P x → Q x)
    → All P xs
    → All Q xs
All-map P Q [] f h = tt
All-map P Q (x ∷ xs) f (p, h) = (f x p, All-map P Q xs f h)

pub List-cases {ℓ} : {A : Type ℓ} (l : List A) → (l ≡ []) ⊎ ((x : A) × (xs : List A) × (l ≡ x ∷ xs))
List-cases [] = inl refl
List-cases (x ∷ xs) = inr (x, xs, refl)

pub any→Any {ℓ κ} :
    {A : Type ℓ} (P : A → Type κ) (p : A → Bool) (xs : List A)
    → ((x : A) → p x ≡ true → P x)
    → any p xs ≡ true
    → Any P xs
any→Any P p [] f h = absurd (false≢true h)
any→Any P p (x ∷ xs) f h = elim (Bool-cases (p x)) [
  | inl e ↦ Any.here (f x e)
  | inr e ↦ Any.there (any→Any P p xs f (rw e at h))
]

pub Any→any {ℓ κ} :
    {A : Type ℓ} (P : A → Type κ) (p : A → Bool) (xs : List A)
    → ((x : A) → P x → p x ≡ true)
    → Any P xs
    → any p xs ≡ true
Any→any P p [] f h = elim h [ ]
Any→any P p (x ∷ xs) f (Any.here h) = rw (f x h)
Any→any P p (x ∷ xs) f (Any.there h) = ground (arith, Any→any P p xs f h)

pub Any-append {ℓ κ} :
    {A : Type ℓ} (P : A → Type κ) (xs ys : List A) → Any P (xs ++ ys) → Any P xs ⊎ Any P ys
Any-append P [] ys h = inr h
Any-append P (x ∷ xs) ys (Any.here h) = inl (Any.here h)
Any-append P (x ∷ xs) ys (Any.there h) = elim (Any-append P xs ys h) [
  | inl l ↦ inl (Any.there l)
  | inr r ↦ inr r
]

pub Any-append_right {ℓ κ} :
    {A : Type ℓ} (P : A → Type κ) (xs ys : List A) → Any P ys → Any P (xs ++ ys)
Any-append_right P [] ys h = h
Any-append_right P (x ∷ xs) ys h = Any.there (Any-append_right P xs ys h)

pub Any-append_left {ℓ κ} :
    {A : Type ℓ} (P : A → Type κ) (xs ys : List A) → Any P xs → Any P (xs ++ ys)
Any-append_left P [] ys h = elim h [ ]
Any-append_left P (x ∷ xs) ys (Any.here h) = Any.here h
Any-append_left P (x ∷ xs) ys (Any.there h) = Any.there (Any-append_left P xs ys h)

pub Any-there {ℓ} :
    {A : Type ℓ} (x : A) (ys zs : List A)
    → All (λ y. Any (λ q. q ≡ y) ys) zs
    → All (λ y. Any (λ q. q ≡ y) (x ∷ ys)) zs
Any-there x ys [] h = tt
Any-there x ys (z ∷ zs) (p, h) = (Any.there p, Any-there x ys zs h)

-- Every item of a list is in it.
pub All-self {ℓ} : {A : Type ℓ} (xs : List A) → All (λ y. Any (λ q. q ≡ y) xs) xs
All-self [] = tt
All-self (x ∷ xs) = (Any.here refl, Any-there x xs xs (All-self xs))

-- What holds for all items holds for one that is in the list.
pub All-Any {ℓ κ} :
    {A : Type ℓ} (P : A → Type κ) (xs : List A) (y : A) → All P xs → Any (λ q. q ≡ y) xs → P y
All-Any P [] y h m = elim m [ ]
All-Any P (x ∷ xs) y (p, h) (Any.here e) = subst P e p
All-Any P (x ∷ xs) y (p, h) (Any.there m) = All-Any P xs y h m
