-- ===== src/Base/Distinct.antt =====
-- Lists of indices as sets: membership as a test, and the pigeonhole principle.
use Prim.Native.Nat.{ℕ, zero, suc, ◌+◌, ◌≤◌, ◌<◌}
use mathlib.Core.Path.{◌≡◌, refl, ap}
use mathlib.Core.Bool.{Bool, true, false, ◌||◌}
use mathlib.Core.List.{List, [], ◌∷◌, map}
use native.Mathlib.Omega.{arith}
use back_orbit.Base.Tests.{if◌then◌else◌, nat_beq, nat_beq_iff, Bool-cases}
use back_orbit.Base.Lists.{length}
use mathlib.Core.Logic.{inl, inr, ◌↔◌}

abbrev pub elem : ℕ → List ℕ → Bool
elem i [] = false
elem i (j ∷ js) = nat_beq j i || elem i js

abbrev pub Distinct : List ℕ → Type 0
Distinct [] = Unit
Distinct (x ∷ xs) = (elem x xs ≡ false) × Distinct xs

without : ℕ → List ℕ → List ℕ
without i [] = []
without i (j ∷ js) = if nat_beq j i then without i js else j ∷ without i js

elem-without :
    (i j : ℕ) (js : List ℕ) → elem i js ≡ true → nat_beq j i ≡ false → elem i (without j js) ≡ true
unfolding without
elem-without i j [] h ne = h
elem-without i j (k ∷ js) h ne = elim (Bool-cases (elem i js)) [
  | inl e ↦ ground (arith, elem-without i j js e ne)
  | inr e ↦ ground (arith, e, h, ne)
]

length-without-le : (j : ℕ) (js : List ℕ) → length (without j js) ≤ length js
unfolding without
length-without-le j [] = omega arith
length-without-le j (k ∷ js) = ground (arith, length-without-le j js)

length-without : (j : ℕ) (js : List ℕ) → elem j js ≡ true → suc (length (without j js)) ≤ length js
unfolding without
length-without j [] h = ground arith
length-without j (k ∷ js) h = elim (Bool-cases (nat_beq k j)) [
  | inl e ↦ ground (arith, e, length-without-le j js)
  | inr e ↦ ground (arith, e, h, length-without j js)
]

-- A list of different indices that all stand in another list is no longer than that.
pub length-le_of_Distinct :
    (is js : List ℕ)
    → Distinct is
    → ((i : ℕ) → elem i is ≡ true → elem i js ≡ true)
    → length is ≤ length js
length-le_of_Distinct [] js d h = omega arith
length-le_of_Distinct (i ∷ is) js d h = omega (
  arith,
  length-without i js (h i (ground arith)),
  length-le_of_Distinct is (without i js) d.1
      (λ k e. elem-without k i js (h k (ground (arith, e))) (elem-other i k is d.0 e)),
)
  where
    elem-other :
        (i k : ℕ) (is : List ℕ) → elem i is ≡ false → elem k is ≡ true → nat_beq i k ≡ false
    elem-other i k is fresh e = elim (Bool-cases (nat_beq i k)) [
      | inl same ↦ ground (arith, same, fresh, e)
      | inr other ↦ other
    ]

pub elem-map :
    (f : ℕ → ℕ) (x : ℕ) (is : List ℕ)
    → elem x (map f is) ≡ true
    → (i : ℕ) × (elem i is ≡ true) × (f i ≡ x)
elem-map f x [] h = ground (arith, h)
elem-map f x (i ∷ is) h = elim (Bool-cases (nat_beq (f i) x)) [
  | inl e ↦ (i, ground arith, (nat_beq_iff (f i) x).0 e)
  | inr e ↦
      let (j, inside, q) = elem-map f x is (ground (arith, e, h)) in (j, ground (arith, inside), q)
]

pub length-map : (f : ℕ → ℕ) (is : List ℕ) → length (map f is) ≡ length is
length-map f [] = refl
length-map f (i ∷ is) = ap suc (length-map f is)

pub Distinct-map :
    (f : ℕ → ℕ) (is : List ℕ)
    → Distinct is
    → ((i j : ℕ) → elem i is ≡ true → elem j is ≡ true → f i ≡ f j → i ≡ j)
    → Distinct (map f is)
Distinct-map f [] d inj = tt
Distinct-map f (i ∷ is) d inj = (
  elim (Bool-cases (elem (f i) (map f is))) [
    | inl e ↦
        let (j, inside, q) = elem-map f (f i) is e in
        let same : j ≡ i = inj j i (ground (arith, inside)) (ground arith) q in
        ground (arith, d.0, inside, same)
    | inr e ↦ e
  ],
  Distinct-map f is d.1 (λ j k hj hk. inj j k (ground (arith, hj)) (ground (arith, hk))),
)

-- 0, 1, and so on up to the number.
abbrev pub indices_from : ℕ → ℕ → List ℕ
indices_from first zero = []
indices_from first (suc n) = first ∷ indices_from (suc first) n

abbrev pub indices : ℕ → List ℕ
indices = indices_from 0

elem-indices_from :
    (first n i : ℕ) → (elem i (indices_from first n) ≡ true) ↔ ((first ≤ i) × (i < first + n))
elem-indices_from first zero i = ((λ h. ground (arith, h)), (λ h. ground (arith, h)))
elem-indices_from first (suc n) i =
    let ih = elem-indices_from (suc first) n i in
    ((λ h. ground (arith, h, ih.0)), (λ h. ground (arith, h, ih.1)))

pub elem-indices : (n i : ℕ) → (elem i (indices n) ≡ true) ↔ (i < n)
elem-indices n i =
    let all = elem-indices_from 0 n i in
    ((λ h. omega (arith, (all.0 h).1)), (λ h. all.1 (omega arith, omega (arith, h))))

Distinct-indices_from : (first n : ℕ) → Distinct (indices_from first n)
Distinct-indices_from first zero = tt
Distinct-indices_from first (suc n) = (
  elim (Bool-cases (elem first (indices_from (suc first) n))) [
    | inl e ↦ ground (arith, (elem-indices_from (suc first) n first).0 e)
    | inr e ↦ e
  ],
  Distinct-indices_from (suc first) n,
)

pub Distinct-indices : (n : ℕ) → Distinct (indices n)
Distinct-indices = Distinct-indices_from 0

pub length-indices : (n : ℕ) → length (indices n) ≡ n
length-indices n = from 0 n
  where
    from : (first n : ℕ) → length (indices_from first n) ≡ n
    from first zero = refl
    from first (suc n) = ap suc (from (suc first) n)
