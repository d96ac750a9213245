-- ===== src/Base62/Reverse.antt =====
-- `reverseString`: the swap loop against the reversal of a list.
use mathlib.Core.List.{reverse, reverse-append}
use vshortlink.Prelude.{
  ℕ, zero, suc, ◌+◌, ◌-◌, ◌*◌, ◌≤◌, ◌<◌, ◌≡◌, refl, ap, ◌∙◌, ◌&&◌, [], ◌∷◌, ◌++◌, Text, ltb, leb,
  ◌==◌, if◌then◌else◌, length, length-set, length-append, get_or, set, arith, Bool-cases, inl, inr,
  ltb→lt,
}
use vshortlink.Base62.{swap_ends, reverse_string}

text_ext : (s t : Text) → length s ≡ length t → ((k : ℕ) → get_or s k 0 ≡ get_or t k 0) → s ≡ t
text_ext [] [] e h = refl
text_ext [] (d ∷ t) e h = absurd (omega arith)
text_ext (c ∷ s) [] e h = absurd (omega arith)
text_ext (c ∷ s) (d ∷ t) e h =
    let rest : s ≡ t = text_ext s t (omega arith) (λ k. h (suc k)) in cc (h 0)

get_or-set :
    (s : Text) (i v k : ℕ)
    → i < length s
    → get_or (set s i v) k 0 ≡ (if i == k then v else get_or s k 0)
get_or-set [] i v k h = elim h [ ]
get_or-set (c ∷ s) zero v zero h = refl
get_or-set (c ∷ s) zero v (suc k) h = ground arith
get_or-set (c ∷ s) (suc i) v zero h = ground arith
get_or-set (c ∷ s) (suc i) v (suc k) h = ground (arith, get_or-set s i v k)

get_or-append :
    (s t : Text) (k : ℕ)
    → get_or (s ++ t) k 0 ≡ (if ltb k (length s) then get_or s k 0 else get_or t (k - length s) 0)
get_or-append [] t k = ground arith
get_or-append (c ∷ s) t zero = ground arith
get_or-append (c ∷ s) t (suc k) = ground (arith, get_or-append s t k)

get_or-out : (s : Text) (k : ℕ) → length s ≤ k → get_or s k 0 ≡ 0
get_or-out [] k h = refl
get_or-out (c ∷ s) zero h = absurd (omega arith)
get_or-out (c ∷ s) (suc k) h = get_or-out s k (omega arith)

pub length-reverse : (s : Text) → length (reverse s) ≡ length s
length-reverse [] = refl
length-reverse (c ∷ s) =
    rw (reverse-append (c ∷ []) s)
      (omega (arith, length-append {0} (reverse s) (c ∷ []), length-reverse s))

get_or-cons : (c : ℕ) (s : Text) (k : ℕ) → 0 < k → get_or (c ∷ s) k 0 ≡ get_or s (k - 1) 0
get_or-cons c s zero h = absurd (omega arith)
get_or-cons c s (suc k) h = ground arith

get_or-reverse :
    (s : Text) (k : ℕ) → k < length s → get_or (reverse s) k 0 ≡ get_or s (length s - 1 - k) 0
get_or-reverse [] k h = elim h [ ]
get_or-reverse (c ∷ s) k h =
    rw (reverse-append (c ∷ []) s, get_or-append, length-reverse)
      (elim (Bool-cases (ltb k (length s))) [
        | inl inside ↦ ground (arith, get_or-reverse s k, get_or-cons c s (length s - k))
        | inr last ↦
            let e : k - length s ≡ 0 = ground arith in
            let e' : suc (length s) - 1 - k ≡ 0 = ground arith in rw (last, e, e')
      ])

length-swap_ends : (rounds i j : ℕ) (s : Text) → length (swap_ends rounds i j s) ≡ length s
unfolding swap_ends
length-swap_ends zero i j s = refl
length-swap_ends (suc rounds) i j s = ground (
  arith,
  length-swap_ends rounds (i + 1) (j - 1) (set (set s i (get_or s j 0)) j (get_or s i 0)),
  length-set (set s i (get_or s j 0)) j (get_or s i 0),
  length-set s i (get_or s j 0),
)

-- What a swap leaves at each place.
get_or-swap :
    (s : Text) (i j k : ℕ)
    → i < j
    → j < length s
    → get_or (set (set s i (get_or s j 0)) j (get_or s i 0)) k 0
      ≡ (if j == k then get_or s i 0 else if i == k then get_or s j 0 else get_or s k 0)
get_or-swap s i j k hi hj = rw (
  get_or-set (set s i (get_or s j 0)) j (get_or s i 0) k (rw length-set hj),
  get_or-set s i (get_or s j 0) k (omega arith),
)

-- The place that `k` is read from when what lies between `i` and `j` is reversed.
abbrev mirror : ℕ → ℕ → ℕ → ℕ
mirror i j k = if leb i k && leb k j then i + j - k else k

mirror-step :
    (s : Text) (i j k : ℕ)
    → i < j
    → j < length s
    → get_or (set (set s i (get_or s j 0)) j (get_or s i 0)) (mirror (i + 1) (j - 1) k) 0
      ≡ get_or s (mirror i j k) 0
mirror-step s i j k hi hj = rw (get_or-swap s i j (mirror (i + 1) (j - 1) k) hi hj) (ground arith)

-- The loop reverses what lies between `i` and `j`.
get_or-swap_ends :
    (rounds i j : ℕ) (s : Text) (k : ℕ)
    → j < length s
    → j < i + 2 * rounds
    → get_or (swap_ends rounds i j s) k 0 ≡ get_or s (mirror i j k) 0
unfolding swap_ends
get_or-swap_ends zero i j s k hj hr = ap (λ n. get_or s n 0) (ground arith)
get_or-swap_ends (suc rounds) i j s k hj hr = elim (Bool-cases (ltb i j)) [
  | inl go ↦ rw go (
      get_or-swap_ends rounds (i + 1) (j - 1) (set (set s i (get_or s j 0)) j (get_or s i 0)) k
        (rw (length-set, length-set) (omega arith)) (omega arith)
      ∙ mirror-step s i j k (ltb→lt i j go) hj)
  | inr stop ↦ rw stop (ap (λ n. get_or s n 0) {x = k} {y = mirror i j k} (ground arith))
]

-- The loop of swaps reverses every text.
pub reverse_string_lem : (s : Text) → reverse_string s ≡ reverse s
unfolding reverse_string
reverse_string_lem [] = unfold swap_ends in refl
reverse_string_lem (c ∷ s) =
    text_ext (swap_ends (suc (length s)) 0 (suc (length s) - 1) (c ∷ s)) (reverse (c ∷ s))
      (omega (
        arith,
        length-swap_ends (suc (length s)) 0 (suc (length s) - 1) (c ∷ s),
        length-reverse (c ∷ s),
      ))
      λ k. ground (
        arith,
        get_or-swap_ends (suc (length s)) 0 (suc (length s) - 1) (c ∷ s) k,
        get_or-reverse (c ∷ s) k,
        get_or-out (c ∷ s) k,
        get_or-out (reverse (c ∷ s)) k,
        length-reverse (c ∷ s),
      )
