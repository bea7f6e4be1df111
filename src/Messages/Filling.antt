-- ===== src/Messages/Filling.antt =====
-- The arguments that redfish-core/lib/log_services.hpp puts into a message of the registry one by one.
use bmcweb.Prelude.{
  ℕ, suc, ◌+◌, ◌-◌, ◌≤◌, ◌<◌, ◌≡◌, refl, sym, ap, ◌∙◌, ◌≢◌, inl, inr, Bool, true, false, ◌&&◌,
  Option, some, List, [], ◌∷◌, ◌++◌, append_assoc, arith, Bytes, length, length-append, take, drop,
  get_or, ltb, ◌==◌, ==_iff, find_text, to_string-digit, Bool-cases, All, All-append,
}
use bmcweb.Messages.Registry.{fill, replace_at}
use bmcweb.Messages.Conformance.{substitute}

-- No byte is a percent sign.
abbrev pub IsPercentFree : Bytes → Type 0
IsPercentFree s = All (λ (c : ℕ). c ≢ 37) s

-- Every percent sign starts a placeholder; those are %(k+1) to %n in this order, n at most 9.
abbrev pub ordered : ℕ → ℕ → Bytes → Bool
ordered k n [] = k == n
ordered k n (c ∷ []) = elim (c == 37) [ true ↦ false | false ↦ k == n ]
ordered k n (c ∷ d ∷ s) = elim (c == 37) [
  | true ↦ (d == 49 + k) && ltb k 9 && ordered (suc k) n s
  | false ↦ ordered k n (d ∷ s)
]

skip_prefix :
    (p : Bytes) (d : ℕ) (s : Bytes)
    → IsPercentFree p
    → find_text (p ++ (37 ∷ d ∷ s)) (37 ∷ d ∷ []) ≡ some (length p)
skip_prefix [] d s h = ground arith
skip_prefix (c ∷ p) d s (n, h) = ground (arith, skip_prefix p d s h)

pub take-length : (p s : Bytes) → take (length p) (p ++ s) ≡ p
take-length [] s = refl
take-length (c ∷ p) s = ap (λ (t : Bytes). c ∷ t) (take-length p s)

drop-length : (p s : Bytes) (d : ℕ) → drop (suc (suc (length p))) (p ++ (37 ∷ d ∷ s)) ≡ s
drop-length [] s d = refl
drop-length (c ∷ p) s d = drop-length p s d

get_or-length :
    (used args : List Bytes) (a : Bytes) → get_or (used ++ (a ∷ args)) (length used) [] ≡ a
get_or-length [] args a = refl
get_or-length (u ∷ used) args a = get_or-length used args a

replace-skip :
    (p : Bytes) (d : ℕ) (s arg : Bytes)
    → IsPercentFree p
    → replace_at (find_text (p ++ (37 ∷ d ∷ s)) (37 ∷ d ∷ [])) (p ++ (37 ∷ d ∷ s)) 2 arg
      ≡ (p ++ arg) ++ s
replace-skip p d s arg f =
    let t = p ++ (37 ∷ d ∷ s) in
    let two : length p + 2 ≡ suc (suc (length p)) = omega arith in
    let rest : drop (length p + 2) t ≡ s = ap (λ (n : ℕ). drop n t) two ∙ drop-length p s d in
    ap (λ (o : Option ℕ). replace_at o t 2 arg) (skip_prefix p d s f)
    ∙ (λ i. take-length p (37 ∷ d ∷ s) i ++ (arg ++ rest i))
    ∙ sym (append_assoc p arg s)

-- One round of the loop.
fill-step :
    (k : ℕ) (p s arg : Bytes) (args : List Bytes)
    → k < 9
    → IsPercentFree p
    → fill k (arg ∷ args) (p ++ (37 ∷ (49 + k) ∷ s)) ≡ fill (suc k) args ((p ++ arg) ++ s)
unfolding fill
fill-step k p s arg args h f =
    let t = p ++ (37 ∷ (49 + k) ∷ s) in
    ap
      (λ (str : Bytes).
        fill (suc k) args (replace_at (find_text t (37 ∷ str)) t (length (37 ∷ str)) arg))
      (to_string-digit k h)
    ∙ ap (fill (suc k) args) (replace-skip p (49 + k) s arg f)

-- One step of the specification and of the test of the order.
substitute-percent :
    (args : List Bytes) (c d : ℕ) (s : Bytes)
    → (c == 37) ≡ true
    → substitute args (c ∷ d ∷ s) ≡ get_or args (d - 49) [] ++ substitute args s
unfolding substitute
substitute-percent args c d s e = ground arith

substitute-plain :
    (args : List Bytes) (c d : ℕ) (s : Bytes)
    → (c == 37) ≡ false
    → substitute args (c ∷ d ∷ s) ≡ c ∷ substitute args (d ∷ s)
unfolding substitute
substitute-plain args c d s e = ground arith

ordered-percent :
    (k n c d : ℕ) (s : Bytes)
    → (c == 37) ≡ true
    → ordered k n (c ∷ d ∷ s) ≡ true
    → (c ≡ 37) × (d ≡ 49 + k) × (k < 9) × (ordered (suc k) n s ≡ true)
ordered-percent k n c d s e o = ground arith

ordered-plain :
    (k n c d : ℕ) (s : Bytes)
    → (c == 37) ≡ false
    → ordered k n (c ∷ d ∷ s) ≡ true
    → (c ≢ 37) × (ordered k n (d ∷ s) ≡ true)
ordered-plain k n c d s e o = ground arith

ordered-last : (k n c : ℕ) → ordered k n (c ∷ []) ≡ true → k ≡ n
ordered-last k n c o = ground arith

ordered-le : (t : Bytes) (k n : ℕ) → ordered k n t ≡ true → k ≤ n
ordered-le [] k n o = ground arith
ordered-le (c ∷ []) k n o = ground arith
ordered-le (c ∷ d ∷ s) k n o = elim (Bool-cases (c == 37)) [
  | inl e ↦
      let (_, _, _, q) = ordered-percent k n c d s e o in omega (arith, ordered-le s (suc k) n q)
  | inr e ↦ let (_, q) = ordered-plain k n c d s e o in ordered-le (d ∷ s) k n q
]

-- A byte that is no placeholder's stays.
fill-plain :
    (k : ℕ) (p : Bytes) (args all : List Bytes) (c d : ℕ) (s : Bytes)
    → (c == 37) ≡ false
    → fill k args ((p ++ (c ∷ [])) ++ (d ∷ s)) ≡ (p ++ (c ∷ [])) ++ substitute all (d ∷ s)
    → fill k args (p ++ (c ∷ d ∷ s)) ≡ p ++ substitute all (c ∷ d ∷ s)
fill-plain k p args all c d s e ih =
    ap (fill k args) (sym (append_assoc p (c ∷ []) (d ∷ s)))
    ∙ ih
    ∙ append_assoc p (c ∷ []) (substitute all (d ∷ s))
    ∙ ap (λ (r : Bytes). p ++ r) (sym (substitute-plain all c d s e))

-- The k-th placeholder takes the k-th argument.
fill-percent :
    (k : ℕ) (p : Bytes) (used : List Bytes) (a : Bytes) (args : List Bytes) (c d : ℕ) (s : Bytes)
    → length used ≡ k
    → (c == 37) ≡ true
    → IsPercentFree p
    → (c ≡ 37) × (d ≡ 49 + k) × (k < 9)
    → fill (suc k) args ((p ++ a) ++ s) ≡ (p ++ a) ++ substitute ((used ++ (a ∷ [])) ++ args) s
    → fill k (a ∷ args) (p ++ (c ∷ d ∷ s)) ≡ p ++ substitute (used ++ (a ∷ args)) (c ∷ d ∷ s)
fill-percent k p used a args c d s u e f (c37, dk, h) ih =
    let all = used ++ (a ∷ args) in
    let arg : get_or all (d - 49) [] ≡ a =
      ap (λ (i : ℕ). get_or all i []) (omega arith) ∙ get_or-length used args a in
    (λ i. fill k (a ∷ args) (p ++ (c37 i ∷ dk i ∷ s)))
    ∙ fill-step k p s a args h f
    ∙ ih
    ∙ append_assoc p a _
    ∙ (λ i. p ++ (sym arg i ++ substitute (append_assoc used (a ∷ []) args i) s))
    ∙ ap (λ (r : Bytes). p ++ r) (sym (substitute-percent all c d s e))

-- The rounds from the k-th argument on, before a template whose first part is filled.
pub fill-ordered :
    (t : Bytes) (k : ℕ) (p : Bytes) (used args : List Bytes)
    → length used ≡ k
    → IsPercentFree p
    → All IsPercentFree args
    → ordered k (k + length args) t ≡ true
    → fill k args (p ++ t) ≡ p ++ substitute (used ++ args) t
unfolding substitute fill
fill-ordered [] k p used [] u f fs o = refl
fill-ordered [] k p used (a ∷ args) u f fs o =
    absurd (omega (arith, (==_iff k (k + suc (length args))).0 o))
fill-ordered (c ∷ []) k p used [] u f fs o = refl
fill-ordered (c ∷ []) k p used (a ∷ args) u f fs o =
    absurd (omega (arith, ordered-last k (k + suc (length args)) c o))
fill-ordered (c ∷ d ∷ s) k p used [] u f fs o = elim (Bool-cases (c == 37)) [
  | inl e ↦
      let (_, _, _, q) = ordered-percent k (k + 0) c d s e o in
      absurd (omega (arith, ordered-le s (suc k) (k + 0) q))
  | inr e ↦
      let (ne, q) = ordered-plain k (k + 0) c d s e o in
      fill-plain k p [] (used ++ []) c d s e (
        fill-ordered (d ∷ s) k (p ++ (c ∷ [])) used [] u
          (All-append (λ (b : ℕ). b ≢ 37) p (c ∷ []) f (ne, tt)) fs q)
]
fill-ordered (c ∷ d ∷ s) k p used (a ∷ args) u f (fa, fs) o = elim (Bool-cases (c == 37)) [
  | inl e ↦
      let (c37, dk, h, q) = ordered-percent k (k + suc (length args)) c d s e o in
      fill-percent k p used a args c d s u e f (c37, dk, h)
        (fill-ordered s (suc k) (p ++ a) (used ++ (a ∷ [])) args
          (length-append used (a ∷ []) ∙ omega arith) (All-append (λ (b : ℕ). b ≢ 37) p a f fa) fs
          (ap (λ (n : ℕ). ordered (suc k) n s) (omega arith) ∙ q))
  | inr e ↦
      let (ne, q) = ordered-plain k (k + suc (length args)) c d s e o in
      fill-plain k p (a ∷ args) (used ++ (a ∷ args)) c d s e (
        fill-ordered (d ∷ s) k (p ++ (c ∷ [])) used (a ∷ args) u
          (All-append (λ (b : ℕ). b ≢ 37) p (c ∷ []) f (ne, tt)) (fa, fs) q)
]
