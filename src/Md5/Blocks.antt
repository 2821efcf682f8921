-- ===== src/Md5/Blocks.antt =====
-- The transform applied to the blocks of a message, one after another, and the loop of
-- `md5_update` over whole blocks (src/md5.cpp).
use audd_cpp.Prelude.{
  ℕ, zero, suc, ◌+◌, ◌-◌, ◌*◌, ◌/◌, ◌≤◌, ◌<◌, ◌≡◌, refl, sym, ap, List, [], ◌∷◌, ◌++◌, arith,
  length, take, drop, ltb, Bool-cases, inl, inr, ◌∙◌, take-append_le, drop-append_le, length-drop,
}
use audd_cpp.Md5.{Words, md5_transform}
use audd_cpp.Md5.Context.{transform_from}

-- The state after `n` blocks of 64 bytes at the front of a message.
abbrev pub absorb : ℕ → Words → List ℕ → Words
absorb zero state message = state
absorb (suc n) state message = absorb n (md5_transform state (take 64 message)) (drop 64 message)

pub absorb-append :
    (n k : ℕ) (state : Words) (u v : List ℕ)
    → length u ≡ n * 64
    → absorb (n + k) state (u ++ v) ≡ absorb k (absorb n state u) v
absorb-append zero k state [] v e =
    let count : 0 + k ≡ k = omega arith in ap (λ m. absorb m state v) count
absorb-append zero k state (x ∷ u) v e = absurd (omega arith)
absorb-append (suc n) k state u v e =
    let count : suc n + k ≡ suc (n + k) = omega arith in
    let head = take-append_le 64 u v (omega arith) in
    let rest = drop-append_le 64 u v (omega arith) in
    ap (λ m. absorb m state (u ++ v)) count
    ∙ (λ j. absorb (n + k) (md5_transform state (head j)) (rest j))
    ∙ absorb-append n k _ (drop 64 u) v (omega (arith, length-drop 64 u))

drop-nil : (n : ℕ) → drop {A = ℕ} n [] ≡ []
drop-nil zero = refl
drop-nil (suc n) = refl

pub drop-drop : (n m : ℕ) (xs : List ℕ) → drop n (drop m xs) ≡ drop (m + n) xs
drop-drop n zero xs = let e : n ≡ 0 + n = omega arith in ap (λ k. drop k xs) e
drop-drop n (suc m) [] = rw (drop-nil n, drop-nil (suc m + n)) refl
drop-drop n (suc m) (x ∷ xs) =
    let e : suc m + n ≡ suc (m + n) = omega arith in rw e (drop-drop n m xs)

-- The loop stops behind the last whole block, and leaves the state that `absorb` gives.
pub transform_from-eq-absorb :
    (fuel i : ℕ) (bytes : List ℕ) (state : Words)
    → i ≤ length bytes
    → length bytes < i + fuel * 64 + 64
    → transform_from fuel i bytes (length bytes) state
      ≡ (i + (length bytes - i) / 64 * 64, absorb ((length bytes - i) / 64) state (drop i bytes))
unfolding transform_from
transform_from-eq-absorb zero i bytes state le lt =
    let none_left : (length bytes - i) / 64 ≡ 0 = omega arith in
    let stay : i + 0 * 64 ≡ i = omega arith in rw (none_left, stay) refl
transform_from-eq-absorb (suc fuel) i bytes state le lt =
    let k = (length bytes - (i + 64)) / 64 in
    let state' = md5_transform state (take 64 (drop i bytes)) in
    elim (Bool-cases (ltb (i + 63) (length bytes))) [
      | inl more ↦
          let left : (length bytes - i) / 64 ≡ suc k = ground arith in
          let behind : i + suc k * 64 ≡ i + 64 + k * 64 = omega arith in
          rw (more, left, behind)
            (transform_from-eq-absorb fuel (i + 64) bytes state' (ground arith) (omega arith)
              ∙ ap (λ (l : List ℕ). (i + 64 + k * 64, absorb k state' l))
                  (sym (drop-drop 64 i bytes)))
      | inr done ↦
          let none_left : (length bytes - i) / 64 ≡ 0 = ground arith in
          let stay : i + 0 * 64 ≡ i = omega arith in rw (done, none_left, stay) refl
    ]
