-- ===== src/Wdgt/Alternating.antt =====
-- bge/wdgt/fmt/parser.c: parse_eval. Values and operators alternate in a block.
use spacedbazaar.Common.{
  ℕ, zero, suc, ◌+◌, ◌≤◌, ◌≡◌, refl, Bool, true, false, not, List, [], ◌∷◌, ◌++◌, Option, none,
  Text, if◌then◌else◌, length, arith, length-append, ap, ◌∙◌, sym, ==_iff,
}
use spacedbazaar.Wdgt.Operators.{
  Operator, add, subtract, multiply, divide, modulus, power, EvalOperator,
}
use spacedbazaar.Wdgt.Reference.{positions, count_from}
use spacedbazaar.Wdgt.Expression.{
  constant, of_double, Spec, Reader, ParseResult, parsed, failed, ParseEnv, Result, Block,
  expected_value, expected_operator, add_anon,
}
use spacedbazaar.Wdgt.Blocks.{
  expects_value, push_value, push_operator, after_negative, set_negative, operator_step, negated,
  value_step, after_operator,
}
use spacedbazaar.Wdgt.Kept.{is_fuel, IsPlain, Keeps, add_anon-Keeps}

-- The operators so far stand at 0, 1 and so on, and there are as many values or one more.
abbrev pub IsAlternating : Block → Type 0
IsAlternating b =
    (positions b.ops ≡ count_from 0 (length b.ops))
    × (length b.ops ≤ length b.values)
    × (length b.values ≤ length b.ops + 1)

abbrev pub Continues {ℓ} : {D : Type ℓ} → ℕ → ParseResult (Block × Reader × Spec D) → Type 0
Continues n (parsed (b, r, s)) = IsAlternating b × (length r.p ≤ n) × IsPlain r s
Continues n (failed e) = is_fuel e ≡ false

positions-append :
    (os : List EvalOperator) (o : EvalOperator)
    → positions (os ++ o ∷ []) ≡ positions os ++ o.pos ∷ []
positions-append [] o = refl
positions-append (p ∷ os) o = ap (◌∷◌ p.pos) (positions-append os o)

count_from-suc : (i n k : ℕ) → k ≡ i + n → count_from i (suc n) ≡ count_from i n ++ k ∷ []
count_from-suc i zero k e = ground (arith, e)
count_from-suc i (suc n) k e = ap (◌∷◌ i) (count_from-suc (suc i) n k (omega (arith, e)))

push_value-IsAlternating :
    (v : Text) (b : Block)
    → length b.values ≡ length b.ops
    → IsAlternating b
    → IsAlternating (push_value v b)
push_value-IsAlternating v b e h = (
  h.0,
  omega (arith, e, length-append b.values (v ∷ [])),
  omega (arith, e, length-append b.values (v ∷ [])),
)

push_operator-IsAlternating :
    (op : Operator) (b : Block)
    → length b.values ≡ length b.ops + 1
    → IsAlternating b
    → IsAlternating (push_operator op b)
push_operator-IsAlternating op b e h =
    let o : EvalOperator = record { op = op; pos = length b.ops } in
    let more = length-append b.ops (o ∷ []) in
    (
      positions-append b.ops o
          ∙ ap (λ ps. ps ++ length b.ops ∷ []) h.0
          ∙ sym (count_from-suc 0 (length b.ops) (length b.ops) (omega arith))
          ∙ ap (count_from 0) {x = suc (length b.ops)} {y = length (b.ops ++ o ∷ [])}
              (omega (arith, more)),
      omega (arith, e, more),
      omega (arith, e, more),
    )

module _ {ℓ} {D : Type ℓ} (env : ParseEnv D) (macros : Option (List (Text × Text))) where
  pub operator_step-Continues :
      (tok : Text) (op : Operator) (b : Block) (r : Reader) (s : Spec D)
      → IsAlternating b
      → IsPlain r s
      → Continues (length r.p) (after_operator env macros r s (operator_step tok op b))
  unfolding operator_step
  operator_step-Continues tok op b r s h all =
      sign (expects_value b) op (λ f. ground (arith, f, h.1, h.2))
    where
      sign :
          (e : Bool) (op' : Operator)
          → (e ≡ false → length b.values ≡ length b.ops + 1)
          → Continues (length r.p) (
              after_operator env macros r s (
                if e
                then (elim op' [
                  | subtract ↦ parsed (set_negative (not b.apply_negative) b)
                  | add ↦ parsed b
                  | _ ↦ failed (expected_value tok)
                ])
                else parsed (push_operator op' b)))
      sign true add f = (h, omega arith, all)
      sign true subtract f = (h, omega arith, all)
      sign true multiply f = refl
      sign true divide f = refl
      sign true modulus f = refl
      sign true power f = refl
      sign false op' f = (push_operator-IsAlternating op' b (f refl) h, omega arith, all)

  after_negative-Continues :
      (n : ℕ) (value : Text) (b : Block) (got : Result D)
      → Keeps n got
      → length b.values ≡ length b.ops
      → IsAlternating b
      → Continues n (after_negative env value b got)
  after_negative-Continues n value b (failed e) k same h = k
  after_negative-Continues n value b (parsed (key, r, s)) k same h =
      let b1 = push_value key (set_negative false b) in
      let b2 = push_operator multiply b1 in
      let h1 = push_value-IsAlternating key (set_negative false b) same h in
      let len1 = length-append b.values (key ∷ []) in
      let o : EvalOperator = record { op = multiply; pos = length b.ops } in
      let len2 = length-append b.ops (o ∷ []) in
      let h2 = push_operator-IsAlternating multiply b1 (omega (arith, same, len1)) h1 in
      (push_value-IsAlternating value b2 (omega (arith, same, len1, len2)) h2, k.0, k.1)

  pub value_step-Continues :
      (tok value : Text) (b : Block) (r : Reader) (s : Spec D)
      → IsAlternating b
      → IsPlain r s
      → Continues (length r.p) (value_step env tok value r s b)
  unfolding value_step
  value_step-Continues tok value b r s h all =
      step (expects_value b) b.apply_negative (λ e. (==_iff (length b.values) (length b.ops)).0 e)
    where
      step :
          (e neg : Bool)
          → (e ≡ true → length b.values ≡ length b.ops)
          → Continues (length r.p) (
              if e
              then (if neg then negated env value r s b else parsed (push_value value b, r, s))
              else failed (expected_operator tok))
      step false neg f = refl
      step true false f = (push_value-IsAlternating value b (f refl) h, omega arith, all)
      step true true f =
          after_negative-Continues (length r.p) value b
            (add_anon env none r s (λ key. constant key (of_double env.minus_one)))
            (add_anon-Keeps env none r s (λ key. constant key (of_double env.minus_one)) all
              (λ key. tt))
            (f refl) h
