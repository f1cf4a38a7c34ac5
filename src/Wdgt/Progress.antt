-- ===== src/Wdgt/Progress.antt =====
-- bge/wdgt/fmt/parser.c: consume_token_inner. What a token takes of the string.
use spacedbazaar.Common.{
  ℕ, suc, ◌+◌, ◌<◌, ◌≤◌, ◌≡◌, Bool, false, [], ◌∷◌, Text, if◌then◌else◌, arith, length, ap,
}
use spacedbazaar.Wdgt.Lexer.{
  Cursor, count_char, token, CharRound, returned, continued, char_round, scan_token,
  consume_token_inner,
}

module _ (is_space : ℕ → Bool) where
  round-progress :
      (singles s tok t rest : Text) (c : ℕ) (quoted hit wq : Bool) (cur cur' : Cursor)
      → char_round is_space singles c s quoted hit tok cur ≡ returned (token t rest wq cur')
      → length rest + (if hit then 0 else 1) ≤ suc (length s)
  round-progress singles [] tok t rest c quoted hit wq cur cur' e = ground (arith, e)
  round-progress singles (d ∷ s) tok t rest c quoted hit wq cur cur' e = ground (arith, e)

  follow :
      (singles s t rest : Text) (hit wq : Bool) (cur cur' : Cursor) (r : CharRound)
      → (r ≡ returned (token t rest wq cur')
          → length rest + (if hit then 0 else 1) ≤ suc (length s))
      → ((quoted' hit' : Bool) (tok' : Text)
          → scan_token is_space singles s quoted' hit' tok' cur ≡ token t rest wq cur'
          → length rest ≤ length s)
      → elim r [
        | returned out ↦ out
        | continued quoted' hit' tok' ↦ scan_token is_space singles s quoted' hit' tok' cur
      ]
        ≡ token t rest wq cur'
      → length rest + (if hit then 0 else 1) ≤ suc (length s)
  follow singles s t rest hit wq cur cur' (returned out) now later e = now (ap returned e)
  follow singles s t rest hit wq cur cur' (continued q h k) now later e =
      ground (arith, later q h k e)

  scan_token-progress :
      (singles p tok t rest : Text) (quoted hit wq : Bool) (cur cur' : Cursor)
      → scan_token is_space singles p quoted hit tok cur ≡ token t rest wq cur'
      → length rest + (if hit then 0 else 1) ≤ length p
  unfolding scan_token
  scan_token-progress singles [] tok t rest quoted hit wq cur cur' e = ground (arith, e)
  scan_token-progress singles (c ∷ s) tok t rest quoted hit wq cur cur' e =
      follow singles s t rest hit wq (count_char c cur) cur'
        (char_round is_space singles c s quoted hit tok (count_char c cur))
        (round-progress singles s tok t rest c quoted hit wq (count_char c cur) cur')
        (λ q h k e'.
          ground (arith, scan_token-progress singles s k t rest q h wq (count_char c cur) cur' e'))
        e

  -- Whatever the flag of quotes, a token takes a character of the string at least.
  pub consume_token_inner-shorter :
      (singles p t rest : Text) (quoted wq : Bool) (cur cur' : Cursor)
      → consume_token_inner is_space singles p quoted cur ≡ token t rest wq cur'
      → length rest < length p
  unfolding consume_token_inner
  consume_token_inner-shorter singles p t rest quoted wq cur cur' e =
      omega (arith, scan_token-progress singles p [] t rest quoted false wq cur cur' e)
