-- ===== src/Codec/Parser.antt =====
-- Chains of reads on one reader, as `do` blocks: the reader is passed on by each step.
use q_oracle.Base.{ℕ, List}
use q_oracle.Base.Result.{Result, ok, err, panic}
use q_oracle.Codec.Errors.{CodecError}
use q_oracle.Codec.Reader
use q_oracle.Codec.Reader.{Parser}

module _ {ℓ} {A : Type ℓ} where
  unfoldable pub pure : A → Parser A
  pure a r = ok (a, r)

  -- a step that does not touch the reader
  unfoldable pub lift : Result CodecError A → Parser A
  lift m r = elim m [ ok a ↦ ok (a, r) | err e ↦ err e | panic ↦ panic ]

infixl 5 ◌>>=◌ ◌>>◌
unfoldable pub ◌>>=◌ {ℓ κ} : {A : Type ℓ} {B : Type κ} → Parser A → (A → Parser B) → Parser B
◌>>=◌ p f r = elim (p r) [ ok (a, s) ↦ f a s | err e ↦ err e | panic ↦ panic ]

unfoldable pub ◌>>◌ {ℓ κ} : {A : Type ℓ} {B : Type κ} → Parser A → Parser B → Parser B
unfolding ◌>>=◌
p >> q = p >>= λ _. q

-- `let mut r = Reader::new(input)`, the reads, and the value at the end
unfoldable pub run {ℓ} : {A : Type ℓ} → Parser A → List ℕ → Result CodecError A
run p input = elim (p (Reader.new input)) [ ok (a, s) ↦ ok a | err e ↦ err e | panic ↦ panic ]
