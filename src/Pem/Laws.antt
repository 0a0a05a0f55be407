-- ===== src/Pem/Laws.antt =====
-- The loop over the certificates of a text ends, and what it returns.
use est_service.Prelude.{
  List, Option-cases, Result, String, [], arith, context, inl, inr, length, none, ok, refl, some,
  suc, zero, ℕ, ◌<◌, ◌>>=◌, ◌∷◌, ◌≡◌,
}
use est_service.X509.{Certificate}
use est_service.Pem.{PemCrypto, certificates_of, chain_of}

-- Documented of pem.Decode: what follows a block is shorter than the text.
abbrev pub Consumes : PemCrypto → Type 0
Consumes pem =
    (bytes block rest : List ℕ)
    → pem.pem_decode bytes ≡ some (block, rest)
    → length rest < length bytes

module _ (pem : PemCrypto) (message : String) where
  -- The blocks of a text, in their order, up to where no block follows.
  pub data Blocks : List ℕ → List (List ℕ) → Type 0 where
    empty : Blocks [] []
    no_more : (bytes : List ℕ) → pem.pem_decode bytes ≡ none → Blocks bytes []
    block :
        {bytes rest : List ℕ} {blocks : List (List ℕ)} (b : List ℕ)
        → 0 < length bytes
        → pem.pem_decode bytes ≡ some (b, rest)
        → Blocks rest blocks
        → Blocks bytes (b ∷ blocks)

  -- Each block is parsed, and the first failure ends it.
  pub parse_all : List (List ℕ) → Result (List Certificate)
  parse_all [] = ok []
  parse_all (b ∷ blocks) = do
    cert ← context message (pem.parse_certificate b)
    certs ← parse_all blocks
    ok (cert ∷ certs)

  certificates_of-Blocks :
      Consumes pem
      → (fuel : ℕ) (bytes : List ℕ) → length bytes < fuel
      → (blocks : List (List ℕ)) × Blocks bytes blocks
        × (certificates_of pem message fuel bytes ≡ parse_all blocks)
  unfolding certificates_of parse_all
  certificates_of-Blocks consumes zero bytes enough = absurd (omega arith)
  certificates_of-Blocks consumes (suc fuel) [] enough = ([], empty, refl)
  certificates_of-Blocks consumes (suc fuel) (byte ∷ bytes) enough =
      elim (Option-cases (pem.pem_decode (byte ∷ bytes))) [
        | inl e ↦ ([], no_more (byte ∷ bytes) e, rw (e, certificates_of) refl)
        | inr ((b, rest), e) ↦
            let (blocks, is, same) =
              certificates_of-Blocks consumes fuel rest
                (omega (arith, consumes (byte ∷ bytes) b rest e)) in
            (b ∷ blocks, block b (omega arith) e is, rw (e, certificates_of, same) refl)
      ]

  -- Where decoding a block consumes text, every text has its blocks, and the loop ends with all of them
  -- parsed, or with the first failure to parse one: its fuel never runs out.
  pub chain_of-Blocks :
      Consumes pem
      → (bytes : List ℕ)
      → (blocks : List (List ℕ)) × Blocks bytes blocks
        × (chain_of pem message bytes ≡ parse_all blocks)
  chain_of-Blocks consumes bytes =
      certificates_of-Blocks consumes (suc (length bytes)) bytes (omega arith)
