-- ===== src/Support/LspFee.antt =====
-- The fee of the LSP for a payment that is received.
use lipa_lightning_lib.Prelude.{ℕ, ◌+◌, ◌*◌, ◌/◌, ◌≤◌, ◌<◌, ◌≡◌, ◌⊎◌, u64_mod, arith, max}
use lipa_lightning_lib.Sdk.{OpeningFeeParams}
use lipa_lightning_lib.Support.{lsp_fee_msat}

-- Where the products fit a `u64`: no fee is due if the amount can be received without a new
-- channel; otherwise the fee is at least the minimum, at most the greater of the minimum and the
-- proportional part of the amount in msats, and within one sat of that.
lsp_fee_msat-bounds :
    (amount_sat max_receivable : ℕ) (params : OpeningFeeParams)
    → amount_sat * params.proportional * 1000 < u64_mod
    → ((amount_sat ≤ max_receivable) × (lsp_fee_msat amount_sat max_receivable params ≡ 0))
      ⊎ ((max_receivable < amount_sat)
          × (params.min_msat ≤ lsp_fee_msat amount_sat max_receivable params)
          × (lsp_fee_msat amount_sat max_receivable params
              ≤ max params.min_msat (amount_sat * params.proportional / 1000))
          × (amount_sat * params.proportional
              < (lsp_fee_msat amount_sat max_receivable params + 1000) * 1000))
unfolding lsp_fee_msat
lsp_fee_msat-bounds amount_sat max_receivable params h = ground arith

-- The fee does not fall when the amount grows, where the products fit a `u64`.
pub lsp_fee_msat-monotone :
    (a b max_receivable : ℕ) (params : OpeningFeeParams)
    → a ≤ b
    → b * params.proportional * 1000 < u64_mod
    → lsp_fee_msat a max_receivable params ≤ lsp_fee_msat b max_receivable params
unfolding lsp_fee_msat
lsp_fee_msat-monotone a b max_receivable params le h = grind arith
