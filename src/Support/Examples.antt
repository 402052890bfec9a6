-- ===== src/Support/Examples.antt =====
-- The theorems on the fee of the LSP at concrete amounts.
use lipa_lightning_lib.Sdk.{OpeningFeeParams}

abbrev params : OpeningFeeParams
params = record { min_msat = 2000000; proportional = 4000 }
