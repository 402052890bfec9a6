-- ===== src/Onchain.antt =====
-- src/onchain/: swaps, reverse swaps, and the recovery of on-chain funds.
pub mod Swap
pub mod Resolving
pub mod ChannelClose
pub mod ReverseSwap
pub mod Quotes
pub mod Guards
pub mod Fees
mod Examples
