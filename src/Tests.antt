-- ===== src/Tests.antt =====
-- The theorems at concrete inputs, and runs of the models.
mod Engine
mod TicTacToe
mod Generator
mod Guardian
mod Lottery
mod Router
mod Script
mod Merchant
mod Listener
mod Room
mod Auth
mod Board
mod MerchantRouter
mod Config
mod Watcher
mod UtxoCache
mod Customer
