-- ===== src/Ledger.antt =====
-- The ledger.
pub mod Tables
pub mod Columns
pub mod Currencies
pub mod Costs
pub mod Incomes
pub mod Exchanges
pub mod Opening
pub mod Movement
pub mod Keys
pub mod Commands
pub mod Conservation
pub mod Atomicity
pub mod Races
pub mod References
mod Tests
