-- ===== src/Quantums.antt =====
-- What one quantum after another does to the threads (scheduler.cpp).
mod Tick
mod Rounds
mod Sleep
mod Accounts
mod Order
pub use Tick.*
pub use Rounds.*
pub use Sleep.*
pub use Accounts.*
pub use Order.*
