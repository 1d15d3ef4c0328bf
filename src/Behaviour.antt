-- ===== src/Behaviour.antt =====
-- What each call of uthreads.cpp does on its branches.
mod Errors
mod Spawn
mod Switches
mod Others
mod Sleep
mod Terminate
mod Current
mod Read
mod Ids
mod Timer
mod Pending
mod Reuse
pub use Errors.*
pub use Spawn.*
pub use Switches.*
pub use Others.*
pub use Sleep.*
pub use Terminate.*
pub use Current.*
pub use Read.*
pub use Ids.*
pub use Timer.*
pub use Pending.*
pub use Reuse.*
