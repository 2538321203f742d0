-- ===== src/Bt/Receive.antt =====
-- What a PUT leaves in the caller's arrays, and when its loop ends.
pub mod Copy
pub mod Stored
pub mod Size
pub mod Rounds
pub mod Room
pub mod Returns
pub mod Connection
pub mod Waits
pub mod Stable
pub mod Open
pub mod Ranges
pub mod Overruns
pub mod Object
pub mod Channel
