-- ===== src/Stream.antt =====
-- StreamControl.cpp: one connection's transfer engine. `Receive` is the receiving loop, `Send`
-- the sending loop, and `Statistic` the thread that reports the rate.
pub mod Receive
pub mod Send
pub mod Statistic
mod StatisticTests
