-- ===== src/Tests.antt =====
-- Sample data, and the theorems applied to it.
mod Data
mod Money
mod Queue
mod Messages
mod Poll
mod Boot
mod Till
mod Prices
mod Keys
mod Children
mod Mail
